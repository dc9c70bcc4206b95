-- ===== src/Invocation/Tid/Stable.antt =====
-- The slot of a thread is its own and stays the same.
use c_faas_emulator.Common.{
  ℕ, zero, suc, ◌+◌, ◌<◌, none, some, List, [], ◌∷◌, ◌==◌, set, ◌≡◌, ◌≢◌, refl, ap, sym, subst, ◌∙◌,
  get_elem?, length, length-set, get_elem?-set, arith, ◌⊎◌, inl, inr, false, Bool-cases,
}
use native.Mathlib.Decide.{dec_lt}
use c_faas_emulator.Common.Int.{ℤ, pos, negsuc}
use c_faas_emulator.Invocation.Tid.{slot_of, get_tid}

-- Slot `i`, the first with `x` in it.
pub record FirstSlot (x : ℕ) (ts : List ℕ) (i : ℕ) : Type 0 where
  pub inside : i < length ts
  pub here : get_elem? ts i ≡ some x
  pub earlier : (j : ℕ) → j < i → get_elem? ts j ≢ some x

abbrev pub Absent : ℕ → List ℕ → Type 0
Absent x ts = (j : ℕ) → get_elem? ts j ≢ some x

slot_of-cases :
    (x k : ℕ) (ts : List ℕ)
    → ((slot_of x k ts ≡ none) × Absent x ts)
      ⊎ ((i : ℕ) × (slot_of x k ts ≡ some (k + i)) × FirstSlot x ts i)
unfolding slot_of
slot_of-cases x k [] = inl (refl, λ j. cc)
slot_of-cases x k (t ∷ ts) = elim (Bool-cases (t == x)) [
  | inl hit ↦ inr (
    0,
    ground (arith, hit),
    record {
      inside = omega arith;
      here = ground (arith, hit);
      earlier = λ j h. absurd (omega arith);
    },
  )
  | inr miss ↦ elim (slot_of-cases x (k + 1) ts) [
    | inl (e, absent) ↦ inl (rw (miss, e) refl, absent_cons t absent miss)
    | inr (i, e, f) ↦ inr (
      suc i,
      ground (arith, miss, e),
      record { inside = omega (arith, f.inside); here = f.here; earlier = earlier_cons t i f miss },
    )
  ]
]
  where
    absent_cons : (u : ℕ) → Absent x ts → (u == x) ≡ false → Absent x (u ∷ ts)
    absent_cons u absent miss zero = ground arith
    absent_cons u absent miss (suc j) = absent j

    earlier_cons :
        (u i : ℕ)
        → FirstSlot x ts i
        → (u == x) ≡ false
        → (j : ℕ) → j < suc i
        → get_elem? (u ∷ ts) j ≢ some x
    earlier_cons u i f miss zero h = ground arith
    earlier_cons u i f miss (suc j) h = f.earlier j (omega arith)

FirstSlot-unique : (x : ℕ) (ts : List ℕ) (i j : ℕ) → FirstSlot x ts i → FirstSlot x ts j → i ≡ j
FirstSlot-unique x ts i j f g = elim (dec_lt i j) [
  | yes lt ↦ absurd (g.earlier i lt f.here)
  | no ge ↦ elim (dec_lt j i) [ yes lt ↦ absurd (f.earlier j lt g.here) | no le ↦ omega arith ]
]

-- What `getTid` returns: the slot that the thread has, or else the first free slot, which becomes
-- the thread's, or else -1 from a table with no free slot. Nothing else of the table changes.
pub get_tid-cases :
    (x : ℕ) (ts : List ℕ)
    → ((i : ℕ) × FirstSlot x ts i × (get_tid x ts ≡ (pos i, ts)))
      ⊎ (((i : ℕ) × Absent x ts × FirstSlot 0 ts i × (get_tid x ts ≡ (pos i, set ts i x)))
          ⊎ (Absent x ts × Absent 0 ts × (get_tid x ts ≡ (negsuc 0, ts))))
unfolding get_tid
get_tid-cases x ts = elim (slot_of-cases x 0 ts) [
  | inr (i, e, f) ↦ inl (i, f, ground (arith, e))
  | inl (e, a) ↦ elim (slot_of-cases 0 0 ts) [
    | inr (i, e', f) ↦ inr (inl (i, a, f, ground (arith, e, e')))
    | inl (e', a') ↦ inr (inr (a, a', ground (arith, e, e')))
  ]
]

-- The table after calls by the threads `ys`, in order.
unfoldable pub after_calls : List ℕ → List ℕ → List ℕ
after_calls [] ts = ts
after_calls (y ∷ ys) ts = after_calls ys (get_tid y ts).1

get_tid-keeps :
    (x y : ℕ) (ts : List ℕ) (i : ℕ) → x ≢ 0 → FirstSlot x ts i → FirstSlot x (get_tid y ts).1 i
get_tid-keeps x y ts i pid f = elim (get_tid-cases y ts) [
  | inl (j, g, e) ↦ rw e f
  | inr (inl (j, absent, free, e)) ↦ rw e (taken j absent free)
  | inr (inr (absent, full, e)) ↦ rw e f
]
  where
    taken : (j : ℕ) → Absent y ts → FirstSlot 0 ts j → FirstSlot x (set ts j y) i
    taken j absent free = record {
      inside = rw (length-set ts j y) f.inside;
      here = ground (arith, get_elem?-set ts j i y free.inside, free.here, f.here);
      earlier = λ k h e.
          f.earlier k h
            (ground (arith, get_elem?-set ts j k y free.inside, absent i, f.here, free.here, e));
    }

after_calls-keeps :
    (x : ℕ) (ys ts : List ℕ) (i : ℕ) → x ≢ 0 → FirstSlot x ts i → FirstSlot x (after_calls ys ts) i
unfolding after_calls
after_calls-keeps x [] ts i pid f = f
after_calls-keeps x (y ∷ ys) ts i pid f =
    after_calls-keeps x ys (get_tid y ts).1 i pid (get_tid-keeps x y ts i pid f)

get_tid_of-FirstSlot : (x : ℕ) (ts : List ℕ) (i : ℕ) → FirstSlot x ts i → get_tid x ts ≡ (pos i, ts)
get_tid_of-FirstSlot x ts i f = elim (get_tid-cases x ts) [
  | inl (j, g, e) ↦ rw (FirstSlot-unique x ts i j f g) e
  | inr (inl (j, absent, free, e)) ↦ absurd (absent i f.here)
  | inr (inr (absent, full, e)) ↦ absurd (absent i f.here)
]

get_tid-FirstSlot :
    (x : ℕ) (ts : List ℕ) (i : ℕ) (ts' : List ℕ)
    → x ≢ 0
    → get_tid x ts ≡ (pos i, ts')
    → FirstSlot x ts' i
get_tid-FirstSlot x ts i ts' pid h = elim (get_tid-cases x ts) [
  | inl (j, g, e) ↦ same j ts g (sym e ∙ h)
  | inr (inl (j, absent, free, e)) ↦ same j (set ts j x) (placed j absent free) (sym e ∙ h)
  | inr (inr (absent, full, e)) ↦ cc
]
  where
    same :
        (j : ℕ) (us : List ℕ)
        → FirstSlot x us j
        → ◌≡◌ {A = ℤ × List ℕ} (pos j, us) (pos i, ts')
        → FirstSlot x ts' i
    same j us g p =
        let slot : j ≡ i = cc (ap (λ (t : ℤ × List ℕ). t.0) p) in
        subst (λ t. FirstSlot x t i) (ap (λ (t : ℤ × List ℕ). t.1) p)
          (subst (FirstSlot x us) slot g)

    placed : (j : ℕ) → Absent x ts → FirstSlot 0 ts j → FirstSlot x (set ts j x) j
    placed j absent free = record {
      inside = rw (length-set ts j x) free.inside;
      here = ground (arith, get_elem?-set ts j j x free.inside);
      earlier = λ k lt e. absent k (ground (arith, get_elem?-set ts j k x free.inside, e));
    }

-- A thread with an id other than 0 that was given a slot is given the same one by a later call,
-- whichever threads call in between, and its id still stands there.
pub get_tid-stable :
    (x : ℕ) (ts : List ℕ) (i : ℕ) (ts' ys : List ℕ)
    → x ≢ 0
    → get_tid x ts ≡ (pos i, ts')
    → (get_tid x (after_calls ys ts') ≡ (pos i, after_calls ys ts'))
      × (get_elem? (after_calls ys ts') i ≡ some x)
get_tid-stable x ts i ts' ys pid h =
    let f = after_calls-keeps x ys ts' i pid (get_tid-FirstSlot x ts i ts' pid h) in
    (get_tid_of-FirstSlot x _ i f, f.here)
