-- ===== src/Nodes/Loops.antt =====
-- Where the loops over `next` end, and what an assignment to the last `next` of a chain does.
use c_faas_emulator.Common.{
  ℕ, zero, suc, ◌<◌, Bool, true, false, some, [], ◌∷◌, ◌++◌, ◌≡◌, refl, ap, ◌==◌, All, arith,
  length, ◌⊎◌, inl, inr, Bool-cases,
}
use c_faas_emulator.Common.Outcome.{ok}
use c_faas_emulator.Nodes.{Ptr, Memory, cell, put, last_loop, scan_loop}
use c_faas_emulator.Nodes.Chain.{
  Cells, values, first_of, Chain, load-At, At-put, At-here, Absent-suffix,
}

module _ {ℓ} {A : Type ℓ} where
  -- The address of the last node, or `p` if there is none.
  abbrev pub last_of : Ptr → Cells A → Ptr
  last_of p [] = p
  last_of p ((q, a) ∷ xs) = last_of q xs

  -- The first node is not at NULL.
  pub first_of-ne :
      (h : Memory A) (stop l : Ptr) (b : A) (xs : Cells A)
      → Chain h stop (xs ++ (l, b) ∷ [])
      → (first_of stop (xs ++ (l, b) ∷ []) == 0) ≡ false
  first_of-ne h stop l b [] c = c.0.ne
  first_of-ne h stop l b ((q, a) ∷ xs) c = c.0.ne

  -- The loop to the last node finds it.
  pub last_loop_lem :
      (fuel : ℕ) (h : Memory A) (xs : Cells A) (l : Ptr) (b : A)
      → length xs < fuel
      → Chain h 0 (xs ++ (l, b) ∷ [])
      → last_loop fuel (first_of 0 (xs ++ (l, b) ∷ [])) h ≡ ok l
  unfolding last_loop
  last_loop_lem zero h xs l b lt c = absurd (omega arith)
  last_loop_lem (suc fuel) h [] l b lt c = rw (load-At h l b 0 c.0) refl
  last_loop_lem (suc fuel) h ((q, a) ∷ xs) l b lt c =
      rw (load-At h q a (first_of 0 (xs ++ (l, b) ∷ [])) c.0, first_of-ne h 0 l b xs c.2)
        (last_loop_lem fuel h xs l b (omega arith) c.2)

  first_of-snoc :
      (stop n l : Ptr) (b : A) (xs : Cells A)
      → first_of stop (xs ++ (l, b) ∷ []) ≡ first_of n (xs ++ (l, b) ∷ [])
  first_of-snoc stop n l b [] = refl
  first_of-snoc stop n l b ((q, a) ∷ xs) = refl

  -- After an assignment to the last `next`, the chain leads to where that points.
  pub Chain-set_last :
      (h : Memory A) (stop n l : Ptr) (b : A) (xs : Cells A)
      → Chain h stop (xs ++ (l, b) ∷ [])
      → Chain (put h l (some (cell b n))) n (xs ++ (l, b) ∷ [])
  Chain-set_last h stop n l b [] c = (At-here h l b n c.0.ne, tt, tt)
  Chain-set_last h stop n l b ((q, a) ∷ xs) c = (
    At-put h l q a _ _ (Absent-suffix q xs ((l, b) ∷ []) c.1).0
        (rw (first_of-snoc stop n l b xs) at c.0),
    c.1,
    Chain-set_last h stop n l b xs c.2,
  )

  module _ (test : A → Bool) where
    abbrev pub Misses : Cells A → Type 0
    Misses = All λ c. test c.1 ≡ false

    -- The search ends at NULL if no node passes the test.
    pub scan_loop-miss :
        (fuel : ℕ) (h : Memory A) (prev : Ptr) (xs : Cells A)
        → length xs < fuel
        → Chain h 0 xs
        → Misses xs
        → scan_loop test fuel prev (first_of 0 xs) h ≡ ok (last_of prev xs, 0)
    unfolding scan_loop
    scan_loop-miss zero h prev xs lt c m = absurd (omega arith)
    scan_loop-miss (suc fuel) h prev [] lt c m = refl
    scan_loop-miss (suc fuel) h prev ((q, a) ∷ xs) lt c m =
        rw (load-At h q a (first_of 0 xs) c.0, c.0.ne, m.0)
          (scan_loop-miss fuel h q xs (omega arith) c.2 m.1)

    -- Otherwise it ends at the first that does.
    pub scan_loop-hit :
        (fuel : ℕ) (h : Memory A) (prev : Ptr) (xs : Cells A) (q : Ptr) (a : A) (ys : Cells A)
        → length xs < fuel
        → Chain h 0 (xs ++ (q, a) ∷ ys)
        → Misses xs
        → test a ≡ true
        → scan_loop test fuel prev (first_of 0 (xs ++ (q, a) ∷ ys)) h ≡ ok (last_of prev xs, q)
    unfolding scan_loop
    scan_loop-hit zero h prev xs q a ys lt c m t = absurd (omega arith)
    scan_loop-hit (suc fuel) h prev [] q a ys lt c m t =
        rw (load-At h q a (first_of 0 ys) c.0, c.0.ne, t) refl
    scan_loop-hit (suc fuel) h prev ((p, b) ∷ xs) q a ys lt c m t =
        rw (load-At h p b (first_of 0 (xs ++ (q, a) ∷ ys)) c.0, c.0.ne, m.0)
          (scan_loop-hit fuel h p xs q a ys (omega arith) c.2 m.1 t)

    -- A list with and without a node that passes the test.
    pub record Found (xs : Cells A) : Type ℓ where
      pub before : Cells A
      pub ptr : Ptr
      pub value : A
      pub after : Cells A
      pub whole : xs ≡ before ++ (ptr, value) ∷ after
      pub misses : Misses before
      pub hit : test value ≡ true

    pub Found-cases : (xs : Cells A) → Misses xs ⊎ Found xs
    Found-cases [] = inl tt
    Found-cases ((q, a) ∷ xs) = elim (Bool-cases (test a)) [
      | inl t ↦ inr (record {
        before = [];
        ptr = q;
        value = a;
        after = xs;
        whole = refl;
        misses = tt;
        hit = t;
      })
      | inr t ↦ elim (Found-cases xs) [
        | inl m ↦ inl (t, m)
        | inr f ↦ inr (record {
          before = (q, a) ∷ f.before;
          ptr = f.ptr;
          value = f.value;
          after = f.after;
          whole = ap (◌∷◌ (q, a)) f.whole;
          misses = (t, f.misses);
          hit = f.hit;
        })
      ]
    ]

  -- A list is empty or has a last node.
  pub snoc-cases :
      (xs : Cells A) → (xs ≡ []) ⊎ ((ys : Cells A) × (l : Ptr) × (b : A) × (xs ≡ ys ++ (l, b) ∷ []))
  snoc-cases [] = inl refl
  snoc-cases ((q, a) ∷ xs) = elim (snoc-cases xs) [
    | inl e ↦ inr ([], q, a, ap (◌∷◌ (q, a)) e)
    | inr (ys, l, b, e) ↦ inr ((q, a) ∷ ys, l, b, ap (◌∷◌ (q, a)) e)
  ]

  pub last_of-snoc : (p l : Ptr) (b : A) (xs : Cells A) → last_of p (xs ++ (l, b) ∷ []) ≡ l
  last_of-snoc p l b [] = refl
  last_of-snoc p l b ((q, a) ∷ xs) = last_of-snoc q l b xs

  pub values-append : (xs ys : Cells A) → values (xs ++ ys) ≡ values xs ++ values ys
  values-append [] ys = refl
  values-append ((q, a) ∷ xs) ys = ap (◌∷◌ a) (values-append xs ys)
