-- ===== src/Ram/Free.antt =====
-- What `freeRam` takes off the cache, in its two versions.
use c_faas_emulator.Common.{
  Bool, true, false, List, [], ◌∷◌, ◌++◌, ◌≡◌, refl, sym, ap, ◌∙◌, append-nil, ◌⊎◌, inl, inr, arith,
  Bool-cases, not,
}
use c_faas_emulator.Common.Int.{
  ℤ, pos, ◌+ℤ◌, ◌-ℤ◌, ◌<ℤ◌, ◌≤ℤ◌, ltb_ℤ, ltb_ℤ→lt, ltb_ℤ→le, int_laws, +ℤ_assoc, zero-+ℤ,
}
use c_faas_emulator.Common.Sums.{sum_by}
use c_faas_emulator.Types.{Invocation}
use c_faas_emulator.Ram.{
  Ram, Detached, detach, free_ram_detach, free_ram_settle, free_loop, free_ram_plain, total_memory,
}

-- Each entry of the list was still wanted when its turn came: less than `needed` was freed before.
abbrev pub Wanted : ℤ → ℤ → List Invocation → Type 0
Wanted needed freed [] = Unit
Wanted needed freed (i ∷ is) = (freed <ℤ needed) × Wanted needed (freed +ℤ i.memory) is

-- `d` splits `xs` into a removed prefix, no longer than wanted, and the rest.
pub record Frees (needed before : ℤ) (xs : List Invocation) (d : Detached) : Type 0 where
  pub whole : xs ≡ d.removed ++ d.rest
  pub freed : d.freed ≡ before +ℤ total_memory d.removed
  pub wanted : Wanted needed before d.removed
  pub stops : (d.rest ≡ []) ⊎ (needed ≤ℤ d.freed)

detach-Frees :
    (needed before : ℤ) (xs : List Invocation) → Frees needed before xs (detach needed before xs)
unfolding detach sum_by
detach-Frees needed before [] = record {
  whole = refl;
  freed = omega int_laws;
  wanted = tt;
  stops = inl refl;
}
detach-Frees needed before (i ∷ is) = elim (Bool-cases (ltb_ℤ before needed)) [
  | inl more ↦
      let f = detach-Frees needed (before +ℤ i.memory) is in
      rw more (record {
        whole = ap (◌∷◌ i) f.whole;
        freed = f.freed ∙ +ℤ_assoc before i.memory (total_memory _);
        wanted = (ltb_ℤ→lt before needed more, f.wanted);
        stops = f.stops;
      })
  | inr enough ↦ rw enough (record {
    whole = refl;
    freed = omega int_laws;
    wanted = tt;
    stops = inr (ltb_ℤ→le before needed enough);
  })
]

-- `freeRam` takes a prefix of the cache, in the order of insertion. It stops at the first node at
-- which what it has freed reaches the request, or with an empty cache, and `freed` is the memory of
-- the nodes taken. The memory counters are untouched while the lock is given up.
pub free_ram_detach-Frees :
    (needed : ℤ) (r : Ram)
    → Frees needed (pos 0) r.head (free_ram_detach needed r).0
      × ((free_ram_detach needed r).1 ≡ record r { head = (free_ram_detach needed r).0.rest })
unfolding free_ram_detach
free_ram_detach-Frees needed r = (detach-Frees needed (pos 0) r.head, refl)

abbrev settled : Ram → List Invocation → ℤ → Ram
settled r rest amount = record {
  head = rest;
  memory = r.memory +ℤ amount;
  cache_occupied = r.cache_occupied -ℤ amount;
}

settled_same :
    (r : Ram) (xs : List Invocation) (freed : ℤ)
    → record r { head = xs } ≡ settled r xs (freed -ℤ freed)
settled_same r xs freed =
    let m : r.memory ≡ r.memory +ℤ (freed -ℤ freed) = omega int_laws in
    let c : r.cache_occupied ≡ r.cache_occupied -ℤ (freed -ℤ freed) = omega int_laws in
    λ j. record { head = xs; memory = m j; cache_occupied = c j }

settled_more :
    (r : Ram) (xs : List Invocation) (freed size total : ℤ)
    → settled
        (record r { memory = r.memory +ℤ size; cache_occupied = r.cache_occupied -ℤ size })
        xs
        (total -ℤ (freed +ℤ size))
      ≡ settled r xs (total -ℤ freed)
settled_more r xs freed size total =
    let m : r.memory +ℤ size +ℤ (total -ℤ (freed +ℤ size)) ≡ r.memory +ℤ (total -ℤ freed) =
      omega int_laws in
    let c : r.cache_occupied -ℤ size -ℤ (total -ℤ (freed +ℤ size))
        ≡ r.cache_occupied -ℤ (total -ℤ freed) =
      omega int_laws in
    λ j. record { head = xs; memory = m j; cache_occupied = c j }

settled_zero :
    (r : Ram) (xs : List Invocation) (total : ℤ)
    → settled r xs (total -ℤ pos 0) ≡ settled r xs total
settled_zero r xs total = let e : total -ℤ pos 0 ≡ total = omega int_laws in ap (settled r xs) e

free_loop-detach :
    (needed freed : ℤ) (xs : List Invocation) (r : Ram)
    → free_loop needed freed xs r ≡ (
      (detach needed freed xs).freed,
      record {
        head = (detach needed freed xs).rest;
        memory = r.memory +ℤ ((detach needed freed xs).freed -ℤ freed);
        cache_occupied = r.cache_occupied -ℤ ((detach needed freed xs).freed -ℤ freed);
      },
    )
unfolding free_loop detach
free_loop-detach needed freed [] r = λ j. (freed, settled_same r [] freed j)
free_loop-detach needed freed (i ∷ is) r = elim (Bool-cases (ltb_ℤ freed needed)) [
  | inl more ↦
      let d : Detached = detach needed (freed +ℤ i.memory) is in
      rw more (
        free_loop-detach needed (freed +ℤ i.memory) is _ ∙ λ j.
        (d.freed, settled_more r d.rest freed i.memory d.freed j))
  | inr enough ↦ rw enough (λ j. (freed, settled_same r (i ∷ is) freed j))
]

-- Freeing the nodes one by one, as `freeRam` does without containers, comes to the same cache, the
-- same counters and the same answer as taking them all off and settling the counters afterwards.
pub free_ram_plain-settle :
    (needed : ℤ) (r : Ram)
    → free_ram_plain needed r
      ≡ free_ram_settle needed (free_ram_detach needed r).0.freed (free_ram_detach needed r).1
unfolding free_ram_plain free_ram_settle free_ram_detach
free_ram_plain-settle needed r =
    let d : Detached = detach needed (pos 0) r.head in
    ap (λ (t : ℤ × Ram). (not (ltb_ℤ t.0 needed), t.1)) (free_loop-detach needed (pos 0) r.head r)
    ∙ ap (λ (s : Ram). (not (ltb_ℤ d.freed needed), s)) (settled_zero r d.rest d.freed)

-- With nothing left over, all of the cache was freed.
Frees-total :
    (needed : ℤ) (xs : List Invocation) {d : Detached}
    → Frees needed (pos 0) xs d
    → d.rest ≡ []
    → d.freed ≡ total_memory xs
Frees-total needed xs {d} f e =
    let all : xs ≡ d.removed = f.whole ∙ ap (◌++◌ d.removed) e ∙ append-nil d.removed in
    f.freed ∙ zero-+ℤ (total_memory d.removed) ∙ ap total_memory (sym all)

-- `r` is the cache when `freeRam` takes nodes off, and `s` what other threads have made of it when
-- `freeRam` settles the counters. Settling leaves the list as it is. A positive answer means that the
-- free memory has grown by at least `needed` over that of `s`. A negative one means that the cache
-- was empty when the nodes had been taken off, that all of `r` was smaller than `needed`, and
-- that the free memory has grown by all of it.
pub free_ram_settle-answer :
    (needed : ℤ) (r s : Ram)
    → let detached : Detached × Ram = free_ram_detach needed r in
      let after : Bool × Ram = free_ram_settle needed detached.0.freed s in
      (after.1.head ≡ s.head)
      × (((after.0 ≡ true) × (s.memory +ℤ needed ≤ℤ after.1.memory))
          ⊎ ((after.0 ≡ false)
              × (detached.1.head ≡ [])
              × (total_memory r.head <ℤ needed)
              × (after.1.memory ≡ s.memory +ℤ total_memory r.head)))
unfolding free_ram_settle free_ram_detach
free_ram_settle-answer needed r s = elim (Bool-cases (ltb_ℤ d.freed needed)) [
  | inl less ↦
      let e : d.rest ≡ [] = emptied less f.stops in
      let all = Frees-total needed r.head f e in
      (
        refl,
        inr (
          ground (arith, less),
          e,
          rw all at (ltb_ℤ→lt d.freed needed less),
          ap (λ (t : ℤ). s.memory +ℤ t) all,
        ),
      )
  | inr enough ↦
      (refl, inl (ground (arith, enough), omega (int_laws, ltb_ℤ→le d.freed needed enough)))
]
  where
    d : Detached
    d = detach needed (pos 0) r.head

    f : Frees needed (pos 0) r.head d
    f = detach-Frees needed (pos 0) r.head

    emptied : ltb_ℤ d.freed needed ≡ true → (d.rest ≡ []) ⊎ (needed ≤ℤ d.freed) → d.rest ≡ []
    emptied less (inl e) = e
    emptied less (inr h) = absurd (omega (arith, ltb_ℤ→lt d.freed needed less))
