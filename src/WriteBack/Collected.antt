-- ===== src/WriteBack/Collected.antt =====
-- What a round of the write-back thread takes out of the memory cache.
use c_faas_emulator.Common.{
  ℕ, zero, suc, ◌≤◌, Bool, false, List, [], ◌∷◌, ◌++◌, ◌≡◌, refl, ap, ◌⊎◌, inl, inr, Bool-cases,
  length, if◌then◌else◌, arith,
}
use c_faas_emulator.Common.Int.{ℤ, pos, ◌+ℤ◌, int_laws, parts_of_eq}
use c_faas_emulator.Common.Floats.{Floats}
use c_faas_emulator.Common.Sums.{sum_by}
use c_faas_emulator.Types.{Invocation}
use c_faas_emulator.Ram.{Ram, total_memory}
use c_faas_emulator.WriteBack.{over_threshold, discharge, collect}

-- What the thread owes to the free memory for the functions that it has in its buffer.
abbrev pub owed : Bool → List Invocation → ℤ
owed containers xs = if containers then pos 0 else total_memory xs

module _ (fl : Floats) (max_memory : ℤ) (threshold : fl.Float) (containers : Bool) where
  -- `batch` is a prefix of `xs` no longer than `room`, and `after` is the cache without it.
  pub record Collects (room : ℕ) (xs : List Invocation) (r : Ram) (batch : List Invocation)
      (after : Ram) : Type 0 where
    pub whole : xs ≡ batch ++ after.head
    pub few : length batch ≤ room
    pub occupied : after.cache_occupied +ℤ total_memory batch ≡ r.cache_occupied
    pub balance : after.memory +ℤ owed containers batch ≡ r.memory +ℤ total_memory batch
    pub stops :
        (over_threshold fl max_memory threshold after ≡ false)
        ⊎ ((length batch ≡ room) ⊎ (after.head ≡ []))

  Collects-none :
      (room : ℕ) (xs : List Invocation) (r : Ram)
      → (over_threshold fl max_memory threshold r ≡ false) ⊎ ((0 ≡ room) ⊎ (xs ≡ []))
      → Collects room xs r [] (record r { head = xs })
  unfolding sum_by over_threshold
  Collects-none room xs r why = record {
    whole = refl;
    few = omega arith;
    occupied = omega int_laws;
    balance = elim (Bool-cases containers) [
      | inl c ↦ rw c (omega int_laws)
      | inr c ↦ rw c (omega int_laws)
    ];
    stops = why;
  }

  stops-cons :
      (n room : ℕ) {enough : Bool} {left : List Invocation}
      → (enough ≡ false) ⊎ ((n ≡ room) ⊎ (left ≡ []))
      → (enough ≡ false) ⊎ ((suc n ≡ suc room) ⊎ (left ≡ []))
  stops-cons n room (inl e) = inl e
  stops-cons n room (inr (inl e)) = inr (inl (ap suc e))
  stops-cons n room (inr (inr e)) = inr (inr e)

  balance-cons :
      (memory memory' size : ℤ) (batch : List Invocation)
      → memory' +ℤ owed containers batch
        ≡ (if containers then memory +ℤ size else memory) +ℤ total_memory batch
      → memory' +ℤ (if containers then pos 0 else size +ℤ total_memory batch)
        ≡ memory +ℤ (size +ℤ total_memory batch)
  balance-cons memory memory' size batch h = elim (Bool-cases containers) [
    | inl c ↦ let h' = rw c at h in rw c (omega (int_laws, parts_of_eq h'))
    | inr c ↦ let h' = rw c at h in rw c (omega (int_laws, parts_of_eq h'))
  ]

  Collects-cons :
      (room : ℕ) (i : Invocation) (is : List Invocation) (r : Ram) (batch : List Invocation)
      (after : Ram)
      → Collects room is (discharge fl max_memory threshold containers i r) batch after
      → Collects (suc room) (i ∷ is) r (i ∷ batch) after
  unfolding sum_by
  Collects-cons room i is r batch after c = record {
    whole = ap (◌∷◌ i) c.whole;
    few = omega (arith, c.few);
    occupied = omega (int_laws, parts_of_eq c.occupied);
    balance = balance-cons r.memory after.memory i.memory batch c.balance;
    stops = stops-cons (length batch) room c.stops;
  }

  -- A round of the write-back thread takes the oldest functions off the memory cache, at most as
  -- many as its buffer has room for. It goes on until the cache is under the threshold, the buffer
  -- is full or the cache is empty. `cache_occupied` goes down by the memory of the functions taken,
  -- which is free at once with containers, and is still owed to the free memory without.
  pub collect-Collects :
      (room : ℕ) (xs : List Invocation) (r : Ram)
      → Collects room xs r
          (collect fl max_memory threshold containers room xs r).0
          (collect fl max_memory threshold containers room xs r).1
  unfolding collect
  collect-Collects room [] r = Collects-none room [] r (inr (inr refl))
  collect-Collects zero (i ∷ is) r = Collects-none 0 (i ∷ is) r (inr (inl refl))
  collect-Collects (suc room) (i ∷ is) r =
      elim (Bool-cases (over_threshold fl max_memory threshold r)) [
        | inl full ↦ rw full (Collects-cons room i is r _ _ (collect-Collects room is _))
        | inr low ↦ rw low (Collects-none (suc room) (i ∷ is) r (inl low))
      ]
