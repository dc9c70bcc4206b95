-- ===== src/Nodes/Append.antt =====
-- A node appended to a chain.
use c_faas_emulator.Common.{
  ℕ, ◌<◌, false, some, [], ◌∷◌, ◌++◌, ◌≡◌, refl, ap, subst, sym, ◌==◌, inl, inr, arith, length,
  length-append,
}
use c_faas_emulator.Common.Outcome.{ok}
use c_faas_emulator.Nodes.{Ptr, Memory, cell, put, append_node}
use c_faas_emulator.Nodes.Chain.{
  Cells, first_of, Absent, Apart, Chain, Chain-join, Chain-put, At-here, At-put, set_next-At,
  Absent-suffix,
}
use c_faas_emulator.Nodes.Loops.{last_loop_lem, Chain-set_last, snoc-cases, first_of-ne}
use c_faas_emulator.Nodes.Relink.{At-last, Apart-snoc}

module _ {ℓ} {A : Type ℓ} where
  pub Apart-nil : (xs : Cells A) → Apart xs []
  Apart-nil [] = tt
  Apart-nil ((q, a) ∷ xs) = (tt, Apart-nil xs)

  pub first_of-snoc_more :
      (xs : Cells A) (l : Ptr) (b : A) (ys : Cells A)
      → first_of 0 (xs ++ (l, b) ∷ []) ≡ first_of 0 ((xs ++ (l, b) ∷ []) ++ ys)
  first_of-snoc_more [] l b ys = refl
  first_of-snoc_more ((q, a) ∷ xs) l b ys = refl

  abbrev Appends : Ptr → A → Cells A → Cells A → Ptr → Memory A → ℕ → Type ℓ
  Appends fresh a xs ys head h fuel =
      (h' : Memory A) × (append_node fuel fresh a head h ≡ ok (first_of 0 ys, h')) × Chain h' 0 ys

  append-snoc :
      (fuel : ℕ) (fresh : Ptr) (a : A) (h : Memory A) (xs : Cells A) (l : Ptr) (b : A)
      → length (xs ++ (l, b) ∷ []) < fuel
      → (fresh == 0) ≡ false
      → Absent fresh (xs ++ (l, b) ∷ [])
      → Chain h 0 (xs ++ (l, b) ∷ [])
      → Appends fresh a
          (xs ++ (l, b) ∷ [])
          ((xs ++ (l, b) ∷ []) ++ (fresh, a) ∷ [])
          (first_of 0 (xs ++ (l, b) ∷ []))
          h
          fuel
  unfolding append_node
  append-snoc fuel fresh a h xs l b lt ne absent c =
      let front : Cells A = xs ++ (l, b) ∷ [] in
      let h' : Memory A = put h fresh (some (cell a 0)) in
      let c' = Chain-put h fresh 0 front (some (cell a 0)) absent c in
      let at = At-last h' 0 l b xs c' in
      (
        put h' l (some (cell b fresh)),
        rw
            (
              first_of-ne h 0 l b xs c,
              last_loop_lem fuel h' xs l b (omega (arith, lt, length-append xs ((l, b) ∷ []))) c',
              set_next-At h' l b 0 fresh at,
            )
            (ap (λ p. ok (p, put h' l (some (cell b fresh))))
              (first_of-snoc_more xs l b ((fresh, a) ∷ []))),
        Chain-join (put h' l (some (cell b fresh))) 0 front ((fresh, a) ∷ []) (record {
          front = Chain-set_last h' 0 fresh l b xs c';
          back = (
            At-put h' l fresh a 0 _ (Absent-suffix fresh xs ((l, b) ∷ []) absent).0
                (At-here h fresh a 0 ne),
            tt,
            tt,
          );
          apart = Apart-snoc front [] fresh a (Apart-nil front) absent;
        }),
      )

  -- A new node goes behind all nodes of a chain.
  pub append_node-Chain :
      (fuel : ℕ) (fresh : Ptr) (a : A) (h : Memory A) (xs : Cells A)
      → length xs < fuel
      → (fresh == 0) ≡ false
      → Absent fresh xs
      → Chain h 0 xs
      → (h' : Memory A) × (append_node fuel fresh a (first_of 0 xs) h
          ≡ ok (first_of 0 (xs ++ (fresh, a) ∷ []), h'))
        × Chain h' 0 (xs ++ (fresh, a) ∷ [])
  unfolding append_node
  append_node-Chain fuel fresh a h xs lt ne absent c = elim (snoc-cases xs) [
    | inl e ↦
        subst Goal (sym e) (λ lt' d c'. (_, refl, (At-here h fresh a 0 ne, tt, tt))) lt absent c
    | inr (ys, l, b, e) ↦
        subst Goal (sym e) (λ lt' d c'. append-snoc fuel fresh a h ys l b lt' ne d c') lt absent c
  ]
    where
      Goal : Cells A → Type ℓ
      Goal zs =
          length zs < fuel
          → Absent fresh zs
          → Chain h 0 zs
          → Appends fresh a zs (zs ++ (fresh, a) ∷ []) (first_of 0 zs) h fuel
