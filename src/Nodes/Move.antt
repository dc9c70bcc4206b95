-- ===== src/Nodes/Move.antt =====
-- A node of a chain that is linked behind the last one.
use c_faas_emulator.Common.{◌≡◌, false, some, [], ◌∷◌, ◌++◌, ◌==◌, subst}
use c_faas_emulator.Nodes.{Ptr, Memory, cell, put}
use c_faas_emulator.Nodes.Chain.{
  Cells, first_of, Absent, Chain, Chain-split, Chain-join, Chain-put, At-here,
}
use c_faas_emulator.Nodes.Loops.{Chain-set_last}
use c_faas_emulator.Nodes.Relink.{Apart-cons, Apart-last, Apart-Absent_last, Apart-snoc}
use c_faas_emulator.Nodes.Append.{Apart-nil, first_of-snoc_more}

module _ {ℓ} {A : Type ℓ} where
  -- A chain whose end leads to `q` goes on with that node alone.
  Chain-attach :
      (h : Memory A) (ys : Cells A) (q : Ptr) (a : A)
      → (q == 0) ≡ false
      → Absent q ys
      → Chain h q ys
      → Chain (put h q (some (cell a 0))) 0 (ys ++ (q, a) ∷ [])
  Chain-attach h ys q a ne absent c =
      Chain-join (put h q (some (cell a 0))) 0 ys ((q, a) ∷ []) (record {
        front = Chain-put h q q ys (some (cell a 0)) absent c;
        back = (At-here h q a 0 ne, tt, tt);
        apart = Apart-snoc ys [] q a (Apart-nil ys) absent;
      })

  module _ (h : Memory A) (q : Ptr) (a : A) (ws : Cells A) (l₂ : Ptr) (b₂ : A) where
    abbrev pub rear : Cells A
    rear = ws ++ (l₂, b₂) ∷ []

    -- The last node is linked to `q`.
    abbrev pub lengthened : Memory A
    lengthened = put h l₂ (some (cell b₂ q))

    pub Chain-first_moved :
        Chain h 0 ((q, a) ∷ rear)
        → Chain (put lengthened q (some (cell a 0))) 0 (rear ++ (q, a) ∷ [])
    Chain-first_moved c =
        Chain-attach lengthened rear q a c.0.ne c.1 (Chain-set_last h 0 q l₂ b₂ ws c.2)

    module _ (xs : Cells A) (l : Ptr) (b : A) where
      abbrev fore : Cells A
      fore = xs ++ (l, b) ∷ []

      -- Then the node before `q` to the one behind it.
      abbrev pub skipped : Memory A
      skipped = put lengthened l (some (cell b (first_of 0 rear)))

      pub Chain-moved :
          Chain h 0 (fore ++ (q, a) ∷ rear)
          → Chain (put skipped q (some (cell a 0))) 0 (fore ++ (rear ++ (q, a) ∷ []))
      Chain-moved c =
          let p = Chain-split h 0 fore ((q, a) ∷ rear) c in
          let (absent, apart) = Apart-cons fore q a rear p.apart in
          let first = first_of-snoc_more ws l₂ b₂ ((q, a) ∷ []) in
          Chain-join (put skipped q (some (cell a 0))) 0 fore (rear ++ (q, a) ∷ []) (record {
            front =
                subst (λ stop. Chain (put skipped q (some (cell a 0))) stop fore) first
                  (Chain-put skipped q (first_of 0 rear) fore (some (cell a 0)) absent (
                    Chain-set_last lengthened q (first_of 0 rear) l b xs (
                      Chain-put h l₂ q fore (some (cell b₂ q))
                        (Apart-Absent_last fore ws l₂ b₂ apart) p.front)));
            back = Chain-attach skipped rear q a p.back.0.ne p.back.1 (
                Chain-put lengthened l q rear (some (cell b (first_of 0 rear)))
                  (Apart-last xs l b rear apart) (Chain-set_last h 0 q l₂ b₂ ws p.back.2));
            apart = Apart-snoc fore rear q a apart absent;
          })
