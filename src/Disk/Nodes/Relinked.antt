-- ===== src/Disk/Nodes/Relinked.antt =====
-- What the assignments of `relink` come to.
use c_faas_emulator.Common.{true, false, some, [], ◌∷◌, ◌++◌, ◌≡◌, refl, ◌==◌, arith}
use c_faas_emulator.Common.Outcome.{ok}
use c_faas_emulator.Types.{DiskNode}
use c_faas_emulator.Nodes.{Ptr, Memory, cell, put}
use c_faas_emulator.Nodes.Chain.{
  Cells, first_of, Absent, At, Chain, Parts, Chain-split, load-At, set_next-At, At-put,
  Absent-suffix,
}
use c_faas_emulator.Nodes.Move.{lengthened, skipped}
use c_faas_emulator.Nodes.Relink.{At-last, Apart-cons, Apart-last}
use c_faas_emulator.Disk.Nodes.{relink}

pub same_ptr : (q : Ptr) → (q == q) ≡ true
same_ptr q = ground arith

same_start :
    (xs : Cells DiskNode) (l : Ptr) (b : DiskNode) (ys zs : Cells DiskNode)
    → first_of 0 ((xs ++ (l, b) ∷ []) ++ ys) ≡ first_of 0 ((xs ++ (l, b) ∷ []) ++ zs)
same_start [] l b ys zs = refl
same_start (x ∷ xs) l b ys zs = refl

not_first :
    (q : Ptr) (xs : Cells DiskNode) (l : Ptr) (b : DiskNode) (zs : Cells DiskNode)
    → Absent q (xs ++ (l, b) ∷ [])
    → (q == first_of 0 ((xs ++ (l, b) ∷ []) ++ zs)) ≡ false
not_first q [] l b zs d = d.0
not_first q (x ∷ xs) l b zs d = d.0

module _ (h : Memory DiskNode) (q : Ptr) (n : DiskNode) (ws : Cells DiskNode) (l₂ : Ptr)
    (b₂ : DiskNode) where
  abbrev behind : Cells DiskNode
  behind = ws ++ (l₂, b₂) ∷ []

  At-lengthened :
      Chain h 0 ((q, n) ∷ behind) → At (lengthened h q n ws l₂ b₂) q n (first_of 0 behind)
  At-lengthened c =
      At-put h l₂ q n (first_of 0 behind) (some (cell b₂ q))
        (Absent-suffix q ws ((l₂, b₂) ∷ []) c.1).0 c.0

  pub relink-first :
      Chain h 0 ((q, n) ∷ behind)
      → relink q 0 q l₂ h
        ≡ ok (first_of 0 behind, put (lengthened h q n ws l₂ b₂) q (some (cell n 0)))
  unfolding relink
  relink-first c =
      rw
        (
          same_ptr q,
          load-At h q n (first_of 0 behind) c.0,
          set_next-At h l₂ b₂ 0 q (At-last h 0 l₂ b₂ ws c.2),
          set_next-At (lengthened h q n ws l₂ b₂) q n (first_of 0 behind) 0 (At-lengthened c),
        )
        refl

  pub last-ne : Chain h 0 ((q, n) ∷ behind) → (l₂ == q) ≡ false
  last-ne c = ground (arith, (Absent-suffix q ws ((l₂, b₂) ∷ []) c.1).0)

  module _ (xs : Cells DiskNode) (l : Ptr) (b : DiskNode) where
    abbrev ahead : Cells DiskNode
    ahead = xs ++ (l, b) ∷ []

    abbrev all_nodes : Cells DiskNode
    all_nodes = ahead ++ (q, n) ∷ behind

    module _ (c : Chain h 0 all_nodes) where
      pub parts : Parts h 0 ahead ((q, n) ∷ behind)
      parts = Chain-split h 0 ahead ((q, n) ∷ behind) c

      fore-Absent : Absent q ahead
      fore-Absent = (Apart-cons ahead q n behind parts.apart).0

      At-ahead_last : At (lengthened h q n ws l₂ b₂) l b q
      At-ahead_last =
          let apart = (Apart-cons ahead q n behind parts.apart).1 in
          At-put h l₂ l b q (some (cell b₂ q))
            (Absent-suffix l ws ((l₂, b₂) ∷ []) (Apart-last xs l b behind apart)).0
            (At-last h q l b xs parts.front)

      prev_ne : (l == 0) ≡ false
      prev_ne = At-ahead_last.ne

      not_head : (q == first_of 0 all_nodes) ≡ false
      not_head = not_first q xs l b ((q, n) ∷ behind) fore-Absent

      At-skipped : At (skipped h q n ws l₂ b₂ xs l b) q n (first_of 0 behind)
      At-skipped =
          At-put (lengthened h q n ws l₂ b₂) l q n (first_of 0 behind)
            (some (cell b (first_of 0 behind))) (Absent-suffix q xs ((l, b) ∷ []) fore-Absent).0
            (At-lengthened parts.back)

      pub relink-middle :
          relink (first_of 0 all_nodes) l q l₂ h
          ≡ ok (first_of 0 all_nodes, put (skipped h q n ws l₂ b₂ xs l b) q (some (cell n 0)))
      unfolding relink
      relink-middle =
          rw
            (
              not_head,
              prev_ne,
              set_next-At h l₂ b₂ 0 q (At-last h 0 l₂ b₂ ws parts.back.2),
              load-At (lengthened h q n ws l₂ b₂) q n (first_of 0 behind)
                  (At-lengthened parts.back),
              At-ahead_last.holds,
              set_next-At (skipped h q n ws l₂ b₂ xs l b) q n (first_of 0 behind) 0 At-skipped,
            )
            refl

      pub ahead_first : first_of 0 (ahead ++ (behind ++ (q, n) ∷ [])) ≡ first_of 0 all_nodes
      ahead_first = same_start xs l b (behind ++ (q, n) ∷ []) ((q, n) ∷ behind)
