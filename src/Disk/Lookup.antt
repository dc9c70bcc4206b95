-- ===== src/Disk/Lookup.antt =====
-- `findInDisk`: what it finds, and the order in which it leaves the nodes.
use mathlib.Core.List.{Perm, perm_middle, perm_append_singleton}
use mathlib.Core.List.Perm
use c_faas_emulator.Common.{
  Bool, true, false, none, some, List, [], ◌∷◌, ◌++◌, ◌≡◌, refl, ap, ◌⊎◌, inl, inr, Bool-cases,
  Lacks, FirstHit, FirstHit-here, FirstHit-later,
}
use c_faas_emulator.Common.Name.{Name, str_eq}
use c_faas_emulator.Types.{DiskNode}
use c_faas_emulator.Disk.{Disk, move_to_end, find_in_disk}

abbrev pub is_node : Name → DiskNode → Bool
is_node name n = str_eq n.function name

-- `after` is `xs` with the first node of the function moved to the end.
pub record MovedToEnd (name : Name) (xs after : List DiskNode) : Type 0 where
  pub node : DiskNode
  pub first : FirstHit (is_node name) xs node
  pub moved : after ≡ first.before ++ first.after ++ node ∷ []

move_to_end-cases :
    (name : Name) (xs : List DiskNode)
    → ((move_to_end name xs ≡ none) × Lacks (is_node name) xs)
      ⊎ ((after : List DiskNode) × (move_to_end name xs ≡ some after) × MovedToEnd name xs after)
unfolding move_to_end
move_to_end-cases name [] = inl (refl, tt)
move_to_end-cases name (x ∷ xs) = elim (Bool-cases (is_node name x)) [
  | inl hit ↦ inr (
    xs ++ x ∷ [],
    rw hit refl,
    record { node = x; first = FirstHit-here (is_node name) x xs hit; moved = refl },
  )
  | inr miss ↦ elim (move_to_end-cases name xs) [
    | inl (e, l) ↦ inl (rw (miss, e) refl, (miss, l))
    | inr (after, e, m) ↦ inr (
      x ∷ after,
      rw (miss, e) refl,
      record {
        node = m.node;
        first = FirstHit-later (is_node name) x xs m.node miss m.first;
        moved = ap (◌∷◌ x) m.moved;
      },
    )
  ]
]

-- `findInDisk` answers 0 and changes nothing if no node is of the function. Otherwise it answers 1
-- and moves the first node of the function behind all others, whose order stays as it was, and
-- leaves the memory counter alone.
pub find_in_disk-cases :
    (name : Name) (d : Disk)
    → ((find_in_disk name d ≡ (false, d)) × Lacks (is_node name) d.head)
      ⊎ ((after : List DiskNode) × (find_in_disk name d ≡ (true, record d { head = after }))
          × MovedToEnd name d.head after)
unfolding find_in_disk
find_in_disk-cases name d = elim (move_to_end-cases name d.head) [
  | inl (e, l) ↦ inl (rw (e, find_in_disk) refl, l)
  | inr (after, e, m) ↦ inr (after, rw (e, find_in_disk) refl, m)
]

-- No node is lost or made up by a lookup.
pub find_in_disk-Perm : (name : Name) (d : Disk) → Perm d.head (find_in_disk name d).1.head
find_in_disk-Perm name d = elim (find_in_disk-cases name d) [
  | inl (e, _) ↦ rw e (Perm.refl d.head)
  | inr (after, e, m) ↦
      rw (e, m.moved, m.first.whole)
        (Perm.trans (perm_middle m.first.before m.first.after)
          (Perm.symm (perm_append_singleton m.node (m.first.before ++ m.first.after))))
]
