-- ===== src/Disk/Recency.antt =====
-- findInDisk before freeDisk (source/disk_cache.c).
use c_faas_emulator.Common.{Bool, true, List, [], ◌∷◌, ◌++◌, ◌≡◌, ap, sym, ◌∙◌, ◌⊎◌, inl, inr}
use c_faas_emulator.Common.Int.{ℤ}
use c_faas_emulator.Common.Name.{Name}
use c_faas_emulator.Common.Outcome.{ok, ensured}
use c_faas_emulator.Types.{DiskNode}
use c_faas_emulator.Disk.{Disk, Freeing, find_in_disk, free_disk}
use c_faas_emulator.Disk.Lookup.{is_node, find_in_disk-cases}
use c_faas_emulator.Disk.Eviction.Answer.{free_disk-Evicts}

append-empty : (xs ys : List DiskNode) → xs ++ ys ≡ [] → ys ≡ []
append-empty [] ys e = e
append-empty (x ∷ xs) ys e = absurd (cc e)

-- What is left of a list without a part of its front ends as the list did.
abbrev EndsWith : DiskNode → List DiskNode → Type 0
EndsWith node rest = (rest ≡ []) ⊎ ((zs : List DiskNode) × (rest ≡ zs ++ node ∷ []))

drop_front-EndsWith :
    (removed rest xs : List DiskNode) (node : DiskNode)
    → xs ++ node ∷ [] ≡ removed ++ rest
    → EndsWith node rest
drop_front-EndsWith [] rest xs node e = inr (xs, sym e)
drop_front-EndsWith (r ∷ removed) rest [] node e =
    let tails : removed ++ rest ≡ [] = cc e in inl (append-empty removed rest tails)
drop_front-EndsWith (r ∷ removed) rest (x ∷ xs) node e =
    let tails : xs ++ node ∷ [] ≡ removed ++ rest = cc e in
    drop_front-EndsWith removed rest xs node tails

free_disk-EndsWith :
    (needed : ℤ) (d : Disk) (answer : Bool) (f : Freeing) (xs : List DiskNode) (node : DiskNode)
    → d.head ≡ xs ++ node ∷ []
    → free_disk needed d ≡ ok (answer, f)
    → EndsWith node f.disk.head
free_disk-EndsWith needed d answer f xs node shape e =
    let (evicts, _) = ensured _ _ (answer, f) (free_disk-Evicts needed d) e in
    drop_front-EndsWith evicts.removed f.disk.head xs node (sym shape ∙ evicts.whole)

-- The function that was looked up last is evicted last: if it was found, `freeDisk`, whatever it is
-- asked for, leaves a node of it on disk, as the last, or no node at all, when it returns.
pub find_in_disk-free_disk :
    (name : Name) (d : Disk) (needed : ℤ) (answer : Bool) (f : Freeing)
    → (find_in_disk name d).0 ≡ true
    → free_disk needed (find_in_disk name d).1 ≡ ok (answer, f)
    → (f.disk.head ≡ [])
      ⊎ ((zs : List DiskNode) × (node : DiskNode) × (f.disk.head ≡ zs ++ node ∷ [])
          × (is_node name node ≡ true))
find_in_disk-free_disk name d needed answer f found e = elim (find_in_disk-cases name d) [
  | inl (missed, _) ↦ absurd (cc (ap (λ (r : Bool × Disk). r.0) missed))
  | inr (after, hit, m) ↦
      let shape : (find_in_disk name d).1.head ≡ (m.first.before ++ m.first.after) ++ m.node ∷ [] =
        ap (λ (r : Bool × Disk). r.1.head) hit ∙ m.moved in
      elim (free_disk-EndsWith needed (find_in_disk name d).1 answer f
        (m.first.before ++ m.first.after) m.node shape e) [
          | inl none_left ↦ inl none_left
          | inr (zs, kept) ↦ inr (zs, m.node, kept, m.first.hit)
        ]
]
