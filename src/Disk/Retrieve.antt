-- ===== src/Disk/Retrieve.antt =====
-- `retrieveFromDisk`, in two steps: what it does before it gives `disk_lock` up, and what it does
-- after the file is read. The head of the list and the rest of it have code of their own in the
-- source, and it is the same.
use c_faas_emulator.Common.{
  ℕ, Bool, true, false, some, List, [], ◌∷◌, ◌≡◌, refl, arith, Bool-cases, if◌then◌else◌, ◌⊎◌, inl,
  inr, All, Lacks,
}
use c_faas_emulator.Common.Name.{Name, str_eq}
use c_faas_emulator.Types.{Invocation, DiskNode, container_path}
use c_faas_emulator.Disk.{Disk}
use c_faas_emulator.Disk.Lookup.{is_node}

-- Store `flag` in `in_use` of the first node of the function.
unfoldable pub mark : Name → Bool → List DiskNode → List DiskNode
mark name flag [] = []
mark name flag (n ∷ ns) =
    let rest = mark name flag ns in
    if str_eq n.function name then record n { in_use = flag } ∷ ns else n ∷ rest

unfoldable pub holds : Name → List DiskNode → Bool
holds name [] = false
holds name (n ∷ ns) = let rest = holds name ns in if str_eq n.function name then true else rest

-- Whether the function is there, and the disk while its file is read.
unfoldable pub retrieve_begin : Invocation → Disk → Bool × Disk
unfolding mark holds
retrieve_begin i d =
    if holds i.hash_function d.head
    then (true, if d.containers then record d { head = mark i.hash_function true d.head } else d)
    else (false, d)

-- `read_bin` is the content of a file.
unfoldable pub retrieve_end : (Name → List ℕ) → Bool → Invocation → Disk → Invocation × Disk
unfolding mark
retrieve_end read_bin found i d =
    if found
    then if d.containers
      then (
        record i {
          occupied = true;
          restore_data = some (read_bin (container_path i.hash_function));
        },
        record d { head = mark i.hash_function false d.head },
      )
      else (record i { occupied = true }, d)
    else (i, d)

unfoldable pub retrieve_from_disk : (Name → List ℕ) → Invocation → Disk → Invocation × Disk
unfolding retrieve_begin retrieve_end
retrieve_from_disk read_bin i d =
    let (found, d') = retrieve_begin i d in retrieve_end read_bin found i d'

mark-mark :
    (name : Name) (ns : List DiskNode)
    → All (λ n. n.in_use ≡ false) ns
    → mark name false (mark name true ns) ≡ ns
unfolding mark
mark-mark name [] l = refl
mark-mark name (n ∷ ns) l = ground (arith, mark-mark name ns l.1)

Lacks-of_holds :
    (name : Name) (ns : List DiskNode) → holds name ns ≡ false → Lacks (is_node name) ns
unfolding holds
Lacks-of_holds name [] h = tt
Lacks-of_holds name (n ∷ ns) h = ground (arith, Lacks-of_holds name ns)

-- A read that nothing comes between leaves the disk as it was, if no node was in use. If the
-- function is on disk, the invocation has its memory set, and with containers the content of the
-- function's file; if it is not, the invocation stays as it was.
pub retrieve_from_disk-cases :
    (read_bin : Name → List ℕ) (i : Invocation) (d : Disk)
    → All (λ n. n.in_use ≡ false) d.head
    → ((Lacks (is_node i.hash_function) d.head) × (retrieve_from_disk read_bin i d ≡ (i, d)))
      ⊎ ((holds i.hash_function d.head ≡ true)
          × (retrieve_from_disk read_bin i d ≡ (
            record i {
              occupied = true;
              restore_data =
                  if d.containers
                  then some (read_bin (container_path i.hash_function))
                  else i.restore_data;
            },
            d,
          )))
unfolding retrieve_from_disk
retrieve_from_disk-cases read_bin i d l = elim (Bool-cases (holds i.hash_function d.head)) [
  | inl found ↦ inr (found, ground (arith, found, mark-mark i.hash_function d.head l))
  | inr missing ↦ inl (Lacks-of_holds i.hash_function d.head missing, ground (arith, missing))
]
