-- ===== src/Disk/Insertion.antt =====
-- A disk cache that is well formed, and lookups.
pub mod Fate
use mathlib.Core.List.{
  Nodup, Nodup-cons, Nodup-nil, Mem, mem-cons, not-mem-nil, map-append, perm_append_singleton, Perm,
}
use mathlib.Core.List.Perm
use mathlib.Core.List.Nodup
use mathlib.Core.Logic.Or
use mathlib.Core.HLevel.{⊥_prop}
use c_faas_emulator.Common.{
  ℕ, ◌*◌, Bool, true, false, Option, none, some, List, [], ◌∷◌, ◌++◌, ◌≡◌, refl, ap, sym, subst,
  ◌∙◌, ◌⊎◌, inl, inr, arith, Bool-cases, append-nil, not, if◌then◌else◌, Lacks, map,
}
use c_faas_emulator.Common.Int.{
  ℤ, pos, ◌+ℤ◌, ◌-ℤ◌, ◌<ℤ◌, ◌≤ℤ◌, ltb_ℤ, ltb_ℤ→lt, ltb_ℤ→le, int_laws, zero-+ℤ, parts_of_eq,
}
use c_faas_emulator.Common.Name.{Name, codes, str_eq, str_eq-ne}
use c_faas_emulator.Common.Outcome.{Outcome, ok, fault, ◌>>=◌, Ensures, Ensures-bind, ensured}
use c_faas_emulator.Common.Sums.{sum_by, sum_by-append, sum_by-snoc, sum_by-middle}
use c_faas_emulator.Types.{Invocation, DiskNode, Effect, write_file}
use c_faas_emulator.Network.{NetCache}
use c_faas_emulator.Disk.{
  init_disk, Disk, Freeing, Outside, free_disk, make_room, link_node, checkpoint_container,
  store_node, insert_disk_item, total_disk, find_in_disk,
}
use c_faas_emulator.Disk.Lookup.{is_node, MovedToEnd, find_in_disk-cases, find_in_disk-Perm}
use c_faas_emulator.Disk.Eviction.{Evicts}
use c_faas_emulator.Disk.Eviction.Answer.{Answers, free_disk-Evicts}

abbrev pub functions : Disk → List Name
functions d = map (λ n. n.function) d.head

-- The counter and the nodes make up the disk that was configured, no more is stored than it holds,
-- and no function is stored twice.
pub record IsValid (capacity : ℤ) (d : Disk) : Type 0 where
  pub balance : d.memory +ℤ total_disk d.head ≡ capacity
  pub fits : pos 0 ≤ℤ d.memory
  pub distinct : Nodup (functions d)

pub not-mem_of-Lacks :
    (name : Name) (xs : List DiskNode)
    → Lacks (is_node name) xs
    → ¬ Mem name (map (λ n. n.function) xs)
not-mem_of-Lacks name [] l m = not-mem-nil m
not-mem_of-Lacks name (x ∷ xs) l m =
    Or.elim ⊥_prop (mem-cons.0 m) (λ e. str_eq-ne x.function name l.0 (sym e))
      (not-mem_of-Lacks name xs l.1)

-- The empty disk cache is well formed.
pub init_disk-IsValid :
    (gigabytes : ℕ) (containers : Bool) (net_cache : Option NetCache) (read_after : DiskNode → ℤ)
    → IsValid (pos (gigabytes * 1000)) (init_disk gigabytes containers net_cache read_after)
unfolding init_disk sum_by
init_disk-IsValid gigabytes containers net_cache read_after = record {
  balance = omega int_laws;
  fits = omega int_laws;
  distinct = Nodup-nil;
}
