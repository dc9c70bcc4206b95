-- ===== src/Ram/Accounting.antt =====
-- The two counters of the memory cache against its list.
use c_faas_emulator.Common.{Option, none, some, ◌≡◌, ap, sym, ◌∙◌, inl, inr}
use c_faas_emulator.Common.Int.{ℤ, pos, ◌+ℤ◌, int_laws, parts_of_eq, +ℤ_zero}
use c_faas_emulator.Common.Name.{Name}
use c_faas_emulator.Types.{Invocation}
use c_faas_emulator.Ram.{
  Ram, Detached, search_ram, free_ram_detach, free_ram_settle, free_ram_plain, total_memory,
}
use c_faas_emulator.Ram.Search.{search_ram-cases}
use c_faas_emulator.Ram.Free.{free_ram_detach-Frees, free_ram_plain-settle}
use c_faas_emulator.Common.Sums.{sum_by-append, sum_by-middle}

-- The memory that is free or cached.
abbrev pub room : Ram → ℤ
room r = r.memory +ℤ total_memory r.head

-- What `searchRam` takes out.
abbrev pub taken : Option Invocation → ℤ
taken none = pos 0
taken (some i) = i.memory

pub total-search_ram :
    (f : Name) (r : Ram)
    → total_memory (search_ram f r).1.head +ℤ taken (search_ram f r).0 ≡ total_memory r.head
total-search_ram f r = elim (search_ram-cases f r) [
  | inl (e, _) ↦ rw e (+ℤ_zero (total_memory r.head))
  | inr (i, rest, e, u) ↦ rw e (
      ap (λ xs. total_memory xs +ℤ i.memory) u.without
      ∙ sym (sum_by-middle (λ j. j.memory) u.first.before u.first.after i)
      ∙ ap total_memory (sym u.first.whole))
]

-- The list that is left and the nodes taken off it make up the cache.
pub total-free_ram_detach :
    (needed : ℤ) (r : Ram)
    → total_memory (free_ram_detach needed r).1.head +ℤ (free_ram_detach needed r).0.freed
      ≡ total_memory r.head
total-free_ram_detach needed r =
    let d : Detached = (free_ram_detach needed r).0 in
    let (f, e) = free_ram_detach-Frees needed r in
    let sum : total_memory r.head ≡ total_memory d.removed +ℤ total_memory d.rest =
      ap total_memory f.whole ∙ sum_by-append (λ j. j.memory) d.removed d.rest in
    rw e (omega (int_laws, parts_of_eq sum, parts_of_eq f.freed))

-- `freeRam` without containers turns cached memory into free memory and makes none up: what is
-- free or cached stays the same, and so does the difference between `cache_occupied` and the
-- memory of the list.
pub free_ram-room :
    (needed : ℤ) (r : Ram)
    → (room (free_ram_plain needed r).1 ≡ room r)
      × ((free_ram_plain needed r).1.cache_occupied +ℤ total_memory r.head
          ≡ r.cache_occupied +ℤ total_memory (free_ram_plain needed r).1.head)
unfolding free_ram_settle free_ram_detach
free_ram-room needed r =
    let sum = parts_of_eq (total-free_ram_detach needed r) in
    rw (free_ram_plain-settle needed r) (omega (int_laws, sum), omega (int_laws, sum))
