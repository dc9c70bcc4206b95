-- ===== src/WriteBack.antt =====
-- `writeToDisk` of source/disk_cache.c: the thread that moves functions from the memory cache to
-- the disk cache while the memory cache is too full. A round of it is `write_begin`, under
-- `cache_lock`, `write_item` for each function collected, under `disk_lock`, and `write_release`,
-- under `cache_lock` again.
pub mod Collected
pub mod Written
use c_faas_emulator.Common.{
  ℕ, zero, suc, Bool, true, false, Option, none, some, List, [], ◌∷◌, ◌++◌, if◌then◌else◌,
}
use c_faas_emulator.Common.Int.{ℤ, negsuc, ◌+ℤ◌, ◌-ℤ◌, eqb_ℤ}
use c_faas_emulator.Common.Floats.{Floats}
use c_faas_emulator.Common.Outcome.{Outcome, ok, ◌>>=◌}
use c_faas_emulator.Types.{Invocation, Effect, kill}
use c_faas_emulator.Ram.{Ram}
use c_faas_emulator.Disk.{Disk, Outside, find_in_disk, insert_disk_item}

-- The entries of the thread's `buffer`.
abbrev pub batch_capacity : ℕ
batch_capacity = 100

module _ (fl : Floats) where
  open fl use {Float, of_int, div_float, lt}

  -- `(float)*(ram->cache_occupied) / (float)args->max_memory > disk->threshold`
  unfoldable pub over_threshold : (max_memory : ℤ) (threshold : Float) → Ram → Bool
  over_threshold max_memory threshold r =
      lt threshold (div_float (of_int r.cache_occupied) (of_int max_memory))

  module _ (max_memory : ℤ) (threshold : Float) (containers : Bool) where
    -- A function leaves the memory cache. With containers its memory is free at once.
    abbrev pub discharge : Invocation → Ram → Ram
    discharge i r = record r {
      cache_occupied = r.cache_occupied -ℤ i.memory;
      memory = if containers then r.memory +ℤ i.memory else r.memory;
    }

    -- The inner loop, with the room that is left in the buffer: what is collected, and the cache.
    unfoldable pub collect : ℕ → List Invocation → Ram → List Invocation × Ram
    unfolding over_threshold
    collect room [] r = ([], record r { head = [] })
    collect zero (i ∷ is) r = ([], record r { head = i ∷ is })
    collect (suc room) (i ∷ is) r =
        let next = collect room is (discharge i r) in
        if over_threshold max_memory threshold r
        then (i ∷ next.0, next.1)
        else ([], record r { head = i ∷ is })

    -- The first part of a round: `none` if the emulation has ended.
    unfoldable pub write_begin : Ram → Option (List Invocation × Ram)
    unfolding over_threshold collect
    write_begin r =
        if eqb_ℤ r.cache_occupied (negsuc 0)
        then none
        else if over_threshold max_memory threshold r
        then some (collect batch_capacity r.head r)
        else some ([], r)

-- One function of the batch: it is stored, or, if the disk has it already, its container killed.
-- `kill` stands for all of killContainer, which asks again until curl reports success.
unfoldable pub write_item : Outside → Invocation → Disk → Outcome (Disk × List Effect)
unfolding find_in_disk insert_disk_item
write_item o i d =
    let (found, d') = find_in_disk i.hash_function d in
    if found
    then ok (d', if d.containers then kill i.container_id ∷ [] else [])
    else insert_disk_item o i d'

unfoldable pub write_batch : Outside → List Invocation → Disk → Outcome (Disk × List Effect)
unfolding write_item
write_batch o [] d = ok (d, [])
write_batch o (i ∷ is) d = do
  (d', effects) ← write_item o i d
  (d'', later) ← write_batch o is d'
  ok (d'', effects ++ later)

-- After each function: without containers its memory is free only now.
unfoldable pub write_release : Bool → Invocation → Ram → Ram
write_release containers i r = record r {
  memory = if containers then r.memory else r.memory +ℤ i.memory;
}
