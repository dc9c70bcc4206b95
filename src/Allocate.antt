-- ===== src/Allocate.antt =====
-- `allocate_invocation` of source/invocation.c, as the steps that a worker of the pool makes between
-- the points where it gives `cache_lock` up. Lines 144 to 231, between the reservation of the memory
-- and the answer to the read, touch neither the memory cache nor the counters: what they decide is
-- Invocation/StartType.antt and ReadBuffer.antt, and their result is part of the `Choice`.
pub mod System
pub mod Moves
pub mod Conserved
pub mod Counted
pub mod Printed
pub mod Finished
pub mod Exclusive
use c_faas_emulator.Common.{
  ℕ, ◌+◌, ◌==◌, Bool, true, false, ◌&&◌, ◌||◌, not, Option, none, some, if◌then◌else◌,
}
use c_faas_emulator.Common.Int.{ℤ, ◌-ℤ◌, ltb_ℤ, eqb_ℤ}
use c_faas_emulator.Types.{Invocation, Totals}
use c_faas_emulator.Ram.{
  Ram, Detached, search_ram, insert_ram_item, free_ram_detach, free_ram_settle, free_ram_plain,
}
use c_faas_emulator.Stats.{
  Start, warm, luke, remote, cold, failed, Latency, Stats, count_start, save_latency,
}
use c_faas_emulator.Invocation.StartType.{from_disk, from_network}
use c_faas_emulator.ReadBuffer.{served, pending}

-- What the workers share.
pub record Shared : Type 0 where
  pub ram : Ram
  pub stats : Stats
  pub totals : Totals

-- `*(args->warmStarts) += 1` and its like. There is no total of failures.
unfoldable pub count_total : Start → Totals → Totals
count_total warm t = record t { warm_starts = t.warm_starts + 1 }
count_total luke t = record t { lukewarm_starts = t.lukewarm_starts + 1 }
count_total remote t = record t { remote_starts = t.remote_starts + 1 }
count_total cold t = record t { cold_starts = t.cold_starts + 1 }
count_total failed t = t

-- Where a worker stands.
pub data Worker : Type 0 where
  arrives : Invocation → Worker  -- before the first lock
  evicts : Invocation → (mem_needed : ℤ) → Detached → Worker  -- in freeRam, without the lock
  awaits_read : Invocation → Worker  -- lines 142 to 232
  starts_cold : Invocation → Worker  -- lines 271 to 291
  runs : Start → Invocation → Worker  -- lines 315 to 330
  ended : Start → Worker

-- What comes from outside of these steps: the times measured, the value of `start_type`, and what
-- the reader has stored in `read_bool` or `netread_bool`.
pub record Choice : Type 0 where
  pub times : Latency
  pub start_type : ℕ
  pub answer : ℤ

-- Lines 93 to 110, and the row of latencies.
unfoldable pub warm_start : Latency → (invocation in_ram : Invocation) → Shared → Worker × Shared
unfolding count_total
warm_start times i j s = (
  runs warm (record i {
    restored = j.restored;
    container_id = j.container_id;
    container_port = j.container_port;
    occupied = j.occupied;
  }),
  record {
    ram = record s.ram { cache_occupied = s.ram.cache_occupied -ℤ j.memory };
    stats = save_latency (record times { type = warm }) (count_start warm s.stats);
    totals = count_total warm s.totals;
  },
)

-- Lines 138 to 140.
unfoldable pub reserve : Invocation → Shared → Worker × Shared
reserve i s = (awaits_read i, record s { ram = record s.ram { memory = s.ram.memory -ℤ i.memory } })

-- Lines 129 to 136, or else on to the reservation.
unfoldable pub after_free : Invocation → Bool × Ram → Shared → Worker × Shared
unfolding reserve
after_free i freed s =
    if freed.0
    then reserve i (record s { ram = freed.1 })
    else (ended failed, record s { ram = freed.1; stats = count_start failed s.stats })

-- Lines 112 to 137, as far as the lock is kept.
unfoldable pub find_memory : (containers : Bool) → Invocation → Shared → Worker × Shared
unfolding reserve after_free
find_memory containers i s =
    if ltb_ℤ s.ram.memory i.memory
    then (let mem_needed = i.memory -ℤ s.ram.memory in
        if containers
        then (let (d, ram') = free_ram_detach mem_needed s.ram in
            (evicts i mem_needed d, record s { ram = ram' }))
        else after_free i (free_ram_plain mem_needed s.ram) s)
    else reserve i s

-- Lines 93 to 140, with what searchRam has found.
unfoldable pub after_search :
    (containers : Bool) → Latency → Invocation → Option Invocation × Ram → Shared → Worker × Shared
unfolding warm_start find_memory
after_search containers times i (none, ram) s = find_memory containers i (record s { ram = ram })
after_search containers times i (some j, ram) s = warm_start times i j (record s { ram = ram })

-- From the first lock on.
unfoldable pub enter : (containers : Bool) → Latency → Invocation → Shared → Worker × Shared
unfolding after_search
enter containers times i s = after_search containers times i (search_ram i.hash_function s.ram) s

-- Lines 233 to 270, and for a read the row of latencies.
unfoldable pub answered : Choice → Invocation → Shared → Worker × Shared
unfolding count_total
answered choice i s =
    let read = choice.start_type == from_disk && eqb_ℤ choice.answer served in
    let netread = choice.start_type == from_network && eqb_ℤ choice.answer served in
    let type = if netread then remote else luke in
    let once = if read then count_start luke s.stats else s.stats in
    let counted = if netread then count_start remote once else once in
    let once_total = if read then count_total luke s.totals else s.totals in
    let total = if netread then count_total remote once_total else once_total in
    if read || netread
    then (
      runs type (record i { restored = true }),
      record s {
        stats = save_latency (record choice.times { type = type }) counted;
        totals = total;
      },
    )
    else (
      starts_cold (record i { restored = false }),
      record s { stats = count_start cold s.stats; totals = count_total cold s.totals },
    )

-- Lines 283 to 313.
unfoldable pub cold_done : (containers : Bool) → Latency → Invocation → Shared → Worker × Shared
cold_done containers times i s = (
  runs cold (record i { occupied = if containers then i.occupied else true }),
  record s { stats = save_latency (record times { type = cold }) s.stats },
)

-- Can the worker make its next step? Without containers, `createContainer` dereferences NULL, so that
-- nothing follows the reservation. One that has asked for a read waits while the answer is 0.
unfoldable pub goes_on : (containers : Bool) → Choice → Worker → Bool
goes_on containers choice (awaits_read i) =
    let asked = choice.start_type == from_disk || choice.start_type == from_network in
    containers && not (asked && eqb_ℤ choice.answer pending)
goes_on containers choice (arrives i) = true
goes_on containers choice (evicts i mem_needed d) = true
goes_on containers choice (starts_cold i) = true
goes_on containers choice (runs k i) = true
goes_on containers choice (ended k) = true

-- The next step of a worker.
unfoldable pub advance : (containers : Bool) → Choice → Worker → Shared → Worker × Shared
unfolding enter after_free answered cold_done
advance containers choice (arrives i) s = enter containers choice.times i s
advance containers choice (evicts i mem_needed d) s =
    after_free i (free_ram_settle mem_needed d.freed s.ram) s
advance containers choice (awaits_read i) s = answered choice i s
advance containers choice (starts_cold i) s = cold_done containers choice.times i s
advance containers choice (runs k i) s = (ended k, record s { ram = insert_ram_item i s.ram })
advance containers choice (ended k) s = (ended k, s)
