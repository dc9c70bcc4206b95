-- ===== src/Allocate/Exclusive.antt =====
-- Where each container is, whatever the interleaving. The `container_id` of an invocation that has
-- not got its container yet is the one that Podman will give it.
use c_faas_emulator.Common.{
  ℕ, ◌+◌, ◌≤◌, Bool, true, false, List, [], ◌∷◌, ◌≡◌, ap, if◌then◌else◌, Bool-cases, inl, inr,
  arith,
}
use c_faas_emulator.Common.Int.{ℤ, ◌-ℤ◌, ltb_ℤ}
use c_faas_emulator.Common.Floats.{Floats}
use c_faas_emulator.Common.Name.{Name, str_eq}
use c_faas_emulator.Common.Sums.{count_by, count_by-append, count_by-middle}
use c_faas_emulator.Types.{Invocation, Totals}
use c_faas_emulator.Ram.{Ram, insert_ram_item, free_ram_detach, free_ram_settle, free_ram_plain}
use c_faas_emulator.Ram.Free.{free_ram_detach-Frees, free_ram_plain-settle}
use c_faas_emulator.Ram.Search.{Unlinked, search_ram-cases}
use c_faas_emulator.Stats.{Start, Latency, Stats, save_starts}
use c_faas_emulator.WriteBack.{batch_capacity, write_release}
use c_faas_emulator.WriteBack.Collected.{collect-Collects}
use c_faas_emulator.Allocate.{
  Shared, Worker, arrives, evicts, awaits_read, starts_cold, runs, ended, Choice, advance, enter,
  warm_start, find_memory, after_search, after_free, reserve, answered, cold_done,
}
use c_faas_emulator.Allocate.System.{
  System, collected, Step, Steps, work, collects, releases, saves, writes, start, later,
}

module _ (id : Name) where
  abbrev pub has : Invocation → ℕ
  has i = if str_eq i.container_id id then 1 else 0

  -- A worker has its own container, or will get it, and in `freeRam` those that it is killing.
  abbrev pub in_worker : Worker → ℕ
  in_worker (arrives i) = has i
  in_worker (evicts i mem_needed d) = has i + count_by has d.removed
  in_worker (awaits_read i) = has i
  in_worker (starts_cold i) = has i
  in_worker (runs k i) = has i
  in_worker (ended k) = 0

  -- In how many places the container is.
  abbrev pub places : System → ℕ
  places s = count_by has s.shared.ram.head + count_by in_worker s.workers + count_by has s.batch

  -- A step of a worker that has the container in `n` places.
  abbrev Keeps : ℕ → Shared → Worker × Shared → Type 0
  Keeps n s next = count_by has next.1.ram.head + in_worker next.0 ≤ count_by has s.ram.head + n

  detach-count :
      (needed : ℤ) (r : Ram)
      → count_by has (free_ram_detach needed r).0.removed
          + count_by has (free_ram_detach needed r).1.head
        ≡ count_by has r.head
  detach-count needed r =
      let (f, e) = free_ram_detach-Frees needed r in
      let d = (free_ram_detach needed r).0 in
      omega (
        arith,
        ap (count_by has) f.whole,
        count_by-append has d.removed d.rest,
        ap (λ (t : Ram). count_by has t.head) e,
      )

  after_free-Keeps :
      (i : Invocation) (answer : Bool) (ram' : Ram) (n : ℕ) (s : Shared)
      → count_by has ram'.head + has i ≤ count_by has s.ram.head + n
      → Keeps n s (after_free i (answer, ram') s)
  unfolding after_free reserve
  after_free-Keeps i true ram' n s h = omega (arith, h)
  after_free-Keeps i false ram' n s h = omega (arith, h)

  find_memory-Keeps :
      (containers : Bool) (i : Invocation) (s : Shared)
      → Keeps (has i) s (find_memory containers i s)
  unfolding find_memory reserve free_ram_settle
  find_memory-Keeps containers i s = elim (Bool-cases (ltb_ℤ s.ram.memory i.memory)) [
    | inl short ↦ rw short (by_kind containers)
    | inr enough ↦ rw enough (omega arith)
  ]
    where
      needed : ℤ
      needed = i.memory -ℤ s.ram.memory

      by_kind :
          (c : Bool)
          → Keeps (has i) s (
              if c
              then (let (d, ram') = free_ram_detach needed s.ram in
                  (evicts i needed d, record s { ram = ram' }))
              else after_free i (free_ram_plain needed s.ram) s)
      by_kind true = omega (arith, detach-count needed s.ram)
      by_kind false =
          let settled : (free_ram_plain needed s.ram).1.head
              ≡ (free_ram_detach needed s.ram).1.head =
            ap (λ (t : Bool × Ram). t.1.head) (free_ram_plain-settle needed s.ram) in
          after_free-Keeps i (free_ram_plain needed s.ram).0 (free_ram_plain needed s.ram).1 (has i)
            s (omega (arith, ap (count_by has) settled, detach-count needed s.ram))

  -- The container of the invocation that arrived is not made; it takes over the cached one.
  warm_start-Keeps :
      (times : Latency) (i j : Invocation) (rest : List Invocation) (s : Shared)
      → Unlinked i.hash_function s.ram.head j rest
      → Keeps (has i) s (warm_start times i j (record s { ram = record s.ram { head = rest } }))
  unfolding warm_start
  warm_start-Keeps times i j rest s u = omega (
    arith,
    ap (count_by has) u.first.whole,
    count_by-middle has u.first.before u.first.after j,
    ap (count_by has) u.without,
  )

  enter-Keeps :
      (containers : Bool) (times : Latency) (i : Invocation) (s : Shared)
      → Keeps (has i) s (enter containers times i s)
  unfolding enter after_search
  enter-Keeps containers times i s = elim (search_ram-cases i.hash_function s.ram) [
    | inl (none_there, _) ↦ rw none_there (find_memory-Keeps containers i s)
    | inr (j, rest, there, u) ↦ rw there (warm_start-Keeps times i j rest s u)
  ]

  answered-Keeps :
      (choice : Choice) (i : Invocation) (s : Shared) → Keeps (has i) s (answered choice i s)
  unfolding answered
  answered-Keeps choice i s = by_read _ _ _ _ _ _
    where
      by_read :
          (found : Bool) (type : Start) (stats stats' : Stats) (totals totals' : Totals)
          → Keeps (has i) s (
              if found
              then (
                runs type (record i { restored = true }),
                record s { stats = stats; totals = totals },
              )
              else (
                starts_cold (record i { restored = false }),
                record s { stats = stats'; totals = totals' },
              ))
      by_read true type stats stats' totals totals' = omega arith
      by_read false type stats stats' totals totals' = omega arith

  advance-Keeps :
      (containers : Bool) (choice : Choice) (w : Worker) (s : Shared)
      → Keeps (in_worker w) s (advance containers choice w s)
  unfolding advance cold_done insert_ram_item free_ram_settle
  advance-Keeps containers choice (arrives i) s = enter-Keeps containers choice.times i s
  advance-Keeps containers choice (evicts i needed d) s =
      after_free-Keeps i _ (free_ram_settle needed d.freed s.ram).1 _ s (omega arith)
  advance-Keeps containers choice (awaits_read i) s = answered-Keeps choice i s
  advance-Keeps containers choice (starts_cold i) s = omega arith
  advance-Keeps containers choice (runs k i) s =
      omega (arith, count_by-append has s.ram.head (i ∷ []))
  advance-Keeps containers choice (ended k) s = omega arith

  module _ (fl : Floats) (max_memory : ℤ) (threshold : fl.Float) (containers : Bool) where
    Step-places : (s t : System) → Step fl max_memory threshold containers s t → places t ≤ places s
    unfolding write_release save_starts
    Step-places _ _ (work choice s before w after batch on) =
        let w' : Worker = (advance containers choice w s).0 in
        omega (
          arith,
          count_by-middle in_worker before after w,
          count_by-middle in_worker before after w',
          advance-Keeps containers choice w s,
        )
    Step-places _ _ (collects s workers) =
        let taken = collected fl max_memory threshold containers s in
        let c =
          collect-Collects fl max_memory threshold containers batch_capacity s.ram.head s.ram in
        omega (arith, ap (count_by has) c.whole, count_by-append has taken.0 taken.1.head)
    Step-places _ _ (releases s workers i batch) = omega arith
    Step-places _ _ (saves ms s workers batch) = omega arith
    Step-places _ _ (writes s stats workers batch e) = omega arith

    -- A container is in no more places after any steps of the workers, the write-back thread, the
    -- main loop and the pool of the statistics, in any order, than before: the memory cache, the
    -- batch of the write-back thread, a worker that has it or will get it, and a worker that is
    -- killing it. So if Podman gives each container an id of its own, no two workers ever have the
    -- same container, and none that is cached or in use is killed or written to disk by another.
    pub Steps-places :
        (s t : System) → Steps fl max_memory threshold containers s t → places t ≤ places s
    Steps-places s _ start = omega arith
    Steps-places s t (later {t = u} past step) =
        omega (arith, Step-places u t step, Steps-places s u past)
