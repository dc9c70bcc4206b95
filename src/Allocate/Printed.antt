-- ===== src/Allocate/Printed.antt =====
-- The totals that `main_loop` prints, which the workers count up and nothing resets.
use c_faas_emulator.Common.{
  ℕ, ◌+◌, Bool, false, Option, none, some, List, [], ◌∷◌, ◌≡◌, if◌then◌else◌, arith,
}
use c_faas_emulator.Common.Int.{ℤ}
use c_faas_emulator.Common.Floats.{Floats}
use c_faas_emulator.Common.Sums.{count_by, count_by-middle}
use c_faas_emulator.Types.{Invocation, Totals}
use c_faas_emulator.Ram.{Ram, search_ram}
use c_faas_emulator.Stats.{Start, warm, luke, remote, cold, failed, Latency, same_start}
use c_faas_emulator.Allocate.{
  Shared, Worker, arrives, evicts, awaits_read, starts_cold, runs, ended, Choice, count_total,
  advance, enter, after_search, warm_start, find_memory, after_free, reserve, answered, cold_done,
}
use c_faas_emulator.Allocate.System.{
  System, Step, Steps, work, collects, releases, saves, writes, start, later,
}
use c_faas_emulator.Allocate.Counted.{counts_as}

abbrev pub total_of : Start → Totals → ℕ
total_of warm t = t.warm_starts
total_of luke t = t.lukewarm_starts
total_of remote t = t.remote_starts
total_of cold t = t.cold_starts
total_of failed t = 0

-- The kinds that have a total.
abbrev pub printed_kinds : List Start
printed_kinds = warm ∷ luke ∷ remote ∷ cold ∷ []

-- A step of the worker `w` to `w'`, for the total of the starts of kind `k`.
abbrev TotalsOf : Start → Worker → Totals → Worker × Shared → Type 0
TotalsOf k w t next = total_of k next.1.totals + counts_as k w ≡ total_of k t + counts_as k next.0

count_total_lem :
    (k j : Start) (t : Totals)
    → same_start k failed ≡ false
    → total_of k (count_total j t) ≡ total_of k t + (if same_start j k then 1 else 0)
unfolding count_total
count_total_lem warm j t h = ground arith
count_total_lem luke j t h = ground arith
count_total_lem remote j t h = ground arith
count_total_lem cold j t h = ground arith
count_total_lem failed j t h = absurd (ground (arith, h))

-- `k` is a kind with a total.
module _ (k : Start) (printed : same_start k failed ≡ false) where
  find_memory-TotalsOf :
      (containers : Bool) (i : Invocation) (s : Shared)
      → TotalsOf k (arrives i) s.totals (find_memory containers i s)
  unfolding find_memory after_free reserve
  find_memory-TotalsOf containers i s = ground (arith, printed)

  after_search-TotalsOf :
      (containers : Bool) (times : Latency) (i : Invocation) (found : Option Invocation × Ram)
      (s : Shared)
      → TotalsOf k (arrives i) s.totals (after_search containers times i found s)
  unfolding after_search warm_start
  after_search-TotalsOf containers times i (none, ram) s =
      find_memory-TotalsOf containers i (record s { ram = ram })
  after_search-TotalsOf containers times i (some j, ram) s =
      omega (arith, count_total_lem k warm s.totals printed)

  advance-TotalsOf :
      (containers : Bool) (choice : Choice) (w : Worker) (s : Shared)
      → TotalsOf k w s.totals (advance containers choice w s)
  unfolding advance enter after_free reserve answered cold_done
  advance-TotalsOf containers choice (arrives i) s =
      after_search-TotalsOf containers choice.times i (search_ram i.hash_function s.ram) s
  advance-TotalsOf containers choice (evicts i mem_needed d) s = ground (arith, printed)
  advance-TotalsOf containers choice (awaits_read i) s = ground (
    arith,
    count_total_lem k luke s.totals printed,
    count_total_lem k remote s.totals printed,
    count_total_lem k remote (count_total luke s.totals) printed,
    count_total_lem k cold s.totals printed,
  )
  advance-TotalsOf containers choice (starts_cold i) s = ground arith
  advance-TotalsOf containers choice (runs j i) s = ground arith
  advance-TotalsOf containers choice (ended j) s = ground arith

  -- The total of the kind is the workers that have decided on it.
  abbrev pub TotalOf : System → Type 0
  TotalOf s = total_of k s.shared.totals ≡ count_by (counts_as k) s.workers

  module _ (fl : Floats) (max_memory : ℤ) (threshold : fl.Float) (containers : Bool) where
    Step-TotalOf :
        (s t : System) → Step fl max_memory threshold containers s t → TotalOf s → TotalOf t
    Step-TotalOf _ _ (work choice s before w after batch on) v =
        let w' : Worker = (advance containers choice w s).0 in
        omega (
          arith,
          count_by-middle (counts_as k) before after w,
          count_by-middle (counts_as k) before after w',
          advance-TotalsOf containers choice w s,
          v,
        )
    Step-TotalOf _ _ (collects s workers) v = v
    Step-TotalOf _ _ (releases s workers i batch) v = v
    Step-TotalOf _ _ (saves ms s workers batch) v = v
    Step-TotalOf _ _ (writes s stats workers batch e) v = v

    pub Steps-TotalOf :
        (s t : System) → Steps fl max_memory threshold containers s t → TotalOf s → TotalOf t
    Steps-TotalOf s _ start v = v
    Steps-TotalOf s t (later {t = u} past step) v = Step-TotalOf u t step (Steps-TotalOf s u past v)
