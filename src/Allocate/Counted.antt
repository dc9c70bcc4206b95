-- ===== src/Allocate/Counted.antt =====
-- The counters of starts and the rows of latencies against the workers.
use c_faas_emulator.Common.{
  ℕ, ◌+◌, Bool, Option, none, some, List, [], ◌∷◌, ◌≡◌, refl, ◌∙◌, Bool-cases, if◌then◌else◌, arith,
  inl, inr, length, length-append,
}
use c_faas_emulator.Common.Int.{ℤ}
use c_faas_emulator.Common.Floats.{Floats}
use c_faas_emulator.Common.Sums.{count_by, count_by-middle}
use c_faas_emulator.Common.Outcome.{ok, Ensures, ensured}
use c_faas_emulator.Types.{Invocation}
use c_faas_emulator.Ram.{Ram, search_ram}
use c_faas_emulator.Stats.{
  Start, warm, luke, remote, cold, failed, Latency, Stats, same_start, count_start, save_latency,
  save_starts, pool_turn, write_latency,
}
use c_faas_emulator.Stats.Minutes.{row_sum, row_sum-append}
use c_faas_emulator.Allocate.{
  Shared, Worker, arrives, evicts, awaits_read, starts_cold, runs, ended, Choice, advance, enter,
  after_search, warm_start, find_memory, after_free, reserve, answered, cold_done,
}
use c_faas_emulator.Allocate.System.{
  System, Step, Steps, work, collects, releases, saves, writes, start, later,
}

-- 1 for a worker that has decided on the start `k`.
abbrev pub counts_as : Start → Worker → ℕ
counts_as k (arrives i) = 0
counts_as k (evicts i mem_needed d) = 0
counts_as k (awaits_read i) = 0
counts_as k (starts_cold i) = if same_start cold k then 1 else 0
counts_as k (runs j i) = if same_start j k then 1 else 0
counts_as k (ended j) = if same_start j k then 1 else 0

-- 1 for a worker that has got as far as to log its latency.
abbrev pub has_row : Worker → ℕ
has_row (arrives i) = 0
has_row (evicts i mem_needed d) = 0
has_row (awaits_read i) = 0
has_row (starts_cold i) = 0
has_row (runs j i) = if same_start j failed then 0 else 1
has_row (ended j) = if same_start j failed then 0 else 1

-- The starts of kind `k` that were ever counted, and the latencies that were ever logged.
abbrev pub counted : Start → Stats → ℕ
counted k s = row_sum (s.files k) + s.counts k

abbrev pub logged : Stats → ℕ
logged s = length s.latencies + length s.jobs

-- A step of the worker `w` to `w'`, for the starts of kind `k`.
record Counts (k : Start) (w : Worker) (s : Stats) (w' : Worker) (s' : Stats) : Type 0 where
  starts : counted k s' + counts_as k w ≡ counted k s + counts_as k w'
  rows : logged s' + has_row w ≡ logged s + has_row w'

find_memory-Counts :
    (k : Start) (containers : Bool) (i : Invocation) (s : Shared)
    → Counts k
        (arrives i)
        s.stats
        (find_memory containers i s).0
        (find_memory containers i s).1.stats
unfolding find_memory after_free reserve count_start
find_memory-Counts k containers i s = record { starts = ground arith; rows = ground arith }

after_search-Counts :
    (k : Start) (containers : Bool) (times : Latency) (i : Invocation)
    (found : Option Invocation × Ram) (s : Shared)
    → Counts k
        (arrives i)
        s.stats
        (after_search containers times i found s).0
        (after_search containers times i found s).1.stats
unfolding after_search warm_start count_start save_latency
after_search-Counts k containers times i (none, ram) s =
    find_memory-Counts k containers i (record s { ram = ram })
after_search-Counts k containers times i (some j, ram) s = record {
  starts = ground arith;
  rows = ground (arith, length-append s.stats.jobs (record times { type = warm } ∷ []));
}

advance-Counts :
    (k : Start) (containers : Bool) (choice : Choice) (w : Worker) (s : Shared)
    → Counts k w s.stats (advance containers choice w s).0 (advance containers choice w s).1.stats
unfolding advance enter after_free reserve answered cold_done count_start save_latency
advance-Counts k containers choice (arrives i) s =
    after_search-Counts k containers choice.times i (search_ram i.hash_function s.ram) s
advance-Counts k containers choice (evicts i mem_needed d) s = record {
  starts = ground arith;
  rows = ground arith;
}
advance-Counts k containers choice (awaits_read i) s = record {
  starts = ground arith;
  rows = ground (
    arith,
    length-append s.stats.jobs (record choice.times { type = luke } ∷ []),
    length-append s.stats.jobs (record choice.times { type = remote } ∷ []),
  );
}
advance-Counts k containers choice (starts_cold i) s = record {
  starts = ground arith;
  rows = ground (arith, length-append s.stats.jobs (record choice.times { type = cold } ∷ []));
}
advance-Counts k containers choice (runs j i) s = record {
  starts = ground arith;
  rows = ground arith;
}
advance-Counts k containers choice (ended j) s = record {
  starts = ground arith;
  rows = ground arith;
}

-- The starts of kind `k` on file and on the counter are the workers that decided on it, and the
-- latencies written or waiting are the workers that have started their function.
pub record Counted (k : Start) (s : System) : Type 0 where
  pub starts : counted k s.shared.stats ≡ count_by (counts_as k) s.workers
  pub rows : logged s.shared.stats ≡ count_by has_row s.workers

-- Writing the next row moves it from the jobs to the file.
pool_turn_lem :
    (k : Start) (s : Stats)
    → Ensures (λ s'. (counted k s' ≡ counted k s) × (logged s' ≡ logged s)) (pool_turn s)
unfolding pool_turn write_latency
pool_turn_lem k s = by_jobs s.jobs refl
  where
    by_jobs :
        (ls : List Latency)
        → s.jobs ≡ ls
        → Ensures
            (λ (s' : Stats). (counted k s' ≡ counted k s) × (logged s' ≡ logged s))
            (elim ls [ [] ↦ ok s | l ∷ rest ↦ write_latency l (record s { jobs = rest }) ])
    by_jobs [] e = (refl, refl)
    by_jobs (l ∷ ls) e = elim (Bool-cases s.is_open) [
      | inl open_files ↦ rw open_files (refl, ground (arith, e, length-append s.latencies (l ∷ [])))
      | inr closed ↦ rw closed tt
    ]

Step-Counted :
    (fl : Floats) (max_memory : ℤ) (threshold : fl.Float) (containers : Bool) (k : Start)
    (s t : System)
    → Step fl max_memory threshold containers s t
    → Counted k s
    → Counted k t
unfolding save_starts
Step-Counted fl max_memory threshold containers k _ _ (work choice s before w after batch on) v =
    let w' : Worker = (advance containers choice w s).0 in
    let m = advance-Counts k containers choice w s in
    record {
      starts = omega (
        arith,
        count_by-middle (counts_as k) before after w,
        count_by-middle (counts_as k) before after w',
        m.starts,
        v.starts,
      );
      rows = omega (
        arith,
        count_by-middle has_row before after w,
        count_by-middle has_row before after w',
        m.rows,
        v.rows,
      );
    }
Step-Counted fl max_memory threshold containers k _ _ (collects s workers) v = record {
  starts = v.starts;
  rows = v.rows;
}
Step-Counted fl max_memory threshold containers k _ _ (releases s workers i batch) v = record {
  starts = v.starts;
  rows = v.rows;
}
Step-Counted fl max_memory threshold containers k _ _ (saves ms s workers batch) v = record {
  starts = omega (
    arith,
    v.starts,
    row_sum-append (s.stats.files k)
        (record { minute = s.stats.minute; count = s.stats.counts k } ∷ []),
  );
  rows = v.rows;
}
Step-Counted fl max_memory threshold containers k _ _ (writes s stats workers batch e) v =
    let kept = ensured _ _ stats (pool_turn_lem k s.stats) e in
    record { starts = kept.0 ∙ v.starts; rows = kept.1 ∙ v.rows }

-- If each worker that has got to its kind of start, a failure included, is counted once, for
-- that kind, over the rows of the minutes saved and the running counter, and each that has
-- started its function has one row of latencies, written or still waiting, then this still holds
-- after any steps of the workers, the write-back thread, the main loop and the pool of the
-- statistics, in any order.
pub Steps-Counted :
    (fl : Floats) (max_memory : ℤ) (threshold : fl.Float) (containers : Bool) (k : Start)
    (s t : System)
    → Steps fl max_memory threshold containers s t
    → Counted k s
    → Counted k t
Steps-Counted fl max_memory threshold containers k s _ start v = v
Steps-Counted fl max_memory threshold containers k s t (later {t = u} past step) v =
    Step-Counted fl max_memory threshold containers k u t step
      (Steps-Counted fl max_memory threshold containers k s u past v)
