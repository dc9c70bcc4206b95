-- ===== src/Allocate/System.antt =====
-- The workers of the pool, the write-back thread and the main loop over one memory cache and one
-- set of counters, interleaved in any order.
use c_faas_emulator.Common.{◌≡◌, Bool, true, List, [], map, ◌∷◌, ◌++◌}
use c_faas_emulator.Common.Int.{ℤ}
use c_faas_emulator.Common.Floats.{Floats}
use c_faas_emulator.Common.Outcome.{ok}
use c_faas_emulator.Types.{Invocation, init_totals}
use c_faas_emulator.Ram.{Ram, init_ram}
use c_faas_emulator.Stats.{Stats, init_files, save_starts, pool_turn}
use c_faas_emulator.WriteBack.{collect, write_release, batch_capacity}
use c_faas_emulator.Allocate.{Shared, Worker, arrives, Choice, goes_on, advance}

-- `batch` is what the write-back thread has in its buffer.
pub record System : Type 0 where
  pub shared : Shared
  pub workers : List Worker
  pub batch : List Invocation

-- The state when the threads start: the memory configured, and the invocations of the trace, each
-- for a worker. The pool runs some of them at a time; here any may make the next step.
unfoldable pub init_system : ℤ → List Invocation → System
unfolding init_ram init_files
init_system memory trace = record {
  shared = record { ram = init_ram memory; stats = init_files; totals = init_totals };
  workers = map arrives trace;
  batch = [];
}

module _ (fl : Floats) (max_memory : ℤ) (threshold : fl.Float) (containers : Bool) where
  abbrev pub collected : Shared → List Invocation × Ram
  collected s = collect fl max_memory threshold containers batch_capacity s.ram.head s.ram

  -- One worker that can go on makes its next step; the write-back thread begins a round, or is done with the next
  -- function of its batch; the main loop saves the counters of a minute; or
  -- the pool of the statistics writes its next row.
  pub data Step : System → System → Type 0 where
    work :
        (choice : Choice) (s : Shared) (before : List Worker) (w : Worker) (after : List Worker)
        (batch : List Invocation)
        → goes_on containers choice w ≡ true
        → Step
            (record { shared = s; workers = before ++ w ∷ after; batch = batch })
            (record {
              shared = (advance containers choice w s).1;
              workers = before ++ (advance containers choice w s).0 ∷ after;
              batch = batch;
            })
    collects :
        (s : Shared) (workers : List Worker)
        → Step
            (record { shared = s; workers = workers; batch = [] })
            (record {
              shared = record s { ram = (collected s).1 };
              workers = workers;
              batch = (collected s).0;
            })
    releases :
        (s : Shared) (workers : List Worker) (i : Invocation) (batch : List Invocation)
        → Step
            (record { shared = s; workers = workers; batch = i ∷ batch })
            (record {
              shared = record s { ram = write_release containers i s.ram };
              workers = workers;
              batch = batch;
            })
    saves :
        (ms : ℤ) (s : Shared) (workers : List Worker) (batch : List Invocation)
        → Step
            (record { shared = s; workers = workers; batch = batch })
            (record {
              shared = record s { stats = save_starts ms s.stats };
              workers = workers;
              batch = batch;
            })
    writes :
        (s : Shared) (stats : Stats) (workers : List Worker) (batch : List Invocation)
        → pool_turn s.stats ≡ ok stats
        → Step
            (record { shared = s; workers = workers; batch = batch })
            (record { shared = record s { stats = stats }; workers = workers; batch = batch })

  pub data Steps (s : System) : System → Type 0 where
    start : Steps s s
    later : {t u : System} → Steps s t → Step t u → Steps s u
