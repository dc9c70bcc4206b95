-- ===== src/Examples/Run.antt =====
-- A trace of one line, from the file to the end of the worker that runs it.
use c_faas_emulator.Common.{true, refl, [], ◌∷◌, ◌++◌, ◌≡◌, refl, arith, ◌+◌, All}
use c_faas_emulator.Common.Int.{pos}
use c_faas_emulator.Common.Name.{codes}
use c_faas_emulator.Common.Outcome.{ok}
use c_faas_emulator.Types.{init_totals}
use c_faas_emulator.Stats.{init_files, failed}
use c_faas_emulator.Ram.{search_ram, unlink, init_ram}
use c_faas_emulator.Allocate.Counted.{counted, logged}
use c_faas_emulator.Allocate.Printed.{total_of, printed_kinds}
use c_faas_emulator.Allocate.Finished.{IsEnded, sum_of_totals}
use c_faas_emulator.Allocate.{
  goes_on, Shared, Worker, arrives, advance, enter, after_search, find_memory, reserve, answered,
  cold_done,
}
use c_faas_emulator.Allocate.System.{System, init_system, Steps, work, start, later}
use c_faas_emulator.Main.Run.{pool_work, main_loop-totals}
use c_faas_emulator.Main.{Loop, newline, init_loop, main_loop}
use c_faas_emulator.Main.Trace.{file_of, read_back}
use c_faas_emulator.Examples.{invocation_of, tenths}
use c_faas_emulator.Examples.Workers.{no_read}
use c_faas_emulator.Examples.Main.{entry, entry-Readable, ticks}

-- A worker has the invocation of the line.
abbrev arrived : System
arrived = init_system (pos 100) (pool_work ticks (entry ∷ []))

abbrev only_worker : Worker
only_worker = arrives (read_back (invocation_of [] 0) entry)

abbrev at_first : Shared
at_first = record { ram = init_ram (pos 100); stats = init_files; totals = init_totals }

abbrev entered : Worker × Shared
entered = advance true no_read only_worker at_first

one_line_run :
    Steps tenths
      (pos 100)
      (pos 5)
      true
      arrived
      (record { shared = entered.1; workers = entered.0 ∷ []; batch = [] })
unfolding init_system goes_on
one_line_run = later start (work no_read at_first [] only_worker [] [] refl)

-- The worker goes on: its container is made, its function initialised and run.
abbrev decided : Worker × Shared
decided = advance true no_read entered.0 entered.1

abbrev initialised : Worker × Shared
initialised = advance true no_read decided.0 decided.1

abbrev finished : Worker × Shared
finished = advance true no_read initialised.0 initialised.1

abbrev at_end : System
at_end = record { shared = finished.1; workers = finished.0 ∷ []; batch = [] }

whole_run : Steps tenths (pos 100) (pos 5) true arrived at_end
unfolding init_system goes_on advance enter after_search search_ram unlink find_memory reserve
    answered cold_done init_ram
whole_run =
    later
      (later (later one_line_run (work no_read entered.1 [] entered.0 [] [] refl))
        (work no_read decided.1 [] decided.0 [] [] refl))
      (work no_read initialised.1 [] initialised.0 [] [] refl)

at_end-IsEnded : All IsEnded at_end.workers
unfolding advance enter after_search search_ram unlink find_memory reserve answered cold_done
    init_ram
at_end-IsEnded = (tt, tt)

main_loop-totals_example :
    (final : Loop) × (main_loop 3 ticks 0
        (codes "h" ++ newline ∷ file_of (entry ∷ []))
        (init_loop init_files)
      ≡ ok final)
    × (final.count ≡ sum_of_totals at_end.shared.totals + counted failed at_end.shared.stats)
    × (final.count ≡ logged at_end.shared.stats + counted failed at_end.shared.stats)
    × All (λ k. total_of k at_end.shared.totals ≡ counted k at_end.shared.stats) printed_kinds
main_loop-totals_example =
    main_loop-totals tenths (pos 100) (pos 5) true (pos 100) 3 ticks (codes "h") (entry ∷ [])
      init_files at_end (refl, tt) (omega arith) (entry-Readable, tt) (omega arith) whole_run
      at_end-IsEnded
