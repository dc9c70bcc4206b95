-- ===== src/Examples/Queues.antt =====
-- Runs of the read queues, the statistics and the table of threads.
use c_faas_emulator.Common.{
  true, false, none, some, List, [], ◌∷◌, ◌≡◌, ◌≢◌, refl, ◌⊎◌, arith, get_elem?,
}
use c_faas_emulator.Common.Int.{pos}
use c_faas_emulator.Common.Outcome.{ok, fault}
use c_faas_emulator.Types.{Invocation}
use c_faas_emulator.ReadBuffer.{ReadBuffer}
use c_faas_emulator.ReadBuffer.Fifo.{Holds}
use c_faas_emulator.ReadBuffer.Reader.{of_disk, Reader, request, take_up, done, reader_run, Ledger}
use c_faas_emulator.ReadBuffer.Backlog.{reader_run-Ledger}
use c_faas_emulator.Stats.{cold, init_files, close_files}
use c_faas_emulator.Stats.Minutes.{Tally}
use c_faas_emulator.Stats.Closing.{close_files-cases}
use c_faas_emulator.Invocation.Tid.{get_tid}
use c_faas_emulator.Invocation.Tid.Stable.{after_calls, get_tid-stable}
use c_faas_emulator.Examples.{function_a, function_b, invocation_of, tenths}

abbrev pub no_requests : ReadBuffer
no_requests = record { buffer = λ _. none; buffer_size = 0 }

pub no_requests-Holds : Holds no_requests []
no_requests-Holds = record { size = refl; entry = λ j lt. absurd (omega arith) }

-- A reader at rest on an empty queue, of a medium that reads 2 MB a millisecond.
abbrev pub idle_reader : Reader tenths
idle_reader = record {
  medium = record { requests = no_requests; time_to_read = pos 0; speed = pos 20 };
  busy = none;
}

idle_reader-Ledger : Ledger tenths idle_reader []
idle_reader-Ledger = record { holds = no_requests-Holds; few = omega arith }

reader_run-Ledger_example :
    (ys : List Invocation) × Ledger tenths
      (reader_run tenths (of_disk true (λ _. [])) (pos 10000) (pos 2000) idle_reader (
        request (invocation_of function_a 100)
        ∷ request (invocation_of function_b 300)
        ∷ take_up
        ∷ done
        ∷ []))
      ys
reader_run-Ledger_example =
    reader_run-Ledger tenths (of_disk true (λ _. [])) (pos 10000) (pos 2000) idle_reader
      (request (invocation_of function_a 100)
        ∷ request (invocation_of function_b 300)
        ∷ take_up
        ∷ done
        ∷ [])
      [] idle_reader-Ledger

init_files-Tally : Tally cold 0 init_files
unfolding init_files
init_files-Tally = record { sum = refl; rows = refl; numbered = tt }

close_files-cases_example :
    ((init_files.jobs ≡ []) × (close_files init_files ≡ ok (record init_files { is_open = false })))
    ⊎ ((init_files.jobs ≢ []) × (close_files init_files ≡ fault))
close_files-cases_example = close_files-cases init_files

first_call : get_tid 71 (70 ∷ 0 ∷ []) ≡ (pos 1, 70 ∷ 71 ∷ [])
unfolding get_tid
first_call = refl

get_tid-stable_example :
    (get_tid 71 (after_calls (72 ∷ 70 ∷ []) (70 ∷ 71 ∷ []))
      ≡ (pos 1, after_calls (72 ∷ 70 ∷ []) (70 ∷ 71 ∷ [])))
    × (get_elem? (after_calls (72 ∷ 70 ∷ []) (70 ∷ 71 ∷ [])) 1 ≡ some 71)
get_tid-stable_example =
    get_tid-stable 71 (70 ∷ 0 ∷ []) 1 (70 ∷ 71 ∷ []) (72 ∷ 70 ∷ []) (ground arith) first_call
