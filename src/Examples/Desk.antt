-- ===== src/Examples/Desk.antt =====
-- A read queue whose requests are answered.
use c_faas_emulator.Common.{◌+◌, true, none, some, List, [], ◌∷◌, ◌≡◌, refl, length, arith}
use c_faas_emulator.Common.Int.{pos}
use c_faas_emulator.Types.{Invocation}
use c_faas_emulator.ReadBuffer.{push_request}
use c_faas_emulator.ReadBuffer.Answers.{
  DeskEvent, arrives, take_up, finishes, Desk, open_desk, desk_run, names_of, Answers,
}
use c_faas_emulator.ReadBuffer.Reader.{ReaderThread, of_disk, of_network}
use c_faas_emulator.ReadBuffer.Fifo.{push_request-Holds}
use c_faas_emulator.ReadBuffer.Served.{asked, desk_run-Answers}
use c_faas_emulator.ReadBuffer.Drained.{rounds, desk_run-drains}
use c_faas_emulator.Examples.{function_a, function_b, invocation_of, tenths, a_is_not_quit}
use c_faas_emulator.Examples.Disk.{one_stored}
use c_faas_emulator.Examples.Queues.{idle_reader, no_requests, no_requests-Holds}

abbrev disk_reader : ReaderThread
disk_reader = of_disk true (λ _. [])

abbrev events : List DeskEvent
events =
    arrives (invocation_of function_a 100)
    ∷ arrives (invocation_of function_b 300)
    ∷ take_up
    ∷ finishes one_stored
    ∷ []

desk_run-Answers_example :
    let k =
      desk_run tenths disk_reader
        (pos 10000)
        (pos 2000)
        (open_desk tenths idle_reader.medium)
        events in
    ((xs : List Invocation) × Answers tenths k xs)
    × (length k.admitted + length k.turned_away ≡ asked events)
desk_run-Answers_example =
    desk_run-Answers tenths disk_reader (pos 10000) (pos 2000) idle_reader.medium events
      no_requests-Holds

-- The object store has each function, with no content.
abbrev network_reader : ReaderThread
network_reader = of_network (λ name bytes. some [])

-- One request waits.
abbrev waiting : Desk tenths
waiting = record {
  reader = record {
    medium = record idle_reader.medium {
      requests = push_request (invocation_of function_a 100) no_requests;
    };
    busy = none;
  };
  admitted = invocation_of function_a 100 ∷ [];
  turned_away = [];
  answered = [];
}

desk_run-drains_example :
    names_of
      (desk_run tenths network_reader
        (pos 10000)
        (pos 2000)
        waiting
        (rounds (one_stored ∷ []))).answered
    ≡ invocation_of function_a 100 ∷ []
desk_run-drains_example =
    desk_run-drains tenths network_reader (pos 10000) (pos 2000) waiting
      (invocation_of function_a 100 ∷ []) (one_stored ∷ [])
      (record {
        holds = push_request-Holds no_requests [] (invocation_of function_a 100) no_requests-Holds;
        order = refl;
        woken = tt;
      })
      (a_is_not_quit, tt) (omega arith)
