-- ===== src/Examples/Main.antt =====
-- A trace of one line, the end of a run, and the tables and texts of the containers.
use c_faas_emulator.Common.{ℕ, ◌≤◌, ◌<◌, true, false, [], ◌∷◌, ◌++◌, ◌≡◌, refl, ◌⊎◌, arith}
use c_faas_emulator.Common.Decimal.{print_int}
use c_faas_emulator.Common.Int.{pos}
use c_faas_emulator.Common.Name.{codes}
use c_faas_emulator.Common.Outcome.{ok, fault}
use c_faas_emulator.Types.{container_path}
use c_faas_emulator.Network.{NetCache}
use c_faas_emulator.Stats.{cold}
use c_faas_emulator.Containers.Urls.{
  start_url, kill_url, checkpoint_url, restore_url, init_url, run_url, checkpoint_path, cache_path,
  containers_url, urls-fit,
}
use c_faas_emulator.Containers.Setup.{Containers, init_podman}
use c_faas_emulator.Containers.Setup.Tables.{IsSetUp, init_podman-cases}
use c_faas_emulator.Containers.Setup.Destroyed.{
  destroy_handles, destroy_podman, destroy_podman-fault,
}
use c_faas_emulator.Main.{Tick}
use c_faas_emulator.Main.Trace.{Entry, Readable}
use c_faas_emulator.Examples.{function_a, function_b, invocation_of}
use c_faas_emulator.Examples.Start.{one_digit}

abbrev pub entry : Entry
entry = record {
  owner = codes "o";
  function = function_a;
  memory = 7 ∷ [];
  duration = 7 ∷ [];
  timestamp = 7 ∷ [];
}

pub entry-Readable : Readable entry
entry-Readable = record {
  owner_plain = (refl, tt);
  owner_ne = ground arith;
  owner_line = (refl, tt);
  function_plain = (refl, tt);
  function_ne = ground arith;
  function_line = (refl, tt);
  function_short = omega arith;
  memory_digits = one_digit;
  duration_digits = one_digit;
  timestamp_digits = one_digit;
  fits = omega arith;
}

-- One cold start is counted before each line, and a line comes each millisecond.
abbrev pub ticks : ℕ → Tick
ticks n = record {
  counted = cold ∷ [];
  curr = pos n;
  time_passed = pos n;
  fresh = invocation_of [] 0;
}

abbrev empty_store : NetCache
empty_store = record { head = []; queue = [] }

init_podman-cases_example :
    ((1 ≤ 2)
      × (1 ≤ 2)
      × ((k : Containers) × (init_podman 7 false 2 1 1 ≡ ok k) × IsSetUp 7 false 2 1 1 k))
    ⊎ (((2 < 1) ⊎ (2 < 1)) × (init_podman 7 false 2 1 1 ≡ fault))
init_podman-cases_example = init_podman-cases 7 false 2 1 1

urls-fit_example :
    (start_url function_a ≡ ok (containers_url ++ (function_a ++ codes "/start")))
    × (kill_url function_a ≡ ok (containers_url ++ (function_a ++ codes "/kill")))
    × (checkpoint_url function_a
        ≡ ok (containers_url ++ (function_a ++ codes "/checkpoint?export=true")))
    × (restore_url function_a
        ≡ ok (containers_url ++ (function_a ++ codes "/restore?import=true&ignoreStaticIP=true")))
    × (init_url (pos 15000) ≡ ok (codes "localhost:" ++ (print_int (pos 15000) ++ codes "/init")))
    × (run_url (pos 15000) ≡ ok (codes "localhost:" ++ (print_int (pos 15000) ++ codes "/run")))
    × (checkpoint_path function_b ≡ ok (container_path function_b))
    × (cache_path function_b ≡ ok (codes "cache/" ++ function_b))
urls-fit_example =
    urls-fit function_a function_b (pos 15000) (omega arith) (omega arith) (omega arith)
      (omega arith)

-- The tables for two threads, one of them for checkpoints and one for reads.
abbrev two_threads : Containers
two_threads = record {
  ports = [];
  port = 15000;
  thread_ids = 0 ∷ 0 ∷ [];
  api_handles = true ∷ true ∷ [];
  checkpoint_thread_ids = 0 ∷ [];
  checkpoint_handles = true ∷ false ∷ [];
  restore_thread_ids = 0 ∷ 7 ∷ [];
  restore_handles = true ∷ false ∷ [];
  remove_handle = true;
  prune_in_progress = false;
  creation_in_progress = pos 0;
}

two_threads-IsSetUp : IsSetUp 7 false 2 1 1 two_threads
two_threads-IsSetUp = record {
  thread_ids = refl;
  api_handles = refl;
  checkpoint_thread_ids = refl;
  checkpoint_handles = refl;
  restore_thread_ids = refl;
  restore_handles = refl;
  remove_handle = refl;
  idle = (refl, refl);
}

destroy_podman-fault_example :
    (destroy_handles 2 1 1 two_threads
      ≡ ok (record two_threads {
        api_handles = false ∷ false ∷ [];
        checkpoint_handles = false ∷ false ∷ [];
        restore_handles = false ∷ false ∷ [];
        remove_handle = false;
      }))
    × (destroy_podman 2 1 1 two_threads ≡ fault)
destroy_podman-fault_example = destroy_podman-fault 7 false 2 1 1 two_threads two_threads-IsSetUp
