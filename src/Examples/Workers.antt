-- ===== src/Examples/Workers.antt =====
-- Runs of two workers and of the write-back thread.
use c_faas_emulator.Common.{◌≤◌, Bool, true, false, [], ◌∷◌, ◌++◌, ◌≡◌, refl, ◌==◌, if◌then◌else◌}
use c_faas_emulator.Common.Int.{ℤ, pos, negsuc, ◌+ℤ◌, ◌-ℤ◌}
use c_faas_emulator.Common.Sums.{sum_by}
use c_faas_emulator.Common.Outcome.{Ensures}
use c_faas_emulator.Common.Name.{Name, str_eq}
use c_faas_emulator.Types.{init_totals}
use c_faas_emulator.Ram.{Ram, unlink, search_ram, detach, free_ram_detach, free_ram_settle}
use c_faas_emulator.Stats.{Latency, cold, init_files}
use c_faas_emulator.WriteBack.{write_batch}
use c_faas_emulator.WriteBack.Written.{write_batch-ends}
use c_faas_emulator.Disk.Insertion.Fate.{ends}
use c_faas_emulator.Allocate.{
  goes_on, Shared, Worker, arrives, Choice, advance, enter, after_search, find_memory, after_free,
  reserve,
}
use c_faas_emulator.Allocate.System.{System, Steps, work, start, later}
use c_faas_emulator.Allocate.Conserved.{Conserved, Steps-Conserved}
use c_faas_emulator.Allocate.Counted.{Counted, Steps-Counted}
use c_faas_emulator.Allocate.Exclusive.{places, Steps-places}
use c_faas_emulator.Examples.{function_a, function_b, invocation_of, tenths}
use c_faas_emulator.Examples.Disk.{one_stored, reachable_outside}

-- 40 MB of the function a are cached, 60 MB are free.
abbrev part_cached : Ram
part_cached = record {
  head = invocation_of function_a 40 ∷ [];
  memory = pos 60;
  cache_occupied = pos 40;
}

abbrev beginning : Shared
beginning = record { ram = part_cached; stats = init_files; totals = init_totals }

abbrev pub no_times : Latency
no_times = record {
  lat = pos 0;
  type = cold;
  free_ram = pos 0;
  find_disk = pos 0;
  add_to_read_buffer = pos 0;
  memset = pos 0;
  create_container = pos 0;
  start_container = pos 0;
  init_function = pos 0;
  restore_checkpoint = pos 0;
}

abbrev pub no_read : Choice
no_read = record { times = no_times; start_type = 0; answer = pos 0 }

abbrev function_c : Name
function_c = function_a ++ function_b

-- One of 100 MB and one of 60 MB.
abbrev wide : Worker
wide = arrives (invocation_of function_b 100)

abbrev narrow : Worker
narrow = arrives (invocation_of function_c 60)

abbrev both : System
both = record { shared = beginning; workers = wide ∷ narrow ∷ []; batch = [] }

abbrev after_wide : Bool → Worker × Shared
after_wide containers = advance containers no_read wide beginning

abbrev after_narrow : Bool → Worker × Shared
after_narrow containers = advance containers no_read narrow (after_wide containers).1

abbrev both_entered : Bool → System
both_entered containers = record {
  shared = (after_narrow containers).1;
  workers = (after_wide containers).0 ∷ (after_narrow containers).0 ∷ [];
  batch = [];
}

entering :
    (containers : Bool) → Steps tenths (pos 100) (pos 5) containers both (both_entered containers)
unfolding goes_on
entering containers =
    later (later start (work no_read beginning [] wide (narrow ∷ []) [] refl))
      (work no_read (after_wide containers).1 ((after_wide containers).0 ∷ []) narrow [] [] refl)

abbrev size_of : Name → ℤ
size_of name = elim name [
  | [] ↦ pos 0
  | x ∷ [] ↦ if x == 97 then pos 40 else pos 100
  | x ∷ y ∷ rest ↦ pos 60
]

both-Conserved : (containers : Bool) → Conserved size_of (pos 100) containers both
unfolding ◌+ℤ◌ sum_by
both-Conserved true = record {
  balance = refl;
  occupied = refl;
  sized_head = (refl, tt);
  sized_workers = (refl, (refl, tt));
  sized_batch = tt;
}
both-Conserved false = record {
  balance = refl;
  occupied = refl;
  sized_head = (refl, tt);
  sized_workers = (refl, (refl, tt));
  sized_batch = tt;
}

Steps-Conserved_example : Conserved size_of (pos 100) true (both_entered true)
Steps-Conserved_example =
    Steps-Conserved size_of tenths (pos 100) (pos 5) true (pos 100) both (both_entered true)
      (entering true) (both-Conserved true)

both-Counted : Counted cold both
unfolding init_files
both-Counted = record { starts = refl; rows = refl }

Steps-places_example : places function_a (both_entered true) ≤ places function_a both
Steps-places_example =
    Steps-places function_a tenths (pos 100) (pos 5) true both (both_entered true) (entering true)

Steps-Counted_example : Counted cold (both_entered true)
Steps-Counted_example =
    Steps-Counted tenths (pos 100) (pos 5) true cold both (both_entered true) (entering true)
      both-Counted

-- With containers the two can reserve 160 MB of the 100 MB that there are: while the first kills
-- the function a, the second takes the 60 MB that the first has counted on.
abbrev after_kill : Worker × Shared
after_kill = advance true no_read (after_wide true).0 (after_narrow true).1

oversubscribed : after_kill.1.ram.memory ≡ negsuc 59
unfolding advance enter after_search search_ram unlink find_memory free_ram_detach detach after_free
    reserve free_ram_settle str_eq ◌+ℤ◌ ◌-ℤ◌
oversubscribed = refl

write_batch-ends_example :
    Ensures
      (λ r. ends r.1 ≡ 2)
      (write_batch reachable_outside
        (invocation_of function_b 30 ∷ invocation_of function_b 30 ∷ [])
        one_stored)
write_batch-ends_example =
    write_batch-ends reachable_outside
      (invocation_of function_b 30 ∷ invocation_of function_b 30 ∷ []) one_stored refl
