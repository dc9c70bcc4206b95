-- ===== src/Examples/Ram.antt =====
-- Runs of the memory cache.
use c_faas_emulator.Common.{Bool, true, false, [], ◌∷◌, ◌≡◌, ◌⊎◌}
use c_faas_emulator.Common.Int.{pos, ◌+ℤ◌, ◌<ℤ◌, ◌≤ℤ◌}
use c_faas_emulator.Ram.{
  Ram, Detached, free_ram_detach, free_ram_settle, free_ram_plain, total_memory,
}
use c_faas_emulator.Ram.Free.{free_ram_plain-settle, free_ram_settle-answer}
use c_faas_emulator.Examples.{function_b, function_a, invocation_of}

-- 100 MB of the function a are cached, 300 MB are free.
abbrev one_cached : Ram
one_cached = record {
  head = invocation_of function_a 100 ∷ [];
  memory = pos 300;
  cache_occupied = pos 100;
}

free_ram_plain-settle_example :
    free_ram_plain (pos 50) one_cached
    ≡ free_ram_settle
        (pos 50)
        (free_ram_detach (pos 50) one_cached).0.freed
        (free_ram_detach (pos 50) one_cached).1
free_ram_plain-settle_example = free_ram_plain-settle (pos 50) one_cached

-- Another thread has cached a function while the lock was given up.
abbrev grown : Ram
grown = record (free_ram_detach (pos 50) one_cached).1 {
  head = invocation_of function_b 10 ∷ [];
  memory = pos 290;
}

free_ram_settle-answer_example :
    let detached : Detached × Ram = free_ram_detach (pos 50) one_cached in
    let after : Bool × Ram = free_ram_settle (pos 50) detached.0.freed grown in
    (after.1.head ≡ grown.head)
    × (((after.0 ≡ true) × (grown.memory +ℤ pos 50 ≤ℤ after.1.memory))
        ⊎ ((after.0 ≡ false)
            × (detached.1.head ≡ [])
            × (total_memory one_cached.head <ℤ pos 50)
            × (after.1.memory ≡ grown.memory +ℤ total_memory one_cached.head)))
free_ram_settle-answer_example = free_ram_settle-answer (pos 50) one_cached grown
