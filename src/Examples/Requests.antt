-- ===== src/Examples/Requests.antt =====
-- A container whose creation fails once, and one that is restored and used twice.
use c_faas_emulator.Common.{ℕ, ◌*◌, Bool, true, false, List, [], ◌∷◌, ◌++◌, ◌≡◌, replicate, All}
use c_faas_emulator.Common.Int.{ℤ, pos}
use c_faas_emulator.Containers.Requests.{Podman, done, container_requests}
use c_faas_emulator.Containers.Requests.Life.{At, gone, Goes, container_requests-Goes}
use c_faas_emulator.Containers.Requests.Served.{container_requests-ends}
use c_faas_emulator.Containers.Latencies.{Bench, on, Latencies, test_speeds_containers}
use c_faas_emulator.Containers.Latencies.Makes.{Yields, successes, Excused}
use c_faas_emulator.Containers.Latencies.Measured.{
  expected_requests, Measured, bench, test_speeds_containers-Measured,
}

container_requests-Goes_example : Goes (At gone (pos 0)) (
    container_requests false 0 false (record {
      answers = false ∷ true ∷ true ∷ true ∷ true ∷ true ∷ [];
      log = [];
      creation_in_progress = pos 0;
    }))
container_requests-Goes_example =
    container_requests-Goes false 0 false (false ∷ true ∷ true ∷ true ∷ true ∷ true ∷ []) (pos 0)

container_requests-ends_example :
    (q : Podman) × (container_requests true 1 true (record {
      answers = true ∷ true ∷ true ∷ true ∷ true ∷ [];
      log = [];
      creation_in_progress = pos 0;
    })
      ≡ done q)
    × (q.answers ≡ [])
    × At gone (pos 0) q
container_requests-ends_example = container_requests-ends true 1 true [] (pos 0)

-- A clock that goes on by 100 ms from reading to reading.
abbrev steady : ℕ → ℤ
steady n = pos (100 * n)

-- The first request to init fails.
abbrev one_failure : List Bool
one_failure = replicate 6 true ++ (false ∷ replicate 24 true)

test_speeds_containers-Measured_example :
    Yields
      (λ r.
        Measured steady 0 r.0
        × (successes r.1.log ≡ expected_requests 0)
        × (All Excused r.1.log)
        × (r.1.readings ≡ 14))
      (test_speeds_containers steady (bench one_failure 0))
    × ((r : Latencies × Bench) × (test_speeds_containers steady
            (bench (replicate 30 true ++ false ∷ []) 0)
          ≡ on r)
        × (r.1.answers ≡ false ∷ []))
test_speeds_containers-Measured_example =
    test_speeds_containers-Measured steady one_failure (false ∷ []) 0
