-- ===== src/Containers/Requests/Served.antt =====
-- The requests for one container come back if Podman serves them.
use c_faas_emulator.Common.{
  ℕ, zero, suc, Bool, true, false, List, [], ◌∷◌, ◌++◌, ◌≡◌, refl, subst, replicate, if◌then◌else◌,
}
use c_faas_emulator.Common.Int.{ℤ}
use c_faas_emulator.Containers.Requests.Life.{At, gone, Goes, container_requests-Goes}
use c_faas_emulator.Containers.Requests.{
  Podman, Run, done, and_then, until_ok, create_request, start_container, init_function,
  run_function, restore_request, kill_container, export_request, cold, restored,
  invocation_requests, end_requests, warm_requests, container_requests,
}

-- The thread comes back with the answers `rest` left.
abbrev Leaves : List Bool → Run → Type 0
Leaves rest r = (q : Podman) × (r ≡ done q) × (q.answers ≡ rest)

Leaves-then :
    (middle rest : List Bool) (r : Run) (f : Podman → Run)
    → Leaves middle r
    → ((q : Podman) → q.answers ≡ middle → Leaves rest (f q))
    → Leaves rest (and_then r f)
Leaves-then middle rest r f (q, e, a) h = rw e (h q a)

end_requests-Leaves :
    (exported : Bool) (rest : List Bool) (p : Podman)
    → p.answers ≡ true ∷ rest
    → Leaves rest (end_requests exported p)
unfolding end_requests kill_container export_request until_ok
end_requests-Leaves false rest p a = rw a (_, refl, refl)
end_requests-Leaves true rest p a = rw a (_, refl, refl)

warm_requests-Leaves :
    (n : ℕ) (rest : List Bool) (p : Podman)
    → p.answers ≡ replicate n true ++ rest
    → Leaves rest (warm_requests n p)
unfolding warm_requests invocation_requests run_function
warm_requests-Leaves zero rest p a = (p, refl, a)
warm_requests-Leaves (suc n) rest p a =
    Leaves-then (replicate n true ++ rest) rest _ (warm_requests n) (rw a (_, refl, refl))
      (warm_requests-Leaves n rest)

-- A success for each request up to the first run.
abbrev pub first_answers : Bool → List Bool
first_answers true = true ∷ true ∷ true ∷ []
first_answers false = true ∷ true ∷ true ∷ true ∷ []

made-Leaves :
    (from_disk : Bool) (rest : List Bool) (p : Podman)
    → p.answers ≡ first_answers from_disk ++ rest
    → Leaves rest (invocation_requests (if from_disk then restored else cold) p)
unfolding invocation_requests create_request until_ok start_container init_function run_function
    restore_request
made-Leaves true rest p a = rw a (_, refl, refl)
made-Leaves false rest p a = rw a (_, refl, refl)

all-Leaves :
    (from_disk : Bool) (warm_starts : ℕ) (exported : Bool) (rest : List Bool) (c : ℤ)
    → Leaves rest (
        container_requests from_disk warm_starts exported (record {
          answers = first_answers from_disk ++ (replicate warm_starts true ++ true ∷ rest);
          log = [];
          creation_in_progress = c;
        }))
unfolding container_requests
all-Leaves from_disk n exported rest c =
    Leaves-then (replicate n true ++ true ∷ rest) rest _ _
      (made-Leaves from_disk (replicate n true ++ true ∷ rest) _ refl)
      λ p₁ a₁.
        Leaves-then (true ∷ rest) rest _ _ (warm_requests-Leaves n (true ∷ rest) p₁ a₁)
          λ p₂ a₂. end_requests-Leaves exported rest p₂ a₂

-- If Podman reports success for each request, those for a container come back, have used up one
-- answer each, and leave the container gone and `creation_in_progress` as it was.
pub container_requests-ends :
    (from_disk : Bool) (warm_starts : ℕ) (exported : Bool) (rest : List Bool) (c : ℤ)
    → (q : Podman) × (container_requests from_disk warm_starts exported (record {
      answers = first_answers from_disk ++ (replicate warm_starts true ++ true ∷ rest);
      log = [];
      creation_in_progress = c;
    })
        ≡ done q)
      × (q.answers ≡ rest)
      × At gone c q
container_requests-ends from_disk n exported rest c =
    let (q, e, a) = all-Leaves from_disk n exported rest c in
    let answers = first_answers from_disk ++ (replicate n true ++ true ∷ rest) in
    (q, e, a, subst (Goes (At gone c)) e (container_requests-Goes from_disk n exported answers c))
