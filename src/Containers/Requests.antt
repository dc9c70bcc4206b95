-- ===== src/Containers/Requests.antt =====
-- The requests of source/containers.c to Podman and to the containers, in the order in which an
-- invocation and the end of a container make them. What curl reports is a list of answers, one for
-- each request; when it is used up the thread waits for the next. The handles are those
-- that `curl_easy_init` gave, not NULL. The texts are in Urls.antt.
pub mod Life
pub mod Served
use c_faas_emulator.Common.{ℕ, zero, suc, Bool, true, false, List, [], ◌∷◌, ◌++◌, if◌then◌else◌}
use c_faas_emulator.Common.Int.{ℤ, pos, ◌+ℤ◌, ◌-ℤ◌}

pub data Request : Type 0 where
  create start init run restore kill export : Request

-- `log` has the requests made and whether curl reported success.
pub record Podman : Type 0 where
  pub answers : List Bool
  pub log : List (Request × Bool)
  pub creation_in_progress : ℤ

-- A thread that comes back, that has called `exit`, or that waits for an answer.
pub data Run : Type 0 where
  done : Podman → Run
  exited : Podman → Run
  waits : Podman → Run

abbrev pub and_then : Run → (Podman → Run) → Run
and_then (done p) f = f p
and_then (exited p) f = exited p
and_then (waits p) f = waits p

abbrev pub logged : Request → Bool → List Bool → Podman → Podman
logged r b later p = record p { answers = later; log = p.log ++ (r, b) ∷ [] }

-- `while (res != CURLE_OK) res = curl_easy_perform(…)`, of which there is a first request in any case.
unfoldable pub until_ok : Request → List Bool → Podman → Run
until_ok r [] p = waits (record p { answers = [] })
until_ok r (b ∷ later) p =
    let again = until_ok r later (logged r b later p) in
    if b then done (logged r b later p) else again

-- `creation_in_progress += 1` and the loop of `createContainer`.
unfoldable pub create_request : Podman → Run
unfolding until_ok
create_request p =
    let p' = record p { creation_in_progress = p.creation_in_progress +ℤ pos 1 } in
    until_ok create p'.answers p'

abbrev pub uncounted : Podman → Podman
uncounted p = record p { creation_in_progress = p.creation_in_progress -ℤ pos 1 }

-- `startContainer` lowers the counter before it looks at the result.
unfoldable pub start_container : Podman → Run
start_container p = elim p.answers [
  | [] ↦ waits p
  | b ∷ later ↦ let p' = uncounted (logged start b later p) in if b then done p' else exited p'
]

unfoldable pub init_function : Podman → Run
unfolding until_ok
init_function p = until_ok init p.answers p

-- A run that takes too long is only reported.
unfoldable pub run_function : Podman → Run
run_function p = elim p.answers [ [] ↦ waits p | b ∷ later ↦ done (logged run b later p) ]

-- The request of `restoreCheckpoint` with containers: it lowers the counter after a success.
unfoldable pub restore_request : Podman → Run
restore_request p = elim p.answers [
  | [] ↦ waits p
  | b ∷ later ↦
      if b then done (uncounted (logged restore b later p)) else exited (logged restore b later p)
]

unfoldable pub kill_container : Podman → Run
unfolding until_ok
kill_container p = until_ok kill p.answers p

-- The export in `checkpointContainer`.
unfoldable pub export_request : Podman → Run
export_request p = elim p.answers [
  | [] ↦ waits p
  | b ∷ later ↦ if b then done (logged export b later p) else exited (logged export b later p)
]

-- How `allocate_invocation` comes by its container: it is cached, made anew, or restored.
pub data Origin : Type 0 where
  warm cold restored : Origin

-- The requests of `allocate_invocation` with containers and without `-sleep`.
unfoldable pub invocation_requests : Origin → Podman → Run
unfolding create_request start_container init_function run_function restore_request
invocation_requests warm p = run_function p
invocation_requests cold p =
    and_then (create_request p)
      λ p₁. and_then (start_container p₁) λ p₂. and_then (init_function p₂) run_function
invocation_requests restored p =
    and_then (create_request p) λ p₁. and_then (restore_request p₁) run_function

-- What ends a container: `freeRam` and the write-back thread kill it, or the latter exports it.
unfoldable pub end_requests : (exported : Bool) → Podman → Run
unfolding kill_container export_request
end_requests true p = export_request p
end_requests false p = kill_container p

-- More invocations that find the container in the memory cache.
unfoldable pub warm_requests : ℕ → Podman → Run
unfolding invocation_requests
warm_requests zero p = done p
warm_requests (suc n) p = and_then (invocation_requests warm p) (warm_requests n)

-- All of the requests for one container.
unfoldable pub container_requests :
    (from_disk : Bool) → (warm_starts : ℕ) → (exported : Bool) → Podman → Run
unfolding invocation_requests warm_requests end_requests
container_requests from_disk n exported p =
    and_then (invocation_requests (if from_disk then restored else cold) p)
      λ p₁. and_then (warm_requests n p₁) (end_requests exported)
