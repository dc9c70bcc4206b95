-- ===== src/Containers/Requests/Life.antt =====
-- The requests for one container come in an order that Podman allows.
use c_faas_emulator.Common.{
  ℕ, zero, suc, Bool, true, false, Option, none, some, List, [], ◌∷◌, ◌++◌, ◌≡◌, refl, ap, sym,
  subst, if◌then◌else◌, Option-cases, inl, inr,
}
use c_faas_emulator.Common.Int.{ℤ, pos, ◌+ℤ◌, eq_of_parts, int_laws, parts_of_eq}
use c_faas_emulator.Containers.Requests.{
  Request, create, start, init, run, restore, kill, export, Podman, Run, done, exited, waits,
  and_then, logged, until_ok, create_request, uncounted, start_container, init_function,
  run_function, restore_request, kill_container, export_request, cold, restored,
  invocation_requests, end_requests, warm_requests, container_requests,
}

-- A container: not made, made, started, ready for runs, and killed or exported.
pub data Stage : Type 0 where
  absent created started ready gone : Stage

-- What a request makes of a container; `none` is a request out of place.
abbrev pub stage_step : Stage → Request → Bool → Option Stage
stage_step absent create b = some (if b then created else absent)
stage_step created start b = some (if b then started else created)
stage_step created restore b = some (if b then ready else created)
stage_step started init b = some (if b then ready else started)
stage_step ready run b = some ready
stage_step ready kill b = some (if b then gone else ready)
stage_step ready export b = some (if b then gone else ready)
stage_step _ _ b = none

abbrev pub stage_after : Stage → List (Request × Bool) → Option Stage
stage_after s [] = some s
stage_after s ((r, b) ∷ log) = elim (stage_step s r b) [
  | none ↦ none
  | some s' ↦ stage_after s' log
]

stage_after-snoc :
    (s s' s'' : Stage) (log : List (Request × Bool)) (r : Request) (b : Bool)
    → stage_after s log ≡ some s'
    → stage_step s' r b ≡ some s''
    → stage_after s (log ++ (r, b) ∷ []) ≡ some s''
stage_after-snoc s s' s'' [] r b e f =
    let same : s ≡ s' = cc e in
    subst (λ t. stage_after t ((r, b) ∷ []) ≡ some s'') (sym same) (rw (stage_after, f) refl)
stage_after-snoc s s' s'' ((q, a) ∷ log) r b e f = elim (Option-cases (stage_step s q a)) [
  | inl stuck ↦ absurd (cc (rw (stage_after, stuck) at e))
  | inr (t, moved) ↦
      rw (stage_after, moved) (stage_after-snoc t s' s'' log r b (rw (stage_after, moved) at e) f)
]

-- The requests so far are in order, and have brought the container to the stage `s`; `c` is the
-- counter.
pub record At (s : Stage) (c : ℤ) (p : Podman) : Type 0 where
  pub stage : stage_after absent p.log ≡ some s
  pub counter : p.creation_in_progress ≡ c

pub record InOrder (p : Podman) : Type 0 where
  pub stage : Stage
  pub reached : stage_after absent p.log ≡ some stage

-- What holds however a thread ends or waits.
abbrev pub Goes : (Podman → Type 0) → Run → Type 0
Goes Q (done p) = Q p
Goes Q (exited p) = InOrder p
Goes Q (waits p) = InOrder p

Goes-then :
    (P Q : Podman → Type 0) (r : Run) (f : Podman → Run)
    → Goes P r
    → ((p : Podman) → P p → Goes Q (f p))
    → Goes Q (and_then r f)
Goes-then P Q (done p) f g h = h p g
Goes-then P Q (exited p) f g h = g
Goes-then P Q (waits p) f g h = g

logged-At :
    (s s' : Stage) (c : ℤ) (r : Request) (b : Bool) (later : List Bool) (p : Podman)
    → stage_step s r b ≡ some s'
    → At s c p
    → At s' c (logged r b later p)
logged-At s s' c r b later p e a = record {
  stage = stage_after-snoc absent s s' p.log r b a.stage e;
  counter = a.counter;
}

InOrder-At : (s : Stage) (c : ℤ) (p : Podman) → At s c p → InOrder p
InOrder-At s c p a = record { stage = s; reached = a.stage }

-- A request that is repeated until it succeeds.
until_ok-Goes :
    (s s' : Stage) (c : ℤ) (r : Request) (answers : List Bool) (p : Podman)
    → stage_step s r false ≡ some s
    → stage_step s r true ≡ some s'
    → At s c p
    → Goes (At s' c) (until_ok r answers p)
unfolding until_ok
until_ok-Goes s s' c r [] p e f a = record { stage = s; reached = a.stage }
until_ok-Goes s s' c r (true ∷ later) p e f a = logged-At s s' c r true later p f a
until_ok-Goes s s' c r (false ∷ later) p e f a =
    until_ok-Goes s s' c r later (logged r false later p) e f (logged-At s s c r false later p e a)

raised :
    (c : ℤ) (p : Podman)
    → At absent c p
    → At absent (c +ℤ pos 1) (record p { creation_in_progress = p.creation_in_progress +ℤ pos 1 })
raised c p a = record { stage = a.stage; counter = ap (λ (n : ℤ). n +ℤ pos 1) a.counter }

lowered : (s : Stage) (c : ℤ) (p : Podman) → At s (c +ℤ pos 1) p → At s c (uncounted p)
lowered s c p a = record {
  stage = a.stage;
  counter = eq_of_parts _ _ (omega (int_laws, parts_of_eq a.counter));
}

create_request-Goes :
    (c : ℤ) (p : Podman) → At absent c p → Goes (At created (c +ℤ pos 1)) (create_request p)
unfolding create_request
create_request-Goes c p a =
    until_ok-Goes absent created (c +ℤ pos 1) create p.answers _ refl refl (raised c p a)

start_container-Goes :
    (c : ℤ) (p : Podman) → At created (c +ℤ pos 1) p → Goes (At started c) (start_container p)
unfolding start_container
start_container-Goes c p a = from p.answers
  where
    from :
        (answers : List Bool)
        → Goes (At started c) (elim answers [
          | [] ↦ waits p
          | b ∷ later ↦
              let p' = uncounted (logged start b later p) in if b then done p' else exited p'
        ])
    from [] = InOrder-At created _ p a
    from (true ∷ later) =
        lowered started c _ (logged-At created started _ start true later p refl a)
    from (false ∷ later) =
        InOrder-At created c _
          (lowered created c _ (logged-At created created _ start false later p refl a))

restore_request-Goes :
    (c : ℤ) (p : Podman) → At created (c +ℤ pos 1) p → Goes (At ready c) (restore_request p)
unfolding restore_request
restore_request-Goes c p a = from p.answers
  where
    from :
        (answers : List Bool)
        → Goes (At ready c) (elim answers [
          | [] ↦ waits p
          | b ∷ later ↦
              if b
              then done (uncounted (logged restore b later p))
              else exited (logged restore b later p)
        ])
    from [] = InOrder-At created _ p a
    from (true ∷ later) = lowered ready c _ (logged-At created ready _ restore true later p refl a)
    from (false ∷ later) =
        InOrder-At created _ _ (logged-At created created _ restore false later p refl a)

init_function-Goes : (c : ℤ) (p : Podman) → At started c p → Goes (At ready c) (init_function p)
unfolding init_function
init_function-Goes c p a = until_ok-Goes started ready c init p.answers p refl refl a

run_function-Goes : (c : ℤ) (p : Podman) → At ready c p → Goes (At ready c) (run_function p)
unfolding run_function
run_function-Goes c p a = from p.answers
  where
    from :
        (answers : List Bool)
        → Goes
            (At ready c)
            (elim answers [ [] ↦ waits p | b ∷ later ↦ done (logged run b later p) ])
    from [] = InOrder-At ready c p a
    from (b ∷ later) = logged-At ready ready c run b later p refl a

end_requests-Goes :
    (exported : Bool) (c : ℤ) (p : Podman)
    → At ready c p
    → Goes (At gone c) (end_requests exported p)
unfolding end_requests kill_container export_request
end_requests-Goes false c p a = until_ok-Goes ready gone c kill p.answers p refl refl a
end_requests-Goes true c p a = from p.answers
  where
    from :
        (answers : List Bool)
        → Goes (At gone c) (elim answers [
          | [] ↦ waits p
          | b ∷ later ↦
              if b then done (logged export b later p) else exited (logged export b later p)
        ])
    from [] = InOrder-At ready c p a
    from (true ∷ later) = logged-At ready gone c export true later p refl a
    from (false ∷ later) =
        InOrder-At ready c _ (logged-At ready ready c export false later p refl a)

made-Goes :
    (from_disk : Bool) (c : ℤ) (p : Podman)
    → At absent c p
    → Goes (At ready c) (invocation_requests (if from_disk then restored else cold) p)
unfolding invocation_requests
made-Goes false c p a =
    Goes-then (At created (c +ℤ pos 1)) (At ready c) (create_request p) _
      (create_request-Goes c p a)
      λ p₁ a₁.
        Goes-then (At started c) (At ready c) (start_container p₁) _ (start_container-Goes c p₁ a₁)
          λ p₂ a₂.
            Goes-then (At ready c) (At ready c) (init_function p₂) _ (init_function-Goes c p₂ a₂)
              (run_function-Goes c)
made-Goes true c p a =
    Goes-then (At created (c +ℤ pos 1)) (At ready c) (create_request p) _
      (create_request-Goes c p a)
      λ p₁ a₁.
        Goes-then (At ready c) (At ready c) (restore_request p₁) _ (restore_request-Goes c p₁ a₁)
          (run_function-Goes c)

warm_requests-Goes :
    (n : ℕ) (c : ℤ) (p : Podman) → At ready c p → Goes (At ready c) (warm_requests n p)
unfolding warm_requests invocation_requests
warm_requests-Goes zero c p a = a
warm_requests-Goes (suc n) c p a =
    Goes-then (At ready c) (At ready c) (run_function p) _ (run_function-Goes c p a)
      (warm_requests-Goes n c)

-- Whatever Podman answers, the requests for a container that is made anew or restored, used again
-- any number of times, and killed or exported in the end, are in order: it is started or restored
-- once it has been created, initialised once started, run only when it is ready, and ended once. If
-- all of them come back, the container is gone and `creation_in_progress` is what it was.
pub container_requests-Goes :
    (from_disk : Bool) (warm_starts : ℕ) (exported : Bool) (answers : List Bool) (c : ℤ)
    → Goes (At gone c) (
        container_requests from_disk warm_starts exported
          (record { answers = answers; log = []; creation_in_progress = c }))
unfolding container_requests
container_requests-Goes from_disk warm_starts exported answers c =
    let p : Podman = record { answers = answers; log = []; creation_in_progress = c } in
    Goes-then (At ready c) (At gone c)
      (invocation_requests (if from_disk then restored else cold) p) _
      (made-Goes from_disk c p (record { stage = refl; counter = refl }))
      λ p₁ a₁.
        Goes-then (At ready c) (At gone c) (warm_requests warm_starts p₁) _
          (warm_requests-Goes warm_starts c p₁ a₁) (end_requests-Goes exported c)
