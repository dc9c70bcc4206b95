-- ===== src/Containers/Latencies/Measured.antt =====
-- What is measured by `test_speeds_containers`.
use c_faas_emulator.Common.{
  ℕ, ◌+◌, Bool, true, List, [], ◌∷◌, ◌++◌, ◌≡◌, refl, ap, ◌∙◌, ◌⊎◌, inl, inr, All, subst, replicate,
  if◌then◌else◌, arith, Bool-cases,
}
use c_faas_emulator.Common.Int.{ℤ, pos, ◌+ℤ◌, ◌-ℤ◌, ◌≤ℤ◌, ◌<ℤ◌, ltb_ℤ, ltb_ℤ→lt, ltb_ℤ→le, zero-+ℤ}
use c_faas_emulator.Containers.Requests.{create, start, init, export}
use c_faas_emulator.Containers.Latencies.{
  Asked, Bench, on, ask_once, ask_until, test_create_container, test_checkpoint, start_and_init,
  for_each, five, quot, Latencies, tick, restore_loop, test_speeds_containers,
}
use c_faas_emulator.Containers.Latencies.Makes.{
  Yields, Yields-bind, successes, succeeded, Excused, Makes, Makes-then, ask_once-Makes,
}
use c_faas_emulator.Containers.Latencies.Loops.{
  Round, in_each, for_each-Makes, start_and_init-Round, restores, spans, restore_loop-Makes,
}

-- The requests that are to succeed, if the first reading of the clock is reading `n`.
abbrev pub expected_requests : ℕ → List Asked
expected_requests n =
    in_each (λ i. succeeded n create i ∷ []) five
    ++ (in_each (λ i. succeeded (n + 1) start i ∷ succeeded (n + 1) init i ∷ []) five
        ++ (in_each (λ i. succeeded (n + 3) export i ∷ []) five
            ++ (in_each (λ i. succeeded (n + 4) create i ∷ []) five ++ restores (n + 4) five)))

-- What is stored, if the first reading of the clock is reading `n`.
pub record Measured (clock : ℕ → ℤ) (n : ℕ) (l : Latencies) : Type 0 where
  pub cold : l.cold ≡ quot (clock (n + 1) -ℤ clock n) 5
  pub checkpoint : l.checkpoint ≡ quot (clock (n + 3) -ℤ clock (n + 2)) 5
  pub restore :
      let average : ℤ = quot (spans clock (n + 4) five) 5 in
      ((average ≤ℤ l.cold -ℤ pos 100) × (l.restore_latency ≡ average))
      ⊎ ((l.cold -ℤ pos 100 <ℤ average) × (l.restore_latency ≡ l.cold -ℤ pos 100))

create-Round : Round (λ n i. succeeded n create i ∷ []) test_create_container
unfolding test_create_container
create-Round i s = ask_once-Makes create i s

checkpoint-Round : Round (λ n i. succeeded n export i ∷ []) test_checkpoint
unfolding test_checkpoint
checkpoint-Round i s = ask_once-Makes export i s

-- One reading more at the end.
ticked-Makes :
    (clock : ℕ → ℤ) (n : ℕ) (xs : List Asked) (s t : Bench)
    → Makes n xs s t
    → Makes (n + 1) xs s (tick clock t).1
ticked-Makes clock n xs s t m = record {
  successes = m.successes;
  excused = m.excused;
  readings = omega (arith, m.readings);
}

-- What is made next, told from the first reading on.
next-Makes :
    (made : ℕ → List Asked) (n m : ℕ) (xs : List Asked) (s s' s'' : Bench)
    → Makes n xs s s'
    → Makes m (made s'.readings) s' s''
    → Makes (n + m) (xs ++ made (s.readings + n)) s s''
next-Makes made n m xs s s' s'' a b =
    Makes-then n m xs (made (s.readings + n)) s s' s'' a
      (subst (λ r. Makes m (made r) s' s'') a.readings b)

final-Measured :
    (clock : ℕ → ℤ) (n : ℕ) (c p d : ℤ)
    → c ≡ quot (clock (n + 1) -ℤ clock n) 5
    → p ≡ quot (clock (n + 3) -ℤ clock (n + 2)) 5
    → d ≡ quot (spans clock (n + 4) five) 5
    → Measured clock n (record {
      cold = c;
      checkpoint = p;
      restore_latency = if ltb_ℤ (c -ℤ pos 100) d then c -ℤ pos 100 else d;
    })
final-Measured clock n c p d ec ep ed = elim (Bool-cases (ltb_ℤ (c -ℤ pos 100) d)) [
  | inl more ↦ rw more (record {
    cold = ec;
    checkpoint = ep;
    restore = inr (subst (λ t. (c -ℤ pos 100) <ℤ t) ed (ltb_ℤ→lt (c -ℤ pos 100) d more), refl);
  })
  | inr fits ↦ rw fits (record {
    cold = ec;
    checkpoint = ep;
    restore = inl (subst (λ t. t ≤ℤ (c -ℤ pos 100)) ed (ltb_ℤ→le (c -ℤ pos 100) d fits), ed);
  })
]

latencies-Measured :
    (clock : ℕ → ℤ) (n r₁ r₂ r₃ r₄ r₅ : ℕ) (d : ℤ)
    → r₁ ≡ n
    → r₂ ≡ n + 1
    → r₃ ≡ n + 2
    → r₄ ≡ n + 3
    → r₅ ≡ n + 4
    → d ≡ pos 0 +ℤ spans clock r₅ five
    → let c : ℤ = quot (clock r₂ -ℤ clock r₁) 5 in
      Measured clock n (record {
        cold = c;
        checkpoint = quot (clock r₄ -ℤ clock r₃) 5;
        restore_latency = if ltb_ℤ (c -ℤ pos 100) (quot d 5) then c -ℤ pos 100 else quot d 5;
      })
latencies-Measured clock n r₁ r₂ r₃ r₄ r₅ d e₁ e₂ e₃ e₄ e₅ sum =
    final-Measured clock n (quot (clock r₂ -ℤ clock r₁) 5) (quot (clock r₄ -ℤ clock r₃) 5)
      (quot d 5) (rw (e₁, e₂) refl) (rw (e₃, e₄) refl)
      (ap (λ (t : ℤ). quot t 5)
        (sum ∙ zero-+ℤ (spans clock r₅ five) ∙ ap (λ (r : ℕ). spans clock r five) e₅))

abbrev pub bench : List Bool → ℕ → Bench
bench answers n = record { answers = answers; readings = n; log = [] }

test_speeds_containers-Yields :
    (clock : ℕ → ℤ) (answers : List Bool) (n : ℕ)
    → Yields
        (λ r.
          Measured clock n r.0
          × (successes r.1.log ≡ expected_requests n)
          × (All Excused r.1.log)
          × (r.1.readings ≡ n + 14))
        (test_speeds_containers clock (bench answers n))
unfolding test_speeds_containers
test_speeds_containers-Yields clock answers n =
    Yields-bind _ _ (for_each test_create_container five s) _
      (for_each-Makes (λ r i. succeeded r create i ∷ []) _ create-Round five s)
      λ s₁ m₁.
        let s₂ : Bench = (tick clock s₁).1 in
        let m₂ = ticked-Makes clock 0 _ s s₁ m₁ in
        Yields-bind _ _ (for_each start_and_init five s₂) _
          (for_each-Makes cold_round _ start_and_init-Round five s₂)
          λ s₃ n₃.
            let m₃ = next-Makes (λ r. in_each (cold_round r) five) 1 0 _ s s₂ s₃ m₂ n₃ in
            let m₅ = ticked-Makes clock 2 _ s (tick clock s₃).1 (ticked-Makes clock 1 _ s s₃ m₃) in
            let s₅ : Bench = (tick clock (tick clock s₃).1).1 in
            Yields-bind _ _ (for_each test_checkpoint five s₅) _
              (for_each-Makes (λ r i. succeeded r export i ∷ []) _ checkpoint-Round five s₅)
              λ s₆ n₆.
                let m₇ = ticked-Makes clock 3 _ s s₆ (
                  next-Makes (λ r. in_each (λ i. succeeded r export i ∷ []) five) 3 0 _ s s₅ s₆ m₅
                    n₆) in
                let s₇ : Bench = (tick clock s₆).1 in
                Yields-bind _ _ (for_each test_create_container five s₇) _
                  (for_each-Makes (λ r i. succeeded r create i ∷ []) _ create-Round five s₇)
                  λ s₈ n₈.
                    let m₈ =
                      next-Makes (λ r. in_each (λ i. succeeded r create i ∷ []) five) 4 0 _ s s₇ s₈
                        m₇ n₈ in
                    Yields-bind _ _ (restore_loop clock five (pos 0) s₈) _
                      (restore_loop-Makes clock five (pos 0) s₈)
                      λ r h.
                        let m₉ = next-Makes (λ n'. restores n' five) 4 10 _ s s₈ r.1 m₈ h.0 in
                        (
                          latencies-Measured clock n s₁.readings s₃.readings (s₃.readings + 1)
                              s₆.readings s₈.readings r.0 (omega (arith, m₁.readings))
                              (omega (arith, m₃.readings)) (omega (arith, m₃.readings))
                              (omega (arith, m₇.readings)) m₈.readings h.1,
                          m₉.successes,
                          m₉.excused tt,
                          m₉.readings,
                        )
  where
    s : Bench
    s = bench answers n

    cold_round : ℕ → ℕ → List Asked
    cold_round r i = succeeded r start i ∷ succeeded r init i ∷ []

test_speeds_containers-ends :
    (clock : ℕ → ℤ) (rest : List Bool) (n : ℕ)
    → (r : Latencies × Bench) × (test_speeds_containers clock (bench (replicate 30 true ++ rest) n)
        ≡ on r)
      × (r.1.answers ≡ rest)
unfolding test_speeds_containers ask_once ask_until
test_speeds_containers-ends clock rest n = (_, refl, refl)

-- Whatever curl answers, if `test_speeds_containers` comes back, the requests that succeeded are
-- these, in this order and between these readings of the clock: five containers are made, then each
-- is started and initialised, in the time that gives the cold latency, then all are exported, then
-- five are made again and each is restored, in the time that counts for it. Only the requests to
-- init were repeated. The latencies are the averages of those times, save that the latency of a
-- restore is that of a cold start less 100 ms if the average of its times is more than that. If curl
-- reports success each time, it comes back, after 30 requests.
pub test_speeds_containers-Measured :
    (clock : ℕ → ℤ) (answers rest : List Bool) (n : ℕ)
    → Yields
        (λ r.
          Measured clock n r.0
          × (successes r.1.log ≡ expected_requests n)
          × (All Excused r.1.log)
          × (r.1.readings ≡ n + 14))
        (test_speeds_containers clock (bench answers n))
      × ((r : Latencies × Bench) × (test_speeds_containers clock
              (bench (replicate 30 true ++ rest) n)
            ≡ on r)
          × (r.1.answers ≡ rest))
test_speeds_containers-Measured clock answers rest n =
    (test_speeds_containers-Yields clock answers n, test_speeds_containers-ends clock rest n)
