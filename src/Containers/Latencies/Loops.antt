-- ===== src/Containers/Latencies/Loops.antt =====
-- The loops over the five containers.
use c_faas_emulator.Common.{
  ℕ, ◌+◌, List, [], ◌∷◌, ◌++◌, ◌≡◌, refl, sym, ◌∙◌, append-nil, subst, arith,
}
use c_faas_emulator.Common.Int.{ℤ, pos, ◌+ℤ◌, ◌-ℤ◌, int_laws, +ℤ_assoc}
use c_faas_emulator.Containers.Requests.{start, init, restore}
use c_faas_emulator.Containers.Latencies.{
  Asked, Bench, Progress, ask_once, ask_until, test_start_container, test_init_container,
  test_restore, start_and_init, for_each, tick, restore_loop,
}
use c_faas_emulator.Containers.Latencies.Makes.{
  Yields, Yields-bind, successes, succeeded, Makes, Makes-nothing, Makes-then, ask_once-Makes,
  Yields-mono, ask_until-Makes,
}

-- What is made of container `i` in a round of a loop that does not read the clock.
abbrev pub Round : (ℕ → ℕ → List Asked) → (ℕ → Bench → Progress Bench) → Type 0
Round made f = (i : ℕ) (s : Bench) → Yields (Makes 0 (made s.readings i) s) (f i s)

abbrev pub in_each : (ℕ → List Asked) → List ℕ → List Asked
in_each made [] = []
in_each made (i ∷ is) = made i ++ in_each made is

pub for_each-Makes :
    (made : ℕ → ℕ → List Asked) (f : ℕ → Bench → Progress Bench)
    → Round made f
    → (is : List ℕ) (s : Bench)
    → Yields (Makes 0 (in_each (made s.readings) is) s) (for_each f is s)
unfolding for_each
for_each-Makes made f round [] s = Makes-nothing s
for_each-Makes made f round (i ∷ is) s = Yields-bind _ _ (f i s) (for_each f is) (round i s) λ s' m.
    Yields-mono _ _ (for_each f is s')
      (λ s'' m'.
        Makes-then 0 0 (made s.readings i) (in_each (made s.readings) is) s s' s'' m
          (same s s' is s'' m m'))
      (for_each-Makes made f round is s')
  where
    same :
        (s s' : Bench) (is : List ℕ) (s'' : Bench)
        → Makes 0 (made s.readings i) s s'
        → Makes 0 (in_each (made s'.readings) is) s' s''
        → Makes 0 (in_each (made s.readings) is) s' s''
    same s s' is s'' m m' =
        let e : s'.readings ≡ s.readings = omega (arith, m.readings) in
        subst (λ r. Makes 0 (in_each (made r) is) s' s'') e m'

pub start_and_init-Round :
    Round (λ n i. succeeded n start i ∷ succeeded n init i ∷ []) start_and_init
unfolding start_and_init test_start_container test_init_container
start_and_init-Round i s =
    Yields-bind _ _ (ask_once start i s) (λ t. ask_until init i t.answers t)
      (ask_once-Makes start i s)
      λ s' m.
        Yields-mono _ _ (ask_until init i s'.answers s')
          (λ s'' m'.
            let e : s'.readings ≡ s.readings = omega (arith, m.readings) in
            Makes-then 0 0 (succeeded s.readings start i ∷ []) (succeeded s.readings init i ∷ []) s
              s' s'' m (subst (λ r. Makes 0 (succeeded r init i ∷ []) s' s'') e m'))
          (ask_until-Makes i s'.answers s')

pub tick-Makes : (clock : ℕ → ℤ) (s : Bench) → Makes 1 [] s (tick clock s).1
tick-Makes clock s = record {
  successes = sym (append-nil (successes s.log));
  excused = λ e. e;
  readings = refl;
}

-- The restores, with a reading of the clock before and after each, from reading `n` on.
abbrev pub restores : ℕ → List ℕ → List Asked
restores n [] = []
restores n (i ∷ is) = succeeded (n + 1) restore i ∷ restores (n + 2) is

-- The sum of the times between the two readings of each.
abbrev pub spans : (ℕ → ℤ) → ℕ → List ℕ → ℤ
spans clock n [] = pos 0
spans clock n (i ∷ is) = (clock (n + 1) -ℤ clock n) +ℤ spans clock (n + 2) is

abbrev pub twice : List ℕ → ℕ
twice [] = 0
twice (i ∷ is) = 2 + twice is

pub restore_round-Makes :
    (clock : ℕ → ℤ) (i : ℕ) (s : Bench)
    → Yields
        (λ t. Makes 2 (succeeded (s.readings + 1) restore i ∷ []) s (tick clock t).1)
        (test_restore i (tick clock s).1)
unfolding test_restore
restore_round-Makes clock i s =
    let s₁ : Bench = (tick clock s).1 in
    Yields-mono _ _ (ask_once restore i s₁)
      (λ t m.
        Makes-then 1 1 [] (succeeded (s.readings + 1) restore i ∷ []) s s₁ (tick clock t).1
          (tick-Makes clock s)
          (Makes-then 0 1 (succeeded (s.readings + 1) restore i ∷ []) [] s₁ t (tick clock t).1 m
            (tick-Makes clock t)))
      (ask_once-Makes restore i s₁)

pub restore_loop-Makes :
    (clock : ℕ → ℤ) (is : List ℕ) (durations : ℤ) (s : Bench)
    → Yields
        (λ r.
          Makes (twice is) (restores s.readings is) s r.1
          × (r.0 ≡ durations +ℤ spans clock s.readings is))
        (restore_loop clock is durations s)
unfolding restore_loop
restore_loop-Makes clock [] durations s = (Makes-nothing s, omega int_laws)
restore_loop-Makes clock (i ∷ is) durations s =
    Yields-bind _ _ (test_restore i (tick clock s).1) _ (restore_round-Makes clock i s) λ s₂ m.
      let s₃ : Bench = (tick clock s₂).1 in
      let e : s₃.readings ≡ s.readings + 2 = m.readings in
      let e' : s₂.readings ≡ s.readings + 1 = omega (arith, e) in
      let d : ℤ = durations +ℤ (clock s₂.readings -ℤ clock s.readings) in
      Yields-mono _ _ (restore_loop clock is d s₃)
        (λ r h. (
          Makes-then 2 (twice is) (succeeded (s.readings + 1) restore i ∷ [])
              (restores (s.readings + 2) is) s s₃ r.1 m
              (subst (λ n. Makes (twice is) (restores n is) s₃ r.1) e h.0),
          h.1 ∙ summed s₂.readings s₃.readings e' e,
        ))
        (restore_loop-Makes clock is d s₃)
  where
    summed :
        (n m : ℕ)
        → n ≡ s.readings + 1
        → m ≡ s.readings + 2
        → durations +ℤ (clock n -ℤ clock s.readings) +ℤ spans clock m is
          ≡ durations
            +ℤ (clock (s.readings + 1) -ℤ clock s.readings +ℤ spans clock (s.readings + 2) is)
    summed n m e' e =
        rw (e', e)
          (+ℤ_assoc durations (clock (s.readings + 1) -ℤ clock s.readings)
            (spans clock (s.readings + 2) is))
