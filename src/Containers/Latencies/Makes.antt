-- ===== src/Containers/Latencies/Makes.antt =====
-- The requests that a part of `test_speeds_containers` makes, one at a time.
use c_faas_emulator.Common.{
  ℕ, ◌+◌, Bool, true, false, List, [], ◌∷◌, ◌++◌, ◌≡◌, refl, ap, sym, ◌∙◌, ◌⊎◌, inl, inr, All,
  All-append, append_assoc, append-nil, if◌then◌else◌, arith, Bool-cases,
}
use c_faas_emulator.Containers.Requests.{Request, init}
use c_faas_emulator.Containers.Latencies.{
  Asked, Bench, Progress, on, exited, waits, ◌>>=◌, noted, ask_once, ask_until,
}

-- What holds of the value, if the thread goes on.
abbrev pub Yields {ℓ κ} : {A : Type ℓ} → (A → Type κ) → Progress A → Type κ
Yields P (on a) = P a
Yields P exited = Unit
Yields P waits = Unit

pub Yields-bind {ℓ κ μ ν} :
    {A : Type ℓ} {B : Type κ} (P : A → Type μ) (Q : B → Type ν) (m : Progress A)
    (f : A → Progress B)
    → Yields P m
    → ((a : A) → P a → Yields Q (f a))
    → Yields Q (m >>= f)
Yields-bind P Q (on a) f h k = k a h
Yields-bind P Q exited f h k = tt
Yields-bind P Q waits f h k = tt

-- The requests that succeeded.
abbrev pub successes : List Asked → List Asked
successes [] = []
successes (a ∷ log) = if a.success then a ∷ successes log else successes log

abbrev pub succeeded : ℕ → Request → ℕ → Asked
succeeded after r i = record { request = r; container = i; after = after; success = true }

-- Only the request to init a container is made again when it fails.
abbrev pub Excused : Asked → Type 0
Excused a = (a.success ≡ true) ⊎ (a.request ≡ init)

-- From `s` to `s'` the clock is read `n` times and the requests `made` succeed.
pub record Makes (n : ℕ) (made : List Asked) (s s' : Bench) : Type 0 where
  pub successes : successes s'.log ≡ successes s.log ++ made
  pub excused : All Excused s.log → All Excused s'.log
  pub readings : s'.readings ≡ s.readings + n

pub successes-append : (xs ys : List Asked) → successes (xs ++ ys) ≡ successes xs ++ successes ys
successes-append [] ys = refl
successes-append (x ∷ xs) ys = elim (Bool-cases x.success) [
  | inl t ↦ rw (t, successes-append xs ys) refl
  | inr t ↦ rw (t, successes-append xs ys) refl
]

pub Makes-nothing : (s : Bench) → Makes 0 [] s s
Makes-nothing s = record {
  successes = sym (append-nil (successes s.log));
  excused = λ e. e;
  readings = omega arith;
}

pub Makes-then :
    (n m : ℕ) (xs ys : List Asked) (s s' s'' : Bench)
    → Makes n xs s s'
    → Makes m ys s' s''
    → Makes (n + m) (xs ++ ys) s s''
Makes-then n m xs ys s s' s'' a b = record {
  successes =
      b.successes
      ∙ ap (λ (l : List Asked). l ++ ys) a.successes
      ∙ append_assoc (successes s.log) xs ys;
  excused = λ e. b.excused (a.excused e);
  readings = omega (arith, a.readings, b.readings);
}

pub noted-Makes :
    (r : Request) (i : ℕ) (later : List Bool) (s : Bench)
    → Makes 0 (succeeded s.readings r i ∷ []) s (noted r i true later s)
noted-Makes r i later s = record {
  successes = successes-append s.log (succeeded s.readings r i ∷ []);
  excused = λ e. All-append _ _ _ e (inl refl, tt);
  readings = omega arith;
}

pub once :
    (r : Request) (i : ℕ) (answers : List Bool) (s : Bench)
    → Yields
        (Makes 0 (succeeded s.readings r i ∷ []) s)
        (elim answers [ [] ↦ waits | b ∷ later ↦ if b then on (noted r i b later s) else exited ])
once r i [] s = tt
once r i (true ∷ later) s = noted-Makes r i later s
once r i (false ∷ later) s = tt

pub ask_once-Makes :
    (r : Request) (i : ℕ) (s : Bench)
    → Yields (Makes 0 (succeeded s.readings r i ∷ []) s) (ask_once r i s)
unfolding ask_once
ask_once-Makes r i s = once r i s.answers s

pub failed-Makes :
    (i : ℕ) (later : List Bool) (s : Bench) → Makes 0 [] s (noted init i false later s)
failed-Makes i later s = record {
  successes =
      successes-append s.log
        (record { request = init; container = i; after = s.readings; success = false } ∷ []);
  excused = λ e. All-append _ _ _ e (inr refl, tt);
  readings = omega arith;
}

pub Yields-mono {ℓ κ μ} :
    {A : Type ℓ} (P : A → Type κ) (Q : A → Type μ) (m : Progress A)
    → ((a : A) → P a → Q a)
    → Yields P m
    → Yields Q m
Yields-mono P Q (on a) f h = f a h
Yields-mono P Q exited f h = tt
Yields-mono P Q waits f h = tt

pub ask_until-Makes :
    (i : ℕ) (answers : List Bool) (s : Bench)
    → Yields (Makes 0 (succeeded s.readings init i ∷ []) s) (ask_until init i answers s)
unfolding ask_until
ask_until-Makes i [] s = tt
ask_until-Makes i (true ∷ later) s = noted-Makes init i later s
ask_until-Makes i (false ∷ later) s =
    Yields-mono _ _ (ask_until init i later (noted init i false later s))
      (λ s' m.
        Makes-then 0 0 [] (succeeded s.readings init i ∷ []) s _ s' (failed-Makes i later s) m)
      (ask_until-Makes i later (noted init i false later s))
