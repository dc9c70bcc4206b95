-- ===== src/Options/Speeds/Sources.antt =====
-- Where the speeds and latencies of a run come from.
use mathlib.Core.Option
use c_faas_emulator.Common.{
  ℕ, ◌+◌, ◌*◌, Bool, true, false, Option, none, some, List, [], ◌∷◌, ◌≡◌, refl, ap, subst, ◌∙◌,
  if◌then◌else◌, ◌||◌, Bool-cases, inl, inr, arith,
}
use c_faas_emulator.Common.Floats.{Floats}
use c_faas_emulator.Common.Int.{ℤ}
use c_faas_emulator.Common.Name.{Name, str_eq, str_eq_sound}
use c_faas_emulator.Containers.Latencies.{
  Latencies, Bench, Progress, on, exited, waits, test_speeds_containers,
}
use c_faas_emulator.Common.Outcome.{
  Outcome, ok, exits, ◌>>=◌, Ensures, Ensures-bind, Ensures-mono, ensured,
}
use c_faas_emulator.Options.{
  Options, Switch, logging, nodisk, podman, net_cache, sleep, fixed, switch_name, input_name,
  read_param, first, read_params, read_options, defaults,
}
use c_faas_emulator.Options.Speeds.{
  Files, Speeds, speed, test_speeds, test_bandwidth, read_cold, fixed_speeds, measured_latencies,
  measure_podman, measure_network, block_size, test_files, set_speeds, read_all_options,
}
use c_faas_emulator.Options.Speeds.Files.{is_one_of, test_speeds-ends}

-- Is a name among the parameters?
abbrev pub mentions : Name → List Name → Bool
mentions name [] = false
mentions name (p ∷ ps) = str_eq p name || mentions name ps

input_name-switch_name : (k : Switch) → str_eq input_name (switch_name k) ≡ false
unfolding str_eq
input_name-switch_name logging = refl
input_name-switch_name nodisk = refl
input_name-switch_name podman = refl
input_name-switch_name net_cache = refl
input_name-switch_name sleep = refl
input_name-switch_name fixed = refl

read_param-switches :
    (k : Switch) (p : Name) (following : Option Name) (o : Options)
    → Ensures
        (λ o'. o'.switches k ≡ str_eq p (switch_name k) || o.switches k)
        (read_param p following o)
unfolding read_param
read_param-switches k p following o = elim (Bool-cases (str_eq p input_name)) [
  | inl input ↦
      let e : str_eq p (switch_name k) ≡ false =
        ap (λ (q : Name). str_eq q (switch_name k)) (str_eq_sound p input_name input)
        ∙ input_name-switch_name k in
      rw (input, e) refl
  | inr other ↦ from following other
]
  where
    from :
        (next : Option Name)
        → str_eq p input_name ≡ false
        → Ensures
            (λ o'. o'.switches k ≡ str_eq p (switch_name k) || o.switches k)
            (read_param p next o)
    from none h = ground (arith, h)
    from (some v) h = ground (arith, h)

read_params-switches :
    (k : Switch) (ps : List Name) (o : Options)
    → Ensures (λ o'. o'.switches k ≡ mentions (switch_name k) ps || o.switches k) (read_params ps o)
unfolding read_params
read_params-switches k [] o = refl
read_params-switches k (p ∷ ps) o = Ensures-bind _ (read_param p (first ps) o) _ λ o' q.
    let put = ensured _ _ o' (read_param-switches k p (first ps) o) q in
    Ensures-mono _ _ (read_params ps o') (λ o'' e. ground (arith, e, put))
      (read_params-switches k ps o')

read_options-switches :
    (k : Switch) (ps : List Name) (fresh : Options)
    → Ensures (λ o. o.switches k ≡ mentions (switch_name k) ps) (read_options ps fresh)
unfolding read_options defaults
read_options-switches k ps fresh =
    Ensures-mono _ _ (read_params ps (defaults fresh)) (λ o e. ground (arith, e))
      (read_params-switches k ps (defaults fresh))

abbrev pub chosen {ℓ} :
    {A : Type ℓ} → (is_fixed measures : Bool) → (constant measured before : A) → A
chosen is_fixed measures constant measured before =
    if is_fixed then constant else if measures then measured else before

abbrev pub measured_or {ℓ} : {A : Type ℓ} → Option Latencies → (Latencies → A) → A → A
measured_or none f before = before
measured_or (some l) f before = f l

abbrev pub with_readings : Progress (Latencies × Bench) → Progress (Option Latencies × ℕ)
with_readings (on (l, b)) = on (some l, b.readings)
with_readings exited = exited
with_readings waits = waits

-- What the thread does about Podman, for the switches `-fixed` and `-podman` and what
-- `test_speeds_containers` does: the latencies that are measured, if any, and how often the clock has
-- been read by then.
abbrev pub podman_run :
    (is_fixed on_podman : Bool) → Progress (Latencies × Bench) → Progress (Option Latencies × ℕ)
podman_run true on_podman t = on (none, 4)
podman_run false false t = on (none, 4)
podman_run false true t = with_readings t

-- Five containers are measured after four readings of the clock.
abbrev pub measured_containers : (ℕ → ℤ) → List Bool → Progress (Latencies × Bench)
measured_containers clock answers =
    test_speeds_containers clock (record { answers = answers; readings = 4; log = [] })

-- What each setting is in the end, for the switches `-fixed` and `-net_cache`, what
-- `podman_run` gives, and the settings `s` after the loop.
abbrev pub sources :
    (fl : Floats)
    → (ℕ → ℤ)
    → (is_fixed on_net : Bool) → Option Latencies × ℕ
    → Speeds fl.Float
    → Speeds fl.Float
sources fl clock is_fixed on_net (l, n) s = record {
  write_speed =
      chosen is_fixed true (fixed_speeds fl).write_speed (speed fl (clock 0) (clock 1))
        s.write_speed;
  read_speed =
      chosen is_fixed true (fixed_speeds fl).read_speed (speed fl (clock 2) (clock 3)) s.read_speed;
  cold_latency =
      chosen is_fixed true (fixed_speeds fl).cold_latency
        (measured_or l (λ t. fl.to_float (fl.of_long t.cold)) s.cold_latency) s.cold_latency;
  restore_latency =
      chosen is_fixed true (fixed_speeds fl).restore_latency
        (measured_or l (λ t. fl.to_float (fl.of_long t.restore_latency)) s.restore_latency)
        s.restore_latency;
  net_bandwidth =
      chosen is_fixed on_net (fixed_speeds fl).net_bandwidth
        (test_bandwidth fl (clock n) (clock (n + 1))) s.net_bandwidth;
}

-- The code exits, waits or gives a result as the thread does.
abbrev pub EndsAs : {A B : Type 0} → Progress A → (A → B → Type 0) → Outcome (Option B) → Type 0
EndsAs {B} (on a) P r = (b : B) × (r ≡ ok (some b)) × P a b
EndsAs exited P r = r ≡ exits
EndsAs waits P r = r ≡ ok none

EndsAs-map :
    {A B C : Type 0} (run : Progress A) (P : A → B → Type 0) (Q : A → C → Type 0) (f : B → C)
    (r : Outcome (Option B))
    → ((a : A) (b : B) → P a b → Q a (f b))
    → EndsAs run P r
    → EndsAs run Q (do t ← r; ok (Option.map f t))
EndsAs-map (on a) P Q f r h (b, e, p) = (f b, rw e refl, h a b p)
EndsAs-map exited P Q f r h e = rw e refl
EndsAs-map waits P Q f r h e = rw e refl

set_speeds-sources :
    (fl : Floats) (clock : ℕ → ℤ) (answers : List Bool) (files : Files) (o : Options)
    (s : Speeds fl.Float)
    → EndsAs
        (podman_run (o.switches fixed) (o.switches podman) (measured_containers clock answers))
        (λ m (r : Files × Speeds fl.Float).
          r.1 ≡ sources fl clock (o.switches fixed) (o.switches net_cache) m s)
        (set_speeds fl clock answers files o s)
unfolding set_speeds measure_podman
set_speeds-sources fl clock answers files o s =
    from (o.switches fixed) (o.switches podman) (o.switches net_cache)
      (measured_containers clock answers) (test_speeds-ends fl clock files s)
  where
    measured :
        Progress (Latencies × Bench) → Speeds fl.Float → Outcome (Option (Speeds fl.Float × ℕ))
    measured t s₁ = elim t [
      | on r ↦ ok (some (measured_latencies fl r.0 s₁, r.1.readings))
      | exited ↦ exits
      | waits ↦ ok none
    ]

    from :
        (is_fixed on_podman on_net : Bool) (t : Progress (Latencies × Bench))
        → ((files' : Files) × (test_speeds fl clock files s
              ≡ ok (
                5 * block_size,
                files',
                record s {
                  write_speed = speed fl (clock 0) (clock 1);
                  read_speed = speed fl (clock 2) (clock 3);
                },
              ))
            × ((n : Name) → files' n ≡ (if is_one_of test_files n then none else files n)))
        → EndsAs
            (podman_run is_fixed on_podman t)
            (λ m (r : Files × Speeds fl.Float). r.1 ≡ sources fl clock is_fixed on_net m s)
            (if is_fixed then ok (some (files, fixed_speeds fl)) else (do
              (n, files', s₁) ← test_speeds fl clock files s
              m ← if on_podman then measured t s₁ else ok (some (s₁, 4))
              ok (Option.map (λ p. (files', measure_network fl clock on_net p)) m)))
    from true p n t h = (_, refl, refl)
    from false p n t (files', e, _) = rw e (after p n t files')
      where
        final : Speeds fl.Float
        final = record s {
          write_speed = speed fl (clock 0) (clock 1);
          read_speed = speed fl (clock 2) (clock 3);
        }

        after :
            (on_podman on_net : Bool) (t : Progress (Latencies × Bench)) (files' : Files)
            → EndsAs
                (podman_run false on_podman t)
                (λ m (r : Files × Speeds fl.Float). r.1 ≡ sources fl clock false on_net m s)
                (do
                  m ← if on_podman then measured t final else ok (some (final, 4))
                  ok (Option.map (λ p. (files', measure_network fl clock on_net p)) m))
        after false true t files' = (_, refl, refl)
        after false false t files' = (_, refl, refl)
        after true true (on r) files' = (_, refl, refl)
        after true false (on r) files' = (_, refl, refl)
        after true n exited files' = refl
        after true n waits files' = refl

-- If the parameters can be read, `read_options` ends as `test_speeds_containers` does if it is called,
-- with `-podman` and without `-fixed`: it exits if that exits, and waits if that waits, for whatever
-- curl answers. Else it comes back. If it comes back, the speeds and latencies are: with `-fixed`
-- anywhere among the parameters the constants, whatever else is given; without it the measured speeds
-- of the disk, with `-podman` the latencies that `test_speeds_containers` has measured, which replace
-- that of `-cold`, and with `-net_cache` the bandwidth measured between the next two readings of the
-- clock. What none of these sets is what `-cold` or `malloc` left.
pub read_all_options-sources :
    (fl : Floats) (clock : ℕ → ℤ) (answers : List Bool) (files : Files) (params : List Name)
    (fresh : Options) (s : Speeds fl.Float) (o : Options)
    → read_options params fresh ≡ ok o
    → EndsAs
        (podman_run
          (mentions (switch_name fixed) params)
          (mentions (switch_name podman) params)
          (measured_containers clock answers))
        (λ m (r : Options × Files × Speeds fl.Float).
          (r.0 ≡ o)
          × (r.2
              ≡ sources fl clock
                  (mentions (switch_name fixed) params)
                  (mentions (switch_name net_cache) params)
                  m
                  (record s { cold_latency = read_cold fl params s.cold_latency })))
        (read_all_options fl clock answers files params fresh s)
unfolding read_all_options
read_all_options-sources fl clock answers files params fresh s o e =
    let after : Speeds fl.Float = record s { cold_latency = read_cold fl params s.cold_latency } in
    let set = λ (k : Switch). ensured _ _ o (read_options-switches k params fresh) e in
    let rest : EndsAs
        (podman_run (mentions (switch_name fixed) params) (mentions (switch_name podman) params)
          (measured_containers clock answers))
        (λ m (r : Files × Speeds fl.Float).
          r.1
          ≡ sources fl clock (mentions (switch_name fixed) params)
              (mentions (switch_name net_cache) params) m after)
        (set_speeds fl clock answers files o after) =
      subst
        (λ (b : Bool × Bool × Bool).
          EndsAs (podman_run b.0 b.1 (measured_containers clock answers))
            (λ m (r : Files × Speeds fl.Float). r.1 ≡ sources fl clock b.0 b.2 m after)
            (set_speeds fl clock answers files o after))
        (rw (set fixed, set podman, set net_cache) refl)
        (set_speeds-sources fl clock answers files o after) in
    rw e (
      EndsAs-map _ _ _ (λ (files', s'). (o, files', s')) (set_speeds fl clock answers files o after)
        (λ m r q. (refl, q)) rest)
