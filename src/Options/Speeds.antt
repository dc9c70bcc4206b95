-- ===== src/Options/Speeds.antt =====
-- source/option_reader.c: the speeds and latencies, which are measured or fixed: `test_speeds`,
-- `test_bandwidth` and the end of `read_options`. What `malloc` left in a field that is never set is a
-- value like another. `clock n` is what the n-th call of `getMs` gives, and the answers are whether
-- curl reports success, one for each request.
pub mod Files
pub mod Sources
use mathlib.Core.Option
use c_faas_emulator.Common.{
  ℕ, suc, ◌+◌, min, Bool, true, false, Option, none, some, List, [], ◌∷◌, if◌then◌else◌,
}
use c_faas_emulator.Common.Floats.{Floats}
use c_faas_emulator.Common.Int.{ℤ, pos, ◌-ℤ◌}
use c_faas_emulator.Common.Name.{Name, codes, str_eq}
use c_faas_emulator.Common.Outcome.{Outcome, ok, exits, fault, ◌>>=◌}
use c_faas_emulator.Common.Text.{atoi}
use c_faas_emulator.Containers.Latencies.{Latencies, on, exited, waits, test_speeds_containers}
use c_faas_emulator.Options.{
  Options, fixed, podman, net_cache, cold, setting_name, input_name, first, read_options,
}

-- The files, with their sizes.
abbrev pub Files : Type 0
Files = Name → Option ℕ

abbrev pub put : Name → Option ℕ → Files → Files
put name v files = λ n. if str_eq n name then v else files n

abbrev pub block_size : ℕ
block_size = 200000000

abbrev pub test_files : List Name
test_files = codes ".test1" ∷ codes ".test2" ∷ codes ".test3" ∷ codes ".test4" ∷ codes ".test5" ∷ []

-- `fopen(…, "w")` and `fwrite`.
unfoldable pub write_tests : List Name → Files → Files
write_tests [] files = files
write_tests (f ∷ fs) files = write_tests fs (put f (some block_size) files)

-- `fopen(…, "r")` and `fread`, which is undefined if there is no such file: the bytes read.
unfoldable pub read_tests : List Name → Files → Outcome ℕ
read_tests [] files = ok 0
read_tests (f ∷ fs) files = elim (files f) [
  | none ↦ fault
  | some size ↦ do n ← read_tests fs files; ok (min size block_size + n)
]

-- `remove`
unfoldable pub remove_tests : List Name → Files → Files
remove_tests [] files = files
remove_tests (f ∷ fs) files = remove_tests fs (put f none files)

-- The values of the options that are floats.
pub record Speeds (Float : Type 0) : Type 0 where
  pub write_speed : Float
  pub read_speed : Float
  pub cold_latency : Float
  pub restore_latency : Float
  pub net_bandwidth : Float

module _ (fl : Floats) where
  open fl use {Float, literal, of_int, of_long, to_float, mul, div, sub}

  -- A speed over so many milliseconds, in MB/ms.
  unfoldable pub speed : ℤ → ℤ → Float
  speed begun ended =
      let duration = mul (sub (of_long ended) (of_long begun)) (literal (codes "0.001")) in
      to_float (div (div (literal (codes "1000.0")) duration) (of_long (pos 1000)))

  -- The bytes that were read, the files, and the settings.
  unfoldable pub test_speeds : (ℕ → ℤ) → Files → Speeds Float → Outcome (ℕ × Files × Speeds Float)
  unfolding write_tests read_tests remove_tests speed
  test_speeds clock files s = do
    let written = write_tests test_files files
    n ← read_tests test_files written
    ok (
      n,
      remove_tests test_files written,
      record s { write_speed = speed (clock 0) (clock 1); read_speed = speed (clock 2) (clock 3) },
    )

  -- `200.0 / duration`, with the time between two readings of the clock.
  unfoldable pub test_bandwidth : ℤ → ℤ → Float
  test_bandwidth begun ended =
      to_float (div (literal (codes "200.0")) (to_float (of_long (ended -ℤ begun))))

  -- What the loop of `read_options` does to `cold_latency`.
  unfoldable pub read_cold : List Name → Float → Float
  read_cold [] c = c
  read_cold (p ∷ ps) c =
      let set : Float = elim (first ps) [
        | none ↦ c
        | some v ↦ to_float (mul (literal (codes "0.001")) (of_int (atoi v)))
      ] in
      if str_eq p input_name
      then read_cold ps c
      else read_cold ps (if str_eq p (setting_name cold) then set else c)

  unfoldable pub fixed_speeds : Speeds Float
  fixed_speeds = record {
    read_speed = to_float (literal (codes "1.249"));
    cold_latency = of_int (pos 1196);
    write_speed = to_float (literal (codes "0.5"));
    restore_latency = of_int (pos 999);
    net_bandwidth = to_float (div (literal (codes "3.59")) (literal (codes "8.0")));
  }

  abbrev pub measured_latencies : Latencies → Speeds Float → Speeds Float
  measured_latencies l s = record s {
    cold_latency = to_float (of_long l.cold);
    restore_latency = to_float (of_long l.restore_latency);
  }

  -- `test_speeds_containers(options)`, after the four readings of `test_speeds`: the settings, and how
  -- often the clock has been read; `none` if it waits for an answer.
  unfoldable pub measure_podman :
      (ℕ → ℤ) → List Bool → Speeds Float → Outcome (Option (Speeds Float × ℕ))
  measure_podman clock answers s =
      elim (test_speeds_containers clock (record { answers = answers; readings = 4; log = [] })) [
        | on r ↦ ok (some (measured_latencies r.0 s, r.1.readings))
        | exited ↦ exits
        | waits ↦ ok none
      ]

  abbrev pub measure_network : (ℕ → ℤ) → Bool → Speeds Float × ℕ → Speeds Float
  measure_network clock on_net (s, n) =
      if on_net then record s { net_bandwidth = test_bandwidth (clock n) (clock (n + 1)) } else s

  -- The end of `read_options`, after the loop. The answers are those of curl, one after the other.
  unfoldable pub set_speeds :
      (ℕ → ℤ) → List Bool → Files → Options → Speeds Float → Outcome (Option (Files × Speeds Float))
  unfolding test_speeds test_bandwidth fixed_speeds measure_podman
  set_speeds clock answers files o s =
      let measure = do
        (n, files', s₁) ← test_speeds clock files s
        m ← if o.switches podman then measure_podman clock answers s₁ else ok (some (s₁, 4))
        ok (Option.map (λ t. (files', measure_network clock (o.switches net_cache) t)) m)
      in if o.switches fixed then ok (some (files, fixed_speeds)) else measure

  unfoldable pub read_all_options :
      (ℕ → ℤ)
      → List Bool
      → Files
      → List Name
      → Options
      → Speeds Float
      → Outcome (Option (Options × Files × Speeds Float))
  unfolding read_cold set_speeds
  read_all_options clock answers files params fresh s = do
    o ← read_options params fresh
    r ←
        set_speeds clock answers files o
          (record s { cold_latency = read_cold params s.cold_latency })
    ok (Option.map (λ (files', s'). (o, files', s')) r)
