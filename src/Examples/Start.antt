-- ===== src/Examples/Start.antt =====
-- Lines of a trace, the choice of a start, and the options.
use c_faas_emulator.Common.{
  none, List, ℕ, ◌*◌, if◌then◌else◌, Bool, true, false, not, ◌&&◌, ◌||◌, [], ◌∷◌, ◌≡◌, refl, ◌==◌,
  replicate, arith,
}
use c_faas_emulator.Common.Int.{ℤ, pos}
use c_faas_emulator.Common.Name.{Name, codes, str_eq}
use c_faas_emulator.Common.Outcome.{ok, fault}
use c_faas_emulator.Invocation.StartType.{
  start_type, start_type-best, from_disk, from_network, cold_start,
}
use c_faas_emulator.Invocation.Line.{line_to_invocation}
use c_faas_emulator.Invocation.Line.Fields.{trace_line, Numeral, line_to_invocation-overflow}
use c_faas_emulator.Common.Text.{atoi}
use c_faas_emulator.Options.{Options, read_options, switch_name, setting_name, defaults}
use c_faas_emulator.Options.Speeds.{Files, Speeds, read_cold, read_all_options}
use c_faas_emulator.Options.Speeds.Sources.{
  EndsAs, podman_run, measured_containers, sources, read_all_options-sources,
}
use c_faas_emulator.Examples.{invocation_of, tenths}

start_type-best_example :
    let chosen : ℕ = start_type tenths true true (pos 300) (pos 400) (pos 900) in
    let disk_best : Bool =
      true && (tenths.lt (pos 300) (pos 900) && (not true || tenths.lt (pos 300) (pos 400))) in
    let network_best : Bool =
      true && (tenths.lt (pos 400) (pos 900) && (not true || tenths.lt (pos 400) (pos 300))) in
    ((chosen == from_disk) ≡ disk_best)
    × ((chosen == from_network) ≡ network_best)
    × ((chosen == cold_start) ≡ not (disk_best || network_best))
start_type-best_example = start_type-best tenths true true (pos 300) (pos 400) (pos 900) (λ h. refl)

pub one_digit : Numeral (7 ∷ [])
one_digit = record { digits = (omega arith, tt); some_digit = ground arith }

-- 66 bytes.
abbrev long_hash : Name
long_hash = replicate 66 97

line_to_invocation-overflow_example :
    line_to_invocation
      (invocation_of [] 0)
      (trace_line (codes "o") long_hash (7 ∷ []) (7 ∷ []) (7 ∷ []))
    ≡ fault
line_to_invocation-overflow_example =
    line_to_invocation-overflow (codes "o") long_hash (7 ∷ []) (7 ∷ []) (7 ∷ []) (refl, tt)
      (ground arith) (ground arith) (ground arith) one_digit one_digit one_digit
      (invocation_of [] 0) (ground arith)

abbrev no_options : Options
no_options = record { input_file = none; switches = λ _. false; settings = λ _. pos 7 }

abbrev no_speeds : Speeds ℤ
no_speeds = record {
  write_speed = pos 7;
  read_speed = pos 7;
  cold_latency = pos 7;
  restore_latency = pos 7;
  net_bandwidth = pos 7;
}

abbrev hundreds : ℕ → ℤ
hundreds n = pos (100 * n)

-- Curl reports success each time.
abbrev successes : List Bool
successes = replicate 30 true

-- `-podman` with a `-cold` that does not count.
abbrev podman_params : List Name
podman_params = codes "-cold" ∷ codes "3" ∷ codes "-podman" ∷ []

abbrev podman_options : Options
podman_options = record {
  input_file = none;
  switches = λ k.
      if str_eq (codes "-podman") (switch_name k)
      then true
      else if str_eq (codes "3") (switch_name k)
      then true
      else if str_eq (codes "-cold") (switch_name k)
      then true
      else false;
  settings = λ k.
      if str_eq (codes "-cold") (setting_name k)
      then atoi (codes "3")
      else (defaults no_options).settings k;
}

podman_options-read : read_options podman_params no_options ≡ ok podman_options
unfolding read_options str_eq
podman_options-read = refl

read_all_options-sources_example :
    EndsAs
      (podman_run false true (measured_containers hundreds successes))
      (λ m (r : Options × Files × Speeds ℤ).
        (r.0 ≡ podman_options)
        × (r.2
            ≡ sources tenths hundreds false false m
                (record no_speeds { cold_latency = read_cold tenths podman_params (pos 7) })))
      (read_all_options tenths hundreds successes (λ _. none) podman_params no_options no_speeds)
unfolding str_eq
read_all_options-sources_example =
    read_all_options-sources tenths hundreds successes (λ _. none) podman_params no_options
      no_speeds podman_options podman_options-read
