-- ===== src/Options.antt =====
-- source/option_reader.c: the loop of `read_options` over the parameters of the program. `-cold` is
-- kept as the number that is read; the latency it stands for, and the others, are in
-- Options/Speeds.antt.
pub mod Last
pub mod Speeds
use c_faas_emulator.Common.{
  Bool, true, false, ◌&&◌, ◌||◌, Option, none, some, List, [], ◌∷◌, if◌then◌else◌,
}
use c_faas_emulator.Common.Int.{ℤ, pos}
use c_faas_emulator.Common.Name.{Name, codes, str_eq}
use c_faas_emulator.Common.Outcome.{Outcome, ok, fault, ◌>>=◌}
use c_faas_emulator.Common.Text.{atoi}

-- The options that are on or off, and those with a number.
pub data Switch : Type 0 where
  logging nodisk podman net_cache sleep fixed : Switch

pub data Setting : Type 0 where
  memory disk threads threshold cold write_threads read_threads : Setting

abbrev pub switch_name : Switch → Name
switch_name logging = codes "-log"
switch_name nodisk = codes "-nodisk"
switch_name podman = codes "-podman"
switch_name net_cache = codes "-net_cache"
switch_name sleep = codes "-sleep"
switch_name fixed = codes "-fixed"

abbrev pub setting_name : Setting → Name
setting_name memory = codes "-memory"
setting_name disk = codes "-disk"
setting_name threads = codes "-threads"
setting_name threshold = codes "-threshold"
setting_name cold = codes "-cold"
setting_name write_threads = codes "-write_threads"
setting_name read_threads = codes "-read_threads"

abbrev pub input_name : Name
input_name = codes "-input"

pub record Options : Type 0 where
  pub input_file : Option Name
  pub switches : Switch → Bool
  pub settings : Setting → ℤ

-- Lines 145 to 154. `fresh` is what `malloc` gave: the other settings keep it until they are set.
unfoldable pub defaults : Options → Options
defaults fresh = record fresh {
  switches = λ _. false;
  settings = λ k. elim k [
    | memory ↦ pos 0
    | read_threads ↦ pos 1
    | write_threads ↦ pos 1
    | other ↦ fresh.settings other
  ];
}

-- Is it the name of an option with a number?
unfoldable pub takes_number : Name → Bool
takes_number p =
    str_eq p (setting_name memory)
    || str_eq p (setting_name disk)
    || str_eq p (setting_name threads)
    || str_eq p (setting_name threshold)
    || str_eq p (setting_name cold)
    || str_eq p (setting_name write_threads)
    || str_eq p (setting_name read_threads)

-- One round of the loop, at `params[i]`; `following` is `params[i + 1]`, and `none` is the NULL
-- behind the last, which `atoi` must not be given.
unfoldable pub read_param : Name → Option Name → Options → Outcome Options
unfolding takes_number
read_param p following o =
    let switched = record o {
      switches = λ k. if str_eq p (switch_name k) then true else o.switches k;
    } in
    if str_eq p input_name
    then ok (record o { input_file = following })
    else if takes_number p
    then elim following [
      | none ↦ fault
      | some v ↦ ok (record switched {
        settings = λ k. if str_eq p (setting_name k) then atoi v else o.settings k;
      })
    ]
    else ok switched

abbrev pub first : List Name → Option Name
first [] = none
first (p ∷ ps) = some p

-- Every parameter is looked at, those too that were the value of the one before.
unfoldable pub read_params : List Name → Options → Outcome Options
unfolding read_param
read_params [] o = ok o
read_params (p ∷ ps) o = do o' ← read_param p (first ps) o; read_params ps o'

unfoldable pub read_options : List Name → Options → Outcome Options
unfolding defaults read_params
read_options params fresh = read_params params (defaults fresh)
