-- ===== src/Invocation/StartType.antt =====
-- `allocate_invocation`, lines 147 to 182: where a function that is not in memory is taken from.
use c_faas_emulator.Common.{ℕ, Bool, true, false, not, ◌&&◌, ◌||◌, ◌≡◌, if◌then◌else◌, ◌==◌, arith}
use c_faas_emulator.Common.Floats.{Floats}
use c_faas_emulator.Types.{Invocation}
use c_faas_emulator.ReadBuffer.{Medium, read_time}

-- The values of `start_type`.
abbrev pub cold_start : ℕ
cold_start = 0

abbrev pub from_disk : ℕ
from_disk = 1

abbrev pub from_network : ℕ
from_network = 2

module _ (fl : Floats) where
  open fl use {Float, to_float, add_float, lt}

  -- `expectedLuke` and `expectedRemote`.
  unfoldable pub expected : Invocation → Medium fl → (restore_lat : Float) → Float
  unfolding read_time
  expected i m restore_lat =
      add_float (add_float (to_float m.time_to_read) (read_time fl i m.speed)) restore_lat

  -- `start_type`, after the tests in the order of the source.
  unfoldable pub start_type :
      (found_in_disk found_in_net : Bool) → (luke remote cold_lat : Float) → ℕ
  start_type found_in_disk found_in_net luke remote cold_lat =
      if found_in_disk && found_in_net
      then (let first = if lt luke remote && lt luke cold_lat then from_disk else cold_start in
          if lt remote luke && lt remote cold_lat then from_network else first)
      else (let first =
            if found_in_disk
            then if lt luke cold_lat then from_disk else cold_start
            else cold_start in
          if found_in_net then if lt remote cold_lat then from_network else first else first)

  -- For an order `<` that is never true both ways: the disk is chosen exactly if it has the
  -- function, is expected to be faster than a cold start, and faster than the network if that has
  -- the function too; the same holds of the network, with the disk; and it is a cold start exactly
  -- if neither is chosen. So at a tie of the two it is a cold start, however slow that is.
  pub start_type-best :
      (found_in_disk found_in_net : Bool) (luke remote cold_lat : Float)
      → (lt luke remote ≡ true → lt remote luke ≡ false)
      → let chosen : ℕ = start_type found_in_disk found_in_net luke remote cold_lat in
        let disk_best : Bool =
          found_in_disk && (lt luke cold_lat && (not found_in_net || lt luke remote)) in
        let network_best : Bool =
          found_in_net && (lt remote cold_lat && (not found_in_disk || lt remote luke)) in
        ((chosen == from_disk) ≡ disk_best)
        × ((chosen == from_network) ≡ network_best)
        × ((chosen == cold_start) ≡ not (disk_best || network_best))
  unfolding start_type
  start_type-best true true luke remote cold_lat asym = ground (arith, asym)
  start_type-best true false luke remote cold_lat asym = ground arith
  start_type-best false true luke remote cold_lat asym = ground arith
  start_type-best false false luke remote cold_lat asym = ground arith
