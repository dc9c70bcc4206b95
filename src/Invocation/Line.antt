-- ===== src/Invocation/Line.antt =====
-- `line_to_invocation`: a line of the trace, "owner,function,memory,duration,timestamp\n".
pub mod Fields
use c_faas_emulator.Common.{
  ℕ, zero, suc, ◌+◌, Bool, false, List, [], ◌∷◌, length, ltb, if◌then◌else◌,
}
use c_faas_emulator.Common.Outcome.{Outcome, ok, exits, fault, ◌>>=◌}
use c_faas_emulator.Common.Text.{tokens, atoi}
use c_faas_emulator.Types.{Invocation}

-- The bytes of a hash without its terminator, and those allocated for it. A field of 65 bytes fills
-- them all, so that the hash stored has no terminator behind it; a longer one is written past the
-- end.
abbrev pub hash_length : ℕ
hash_length = 64

abbrev pub hash_block : ℕ
hash_block = 65

-- The `switch` of the loop, at field `i`.
unfoldable pub set_field : ℕ → List ℕ → Invocation → Outcome Invocation
set_field zero pt v = ok v
set_field (suc zero) pt v =
    if ltb hash_block (length pt) then fault else ok (record v { hash_function = pt })
set_field (suc (suc zero)) pt v = ok (record v { memory = atoi pt })
set_field (suc (suc (suc zero))) pt v = ok (record v { duration = atoi pt })
set_field (suc (suc (suc (suc zero)))) pt v = ok (record v { timestamp = atoi pt })
set_field (suc (suc (suc (suc (suc _))))) pt v = exits

unfoldable pub set_fields : ℕ → List (List ℕ) → Invocation → Outcome Invocation
unfolding set_field
set_fields i [] v = ok v
set_fields i (pt ∷ pts) v = elim (set_field i pt v) [
  | ok v' ↦ set_fields (suc i) pts v'
  | exits ↦ exits
  | fault ↦ fault
]

-- `fresh` is the block that `malloc` gave: a field that the line lacks keeps what was there.
unfoldable pub line_to_invocation : (fresh : Invocation) → List ℕ → Outcome Invocation
unfolding set_fields
line_to_invocation fresh line = do
  v ← set_fields 0 (tokens line) fresh
  ok (record v { occupied = false })
