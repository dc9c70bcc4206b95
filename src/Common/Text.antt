-- ===== src/Common/Text.antt =====
-- `strtok` with the separator ",", and `atoi`, of C's library, on the bytes of a string.
pub mod Laws
use Prim.Native.Nat.{ℕ, zero, suc, ◌+◌, ◌-◌, ◌*◌}
use mathlib.Core.Bool.{Bool, true, false, ◌&&◌, ◌||◌}
use mathlib.Core.List.{List, [], ◌∷◌, ◌++◌}
use c_faas_emulator.Common.Tests.{◌==◌, leb, if◌then◌else◌}
use c_faas_emulator.Common.Int.{ℤ, pos, ◌-ℤ◌}

abbrev pub comma : ℕ
comma = b','

-- A field, unless it is empty: runs of separators count as one.
abbrev pub emit : List ℕ → List (List ℕ) → List (List ℕ)
emit [] fields = fields
emit (c ∷ cs) fields = (c ∷ cs) ∷ fields

-- What `strtok` returns call after call, with the bytes of the field that has begun.
unfoldable pub tokens_from : List ℕ → List ℕ → List (List ℕ)
tokens_from field [] = emit field []
tokens_from field (c ∷ cs) =
    let ended = emit field (tokens_from [] cs) in
    let longer = tokens_from (field ++ c ∷ []) cs in if c == comma then ended else longer

unfoldable pub tokens : List ℕ → List (List ℕ)
unfolding tokens_from
tokens line = tokens_from [] line

abbrev pub is_digit : ℕ → Bool
is_digit c = leb b'0' c && leb c b'9'

-- Space, \t, \n, \v, \f and \r.
abbrev pub is_space : ℕ → Bool
is_space c = c == 32 || (leb 9 c && leb c 13)

-- The digits up to the first byte that is none.
unfoldable pub digits_from : ℕ → List ℕ → ℕ
digits_from n [] = n
digits_from n (c ∷ cs) =
    let more = digits_from (n * 10 + (c - b'0')) cs in if is_digit c then more else n

unfoldable pub signed_digits : List ℕ → ℤ
unfolding digits_from
signed_digits [] = pos 0
signed_digits (c ∷ cs) =
    if c == b'-'
    then pos 0 -ℤ pos (digits_from 0 cs)
    else if c == b'+'
    then pos (digits_from 0 cs)
    else pos (digits_from 0 (c ∷ cs))

unfoldable pub atoi : List ℕ → ℤ
unfolding signed_digits
atoi [] = pos 0
atoi (c ∷ cs) = let rest = atoi cs in if is_space c then rest else signed_digits (c ∷ cs)
