-- ===== src/Common/Text/Laws.antt =====
-- Splitting a line that is made of fields, and reading a numeral that is made of digits.
use Prim.Native.Nat.{ℕ, ◌+◌, ◌*◌, ◌≤◌}
use mathlib.Core.Path.{◌≡◌, refl, ap, ◌∙◌}
use mathlib.Core.Bool.{false}
use mathlib.Core.List.{List, [], ◌∷◌, ◌++◌, map, append_assoc, append-nil}
use native.Mathlib.Omega.{arith}
use c_faas_emulator.Common.Tests.{◌==◌}
use c_faas_emulator.Common.Lists.{All}
use c_faas_emulator.Common.Int.{pos}
use c_faas_emulator.Common.Text.{comma, emit, tokens_from, is_digit, digits_from, atoi}

abbrev pub NoComma : List ℕ → Type 0
NoComma = All λ c. (c == comma) ≡ false

pub tokens_from-field :
    (begun field rest : List ℕ)
    → NoComma field
    → tokens_from begun (field ++ comma ∷ rest) ≡ emit (begun ++ field) (tokens_from [] rest)
unfolding tokens_from
tokens_from-field begun [] rest h = rw append-nil refl
tokens_from-field begun (c ∷ cs) rest h = rw h.0 (
    tokens_from-field (begun ++ c ∷ []) cs rest h.1
    ∙ ap (λ f. emit f (tokens_from [] rest)) (append_assoc begun (c ∷ []) cs))

pub tokens_from-last :
    (begun field : List ℕ) → NoComma field → tokens_from begun field ≡ emit (begun ++ field) []
unfolding tokens_from
tokens_from-last begun [] h = rw append-nil refl
tokens_from-last begun (c ∷ cs) h = rw h.0 (
    tokens_from-last (begun ++ c ∷ []) cs h.1
    ∙ ap (λ f. emit f []) (append_assoc begun (c ∷ []) cs))

-- Digits, most significant first, and their number.
abbrev pub Digits : List ℕ → Type 0
Digits = All λ d. d ≤ 9

abbrev pub value_from : ℕ → List ℕ → ℕ
value_from n [] = n
value_from n (d ∷ ds) = value_from (n * 10 + d) ds

-- The numeral as it is printed.
abbrev pub numeral : List ℕ → List ℕ
numeral = map λ d. b'0' + d

-- What may follow a numeral.
abbrev pub Ends : List ℕ → Type 0
Ends [] = Unit
Ends (c ∷ cs) = is_digit c ≡ false

pub digits_from-numeral :
    (n : ℕ) (ds rest : List ℕ)
    → Digits ds
    → Ends rest
    → digits_from n (numeral ds ++ rest) ≡ value_from n ds
unfolding digits_from
digits_from-numeral n [] [] h e = refl
digits_from-numeral n [] (c ∷ cs) h e = rw e refl
digits_from-numeral n (d ∷ ds) rest h e =
    ground (arith, digits_from-numeral (n * 10 + d) ds rest h.1 e, h.0)

-- `atoi` reads the number that a numeral shows.
pub atoi-numeral :
    (d : ℕ) (ds rest : List ℕ)
    → Digits (d ∷ ds)
    → Ends rest
    → atoi (numeral (d ∷ ds) ++ rest) ≡ pos (value_from 0 (d ∷ ds))
unfolding atoi
atoi-numeral d ds rest h e = ground (arith, digits_from-numeral 0 (d ∷ ds) rest h e, h.0)
