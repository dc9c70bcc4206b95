-- ===== src/Invocation/Line/Fields.antt =====
-- What `line_to_invocation` makes of a line.
use c_faas_emulator.Common.{
  ℕ, ◌≤◌, ◌<◌, false, List, [], ◌∷◌, ◌++◌, ◌≡◌, ◌≢◌, refl, ap, sym, ◌∙◌, length, arith, ◌==◌,
  append-nil,
}
use c_faas_emulator.Common.Int.{pos}
use c_faas_emulator.Common.Outcome.{ok, fault}
use c_faas_emulator.Common.Text.{comma, tokens, tokens_from, atoi, emit}
use c_faas_emulator.Common.Text.Laws.{
  NoComma, tokens_from-field, tokens_from-last, Digits, numeral, value_from, Ends, atoi-numeral,
}
use c_faas_emulator.Types.{Invocation}
use c_faas_emulator.Invocation.Line.{hash_length, hash_block, set_fields, line_to_invocation}

abbrev newline : List ℕ
newline = 10 ∷ []

-- A field of the line with a separator behind it.
abbrev pub separated : List ℕ → List ℕ → List ℕ
separated field rest = field ++ comma ∷ rest

-- The line of a trace, from the bytes of the owner and the function and the digits of the numbers.
abbrev pub trace_line : (owner function : List ℕ) → (memory duration timestamp : List ℕ) → List ℕ
trace_line owner function memory duration timestamp = separated owner (
    separated function
      (separated (numeral memory) (separated (numeral duration) (numeral timestamp ++ newline))))

emit_ne :
    (field : List ℕ) (fields : List (List ℕ)) → field ≢ [] → emit field fields ≡ field ∷ fields
emit_ne [] fields h = absurd (h refl)
emit_ne (c ∷ cs) fields h = refl

NoComma-numeral : (ds : List ℕ) → Digits ds → NoComma (numeral ds)
NoComma-numeral [] h = tt
NoComma-numeral (d ∷ ds) h = (ground (arith, h.0), NoComma-numeral ds h.1)

NoComma-snoc : (xs : List ℕ) (c : ℕ) → NoComma xs → (c == comma) ≡ false → NoComma (xs ++ c ∷ [])
NoComma-snoc [] c h e = (e, tt)
NoComma-snoc (x ∷ xs) c h e = (h.0, NoComma-snoc xs c h.1 e)

tokens_from-separated :
    (field rest : List ℕ)
    → NoComma field
    → field ≢ []
    → tokens_from [] (separated field rest) ≡ field ∷ tokens_from [] rest
tokens_from-separated field rest h e =
    tokens_from-field [] field rest h ∙ emit_ne field (tokens_from [] rest) e

-- Digits of a number: at least one.
pub record Numeral (ds : List ℕ) : Type 0 where
  pub digits : Digits ds
  pub some_digit : ds ≢ []

numeral_ne : (ds : List ℕ) → ds ≢ [] → numeral ds ≢ []
numeral_ne [] h = absurd (h refl)
numeral_ne (d ∷ ds) h = cc

numeral-newline_ne : (ds : List ℕ) → numeral ds ++ newline ≢ []
numeral-newline_ne [] = cc
numeral-newline_ne (d ∷ ds) = cc

atoi-Numeral :
    (ds rest : List ℕ) → Numeral ds → Ends rest → atoi (numeral ds ++ rest) ≡ pos (value_from 0 ds)
atoi-Numeral [] rest h e = absurd (h.some_digit refl)
atoi-Numeral (d ∷ ds) rest h e = atoi-numeral d ds rest h.digits e

atoi-whole : (ds : List ℕ) → Numeral ds → atoi (numeral ds) ≡ pos (value_from 0 ds)
atoi-whole ds h = ap atoi (sym (append-nil (numeral ds))) ∙ atoi-Numeral ds [] h tt

-- The loop on the five fields of a line.
set_fields-five :
    (owner function memory duration timestamp : List ℕ) (fresh : Invocation)
    → length function ≤ hash_length
    → set_fields 0 (owner ∷ function ∷ memory ∷ duration ∷ timestamp ∷ []) fresh
      ≡ ok (record fresh {
        hash_function = function;
        memory = atoi memory;
        duration = atoi duration;
        timestamp = atoi timestamp;
      })
unfolding set_fields
set_fields-five owner function memory duration timestamp fresh short = ground arith

set_fields-long :
    (owner function : List ℕ) (rest : List (List ℕ)) (fresh : Invocation)
    → hash_block < length function
    → set_fields 0 (owner ∷ function ∷ rest) fresh ≡ fault
unfolding set_fields
set_fields-long owner function rest fresh long = ground arith

module _ (owner function memory duration timestamp : List ℕ) (owner_plain : NoComma owner)
    (owner_ne : owner ≢ []) (function_plain : NoComma function) (function_ne : function ≢ [])
    (m : Numeral memory) (d : Numeral duration) (t : Numeral timestamp) where
  tokens-trace_line :
      tokens (trace_line owner function memory duration timestamp)
      ≡ owner ∷ function ∷ numeral memory ∷ numeral duration ∷ (numeral timestamp ++ newline) ∷ []
  unfolding tokens
  tokens-trace_line =
      tokens_from-separated owner _ owner_plain owner_ne
      ∙ ap (◌∷◌ owner) (
          tokens_from-separated function _ function_plain function_ne
          ∙ ap (◌∷◌ function) (
              tokens_from-separated (numeral memory) _ (NoComma-numeral memory m.digits)
                (numeral_ne memory m.some_digit)
              ∙ ap (◌∷◌ (numeral memory)) (
                  tokens_from-separated (numeral duration) _ (NoComma-numeral duration d.digits)
                    (numeral_ne duration d.some_digit)
                  ∙ ap (◌∷◌ (numeral duration)) (
                      tokens_from-last [] (numeral timestamp ++ newline) (
                        NoComma-snoc (numeral timestamp) 10 (NoComma-numeral timestamp t.digits)
                          refl)
                      ∙ emit_ne (numeral timestamp ++ newline) [] (numeral-newline_ne timestamp)))))

  -- A line of the trace gives back what it was printed from, if owner and function are not empty
  -- and have no comma, the function is at most 64 bytes long and the numbers have digits: the
  -- function, and the numbers that their numerals show. Nothing is allocated to it, and the
  -- owner is dropped.
  pub line_to_invocation-trace_line :
      (fresh : Invocation)
      → length function ≤ hash_length
      → line_to_invocation fresh (trace_line owner function memory duration timestamp)
        ≡ ok (record fresh {
          hash_function = function;
          memory = pos (value_from 0 memory);
          duration = pos (value_from 0 duration);
          timestamp = pos (value_from 0 timestamp);
          occupied = false;
        })
  unfolding line_to_invocation
  line_to_invocation-trace_line fresh short =
      rw (tokens-trace_line, set_fields-five owner function _ _ _ fresh short)
        λ j. ok (record fresh {
          hash_function = function;
          memory = atoi-whole memory m j;
          duration = atoi-whole duration d j;
          timestamp = atoi-Numeral timestamp newline t refl j;
          occupied = false;
        })

  -- In a line of the trace with an owner and numbers, a function whose hash is longer than 65 bytes is
  -- written past the end of its block.
  pub line_to_invocation-overflow :
      (fresh : Invocation)
      → hash_block < length function
      → line_to_invocation fresh (trace_line owner function memory duration timestamp) ≡ fault
  unfolding line_to_invocation
  line_to_invocation-overflow fresh long =
      rw (tokens-trace_line, set_fields-long owner function _ fresh long) refl
