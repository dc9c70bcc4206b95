-- ===== src/Main/Trace.antt =====
-- The file of a trace, as lines that `main_loop` can read.
use c_faas_emulator.Common.{
  ℕ, zero, suc, ◌+◌, ◌≤◌, ◌<◌, false, List, [], ◌∷◌, ◌++◌, ◌≡◌, ◌≢◌, refl, ap, sym, ◌∙◌, ◌==◌,
  arith, length, append_assoc, All, All-append,
}
use c_faas_emulator.Common.Int.{pos}
use c_faas_emulator.Common.Text.{comma}
use c_faas_emulator.Common.Text.Laws.{NoComma, Digits, numeral, value_from}
use c_faas_emulator.Types.{Invocation}
use c_faas_emulator.Invocation.Line.{hash_length}
use c_faas_emulator.Invocation.Line.Fields.{trace_line, Numeral}
use c_faas_emulator.Main.{fgets, newline, line_room, Tick, Submission, time_to_wait}

abbrev pub NoNewline : List ℕ → Type 0
NoNewline = All λ b. (b == newline) ≡ false

-- `fgets` reads a line that fits, with its end.
pub fgets-line :
    (room : ℕ) (body rest : List ℕ)
    → NoNewline body
    → length body < room
    → fgets room (body ++ newline ∷ rest) ≡ (body ++ newline ∷ [], rest)
unfolding fgets
fgets-line zero body rest h lt = absurd (omega arith)
fgets-line (suc room) [] rest h lt = refl
fgets-line (suc room) (b ∷ body) rest h lt =
    rw (h.0, fgets-line room body rest h.1 (omega arith)) refl

-- A line of the trace as it is printed, and what makes it readable.
pub record Entry : Type 0 where
  pub owner : List ℕ
  pub function : List ℕ
  pub memory : List ℕ
  pub duration : List ℕ
  pub timestamp : List ℕ

abbrev pub body_of : Entry → List ℕ
body_of e =
    e.owner
    ++ comma
      ∷ (e.function
          ++ comma
            ∷ (numeral e.memory ++ comma ∷ (numeral e.duration ++ comma ∷ numeral e.timestamp)))

pub record Readable (e : Entry) : Type 0 where
  pub owner_plain : NoComma e.owner
  pub owner_ne : e.owner ≢ []
  pub owner_line : NoNewline e.owner
  pub function_plain : NoComma e.function
  pub function_ne : e.function ≢ []
  pub function_line : NoNewline e.function
  pub function_short : length e.function ≤ hash_length
  pub memory_digits : Numeral e.memory
  pub duration_digits : Numeral e.duration
  pub timestamp_digits : Numeral e.timestamp
  pub fits : length (body_of e) < line_room

abbrev pub file_of : List Entry → List ℕ
file_of [] = []
file_of (e ∷ es) = body_of e ++ newline ∷ file_of es

-- What the loop is to make of a line.
abbrev pub read_back : Invocation → Entry → Invocation
read_back fresh e = record fresh {
  hash_function = e.function;
  memory = pos (value_from 0 e.memory);
  duration = pos (value_from 0 e.duration);
  timestamp = pos (value_from 0 e.timestamp);
  occupied = false;
}

abbrev pub submission : Tick → Entry → Submission
submission t e =
    let i = read_back t.fresh e in record { invocation = i; slept = time_to_wait t.time_passed i }

abbrev pub submissions : (ℕ → Tick) → ℕ → List Entry → List Submission
submissions env n [] = []
submissions env n (e ∷ es) = submission (env n) e ∷ submissions env (n + 1) es

pub trace_line-body :
    (e : Entry)
    → trace_line e.owner e.function e.memory e.duration e.timestamp ≡ body_of e ++ newline ∷ []
trace_line-body e = sym (
    append_assoc e.owner _ (newline ∷ [])
    ∙ ap (λ (t : List ℕ). e.owner ++ comma ∷ t)
        (append_assoc e.function _ (newline ∷ [])
          ∙ ap (λ (t : List ℕ). e.function ++ comma ∷ t)
              (append_assoc (numeral e.memory) _ (newline ∷ [])
                ∙ ap (λ (t : List ℕ). numeral e.memory ++ comma ∷ t)
                    (append_assoc (numeral e.duration) _ (newline ∷ [])))))

NoNewline-numeral : (ds : List ℕ) → Digits ds → NoNewline (numeral ds)
NoNewline-numeral [] h = tt
NoNewline-numeral (d ∷ ds) h = (ground (arith, h.0), NoNewline-numeral ds h.1)

pub NoNewline-body : (e : Entry) → Readable e → NoNewline (body_of e)
NoNewline-body e r = All-append _ e.owner _ r.owner_line (
  refl,
  All-append _ e.function _ r.function_line (
    refl,
    All-append _ (numeral e.memory) _ (NoNewline-numeral e.memory r.memory_digits.digits) (
      refl,
      All-append _ (numeral e.duration) _ (NoNewline-numeral e.duration r.duration_digits.digits)
          (refl, NoNewline-numeral e.timestamp r.timestamp_digits.digits),
    ),
  ),
)
