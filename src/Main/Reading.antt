-- ===== src/Main/Reading.antt =====
-- The loop of `main_loop` on the file of a trace.
use c_faas_emulator.Common.{
  ℕ, zero, suc, ◌+◌, ◌<◌, false, List, [], ◌∷◌, ◌++◌, ◌≡◌, refl, sym, ◌∙◌, arith, length,
  append_assoc, append-nil, All,
}
use c_faas_emulator.Common.Outcome.{Outcome, ok, ◌>>=◌}
use c_faas_emulator.Invocation.Line.Fields.{line_to_invocation-trace_line}
use c_faas_emulator.Stats.{Stats}
use c_faas_emulator.Main.Minutes.{
  Advances, Advances-refl, Advances-trans, turn-Advances, counted_over,
}
use c_faas_emulator.Main.{
  fgets, newline, line_room, Tick, Submission, Loop, main_turn, main_loop, init_loop, count_starts,
  minute_turn,
}
use c_faas_emulator.Main.Trace.{
  NoNewline, fgets-line, Entry, Readable, body_of, file_of, submission, submissions,
  trace_line-body, NoNewline-body,
}

-- A turn that is not the first.
abbrev turned : Tick → Submission → Loop → Loop
turned t sub s = record s {
  stats = minute_turn t.curr (count_starts t.counted s.stats);
  count = s.count + 1;
  submitted = s.submitted ++ sub ∷ [];
}

main_turn-entry :
    (t : Tick) (e : Entry) (s : Loop)
    → Readable e
    → s.first_line ≡ false
    → main_turn t (body_of e ++ newline ∷ []) s ≡ ok (turned t (submission t e) s)
unfolding main_turn
main_turn-entry t e s r later =
    rw
      (
        later,
        sym (trace_line-body e),
        line_to_invocation-trace_line e.owner e.function e.memory e.duration e.timestamp
            r.owner_plain r.owner_ne r.function_plain r.function_ne r.memory_digits
            r.duration_digits r.timestamp_digits t.fresh r.function_short,
      )
      refl

main_loop-line :
    (fuel : ℕ) (env : ℕ → Tick) (n : ℕ) (xs : List ℕ) (b : ℕ) (ys : List ℕ) (s : Loop)
    → let (line, rest) = fgets line_room (xs ++ b ∷ ys) in
      main_loop (suc fuel) env n (xs ++ b ∷ ys) s
      ≡ (do s' ← main_turn (env n) line s; main_loop fuel env (n + 1) rest s')
unfolding main_loop
main_loop-line fuel env n [] b ys s = refl
main_loop-line fuel env n (x ∷ xs) b ys s = refl

-- What a run over the entries `es` from line `n` on does.
record Submits (env : ℕ → Tick) (n : ℕ) (es : List Entry) (s : Loop) (run : Outcome Loop)
    : Type 0 where
  final : Loop
  returns : run ≡ ok final
  submitted : final.submitted ≡ s.submitted ++ submissions env n es
  count : final.count ≡ s.count + length es
  minutes : Advances (counted_over env (length es) n) s.stats final.stats

main_loop-entries :
    (fuel : ℕ) (env : ℕ → Tick) (n : ℕ) (es : List Entry) (s : Loop)
    → All Readable es
    → s.first_line ≡ false
    → length es < fuel
    → Submits env n es s (main_loop fuel env n (file_of es) s)
unfolding main_loop
main_loop-entries zero env n es s r later lt = absurd (omega arith)
main_loop-entries (suc fuel) env n [] s r later lt = record {
  final = s;
  returns = refl;
  submitted = sym (append-nil s.submitted);
  count = omega arith;
  minutes = Advances-refl s.stats;
}
main_loop-entries (suc fuel) env n (e ∷ es) s r later lt =
    let s' : Loop = turned (env n) (submission (env n) e) s in
    let rest = main_loop-entries fuel env (n + 1) es s' r.1 later (omega arith) in
    record {
      final = rest.final;
      returns =
          rw
            (
              main_loop-line fuel env n (body_of e) newline (file_of es) s,
              fgets-line line_room (body_of e) (file_of es) (NoNewline-body e r.0) r.0.fits,
              main_turn-entry (env n) e s r.0 later,
            )
            rest.returns;
      submitted = rest.submitted ∙ append_assoc s.submitted _ _;
      count = omega (arith, rest.count);
      minutes =
          Advances-trans _ _ s.stats s'.stats rest.final.stats (turn-Advances (env n) s.stats)
            rest.minutes;
    }

pub main_loop-submits :
    (fuel : ℕ) (env : ℕ → Tick) (heading : List ℕ) (es : List Entry) (stats : Stats)
    → NoNewline heading
    → length heading < line_room
    → All Readable es
    → length es + 1 < fuel
    → (final : Loop) × (main_loop fuel env 0 (heading ++ newline ∷ file_of es) (init_loop stats)
        ≡ ok final)
      × (final.submitted ≡ submissions env 1 es)
      × (final.count ≡ length es)
      × Advances (counted_over env (suc (length es)) 0) stats final.stats
unfolding init_loop main_turn
main_loop-submits zero env heading es stats plain short r lt = absurd (omega arith)
main_loop-submits (suc fuel) env heading es stats plain short r lt =
    let t = env 0 in
    let s : Loop = record {
      first_line = false;
      count = 0;
      stats = minute_turn t.curr (count_starts t.counted stats);
      submitted = [];
    } in
    let rest = main_loop-entries fuel env 1 es s r refl (omega arith) in
    (
      rest.final,
      rw
          (
            main_loop-line fuel env 0 heading newline (file_of es) (init_loop stats),
            fgets-line line_room heading (file_of es) plain short,
          )
          rest.returns,
      rest.submitted,
      omega (arith, rest.count),
      Advances-trans _ _ stats s.stats rest.final.stats (turn-Advances t stats) rest.minutes,
    )
