-- ===== src/Main/Minutes.antt =====
-- What the loop over the lines does to the counters and to their files, minute by minute.
use c_faas_emulator.Common.{
  ℕ, zero, suc, ◌+◌, ◌*◌, List, [], ◌∷◌, ◌≡◌, subst, arith, Bool-cases, inl, inr, if◌then◌else◌,
}
use c_faas_emulator.Common.Int.{ℤ, pos, ◌+ℤ◌, ◌≤ℤ◌, ltb_ℤ, ltb_ℤ→le, int_laws}
use c_faas_emulator.Stats.{Start, Stats, same_start, count_start, save_starts}
use c_faas_emulator.Stats.Minutes.{starts, saves, stats_run, Tally, stats_run-Tally}
use c_faas_emulator.Main.{Tick, minute_turn, count_starts}

abbrev pub counted_in : Start → List Start → ℕ
counted_in k [] = 0
counted_in k (j ∷ js) = (if same_start j k then 1 else 0) + counted_in k js

-- The starts of kind `k` counted during `lines` lines from line `n` on.
abbrev pub counted_over : (ℕ → Tick) → (lines n : ℕ) → Start → ℕ
counted_over env zero n k = 0
counted_over env (suc lines) n k = counted_in k (env n).counted + counted_over env lines (n + 1) k

-- From `s` to `s'` a row takes a minute at least, and each start that was counted is in a row or in
-- the counter of its kind, once.
pub record Advances (counted : Start → ℕ) (s s' : Stats) : Type 0 where
  pub paced : s.last_ms +ℤ pos (60000 * s'.minute) ≤ℤ s'.last_ms +ℤ pos (60000 * s.minute)
  pub tally : (k : Start) (total : ℕ) → Tally k total s → Tally k (total + counted k) s'

pub Advances-trans :
    (c c' : Start → ℕ) (s s' s'' : Stats)
    → Advances c s s'
    → Advances c' s' s''
    → Advances (λ k. c k + c' k) s s''
Advances-trans c c' s s' s'' a b = record {
  paced = omega (int_laws, a.paced, b.paced);
  tally = λ k total t.
      subst (λ m. Tally k m s'') (omega arith) (b.tally k (total + c k) (a.tally k total t));
}

pub Advances-refl : (s : Stats) → Advances (λ k. 0) s s
Advances-refl s = record {
  paced = omega arith;
  tally = λ k total t. subst (λ m. Tally k m s) (omega arith) t;
}

pub Advances-more :
    (c c' : Start → ℕ) (s s' : Stats)
    → ((k : Start) → c' k ≡ c k)
    → Advances c' s s'
    → Advances c s s'
Advances-more c c' s s' e a = record {
  paced = a.paced;
  tally = λ k total t. subst (λ m. Tally k (total + m) s') (e k) (a.tally k total t);
}

count_starts-Advances :
    (ks : List Start) (s : Stats) → Advances (λ k. counted_in k ks) s (count_starts ks s)
unfolding count_starts stats_run count_start
count_starts-Advances [] s = Advances-refl s
count_starts-Advances (j ∷ js) s =
    Advances-trans _ _ s (count_start j s) (count_starts js (count_start j s))
      (record {
        paced = omega arith;
        tally = λ k total t.
            subst (λ m. Tally k m (count_start j s)) (omega arith)
              (stats_run-Tally k total s (starts j ∷ []) t);
      })
      (count_starts-Advances js (count_start j s))

minute_turn-Advances : (curr : ℤ) (s : Stats) → Advances (λ k. 0) s (minute_turn curr s)
unfolding minute_turn stats_run save_starts
minute_turn-Advances curr s = elim (Bool-cases (ltb_ℤ curr (s.last_ms +ℤ pos 60000))) [
  | inl soon ↦ rw soon (Advances-refl s)
  | inr due ↦ rw due (saved (ltb_ℤ→le curr (s.last_ms +ℤ pos 60000) due))
]
  where
    saved : (s.last_ms +ℤ pos 60000) ≤ℤ curr → Advances (λ k. 0) s (save_starts curr s)
    saved h = record {
      paced = omega (int_laws, h);
      tally = λ k total t. stats_run-Tally k total s (saves curr ∷ []) t;
    }

-- One line.
pub turn-Advances :
    (t : Tick) (s : Stats)
    → Advances (λ k. counted_in k t.counted) s (minute_turn t.curr (count_starts t.counted s))
turn-Advances t s =
    let s' : Stats = count_starts t.counted s in
    Advances-more (λ k. counted_in k t.counted) _ s (minute_turn t.curr s') (λ k. omega arith)
      (Advances-trans _ _ s s' _ (count_starts-Advances t.counted s)
        (minute_turn-Advances t.curr s'))
