-- ===== src/Stats/Minutes.antt =====
-- No start is lost or counted twice between the counters and the files.
use c_faas_emulator.Common.{
  ℕ, ◌+◌, List, [], ◌∷◌, ◌++◌, ◌≡◌, subst, if◌then◌else◌, arith, length, length-append,
}
use c_faas_emulator.Common.Int.{ℤ}
use c_faas_emulator.Stats.{Start, Row, Stats, same_start, count_start, save_starts}

-- What `allocate_invocation` and `main_loop` do to the counters.
pub data Event : Type 0 where
  starts : Start → Event
  saves : ℤ → Event

abbrev pub stats_step : Stats → Event → Stats
stats_step s (starts k) = count_start k s
stats_step s (saves ms) = save_starts ms s

unfoldable pub stats_run : Stats → List Event → Stats
stats_run s [] = s
stats_run s (e ∷ es) = stats_run (stats_step s e) es

abbrev pub starts_of : Start → List Event → ℕ
starts_of k [] = 0
starts_of k (starts j ∷ es) = (if same_start j k then 1 else 0) + starts_of k es
starts_of k (saves _ ∷ es) = starts_of k es

abbrev pub row_sum : List Row → ℕ
row_sum [] = 0
row_sum (r ∷ rs) = r.count + row_sum rs

-- The rows are numbered from `n` on.
abbrev pub Numbered : ℕ → List Row → Type 0
Numbered n [] = Unit
Numbered n (r ∷ rs) = (r.minute ≡ n) × Numbered (n + 1) rs

pub row_sum-append : (xs ys : List Row) → row_sum (xs ++ ys) ≡ row_sum xs + row_sum ys
row_sum-append [] ys = omega arith
row_sum-append (x ∷ xs) ys = omega (arith, row_sum-append xs ys)

Numbered-snoc :
    (n m : ℕ) (rs : List Row) (c : ℕ)
    → Numbered n rs
    → n + length rs ≡ m
    → Numbered n (rs ++ record { minute = m; count = c } ∷ [])
Numbered-snoc n m [] c h e = (omega arith, tt)
Numbered-snoc n m (r ∷ rs) c h e = (h.0, Numbered-snoc (n + 1) m rs c h.1 (omega arith))

-- `total` starts of kind `k` are in the file and the counter, and the rows are the minutes so far.
pub record Tally (k : Start) (total : ℕ) (s : Stats) : Type 0 where
  pub sum : row_sum (s.files k) + s.counts k ≡ total
  pub rows : length (s.files k) ≡ s.minute
  pub numbered : Numbered 0 (s.files k)

step-Tally :
    (k : Start) (total : ℕ) (s : Stats) (e : Event)
    → Tally k total s
    → Tally k (total + starts_of k (e ∷ [])) (stats_step s e)
unfolding count_start save_starts
step-Tally k total s (starts j) t = record {
  sum = ground (arith, t.sum);
  rows = t.rows;
  numbered = t.numbered;
}
step-Tally k total s (saves ms) t = record {
  sum = omega (
    arith,
    t.sum,
    row_sum-append (s.files k) (record { minute = s.minute; count = s.counts k } ∷ []),
  );
  rows = omega (
    arith,
    t.rows,
    length-append {0} (s.files k) (record { minute = s.minute; count = s.counts k } ∷ []),
  );
  numbered = Numbered-snoc 0 s.minute (s.files k) (s.counts k) t.numbered (omega (arith, t.rows));
}

starts_of-cons :
    (k : Start) (e : Event) (es : List Event)
    → starts_of k (e ∷ es) ≡ starts_of k (e ∷ []) + starts_of k es
starts_of-cons k (starts j) es = omega arith
starts_of-cons k (saves ms) es = omega arith

-- After any sequence of starts and of minutes saved, from files and a counter with a given total
-- of starts of a kind: the rows of its file and its counter sum up to that total and the number
-- of starts of the kind since, and its file has one row for each minute, numbered in order.
pub stats_run-Tally :
    (k : Start) (total : ℕ) (s : Stats) (es : List Event)
    → Tally k total s
    → Tally k (total + starts_of k es) (stats_run s es)
unfolding stats_run
stats_run-Tally k total s [] t = subst (λ n. Tally k n s) (omega arith) t
stats_run-Tally k total s (e ∷ es) t =
    subst (λ n. Tally k n (stats_run (stats_step s e) es)) (omega (arith, starts_of-cons k e es))
      (stats_run-Tally k (total + starts_of k (e ∷ [])) (stats_step s e) es
        (step-Tally k total s e t))
