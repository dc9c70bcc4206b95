-- ===== src/Allocate/Finished.antt =====
-- The counters, the totals and the rows of latencies once all workers have ended, as after the
-- `thpool_wait` of `endPools`.
use c_faas_emulator.Common.{
  ℕ, ◌+◌, Bool, true, false, List, [], ◌∷◌, ◌≡◌, refl, sym, ◌∙◌, arith, length, map, All,
  length-append,
}
use c_faas_emulator.Common.Int.{ℤ}
use c_faas_emulator.Common.Floats.{Floats}
use c_faas_emulator.Common.Sums.{count_by}
use c_faas_emulator.Types.{Invocation, Totals, init_totals}
use c_faas_emulator.Stats.{Start, warm, luke, remote, cold, failed, same_start, init_files}
use c_faas_emulator.Allocate.{Worker, arrives, evicts, awaits_read, starts_cold, runs, ended}
use c_faas_emulator.Allocate.System.{
  System, init_system, Step, Steps, work, collects, releases, saves, writes, start, later,
}
use c_faas_emulator.Allocate.Counted.{counts_as, has_row, counted, logged, Counted, Steps-Counted}
use c_faas_emulator.Allocate.Printed.{total_of, printed_kinds, Steps-TotalOf}

-- The worker has come back from `allocate_invocation`.
abbrev pub IsEnded : Worker → Type 0
IsEnded (ended k) = Unit
IsEnded (arrives i) = true ≡ false
IsEnded (evicts i mem_needed d) = true ≡ false
IsEnded (awaits_read i) = true ≡ false
IsEnded (starts_cold i) = true ≡ false
IsEnded (runs k i) = true ≡ false

abbrev pub sum_of_totals : Totals → ℕ
sum_of_totals t = t.warm_starts + t.lukewarm_starts + t.remote_starts + t.cold_starts

abbrev by_kind : Start → List Worker → ℕ
by_kind k ws = count_by (counts_as k) ws

one_kind :
    (k : Start)
    → (by_kind warm (ended k ∷ [])
          + by_kind luke (ended k ∷ [])
          + by_kind remote (ended k ∷ [])
          + by_kind cold (ended k ∷ [])
          + by_kind failed (ended k ∷ [])
        ≡ 1)
      × (count_by has_row (ended k ∷ []) + by_kind failed (ended k ∷ []) ≡ 1)
one_kind warm = (refl, refl)
one_kind luke = (refl, refl)
one_kind remote = (refl, refl)
one_kind cold = (refl, refl)
one_kind failed = (refl, refl)

-- A worker that has ended did so with one kind of start, and has a row unless it failed.
ended-kinds :
    (ws : List Worker)
    → All IsEnded ws
    → (by_kind warm ws + by_kind luke ws + by_kind remote ws + by_kind cold ws + by_kind failed ws
        ≡ length ws)
      × (count_by has_row ws + by_kind failed ws ≡ length ws)
ended-kinds [] h = (refl, refl)
ended-kinds (ended k ∷ ws) h =
    let rest = ended-kinds ws h.1 in
    let one = one_kind k in (omega (arith, one.0, rest.0), omega (arith, one.1, rest.1))
ended-kinds (arrives i ∷ ws) h = absurd (cc h.0)
ended-kinds (evicts i mem_needed d ∷ ws) h = absurd (cc h.0)
ended-kinds (awaits_read i ∷ ws) h = absurd (cc h.0)
ended-kinds (starts_cold i ∷ ws) h = absurd (cc h.0)
ended-kinds (runs k i ∷ ws) h = absurd (cc h.0)

arriving-none :
    (k : Start) (is : List Invocation)
    → (by_kind k (map arrives is) ≡ 0) × (count_by has_row (map arrives is) ≡ 0)
arriving-none k [] = (refl, refl)
arriving-none k (i ∷ is) =
    let rest = arriving-none k is in (omega (arith, rest.0), omega (arith, rest.1))

length-arriving : (is : List Invocation) → length (map arrives is) ≡ length is
length-arriving [] = refl
length-arriving (i ∷ is) = omega (arith, length-arriving is)

module _ (fl : Floats) (max_memory : ℤ) (threshold : fl.Float) (containers : Bool) where
  Step-length :
      (s t : System)
      → Step fl max_memory threshold containers s t
      → length t.workers ≡ length s.workers
  Step-length _ _ (work choice s before w after batch on) =
      omega (arith, length-append before (w ∷ after), length-append before (_ ∷ after))
  Step-length _ _ (collects s workers) = refl
  Step-length _ _ (releases s workers i batch) = refl
  Step-length _ _ (saves ms s workers batch) = refl
  Step-length _ _ (writes s stats workers batch e) = refl

  Steps-length :
      (s t : System)
      → Steps fl max_memory threshold containers s t
      → length t.workers ≡ length s.workers
  Steps-length s _ start = refl
  Steps-length s t (later {t = u} past step) = Step-length u t step ∙ Steps-length s u past

  -- What holds for the starts of kind `k` from the start of the emulation on.
  from_start-Counted :
      (k : Start) (memory : ℤ) (trace : List Invocation) (t : System)
      → Steps fl max_memory threshold containers (init_system memory trace) t
      → Counted k t
  unfolding init_system init_files
  from_start-Counted k memory trace t run =
      let none = arriving-none k trace in
      Steps-Counted fl max_memory threshold containers k _ t run
        (record { starts = sym none.0; rows = sym none.1 })

  from_start-TotalOf :
      (k : Start) (memory : ℤ) (trace : List Invocation) (t : System)
      → same_start k failed ≡ false
      → total_of k init_totals ≡ 0
      → Steps fl max_memory threshold containers (init_system memory trace) t
      → total_of k t.shared.totals ≡ count_by (counts_as k) t.workers
  unfolding init_system
  from_start-TotalOf k memory trace t printed zero run =
      Steps-TotalOf k printed fl max_memory threshold containers _ t run
        (zero ∙ sym (arriving-none k trace).0)

  from_start-length :
      (memory : ℤ) (trace : List Invocation) (t : System)
      → Steps fl max_memory threshold containers (init_system memory trace) t
      → length t.workers ≡ length trace
  unfolding init_system
  from_start-length memory trace t run = Steps-length _ t run ∙ length-arriving trace

  -- If all workers have ended, whatever order the threads have run in from the start of the
  -- emulation on: each invocation of the trace is in one of the four totals or is counted as failed;
  -- each is in one row of latencies, written or waiting, unless it failed; and each total is
  -- what the counter of its kind and the rows of the minutes saved come to.
  pub from_start-finished :
      (memory : ℤ) (trace : List Invocation) (t : System)
      → Steps fl max_memory threshold containers (init_system memory trace) t
      → All IsEnded t.workers
      → (sum_of_totals t.shared.totals + counted failed t.shared.stats ≡ length trace)
        × (logged t.shared.stats + counted failed t.shared.stats ≡ length trace)
        × All (λ k. total_of k t.shared.totals ≡ counted k t.shared.stats) printed_kinds
  from_start-finished memory trace t run done =
      let tally = λ (k : Start). from_start-Counted k memory trace t run in
      let w = from_start-TotalOf warm memory trace t refl refl run in
      let l = from_start-TotalOf luke memory trace t refl refl run in
      let r = from_start-TotalOf remote memory trace t refl refl run in
      let c = from_start-TotalOf cold memory trace t refl refl run in
      let kinds = ended-kinds t.workers done in
      let as_many = from_start-length memory trace t run in
      (
        omega (arith, w, l, r, c, (tally failed).starts, kinds.0, as_many),
        omega (arith, (tally warm).rows, (tally failed).starts, kinds.1, as_many),
        (
          w ∙ sym (tally warm).starts,
          (
            l ∙ sym (tally luke).starts,
            (r ∙ sym (tally remote).starts, (c ∙ sym (tally cold).starts, tt)),
          ),
        ),
      )
