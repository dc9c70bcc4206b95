-- ===== src/Main/Run.antt =====
-- From the file of a trace to the totals of the emulation.
use c_faas_emulator.Common.{
  ℕ, suc, refl, Bool, ◌+◌, ◌<◌, List, [], ◌∷◌, ◌++◌, ◌≡◌, ap, arith, All, length, map,
}
use c_faas_emulator.Common.Int.{ℤ}
use c_faas_emulator.Common.Floats.{Floats}
use c_faas_emulator.Common.Outcome.{ok}
use c_faas_emulator.Types.{Invocation}
use c_faas_emulator.Stats.{Stats, failed}
use c_faas_emulator.Allocate.Counted.{counted, logged}
use c_faas_emulator.Allocate.Printed.{total_of, printed_kinds}
use c_faas_emulator.Allocate.Finished.{IsEnded, sum_of_totals, from_start-finished}
use c_faas_emulator.Allocate.System.{System, Steps, init_system}
use c_faas_emulator.Main.{newline, line_room, Tick, Loop, init_loop, main_loop}
use c_faas_emulator.Main.Trace.{NoNewline, Entry, Readable, file_of, submissions}
use c_faas_emulator.Main.Reading.{main_loop-submits}

-- The invocations that the pool gets.
abbrev pub pool_work : (ℕ → Tick) → List Entry → List Invocation
pool_work env es = map (λ s. s.invocation) (submissions env 1 es)

length-pool_work :
    (env : ℕ → Tick) (n : ℕ) (es : List Entry)
    → length (map (λ s. s.invocation) (submissions env n es)) ≡ length es
length-pool_work env n [] = refl
length-pool_work env n (e ∷ es) = ap suc (length-pool_work env (n + 1) es)

-- For a file of a heading and readable lines, each shorter than the buffer: the loop of `main_loop`
-- over the lines ends, and if then all workers have come back, whatever order the threads have
-- run in, the lines that it has counted are as many as the four totals and the starts that were
-- counted as failed sum up to, and as many as the rows of latencies, written or waiting, and the
-- failed starts. Each total is what the rows of the minutes saved and the counter of its kind come
-- to. What follows the loop in `main_loop`, the printing included, is no part of this.
pub main_loop-totals :
    (fl : Floats) (max_memory : ℤ) (threshold : fl.Float) (containers : Bool) (memory : ℤ)
    (fuel : ℕ) (env : ℕ → Tick) (heading : List ℕ) (es : List Entry) (stats : Stats) (t : System)
    → NoNewline heading
    → length heading < line_room
    → All Readable es
    → length es + 1 < fuel
    → Steps fl max_memory threshold containers (init_system memory (pool_work env es)) t
    → All IsEnded t.workers
    → (final : Loop) × (main_loop fuel env 0 (heading ++ newline ∷ file_of es) (init_loop stats)
        ≡ ok final)
      × (final.count ≡ sum_of_totals t.shared.totals + counted failed t.shared.stats)
      × (final.count ≡ logged t.shared.stats + counted failed t.shared.stats)
      × All (λ k. total_of k t.shared.totals ≡ counted k t.shared.stats) printed_kinds
main_loop-totals fl max_memory threshold containers memory fuel env heading es stats t plain short r
      lt run done =
    let (final, returns, _, count, _) =
      main_loop-submits fuel env heading es stats plain short r lt in
    let f =
      from_start-finished fl max_memory threshold containers memory (pool_work env es) t run done in
    let as_many : length (pool_work env es) ≡ length es = length-pool_work env 1 es in
    (final, returns, omega (arith, count, as_many, f.0), omega (arith, count, as_many, f.1), f.2)
