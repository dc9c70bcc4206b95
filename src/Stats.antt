-- ===== src/Stats.antt =====
-- source/stats.c: the starts of each kind within a minute, and the files that they and the
-- latencies go to. A file is the list of its rows. Jobs given to `stats->pool`, a pool of one
-- thread, wait in `jobs` and are written in order.
pub mod Minutes
pub mod Closing
use c_faas_emulator.Common.{
  ℕ, zero, suc, ◌+◌, Bool, true, false, List, [], ◌∷◌, ◌++◌, if◌then◌else◌,
}
use c_faas_emulator.Common.Int.{ℤ, pos}
use c_faas_emulator.Common.Outcome.{Outcome, ok, exits, fault}

-- How an invocation starts; its letter in the latency file is w, l, r or c, and failures have none.
pub data Start : Type 0 where
  warm luke remote cold failed : Start

-- `"%d,%d\n"` of the minute and the count.
pub record Row : Type 0 where
  pub minute : ℕ
  pub count : ℕ

pub record Latency : Type 0 where
  pub lat : ℤ
  pub type : Start
  pub free_ram : ℤ
  pub find_disk : ℤ
  pub add_to_read_buffer : ℤ
  pub memset : ℤ
  pub create_container : ℤ
  pub start_container : ℤ
  pub init_function : ℤ
  pub restore_checkpoint : ℤ

pub record Stats : Type 0 where
  pub counts : Start → ℕ
  pub files : Start → List Row
  pub minute : ℕ
  pub last_ms : ℤ
  pub jobs : List Latency
  pub latencies : List Latency
  pub is_open : Bool

abbrev pub same_start : Start → Start → Bool
same_start warm warm = true
same_start luke luke = true
same_start remote remote = true
same_start cold cold = true
same_start failed failed = true
same_start _ _ = false

unfoldable pub init_files : Stats
init_files = record {
  counts = λ _. 0;
  files = λ _. [];
  minute = 0;
  last_ms = pos 0;
  jobs = [];
  latencies = [];
  is_open = true;
}

-- `stats->warm += 1` and its like.
unfoldable pub count_start : Start → Stats → Stats
count_start k s = record s { counts = λ j. if same_start k j then s.counts j + 1 else s.counts j }

unfoldable pub save_starts : ℤ → Stats → Stats
save_starts ms s = record s {
  last_ms = ms;
  files = λ k. s.files k ++ record { minute = s.minute; count = s.counts k } ∷ [];
  minute = s.minute + 1;
  counts = λ _. 0;
}

unfoldable pub save_latency : Latency → Stats → Stats
save_latency l s = record s { jobs = s.jobs ++ l ∷ [] }

-- The job of one row. To print to a file that is closed is undefined.
unfoldable pub write_latency : Latency → Stats → Outcome Stats
write_latency l s = if s.is_open then ok (record s { latencies = s.latencies ++ l ∷ [] }) else fault

-- The pool takes up its next job.
unfoldable pub pool_turn : Stats → Outcome Stats
unfolding write_latency
pool_turn s = elim s.jobs [ [] ↦ ok s | l ∷ ls ↦ write_latency l (record s { jobs = ls }) ]

-- `thpool_wait`: all jobs that wait, in order.
unfoldable pub run_jobs : List Latency → Stats → Outcome Stats
unfolding write_latency
run_jobs [] s = ok (record s { jobs = [] })
run_jobs (l ∷ ls) s = elim (write_latency l s) [
  | ok s' ↦ run_jobs ls s'
  | exits ↦ exits
  | fault ↦ fault
]

-- The files are closed first, and then the pool is waited for.
unfoldable pub close_files : Stats → Outcome Stats
unfolding run_jobs
close_files s = run_jobs s.jobs (record s { is_open = false })
