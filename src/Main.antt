-- ===== src/Main.antt =====
-- source/main.c: the loop over the lines of the trace, the end of the pools and the emptying of the
-- disk cache. The threads that the loop feeds are in the other modules; what they and the clock do
-- between two lines is a `Tick`. At the end the upload thread is taken to work off its queue
-- once all is queued.
pub mod Trace
pub mod Reading
pub mod Minutes
pub mod Ending
pub mod Run
use c_faas_emulator.Common.{
  ℕ, zero, suc, ◌+◌, Bool, true, false, not, Option, none, some, List, [], ◌∷◌, ◌++◌, ◌==◌,
  if◌then◌else◌,
}
use c_faas_emulator.Common.Int.{ℤ, pos, negsuc, ◌+ℤ◌, ◌-ℤ◌, ltb_ℤ}
use c_faas_emulator.Common.Outcome.{Outcome, ok, exits, fault, ◌>>=◌}
use c_faas_emulator.Types.{Invocation, Effect, quit}
use c_faas_emulator.Stats.{Start, Stats, count_start, save_starts}
use c_faas_emulator.Invocation.Line.{line_to_invocation}
use c_faas_emulator.Ram.{Ram}
use c_faas_emulator.Network.{NetCache, destroy_net_cache, net_thread_func}
use c_faas_emulator.Disk.{Disk, free_disk}
use c_faas_emulator.ReadBuffer.{ReadBuffer, push_quit}
use c_faas_emulator.Containers.Prune.{ended_mark}

abbrev pub newline : ℕ
newline = 10

-- The bytes of `char line[500]` without the terminator.
abbrev pub line_room : ℕ
line_room = 499

-- `fgets` of C's library, with room for so many bytes: the line, and the rest of the file.
unfoldable pub fgets : ℕ → List ℕ → List ℕ × List ℕ
fgets zero bs = ([], bs)
fgets (suc room) [] = ([], [])
fgets (suc room) (b ∷ bs) =
    let (line, rest) = fgets room bs in if b == newline then (b ∷ [], bs) else (b ∷ line, rest)

-- What happens up to a line and during it: the starts that workers counted since the line before,
-- `getMs()` at its beginning, `getMs() - start` after the line was parsed, and the block that
-- `malloc` gave for the invocation.
pub record Tick : Type 0 where
  pub counted : List Start
  pub curr : ℤ
  pub time_passed : ℤ
  pub fresh : Invocation

-- An invocation given to the pool, after a sleep of so many milliseconds.
pub record Submission : Type 0 where
  pub invocation : Invocation
  pub slept : ℤ

pub record Loop : Type 0 where
  pub first_line : Bool
  pub count : ℕ
  pub stats : Stats
  pub submitted : List Submission

unfoldable pub init_loop : Stats → Loop
init_loop stats = record { first_line = true; count = 0; stats = stats; submitted = [] }

unfoldable pub count_starts : List Start → Stats → Stats
unfolding count_start
count_starts [] s = s
count_starts (k ∷ ks) s = count_starts ks (count_start k s)

-- `if (curr >= stats->lastMs + 1000*60) saveStarts(stats, curr)`
unfoldable pub minute_turn : ℤ → Stats → Stats
minute_turn curr s = if ltb_ℤ curr (s.last_ms +ℤ pos 60000) then s else save_starts curr s

unfoldable pub time_to_wait : ℤ → Invocation → ℤ
time_to_wait time_passed i =
    if ltb_ℤ time_passed i.timestamp then i.timestamp -ℤ time_passed else pos 0

-- The body of the loop.
unfoldable pub main_turn : Tick → List ℕ → Loop → Outcome Loop
unfolding count_starts minute_turn time_to_wait
main_turn t line s =
    let s' = record s { stats = minute_turn t.curr (count_starts t.counted s.stats) } in
    if s.first_line then ok (record s' { first_line = false }) else (do
      i ← line_to_invocation t.fresh line
      ok (record s' {
        count = s.count + 1;
        submitted =
            s.submitted ++ record { invocation = i; slept = time_to_wait t.time_passed i } ∷ [];
      }))

-- The loop of `main_loop` over the lines, from line `n` on. Each line that `fgets` gives has a byte at least.
unfoldable pub main_loop : ℕ → (ℕ → Tick) → ℕ → List ℕ → Loop → Outcome Loop
unfolding fgets main_turn
main_loop zero env n file s = fault
main_loop (suc fuel) env n file s =
    let (line, rest) = fgets line_room file in
    let next = (do s' ← main_turn (env n) line s; main_loop fuel env (n + 1) rest s') in
    elim file [ [] ↦ ok s | _ ∷ _ ↦ next ]

-- What `endPools` stores for the threads of the pools; without containers, `disk->containers` is
-- NULL and is dereferenced.
pub record Signals : Type 0 where
  pub read_buffer : ReadBuffer
  pub remove_buffer : ReadBuffer
  pub ram : Ram
  pub creation_in_progress : ℤ

unfoldable pub end_pools : (containers : Bool) → Invocation → Signals → Outcome Signals
unfolding push_quit
end_pools containers fresh s =
    let quit_request = record fresh { hash_function = quit; memory = pos 0 } in
    let stored : Signals = record {
      read_buffer = push_quit quit_request s.read_buffer;
      ram = record s.ram { cache_occupied = negsuc 0 };
      remove_buffer = push_quit quit_request s.remove_buffer;
      creation_in_progress = ended_mark;
    } in
    if containers then ok stored else fault

-- `destroyNetCache`, which waits until the upload thread has ended: whether it has, the network
-- cache, and what the thread has done. `fuel` bounds its rounds.
abbrev pub end_network :
    ℕ
    → Option NetCache
    → Disk
    → List Effect
    → Outcome (Option (Bool × NetCache × List Effect) × Disk × List Effect)
end_network fuel none d effects = ok (none, d, effects)
end_network fuel (some net) d effects = do
  net' ← destroy_net_cache net
  ok (net_thread_func fuel net', d, effects)

-- `freeDisk(1000000000, …)`, and the end of the network cache. Without containers `containers` is
-- NULL and is dereferenced for a handle.
unfoldable pub empty_disk :
    ℕ → Disk → Outcome (Option (Bool × NetCache × List Effect) × Disk × List Effect)
unfolding free_disk destroy_net_cache
empty_disk fuel d =
    let emptied = do
      (met, f) ← free_disk (pos 1000000000) d
      end_network fuel f.disk.net_cache f.disk f.effects
    in if d.containers then emptied else fault
