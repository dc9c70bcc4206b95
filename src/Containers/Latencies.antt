-- ===== src/Containers/Latencies.antt =====
-- `test_speeds_containers` of source/containers.c: five containers are made, started, checkpointed and
-- restored, and the time that this takes is measured. What curl reports is a list of answers, one for
-- each request, and `clock n` is what the n-th call of `getMs` gives.
pub mod Makes
pub mod Loops
pub mod Measured
use c_faas_emulator.Common.{ℕ, suc, ◌+◌, ◌/◌, Bool, true, false, List, [], ◌∷◌, ◌++◌, if◌then◌else◌}
use c_faas_emulator.Common.Int.{ℤ, pos, negsuc, ◌+ℤ◌, ◌-ℤ◌, ltb_ℤ}
use c_faas_emulator.Containers.Requests.{Request, create, start, init, restore, export}

-- A request, the number of its container, how often the clock was read before it, and whether curl
-- reported success.
pub record Asked : Type 0 where
  pub request : Request
  pub container : ℕ
  pub after : ℕ
  pub success : Bool

-- The answers still to come, how often the clock was read, and the requests so far.
pub record Bench : Type 0 where
  pub answers : List Bool
  pub readings : ℕ
  pub log : List Asked

-- The thread goes on with a value, has called `exit`, or waits for an answer.
pub data Progress {ℓ} (A : Type ℓ) : Type ℓ where
  on : A → Progress A
  exited : Progress A
  waits : Progress A

module _ {ℓ κ} {A : Type ℓ} {B : Type κ} where
  infixl 5 ◌>>=◌
  abbrev pub ◌>>=◌ : Progress A → (A → Progress B) → Progress B
  on a >>= f = f a
  exited >>= f = exited
  waits >>= f = waits

abbrev pub noted : Request → ℕ → Bool → List Bool → Bench → Bench
noted r i b later s = record s {
  answers = later;
  log = s.log ++ record { request = r; container = i; after = s.readings; success = b } ∷ [];
}

-- A request that is made once; `exit` if it fails.
unfoldable pub ask_once : Request → ℕ → Bench → Progress Bench
ask_once r i s = elim s.answers [
  | [] ↦ waits
  | b ∷ later ↦ if b then on (noted r i b later s) else exited
]

-- A request that is made until it succeeds.
unfoldable pub ask_until : Request → ℕ → List Bool → Bench → Progress Bench
ask_until r i [] s = waits
ask_until r i (b ∷ later) s =
    let again = ask_until r i later (noted r i b later s) in
    if b then on (noted r i b later s) else again

unfoldable pub test_create_container : ℕ → Bench → Progress Bench
unfolding ask_once
test_create_container i s = ask_once create i s

unfoldable pub test_start_container : ℕ → Bench → Progress Bench
unfolding ask_once
test_start_container i s = ask_once start i s

unfoldable pub test_init_container : ℕ → Bench → Progress Bench
unfolding ask_until
test_init_container i s = ask_until init i s.answers s

-- The body of the loop that is timed as a cold start.
unfoldable pub start_and_init : ℕ → Bench → Progress Bench
unfolding test_start_container test_init_container
start_and_init i s = do s' ← test_start_container i s; test_init_container i s'

-- `checkpointContainer(handle, cid[i], functions[i], 0, NULL)`
unfoldable pub test_checkpoint : ℕ → Bench → Progress Bench
unfolding ask_once
test_checkpoint i s = ask_once export i s

-- `restoreCheckpoint(handle, cid[i], &data, NULL)`, on the file that was exported.
unfoldable pub test_restore : ℕ → Bench → Progress Bench
unfolding ask_once
test_restore i s = ask_once restore i s

-- `for (int i = 0; i < 5; i++)`
unfoldable pub for_each : (ℕ → Bench → Progress Bench) → List ℕ → Bench → Progress Bench
for_each f [] s = on s
for_each f (i ∷ is) s = do s' ← f i s; for_each f is s'

abbrev pub five : List ℕ
five = 0 ∷ 1 ∷ 2 ∷ 3 ∷ 4 ∷ []

-- `/` on `long`, which rounds towards 0.
abbrev pub quot : ℤ → ℕ → ℤ
quot (pos n) d = pos (n / d)
quot (negsuc n) d = pos 0 -ℤ pos (suc n / d)

-- `coldLat`, `checkpointLat`, and the value that `options->restore_latency` ends with.
pub record Latencies : Type 0 where
  pub cold : ℤ
  pub checkpoint : ℤ
  pub restore_latency : ℤ

module _ (clock : ℕ → ℤ) where
  -- `getMs`
  abbrev pub tick : Bench → ℤ × Bench
  tick s = (clock s.readings, record s { readings = s.readings + 1 })

  -- The loop over the restores, with the sum of their durations.
  unfoldable pub restore_loop : List ℕ → ℤ → Bench → Progress (ℤ × Bench)
  unfolding test_restore
  restore_loop [] durations s = on (durations, s)
  restore_loop (i ∷ is) durations s = do
    let (begun, s₁) = tick s
    s₂ ← test_restore i s₁
    let (ended, s₃) = tick s₂
    restore_loop is (durations +ℤ (ended -ℤ begun)) s₃

  unfoldable pub test_speeds_containers : Bench → Progress (Latencies × Bench)
  unfolding for_each test_create_container start_and_init test_checkpoint restore_loop
  test_speeds_containers s = do
    s₁ ← for_each test_create_container five s
    let (cold_start, s₂) = tick s₁
    s₃ ← for_each start_and_init five s₂
    let (cold_end, s₄) = tick s₃
    let cold_lat = quot (cold_end -ℤ cold_start) 5
    let (checkpoint_start, s₅) = tick s₄
    s₆ ← for_each test_checkpoint five s₅
    let (checkpoint_end, s₇) = tick s₆
    s₈ ← for_each test_create_container five s₇
    (durations, s₉) ← restore_loop five (pos 0) s₈
    let restore_lat = quot durations 5
    let capped = cold_lat -ℤ pos 100
    on (
      record {
        cold = cold_lat;
        checkpoint = quot (checkpoint_end -ℤ checkpoint_start) 5;
        restore_latency = if ltb_ℤ capped restore_lat then capped else restore_lat;
      },
      s₉,
    )
