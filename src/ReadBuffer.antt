-- ===== src/ReadBuffer.antt =====
-- The queues of read requests of source/disk_cache.c, one for the disk and one for the network,
-- each with a reader thread. `read_buffer_t` is an array of 1000 pointers with a size; `none` is a
-- pointer that was never stored. All runs under `read_lock`. What a request's thread waits for,
-- `*(inv->conc_n)`, is 0 when it is asked, -1 for a refusal and 1 for a read; it is part of the
-- results.
pub mod Fifo
pub mod Reader
pub mod Backlog
pub mod Answers
pub mod Served
pub mod Drained
use c_faas_emulator.Common.{
  ℕ, zero, suc, ◌+◌, ◌-◌, Bool, true, false, ◌||◌, Option, none, some, List, ltb, leb, ◌==◌,
  if◌then◌else◌,
}
use c_faas_emulator.Common.Int.{ℤ, pos, negsuc}
use c_faas_emulator.Common.Floats.{Floats}
use c_faas_emulator.Common.Name.{Name, str_eq}
use c_faas_emulator.Common.Outcome.{Outcome, ok, fault, ◌>>=◌}
use c_faas_emulator.Types.{Invocation, quit}
use c_faas_emulator.Disk.{Disk}
use c_faas_emulator.Disk.Retrieve.{retrieve_from_disk}

pub record ReadBuffer : Type 0 where
  pub buffer : ℕ → Option Invocation
  pub buffer_size : ℕ

abbrev pub buffer_capacity : ℕ
buffer_capacity = 1000

abbrev pub max_requests : ℕ
max_requests = 100

abbrev pub refused : ℤ
refused = negsuc 0

abbrev pub pending : ℤ
pending = pos 0

abbrev pub served : ℤ
served = pos 1

abbrev pub store_at : (ℕ → Option Invocation) → ℕ → Option Invocation → ℕ → Option Invocation
store_at f i v j = if i == j then v else f j

-- `buffer[buffer_size] = invocation; buffer_size += 1`
unfoldable pub push_request : Invocation → ReadBuffer → ReadBuffer
push_request i b = record {
  buffer = store_at b.buffer b.buffer_size (some i);
  buffer_size = b.buffer_size + 1;
}

-- `for (n = …; n < buffer_size; n++) buffer[n] = buffer[n + 1]`, with the rounds that are left.
unfoldable pub shift : ℕ → ℕ → (ℕ → Option Invocation) → ℕ → Option Invocation
shift zero n f = f
shift (suc rounds) n f = shift rounds (n + 1) (store_at f n (f (n + 1)))

unfoldable pub pop_request : ReadBuffer → ReadBuffer
unfolding shift
pop_request b = record { buffer = shift b.buffer_size 0 b.buffer; buffer_size = b.buffer_size - 1 }

-- The last words to a reader: `buffer[0] = &quit; buffer_size = 1000`.
unfoldable pub push_quit : Invocation → ReadBuffer → ReadBuffer
push_quit quit_request b = record {
  buffer = store_at b.buffer 0 (some quit_request);
  buffer_size = buffer_capacity;
}

-- What a reader finds when it looks at the queue.
pub data Look : Type 0 where
  waits : Look
  ends : Look
  takes : Invocation → ReadBuffer → Look

unfoldable pub look : ReadBuffer → Outcome Look
unfolding pop_request
look b = if b.buffer_size == 0 then ok waits else elim (b.buffer 0) [
  | none ↦ fault
  | some i ↦ ok (if str_eq i.hash_function quit then ends else takes i (pop_request b))
]

-- One round of `readFromDisk` that takes a request: the answer, the invocation and the disk.
unfoldable pub serve_disk : (read_bin : Name → List ℕ) → Invocation → Disk → ℤ × Invocation × Disk
unfolding retrieve_from_disk
serve_disk read_bin i d =
    let (i', d') = retrieve_from_disk read_bin i d in
    (if i'.occupied then served else refused, i', d')

-- The same of `readFromNetwork`. `get_object` is minio's getObject on the restore data.
unfoldable pub serve_network :
    (get_object : Name → Option (List ℕ) → Option (List ℕ)) → Invocation → ℤ × Invocation
serve_network get_object i =
    let got = get_object i.hash_function i.restore_data in
    (elim got [ none ↦ refused | some _ ↦ served ], record i { restore_data = got })

module _ (fl : Floats) where
  open fl use {Float, of_int, div_float, add, sub, mul, le, point_eight}

  -- The queue of one medium: `disk_t` with its `read_speed`, `net_cache_t` with its `net_speed`.
  pub record Medium : Type 0 where
    pub requests : ReadBuffer
    pub time_to_read : Float
    pub speed : Float

  -- `(float)invocation->memory / speed`
  unfoldable pub read_time : Invocation → Float → Float
  read_time i speed = div_float (of_int i.memory) speed

  -- The queue takes the request in.
  unfoldable pub accept : Invocation → Medium → Medium
  unfolding read_time push_request
  accept i m = record m {
    time_to_read = add m.time_to_read (read_time i m.speed);
    requests = push_request i m.requests;
  }

  -- The test for a read without containers, which is to save a fifth of the cold start.
  unfoldable pub too_slow_plain : Invocation → Medium → (cold_lat : Float) → Bool
  unfolding read_time
  too_slow_plain i m cold_lat =
      le (mul point_eight cold_lat) (add m.time_to_read (read_time i m.speed))

  -- The test for a read with containers, and for one over the network.
  unfoldable pub too_slow : Invocation → Medium → (cold_lat restore_lat : Float) → Bool
  unfolding read_time
  too_slow i m cold_lat restore_lat =
      le cold_lat (add (add restore_lat m.time_to_read) (read_time i m.speed))

  unfoldable pub admit : Bool → Invocation → Medium → ℤ × Medium
  unfolding accept
  admit slow i m =
      if slow || leb max_requests m.requests.buffer_size
      then (refused, m)
      else (pending, accept i m)

  unfoldable pub add_to_read_buffer :
      (containers : Bool) → Invocation → Medium → (cold_lat restore_lat : Float) → ℤ × Medium
  unfolding admit too_slow too_slow_plain
  add_to_read_buffer containers i m cold_lat restore_lat =
      if containers
      then admit (too_slow i m cold_lat restore_lat) i m
      else admit (too_slow_plain i m cold_lat) i m

  unfoldable pub add_to_network_read_buffer :
      Invocation → Medium → (cold_lat restore_lat : Float) → ℤ × Medium
  unfolding admit too_slow
  add_to_network_read_buffer i m cold_lat restore_lat =
      admit (too_slow i m cold_lat restore_lat) i m

  -- The end of a read: `time_to_read -= (float)inv->memory / speed`.
  unfoldable pub settle : Invocation → Medium → Medium
  unfolding read_time
  settle i m = record m { time_to_read = sub m.time_to_read (read_time i m.speed) }
