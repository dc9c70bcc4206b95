-- ===== src/ReadBuffer/Reader.antt =====
-- A read queue together with its reader thread, over any sequence of requests and reads.
use c_faas_emulator.Common.{
  ℕ, ◌≤◌, Bool, Option, none, some, List, [], ◌∷◌, ◌++◌, ◌≡◌, refl, length,
}
use c_faas_emulator.Common.Floats.{Floats}
use c_faas_emulator.Common.Outcome.{Outcome, ok, exits, fault}
use c_faas_emulator.Common.Int.{ℤ}
use c_faas_emulator.Common.Name.{Name}
use c_faas_emulator.Types.{Invocation}
use c_faas_emulator.ReadBuffer.{
  Medium, add_to_read_buffer, add_to_network_read_buffer, settle, look, Look, waits, ends, takes,
  max_requests,
}
use c_faas_emulator.ReadBuffer.Fifo.{Holds}

-- What can happen next: a request comes, the reader takes one up, the reader is done with it.
pub data Event : Type 0 where
  request : Invocation → Event
  take_up : Event
  done : Event

-- The reader of the disk, or that of the network.
pub data ReaderThread : Type 0 where
  of_disk : (containers : Bool) → (read_bin : Name → List ℕ) → ReaderThread
  of_network : (get_object : Name → Option (List ℕ) → Option (List ℕ)) → ReaderThread

abbrev pub ahead : Option Invocation → List Invocation → List Invocation
ahead none xs = xs
ahead (some i) xs = i ∷ xs

pub ahead-snoc :
    (busy : Option Invocation) (xs : List Invocation) (i : Invocation)
    → ahead busy (xs ++ i ∷ []) ≡ ahead busy xs ++ i ∷ []
ahead-snoc none xs i = refl
ahead-snoc (some j) xs i = refl

module _ (fl : Floats) where
  open fl use {Float, nought, add, sub, le}

  -- The request of a worker.
  unfoldable pub ask :
      ReaderThread → Invocation → Medium fl → (cold_lat restore_lat : Float) → ℤ × Medium fl
  unfolding add_to_read_buffer add_to_network_read_buffer
  ask (of_disk containers read_bin) i m cold_lat restore_lat =
      add_to_read_buffer fl containers i m cold_lat restore_lat
  ask (of_network get_object) i m cold_lat restore_lat =
      add_to_network_read_buffer fl i m cold_lat restore_lat

  -- A queue with the request that its reader is busy with.
  pub record Reader : Type 0 where
    pub medium : Medium fl
    pub busy : Option Invocation

  abbrev pub taken_up : Reader → Outcome Look → Reader
  taken_up r (ok (takes i b)) = record { medium = record r.medium { requests = b }; busy = some i }
  taken_up r (ok waits) = r
  taken_up r (ok ends) = r
  taken_up r exits = r
  taken_up r fault = r

  abbrev pub reader_step : ReaderThread → (cold_lat restore_lat : Float) → Reader → Event → Reader
  reader_step thread cold_lat restore_lat r (request i) = record r {
    medium = (ask thread i r.medium cold_lat restore_lat).1;
  }
  reader_step thread cold_lat restore_lat r take_up = elim r.busy [
    | none ↦ taken_up r (look r.medium.requests)
    | some _ ↦ r
  ]
  reader_step thread cold_lat restore_lat r done = elim r.busy [
    | none ↦ r
    | some i ↦ record { medium = settle fl i r.medium; busy = none }
  ]

  unfoldable pub reader_run :
      ReaderThread → (cold_lat restore_lat : Float) → Reader → List Event → Reader
  reader_run thread cold_lat restore_lat r [] = r
  reader_run thread cold_lat restore_lat r (e ∷ es) =
      reader_run thread cold_lat restore_lat (reader_step thread cold_lat restore_lat r e) es

  -- The queue holds `xs`, no more than 100.
  pub record Ledger (r : Reader) (xs : List Invocation) : Type 0 where
    pub holds : Holds r.medium.requests xs
    pub few : length xs ≤ max_requests
