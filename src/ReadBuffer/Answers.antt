-- ===== src/ReadBuffer/Answers.antt =====
-- What becomes of the requests to a read queue: the entries that `rejectRead` and the reader, of the
-- disk or of the network, store in `*(inv->conc_n)`, for which the requests' threads wait.
use c_faas_emulator.Common.{none, some, List, [], ◌∷◌, ◌++◌, ◌≡◌, ◌≢◌, map, All, if◌then◌else◌}
use c_faas_emulator.Common.Int.{ℤ, eqb_ℤ}
use c_faas_emulator.Common.Floats.{Floats}
use c_faas_emulator.Types.{Invocation}
use c_faas_emulator.Disk.{Disk}
use c_faas_emulator.ReadBuffer.{Medium, settle, look, serve_disk, serve_network, pending}
use c_faas_emulator.ReadBuffer.Fifo.{Holds}
use c_faas_emulator.ReadBuffer.Reader.{
  ReaderThread, of_disk, of_network, ask, Reader, taken_up, ahead,
}

-- A request comes, the reader takes one up, or it is done, with the disk cache as it is then.
pub data DeskEvent : Type 0 where
  arrives : Invocation → DeskEvent
  take_up : DeskEvent
  finishes : Disk → DeskEvent

-- The answer that a reader stores for a request, and the invocation.
unfoldable pub serve : ReaderThread → Invocation → Disk → ℤ × Invocation
unfolding serve_disk serve_network
serve (of_disk containers read_bin) i d =
    let (answer, i', d') = serve_disk read_bin i d in (answer, i')
serve (of_network get_object) i d = serve_network get_object i

abbrev pub names_of : List (Invocation × ℤ) → List Invocation
names_of = map λ p. p.0

module _ (fl : Floats) where
  open fl use {Float}

  -- A queue and its reader, with the requests let in so far, those turned away, and the answers of
  -- the reader, in order.
  pub record Desk : Type 0 where
    pub reader : Reader fl
    pub admitted : List Invocation
    pub turned_away : List Invocation
    pub answered : List (Invocation × ℤ)

  unfoldable pub open_desk : Medium fl → Desk
  open_desk m = record {
    reader = record { medium = m; busy = none };
    admitted = [];
    turned_away = [];
    answered = [];
  }

  module _ (thread : ReaderThread) (cold_lat restore_lat : Float) where
    unfoldable pub arrive : Invocation → Desk → Desk
    unfolding ask
    arrive i k =
        let (answer, m) = ask fl thread i k.reader.medium cold_lat restore_lat in
        let k' = record k { reader = record k.reader { medium = m } } in
        if eqb_ℤ answer pending
        then record k' { admitted = k.admitted ++ i ∷ [] }
        else record k' { turned_away = k.turned_away ++ i ∷ [] }

    -- The end of a round of `readFromDisk` or of `readFromNetwork`.
    unfoldable pub finish : Disk → Desk → Desk
    unfolding serve settle
    finish d k = elim k.reader.busy [
      | none ↦ k
      | some i ↦
          let (answer, i') = serve thread i d in
          record k {
            reader = record { medium = settle fl i' k.reader.medium; busy = none };
            answered = k.answered ++ (i, answer) ∷ [];
          }
    ]

    unfoldable pub desk_step : Desk → DeskEvent → Desk
    unfolding arrive finish look
    desk_step k (arrives i) = arrive i k
    desk_step k take_up = elim k.reader.busy [
      | none ↦ record k { reader = taken_up fl k.reader (look k.reader.medium.requests) }
      | some _ ↦ k
    ]
    desk_step k (finishes d) = finish d k

    unfoldable pub desk_run : Desk → List DeskEvent → Desk
    unfolding desk_step
    desk_run k [] = k
    desk_run k (e ∷ es) = desk_run (desk_step k e) es

  -- Each request let in has been answered, is being read, or waits in the queue, in the order in
  -- which they came; each answer wakes its thread.
  pub record Answers (k : Desk) (xs : List Invocation) : Type 0 where
    pub holds : Holds k.reader.medium.requests xs
    pub order : k.admitted ≡ names_of k.answered ++ ahead k.reader.busy xs
    pub woken : All (λ p. p.1 ≢ pending) k.answered
