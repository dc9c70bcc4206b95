-- ===== src/ReadBuffer/Backlog.antt =====
-- How many requests can wait, over any sequence of requests and reads.
use c_faas_emulator.Common.{
  Bool, true, false, ◌||◌, Option, none, some, List, [], ◌∷◌, ◌++◌, leb, arith, length-append,
  Bool-cases, inl, inr,
}
use c_faas_emulator.Common.Floats.{Floats}
use c_faas_emulator.Common.Name.{str_eq}
use c_faas_emulator.Types.{Invocation, quit}
use c_faas_emulator.ReadBuffer.{
  Medium, admit, accept, too_slow, too_slow_plain, add_to_read_buffer, add_to_network_read_buffer,
  settle, look, max_requests,
}
use c_faas_emulator.ReadBuffer.Fifo.{Finds, look-Finds, push_request-Holds}
use c_faas_emulator.ReadBuffer.Reader.{
  ReaderThread, of_disk, of_network, ask, Reader, Event, request, take_up, done, taken_up,
  reader_step, reader_run, Ledger,
}

module _ (fl : Floats) where
  open fl use {Float, nought, add, sub, le}

  admit-Ledger :
      (slow : Bool) (i : Invocation) (r : Reader fl) (xs : List Invocation)
      → Ledger fl r xs
      → (ys : List Invocation) × Ledger fl (record r { medium = (admit fl slow i r.medium).1 }) ys
  unfolding admit accept
  admit-Ledger slow i r xs l =
      elim (Bool-cases (slow || leb max_requests r.medium.requests.buffer_size)) [
        | inl refuse ↦ (xs, rw refuse l)
        | inr refuse_not ↦ (
          xs ++ i ∷ [],
          rw refuse_not (record {
            holds = push_request-Holds r.medium.requests xs i l.holds;
            few = ground (arith, refuse_not, l.holds.size, length-append xs (i ∷ []));
          }),
        )
      ]

  request-Ledger :
      (thread : ReaderThread) (cold_lat restore_lat : Float) (r : Reader fl) (i : Invocation)
      (xs : List Invocation)
      → Ledger fl r xs
      → (ys : List Invocation) × Ledger fl
          (reader_step fl thread cold_lat restore_lat r (request i))
          ys
  unfolding ask add_to_read_buffer add_to_network_read_buffer
  request-Ledger (of_disk true read_bin) cold_lat restore_lat r i xs l =
      admit-Ledger (too_slow fl i r.medium cold_lat restore_lat) i r xs l
  request-Ledger (of_disk false read_bin) cold_lat restore_lat r i xs l =
      admit-Ledger (too_slow_plain fl i r.medium cold_lat) i r xs l
  request-Ledger (of_network get_object) cold_lat restore_lat r i xs l =
      admit-Ledger (too_slow fl i r.medium cold_lat restore_lat) i r xs l

  take_up-Ledger :
      (m : Medium fl) (xs : List Invocation)
      → Ledger fl (record { medium = m; busy = none }) xs
      → Finds m.requests xs
      → (ys : List Invocation) × Ledger fl
          (taken_up fl (record { medium = m; busy = none }) (look m.requests))
          ys
  take_up-Ledger m [] l e = ([], rw e l)
  take_up-Ledger m (x ∷ rest) l (b, h, e) = elim (Bool-cases (str_eq x.hash_function quit)) [
    | inl last ↦ (x ∷ rest, rw (e, last) l)
    | inr more ↦ (rest, rw (e, more) (record { holds = h; few = omega (arith, l.few) }))
  ]

  done-Ledger :
      (m : Medium fl) (i : Invocation) (xs : List Invocation)
      → Ledger fl (record { medium = m; busy = some i }) xs
      → Ledger fl (record { medium = settle fl i m; busy = none }) xs
  unfolding settle
  done-Ledger m i xs l = record { holds = l.holds; few = l.few }

  step-Ledger :
      (thread : ReaderThread) (cold_lat restore_lat : Float) (m : Medium fl)
      (busy : Option Invocation) (e : Event) (xs : List Invocation)
      → Ledger fl (record { medium = m; busy = busy }) xs
      → (ys : List Invocation) × Ledger fl
          (reader_step fl thread cold_lat restore_lat (record { medium = m; busy = busy }) e)
          ys
  step-Ledger thread cold_lat restore_lat m busy (request i) xs l =
      request-Ledger thread cold_lat restore_lat _ i xs l
  step-Ledger thread cold_lat restore_lat m none take_up xs l =
      take_up-Ledger m xs l (look-Finds m.requests xs l.holds)
  step-Ledger thread cold_lat restore_lat m (some i) take_up xs l = (xs, l)
  step-Ledger thread cold_lat restore_lat m none done xs l = (xs, l)
  step-Ledger thread cold_lat restore_lat m (some i) done xs l = (xs, done-Ledger m i xs l)

  -- For either reader and whatever the arithmetic of floats: over any sequence of requests, reads
  -- begun and reads ended, from a queue of at most 100 requests, the queue, which is the first
  -- entries of the array, holds at most 100, so that no request is stored past the end of it.
  pub reader_run-Ledger :
      (thread : ReaderThread) (cold_lat restore_lat : Float) (r : Reader fl) (es : List Event)
      (xs : List Invocation)
      → Ledger fl r xs
      → (ys : List Invocation) × Ledger fl (reader_run fl thread cold_lat restore_lat r es) ys
  unfolding reader_run
  reader_run-Ledger thread cold_lat restore_lat r [] xs l = (xs, l)
  reader_run-Ledger thread cold_lat restore_lat r (e ∷ es) xs l =
      let (ys, l') = step-Ledger thread cold_lat restore_lat r.medium r.busy e xs l in
      reader_run-Ledger thread cold_lat restore_lat (reader_step fl thread cold_lat restore_lat r e)
        es ys l'
