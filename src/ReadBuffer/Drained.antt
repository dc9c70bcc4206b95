-- ===== src/ReadBuffer/Drained.antt =====
-- A reader that is left alone with its queue.
use c_faas_emulator.Common.{
  ◌≤◌, false, Option, none, some, List, [], ◌∷◌, ◌≡◌, sym, subst, ◌∙◌, arith, length, append-nil,
  All,
}
use c_faas_emulator.Common.Floats.{Floats}
use c_faas_emulator.Common.Name.{str_eq}
use c_faas_emulator.Common.Outcome.{Outcome, ok}
use c_faas_emulator.Types.{Invocation, quit}
use c_faas_emulator.Disk.{Disk}
use c_faas_emulator.ReadBuffer.{Medium, look, Look, takes}
use c_faas_emulator.ReadBuffer.Fifo.{look-Finds}
use c_faas_emulator.ReadBuffer.Reader.{taken_up, ahead, ReaderThread}
use c_faas_emulator.ReadBuffer.Answers.{
  DeskEvent, take_up, finishes, Desk, finish, desk_step, desk_run, names_of, Answers,
}
use c_faas_emulator.ReadBuffer.Served.{finish-Answers}

-- The rounds of a reader while no request comes, with the disk cache at the end of each.
abbrev pub rounds : List Disk → List DeskEvent
rounds [] = []
rounds (d ∷ ds) = take_up ∷ finishes d ∷ rounds ds

abbrev pub NoneQuits : List Invocation → Type 0
NoneQuits = All λ i. str_eq i.hash_function quit ≡ false

module _ (fl : Floats) where
  open fl use {Float}

  module _ (thread : ReaderThread) (cold_lat restore_lat : Float) where
    -- What is left of a run whose reader, at rest, has looked at its queue and found `l`.
    abbrev after_look : List Disk → Disk → Desk fl → Medium fl → Outcome Look → Desk fl
    after_look ds d k m l =
        desk_run fl thread cold_lat restore_lat
          (finish fl thread cold_lat restore_lat d
            (record k { reader = taken_up fl (record { medium = m; busy = none }) l }))
          (rounds ds)

    abbrev finished : Disk → Desk fl → Medium fl → Invocation → Desk fl
    finished d k m i =
        finish fl thread cold_lat restore_lat d
          (record k { reader = record { medium = m; busy = some i } })

    drains :
        (ds : List Disk) (k : Desk fl) (m : Medium fl) (busy : Option Invocation)
        (xs : List Invocation)
        → Answers fl (record k { reader = record { medium = m; busy = busy } }) xs
        → NoneQuits xs
        → length (ahead busy xs) ≤ length ds
        → names_of
            (desk_run fl thread cold_lat restore_lat
              (record k { reader = record { medium = m; busy = busy } })
              (rounds ds)).answered
          ≡ k.admitted
    unfolding desk_run desk_step finish
    drains [] k m none [] l nq lt = sym (l.order ∙ append-nil (names_of k.answered))
    drains [] k m none (x ∷ xs) l nq lt = absurd (omega arith)
    drains [] k m (some i) xs l nq lt = absurd (omega arith)
    drains (d ∷ ds) k m none [] l nq lt =
        subst (λ lk. names_of (after_look ds d k m lk).answered ≡ k.admitted)
          (sym (look-Finds m.requests [] l.holds)) (drains ds k m none [] l nq (omega arith))
    drains (d ∷ ds) k m none (x ∷ xs) l nq lt =
        let (b, h, e) = look-Finds m.requests (x ∷ xs) l.holds in
        let m' = record m { requests = b } in
        let taken : look m.requests ≡ ok (takes x b) = rw nq.0 at e in
        subst (λ lk. names_of (after_look ds d k m lk).answered ≡ k.admitted) (sym taken)
          (drains ds (finished d k m' x) (finished d k m' x).reader.medium none xs
            (finish-Answers fl thread cold_lat restore_lat d k m' x xs
              (record { holds = h; order = l.order; woken = l.woken }))
            nq.1 (omega arith))
    drains (d ∷ ds) k m (some i) xs l nq lt =
        drains ds (finished d k m i) (finished d k m i).reader.medium none xs
          (finish-Answers fl thread cold_lat restore_lat d k m i xs l) nq (omega arith)

    -- If no request comes any more and none is named "quit", a reader of the disk or of the
    -- network that goes on for as many
    -- rounds as there are requests that are being read or wait answers all that were let in.
    pub desk_run-drains :
        (k : Desk fl) (xs : List Invocation) (ds : List Disk)
        → Answers fl k xs
        → NoneQuits xs
        → length (ahead k.reader.busy xs) ≤ length ds
        → names_of (desk_run fl thread cold_lat restore_lat k (rounds ds)).answered ≡ k.admitted
    desk_run-drains k xs ds l nq lt = drains ds k k.reader.medium k.reader.busy xs l nq lt
