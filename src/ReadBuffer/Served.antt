-- ===== src/ReadBuffer/Served.antt =====
-- Every request that a read queue lets in is answered once.
use mathlib.Core.List.{map-append}
use c_faas_emulator.Common.{
  ℕ, suc, ◌+◌, Bool, true, false, ◌||◌, Option, none, some, List, [], ◌∷◌, ◌++◌, ◌≡◌, ◌≢◌, refl, ap,
  sym, ◌∙◌, leb, arith, length, length-append, Bool-cases, Option-cases, inl, inr, append_assoc,
  All-append, if◌then◌else◌,
}
use c_faas_emulator.Common.Int.{ℤ, eqb_ℤ}
use c_faas_emulator.Common.Floats.{Floats}
use c_faas_emulator.Common.Name.{str_eq}
use c_faas_emulator.Types.{Invocation, quit}
use c_faas_emulator.Disk.{Disk}
use c_faas_emulator.ReadBuffer.{
  Medium, admit, accept, too_slow, too_slow_plain, add_to_read_buffer, settle, look,
  add_to_network_read_buffer, serve_disk, serve_network, max_requests, pending,
}
use c_faas_emulator.ReadBuffer.Fifo.{Holds, Finds, look-Finds, push_request-Holds}
use c_faas_emulator.ReadBuffer.Reader.{
  taken_up, ahead, ahead-snoc, ReaderThread, of_disk, of_network, ask,
}
use c_faas_emulator.ReadBuffer.Answers.{
  DeskEvent, serve, arrives, take_up, finishes, Desk, open_desk, arrive, finish, desk_step,
  desk_run, names_of, Answers,
}

-- The requests among the events.
abbrev pub asked : List DeskEvent → ℕ
asked [] = 0
asked (arrives i ∷ es) = suc (asked es)
asked (take_up ∷ es) = asked es
asked (finishes d ∷ es) = asked es

module _ (fl : Floats) where
  open fl use {Float}

  abbrev Goes : Desk fl → Type 0
  Goes k = (ys : List Invocation) × Answers fl k ys

  module _ (thread : ReaderThread) (cold_lat restore_lat : Float) where
    order-snoc :
        (log : List (Invocation × ℤ)) (busy : Option Invocation) (xs admitted : List Invocation)
        (i : Invocation)
        → admitted ≡ names_of log ++ ahead busy xs
        → admitted ++ i ∷ [] ≡ names_of log ++ ahead busy (xs ++ i ∷ [])
    order-snoc log busy xs admitted i e =
        ap (λ (t : List Invocation). t ++ i ∷ []) e
        ∙ append_assoc (names_of log) (ahead busy xs) (i ∷ [])
        ∙ ap (◌++◌ (names_of log)) (sym (ahead-snoc busy xs i))

    -- A request that is let in, or not.
    abbrev entered : Invocation → ℤ → Medium fl → Desk fl → Desk fl
    entered i answer m k =
        let k' = record k { reader = record k.reader { medium = m } } in
        if eqb_ℤ answer pending
        then record k' { admitted = k.admitted ++ i ∷ [] }
        else record k' { turned_away = k.turned_away ++ i ∷ [] }

    admit-Goes :
        (slow : Bool) (i : Invocation) (k : Desk fl) (xs : List Invocation)
        → Answers fl k xs
        → let a = admit fl slow i k.reader.medium in Goes (entered i a.0 a.1 k)
    unfolding admit accept
    admit-Goes slow i k xs l =
        elim (Bool-cases (slow || leb max_requests k.reader.medium.requests.buffer_size)) [
          | inl refuse ↦
              (xs, rw refuse (record { holds = l.holds; order = l.order; woken = l.woken }))
          | inr refuse_not ↦ (
            xs ++ i ∷ [],
            rw refuse_not (record {
              holds = push_request-Holds k.reader.medium.requests xs i l.holds;
              order = order-snoc k.answered k.reader.busy xs k.admitted i l.order;
              woken = l.woken;
            }),
          )
        ]

    arrive-Goes :
        (who : ReaderThread) (i : Invocation) (k : Desk fl) (xs : List Invocation)
        → Answers fl k xs
        → Goes (arrive fl who cold_lat restore_lat i k)
    unfolding arrive ask add_to_read_buffer add_to_network_read_buffer
    arrive-Goes (of_disk true read_bin) i k xs l =
        admit-Goes (too_slow fl i k.reader.medium cold_lat restore_lat) i k xs l
    arrive-Goes (of_disk false read_bin) i k xs l =
        admit-Goes (too_slow_plain fl i k.reader.medium cold_lat) i k xs l
    arrive-Goes (of_network get_object) i k xs l =
        admit-Goes (too_slow fl i k.reader.medium cold_lat restore_lat) i k xs l

    take_up-Goes :
        (k : Desk fl) (m : Medium fl) (xs : List Invocation)
        → Answers fl (record k { reader = record { medium = m; busy = none } }) xs
        → Finds m.requests xs
        → Goes (record k {
          reader = taken_up fl (record { medium = m; busy = none }) (look m.requests);
        })
    take_up-Goes k m [] l e = ([], rw e l)
    take_up-Goes k m (x ∷ rest) l (b, h, e) = elim (Bool-cases (str_eq x.hash_function quit)) [
      | inl last ↦ (x ∷ rest, rw (e, last) l)
      | inr more ↦ (rest, rw (e, more) (record { holds = h; order = l.order; woken = l.woken }))
    ]

    serve-wakes : (who : ReaderThread) (i : Invocation) (d : Disk) → (serve who i d).0 ≢ pending
    unfolding serve serve_disk serve_network
    serve-wakes (of_disk containers read_bin) i d = ground arith
    serve-wakes (of_network get_object) i d =
        elim (Option-cases (get_object i.hash_function i.restore_data)) [
          | inl gone ↦ rw gone (ground arith)
          | inr (bytes, got) ↦ rw got (ground arith)
        ]

    pub finish-Answers :
        (d : Disk) (k : Desk fl) (m : Medium fl) (i : Invocation) (xs : List Invocation)
        → Answers fl (record k { reader = record { medium = m; busy = some i } }) xs
        → Answers fl
            (finish fl thread cold_lat restore_lat d
              (record k { reader = record { medium = m; busy = some i } }))
            xs
    unfolding finish settle
    finish-Answers d k m i xs l = record {
      holds = l.holds;
      order =
          l.order
          ∙ sym (append_assoc (names_of k.answered) (i ∷ []) xs)
          ∙ ap (λ (t : List Invocation). t ++ xs)
              (sym (map-append (λ p. p.0) k.answered ((i, (serve thread i d).0) ∷ [])));
      woken = All-append (λ p. p.1 ≢ pending) k.answered _ l.woken (serve-wakes thread i d, tt);
    }

    step-Goes :
        (k : Desk fl) (m : Medium fl) (busy : Option Invocation) (e : DeskEvent)
        (xs : List Invocation)
        → Answers fl (record k { reader = record { medium = m; busy = busy } }) xs
        → Goes (
            desk_step fl thread cold_lat restore_lat
              (record k { reader = record { medium = m; busy = busy } })
              e)
    unfolding desk_step
    step-Goes k m busy (arrives i) xs l =
        arrive-Goes thread i (record k { reader = record { medium = m; busy = busy } }) xs l
    step-Goes k m none take_up xs l = take_up-Goes k m xs l (look-Finds m.requests xs l.holds)
    step-Goes k m (some i) take_up xs l = (xs, l)
    step-Goes k m none (finishes d) xs l = (xs, l)
    step-Goes k m (some i) (finishes d) xs l = (xs, finish-Answers d k m i xs l)

    run-Goes :
        (k : Desk fl) (es : List DeskEvent) (xs : List Invocation)
        → Answers fl k xs
        → Goes (desk_run fl thread cold_lat restore_lat k es)
    unfolding desk_run
    run-Goes k [] xs l = (xs, l)
    run-Goes k (e ∷ es) xs l =
        let (ys, l') = step-Goes k k.reader.medium k.reader.busy e xs l in
        run-Goes (desk_step fl thread cold_lat restore_lat k e) es ys l'

    abbrev handled : Desk fl → ℕ
    handled k = length k.admitted + length k.turned_away

    entered-handled :
        (i : Invocation) (answer : ℤ) (m : Medium fl) (k : Desk fl)
        → handled (entered i answer m k) ≡ suc (handled k)
    entered-handled i answer m k = elim (Bool-cases (eqb_ℤ answer pending)) [
      | inl e ↦ rw e (omega (arith, length-append k.admitted (i ∷ [])))
      | inr e ↦ rw e (omega (arith, length-append k.turned_away (i ∷ [])))
    ]

    arrive-handled :
        (i : Invocation) (k : Desk fl)
        → handled (arrive fl thread cold_lat restore_lat i k) ≡ suc (handled k)
    unfolding arrive
    arrive-handled i k =
        let a = ask fl thread i k.reader.medium cold_lat restore_lat in entered-handled i a.0 a.1 k

    finish-handled :
        (d : Disk) (k : Desk fl) (busy : Option Invocation)
        → handled (
            finish fl thread cold_lat restore_lat d
              (record k { reader = record k.reader { busy = busy } }))
          ≡ handled k
    unfolding finish
    finish-handled d k none = refl
    finish-handled d k (some i) = refl

    take_up-handled :
        (k : Desk fl) (busy : Option Invocation)
        → handled (
            desk_step fl thread cold_lat restore_lat
              (record k { reader = record k.reader { busy = busy } })
              take_up)
          ≡ handled k
    unfolding desk_step
    take_up-handled k none = refl
    take_up-handled k (some i) = refl

    run-handled :
        (k : Desk fl) (es : List DeskEvent)
        → handled (desk_run fl thread cold_lat restore_lat k es) ≡ handled k + asked es
    unfolding desk_run desk_step
    run-handled k [] = omega arith
    run-handled k (arrives i ∷ es) =
        omega
          (arith, run-handled (arrive fl thread cold_lat restore_lat i k) es, arrive-handled i k)
    run-handled k (take_up ∷ es) = omega (
      arith,
      run-handled (desk_step fl thread cold_lat restore_lat k take_up) es,
      take_up-handled k k.reader.busy,
    )
    run-handled k (finishes d ∷ es) = omega (
      arith,
      run-handled (finish fl thread cold_lat restore_lat d k) es,
      finish-handled d k k.reader.busy,
    )

    -- For the reader of the disk and for that of the network: over any sequence of requests, reads begun and reads ended, from an empty queue: each request
    -- is either let in or turned away; those let in have been answered, are being read or wait, each
    -- in one of these places and in the order in which they came; and each answer given is one that
    -- wakes the thread that waits for it.
    pub desk_run-Answers :
        (m : Medium fl) (es : List DeskEvent)
        → Holds m.requests []
        → let k = desk_run fl thread cold_lat restore_lat (open_desk fl m) es in
          ((xs : List Invocation) × Answers fl k xs)
          × (length k.admitted + length k.turned_away ≡ asked es)
    unfolding open_desk
    desk_run-Answers m es h = (
      run-Goes (open_desk fl m) es [] (record { holds = h; order = refl; woken = tt }),
      omega (arith, run-handled (open_desk fl m) es),
    )
