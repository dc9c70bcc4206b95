-- ===== src/Allocate/Moves.antt =====
-- What one step of a worker does to the memory.
use c_faas_emulator.Common.{
  Bool, true, false, List, [], ◌∷◌, ◌++◌, ◌≡◌, refl, ap, sym, subst, ◌∙◌, Bool-cases, if◌then◌else◌,
  All, All-append, All-prefix, All-suffix, inl, inr,
}
use c_faas_emulator.Common.Int.{ℤ, pos, ◌+ℤ◌, ◌-ℤ◌, ltb_ℤ, int_laws, parts_of_eq}
use c_faas_emulator.Common.Sums.{sum_by-middle, sum_by-snoc}
use c_faas_emulator.Common.Name.{Name, str_eq_sound}
use c_faas_emulator.Types.{Invocation, Totals}
use c_faas_emulator.Ram.{
  Ram, insert_ram_item, free_ram_detach, free_ram_settle, free_ram_plain, total_memory,
}
use c_faas_emulator.Ram.Accounting.{room, total-free_ram_detach, free_ram-room}
use c_faas_emulator.Ram.Free.{free_ram_detach-Frees, free_ram_plain-settle}
use c_faas_emulator.Ram.Search.{Unlinked, search_ram-cases}
use c_faas_emulator.Stats.{Start, Latency, Stats}
use c_faas_emulator.Allocate.{
  Shared, Worker, arrives, evicts, awaits_read, starts_cold, runs, ended, Choice, advance, enter,
  warm_start, find_memory, after_search, after_free, reserve, answered, cold_done,
}

-- The memory that a worker holds: that of the functions it is about to kill, or that which it has
-- reserved for its own.
abbrev pub held : Worker → ℤ
held (arrives i) = pos 0
held (evicts i mem_needed d) = d.freed
held (awaits_read i) = i.memory
held (starts_cold i) = i.memory
held (runs k i) = i.memory
held (ended k) = pos 0

-- What a worker has taken off the list and not yet off `cache_occupied`.
abbrev pub detached : Worker → ℤ
detached (arrives i) = pos 0
detached (evicts i mem_needed d) = d.freed
detached (awaits_read i) = pos 0
detached (starts_cold i) = pos 0
detached (runs k i) = pos 0
detached (ended k) = pos 0

-- A function needs the same memory whenever it is invoked.
module _ (size : Name → ℤ) where
  abbrev pub Sized : Invocation → Type 0
  Sized i = i.memory ≡ size i.hash_function

  abbrev pub SizedWorker : Worker → Type 0
  SizedWorker (arrives i) = Sized i
  SizedWorker (evicts i mem_needed d) = Sized i
  SizedWorker (awaits_read i) = Sized i
  SizedWorker (starts_cold i) = Sized i
  SizedWorker (runs k i) = Sized i
  SizedWorker (ended k) = Unit

  abbrev pub AllWorkers : List Worker → Type 0
  AllWorkers = All SizedWorker

  -- A step of a worker that holds `h` of memory, and has detached `u`.
  pub record Moves (h u : ℤ) (s : Shared) (w' : Worker) (s' : Shared) : Type 0 where
    pub balance : room s'.ram +ℤ held w' ≡ room s.ram +ℤ h
    pub occupied :
        s'.ram.cache_occupied +ℤ (total_memory s.ram.head +ℤ u)
        ≡ s.ram.cache_occupied +ℤ (total_memory s'.ram.head +ℤ detached w')
    pub sized_head : All Sized s'.ram.head
    pub sized : SizedWorker w'

  reserve-Moves :
      (i : Invocation) (s : Shared)
      → All Sized s.ram.head
      → Sized i
      → Moves (pos 0) (pos 0) s (reserve i s).0 (reserve i s).1
  unfolding reserve
  reserve-Moves i s h e = record {
    balance = omega int_laws;
    occupied = omega int_laws;
    sized_head = h;
    sized = e;
  }

  -- `freeRam` is back, with the memory `h` that its caller held on the counter.
  after_free-Moves :
      (i : Invocation) (answer : Bool) (ram' : Ram) (h : ℤ) (s : Shared)
      → room ram' ≡ room s.ram +ℤ h
      → ram'.cache_occupied +ℤ (total_memory s.ram.head +ℤ h)
        ≡ s.ram.cache_occupied +ℤ total_memory ram'.head
      → All Sized ram'.head
      → Sized i
      → Moves h h s (after_free i (answer, ram') s).0 (after_free i (answer, ram') s).1
  unfolding after_free reserve
  after_free-Moves i true ram' h s b o l e = record {
    balance = omega (int_laws, parts_of_eq b);
    occupied = omega (int_laws, parts_of_eq o);
    sized_head = l;
    sized = e;
  }
  after_free-Moves i false ram' h s b o l e = record {
    balance = omega (int_laws, parts_of_eq b);
    occupied = omega (int_laws, parts_of_eq o);
    sized_head = l;
    sized = tt;
  }

  detach-Sized :
      (needed : ℤ) (r : Ram) → All Sized r.head → All Sized (free_ram_detach needed r).1.head
  detach-Sized needed r l =
      let (f, e) = free_ram_detach-Frees needed r in
      rw e (
        All-suffix Sized (free_ram_detach needed r).0.removed (free_ram_detach needed r).0.rest
          (subst (All Sized) f.whole l))

  free_ram_plain-Sized :
      (needed : ℤ) (r : Ram) → All Sized r.head → All Sized (free_ram_plain needed r).1.head
  unfolding free_ram_settle
  free_ram_plain-Sized needed r l = rw (free_ram_plain-settle needed r) (detach-Sized needed r l)

  find_memory-Moves :
      (containers : Bool) (i : Invocation) (s : Shared)
      → All Sized s.ram.head
      → Sized i
      → Moves (pos 0) (pos 0) s (find_memory containers i s).0 (find_memory containers i s).1
  unfolding find_memory free_ram_detach
  find_memory-Moves containers i s l e = elim (Bool-cases (ltb_ℤ s.ram.memory i.memory)) [
    | inl short ↦ rw short (by_kind containers)
    | inr enough ↦ rw enough (reserve-Moves i s l e)
  ]
    where
      needed : ℤ
      needed = i.memory -ℤ s.ram.memory

      by_kind :
          (c : Bool)
          → let next : Worker × Shared =
              if c
              then (let (d, ram') = free_ram_detach needed s.ram in
                  (evicts i needed d, record s { ram = ram' }))
              else after_free i (free_ram_plain needed s.ram) s in
            Moves (pos 0) (pos 0) s next.0 next.1
      by_kind true = record {
        balance = omega (int_laws, parts_of_eq (total-free_ram_detach needed s.ram));
        occupied = omega (int_laws, parts_of_eq (total-free_ram_detach needed s.ram));
        sized_head = detach-Sized needed s.ram l;
        sized = e;
      }
      by_kind false =
          let (b, o) = free_ram-room needed s.ram in
          after_free-Moves i (free_ram_plain needed s.ram).0 (free_ram_plain needed s.ram).1 (pos 0)
            s (omega (int_laws, parts_of_eq b)) (omega (int_laws, parts_of_eq o))
            (free_ram_plain-Sized needed s.ram l) e

  -- A warm start holds the memory of the cached invocation, which is that of its own.
  warm_start-Moves :
      (times : Latency) (i j : Invocation) (rest : List Invocation) (s : Shared)
      → Unlinked i.hash_function s.ram.head j rest
      → All Sized s.ram.head
      → Sized i
      → let next : Worker × Shared =
          warm_start times i j (record s { ram = record s.ram { head = rest } }) in
        Moves (pos 0) (pos 0) s next.0 next.1
  unfolding warm_start
  warm_start-Moves times i j rest s u l e =
      let split : All Sized (u.first.before ++ j ∷ u.first.after) =
        subst (All Sized) u.first.whole l in
      let tail = All-suffix Sized u.first.before (j ∷ u.first.after) split in
      let same : i.memory ≡ j.memory =
        e ∙ ap size (sym (str_eq_sound j.hash_function i.hash_function u.first.hit)) ∙ sym tail.0 in
      let sum : total_memory s.ram.head ≡ total_memory rest +ℤ j.memory =
        ap total_memory u.first.whole
        ∙ sum_by-middle (λ (k : Invocation). k.memory) u.first.before u.first.after j
        ∙ ap (λ (t : List Invocation). total_memory t +ℤ j.memory) (sym u.without) in
      record {
        balance = omega (int_laws, parts_of_eq sum, parts_of_eq same);
        occupied = omega (int_laws, parts_of_eq sum);
        sized_head = subst (All Sized) (sym u.without) (
            All-append Sized u.first.before u.first.after
              (All-prefix Sized u.first.before (j ∷ u.first.after) split) tail.1);
        sized = e;
      }

  enter-Moves :
      (containers : Bool) (times : Latency) (i : Invocation) (s : Shared)
      → All Sized s.ram.head
      → Sized i
      → Moves (pos 0) (pos 0) s (enter containers times i s).0 (enter containers times i s).1
  unfolding enter after_search
  enter-Moves containers times i s l e = elim (search_ram-cases i.hash_function s.ram) [
    | inl (none_there, _) ↦ rw none_there (find_memory-Moves containers i s l e)
    | inr (j, rest, there, u) ↦ rw there (warm_start-Moves times i j rest s u l e)
  ]

  answered-Moves :
      (choice : Choice) (i : Invocation) (s : Shared)
      → All Sized s.ram.head
      → Sized i
      → Moves i.memory (pos 0) s (answered choice i s).0 (answered choice i s).1
  unfolding answered
  answered-Moves choice i s l e = by_read _ _ _ _ _ _
    where
      by_read :
          (found : Bool) (type : Start) (stats stats' : Stats) (totals totals' : Totals)
          → let next : Worker × Shared =
              if found
              then (
                runs type (record i { restored = true }),
                record s { stats = stats; totals = totals },
              )
              else (
                starts_cold (record i { restored = false }),
                record s { stats = stats'; totals = totals' },
              ) in
            Moves i.memory (pos 0) s next.0 next.1
      by_read true type stats stats' totals totals' = record {
        balance = refl;
        occupied = refl;
        sized_head = l;
        sized = e;
      }
      by_read false type stats stats' totals totals' = record {
        balance = refl;
        occupied = refl;
        sized_head = l;
        sized = e;
      }

  pub advance-Moves :
      (containers : Bool) (choice : Choice) (w : Worker) (s : Shared)
      → All Sized s.ram.head
      → SizedWorker w
      → Moves
          (held w)
          (detached w)
          s
          (advance containers choice w s).0
          (advance containers choice w s).1
  unfolding advance cold_done insert_ram_item free_ram_settle
  advance-Moves containers choice (arrives i) s l e = enter-Moves containers choice.times i s l e
  advance-Moves containers choice (evicts i needed d) s l e =
      after_free-Moves i _ (free_ram_settle needed d.freed s.ram).1 d.freed s (omega int_laws)
        (omega int_laws) l e
  advance-Moves containers choice (awaits_read i) s l e = answered-Moves choice i s l e
  advance-Moves containers choice (starts_cold i) s l e = record {
    balance = refl;
    occupied = refl;
    sized_head = l;
    sized = e;
  }
  advance-Moves containers choice (runs k i) s l e =
      let sum = parts_of_eq (sum_by-snoc (λ (j : Invocation). j.memory) s.ram.head i) in
      record {
        balance = omega (int_laws, sum);
        occupied = omega (int_laws, sum);
        sized_head = All-append Sized s.ram.head (i ∷ []) l (e, tt);
        sized = tt;
      }
  advance-Moves containers choice (ended k) s l e = record {
    balance = refl;
    occupied = refl;
    sized_head = l;
    sized = tt;
  }
