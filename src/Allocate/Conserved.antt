-- ===== src/Allocate/Conserved.antt =====
-- Where the memory is, whatever the interleaving.
use c_faas_emulator.Common.{
  map, Bool, true, false, List, [], ◌∷◌, ◌++◌, ◌≡◌, refl, ap, subst, ◌∙◌, All, All-at, All-put,
  All-prefix, All-suffix,
}
use c_faas_emulator.Common.Int.{ℤ, pos, ◌+ℤ◌, int_laws, parts_of_eq}
use c_faas_emulator.Common.Floats.{Floats}
use c_faas_emulator.Common.Sums.{sum_by, sum_by-append, sum_by-middle}
use c_faas_emulator.Common.Name.{Name}
use c_faas_emulator.Types.{Invocation}
use c_faas_emulator.Ram.{init_ram, Ram, total_memory}
use c_faas_emulator.Ram.Accounting.{room}
use c_faas_emulator.Stats.{save_starts}
use c_faas_emulator.WriteBack.{write_release, batch_capacity}
use c_faas_emulator.WriteBack.Collected.{owed, collect-Collects}
use c_faas_emulator.Allocate.{arrives, Shared, Worker, Choice, advance}
use c_faas_emulator.Allocate.System.{
  init_system, System, collected, Step, Steps, work, collects, releases, saves, writes, start,
  later,
}
use c_faas_emulator.Allocate.Moves.{held, detached, Sized, SizedWorker, AllWorkers, advance-Moves}

module _ (size : Name → ℤ) where
  -- Free memory, cached memory, the memory of the workers and that which the write-back thread owes
  -- make up the memory configured; `cache_occupied` is the memory of the list and of the functions
  -- that are being killed.
  pub record Conserved (capacity : ℤ) (containers : Bool) (s : System) : Type 0 where
    pub balance : room s.shared.ram +ℤ (sum_by held s.workers +ℤ owed containers s.batch) ≡ capacity
    pub occupied :
        s.shared.ram.cache_occupied ≡ total_memory s.shared.ram.head +ℤ sum_by detached s.workers
    pub sized_head : All (Sized size) s.shared.ram.head
    pub sized_workers : AllWorkers size s.workers
    pub sized_batch : All (Sized size) s.batch

  work-Conserved :
      (capacity : ℤ) (containers : Bool) (choice : Choice) (s : Shared) (before : List Worker)
      (w : Worker) (after : List Worker) (batch : List Invocation)
      → Conserved capacity containers
          (record { shared = s; workers = before ++ w ∷ after; batch = batch })
      → Conserved capacity containers (record {
        shared = (advance containers choice w s).1;
        workers = before ++ (advance containers choice w s).0 ∷ after;
        batch = batch;
      })
  work-Conserved capacity containers choice s before w after batch v =
      let w' : Worker = (advance containers choice w s).0 in
      let here = All-at (SizedWorker size) before w after v.sized_workers in
      let m = advance-Moves size containers choice w s v.sized_head here in
      record {
        balance = omega (
          int_laws,
          parts_of_eq (sum_by-middle held before after w),
          parts_of_eq (sum_by-middle held before after w'),
          parts_of_eq m.balance,
          parts_of_eq v.balance,
        );
        occupied = omega (
          int_laws,
          parts_of_eq (sum_by-middle detached before after w),
          parts_of_eq (sum_by-middle detached before after w'),
          parts_of_eq m.occupied,
          parts_of_eq v.occupied,
        );
        sized_head = m.sized_head;
        sized_workers = All-put (SizedWorker size) before w after w' v.sized_workers m.sized;
        sized_batch = v.sized_batch;
      }

  owed-nil : (containers : Bool) → owed containers [] ≡ pos 0
  unfolding sum_by
  owed-nil true = refl
  owed-nil false = refl

  owed-cons :
      (containers : Bool) (i : Invocation) (batch : List Invocation) (r : Ram)
      → (write_release containers i r).memory +ℤ owed containers batch
        ≡ r.memory +ℤ owed containers (i ∷ batch)
  unfolding write_release sum_by
  owed-cons true i batch r = refl
  owed-cons false i batch r = omega int_laws

  collects-Conserved :
      (fl : Floats) (max_memory : ℤ) (threshold : fl.Float) (containers : Bool) (capacity : ℤ)
      (s : Shared) (workers : List Worker)
      → Conserved capacity containers (record { shared = s; workers = workers; batch = [] })
      → let taken : List Invocation × Ram = collected fl max_memory threshold containers s in
        Conserved capacity containers
          (record { shared = record s { ram = taken.1 }; workers = workers; batch = taken.0 })
  collects-Conserved fl max_memory threshold containers capacity s workers v =
      let taken : List Invocation × Ram = collected fl max_memory threshold containers s in
      let c = collect-Collects fl max_memory threshold containers batch_capacity s.ram.head s.ram in
      let sum : total_memory s.ram.head ≡ total_memory taken.0 +ℤ total_memory taken.1.head =
        ap total_memory c.whole
        ∙ sum_by-append (λ (i : Invocation). i.memory) taken.0 taken.1.head in
      record {
        balance = omega (
          int_laws,
          parts_of_eq sum,
          parts_of_eq c.balance,
          parts_of_eq (owed-nil containers),
          parts_of_eq v.balance,
        );
        occupied =
            omega (int_laws, parts_of_eq sum, parts_of_eq c.occupied, parts_of_eq v.occupied);
        sized_head =
            All-suffix (Sized size) taken.0 taken.1.head
              (subst (All (Sized size)) c.whole v.sized_head);
        sized_workers = v.sized_workers;
        sized_batch =
            All-prefix (Sized size) taken.0 taken.1.head
              (subst (All (Sized size)) c.whole v.sized_head);
      }

  Step-Conserved :
      (fl : Floats) (max_memory : ℤ) (threshold : fl.Float) (containers : Bool) (capacity : ℤ)
      (s t : System)
      → Step fl max_memory threshold containers s t
      → Conserved capacity containers s
      → Conserved capacity containers t
  unfolding write_release save_starts sum_by
  Step-Conserved fl max_memory threshold containers capacity _ _
        (work choice s before w after batch on) v =
      work-Conserved capacity containers choice s before w after batch v
  Step-Conserved fl max_memory threshold containers capacity _ _ (collects s workers) v =
      collects-Conserved fl max_memory threshold containers capacity s workers v
  Step-Conserved fl max_memory threshold containers capacity _ _ (releases s workers i batch) v =
      record {
        balance =
            omega
              (int_laws, parts_of_eq (owed-cons containers i batch s.ram), parts_of_eq v.balance);
        occupied = v.occupied;
        sized_head = v.sized_head;
        sized_workers = v.sized_workers;
        sized_batch = v.sized_batch.1;
      }
  Step-Conserved fl max_memory threshold containers capacity _ _ (saves ms s workers batch) v =
      record {
        balance = v.balance;
        occupied = v.occupied;
        sized_head = v.sized_head;
        sized_workers = v.sized_workers;
        sized_batch = v.sized_batch;
      }
  Step-Conserved fl max_memory threshold containers capacity _ _ (writes s stats workers batch e)
        v =
      record {
        balance = v.balance;
        occupied = v.occupied;
        sized_head = v.sized_head;
        sized_workers = v.sized_workers;
        sized_batch = v.sized_batch;
      }

  -- If what is free, cached, held by a worker or owed by the write-back thread sums up to the
  -- capacity, and `cache_occupied` is the memory of the cached functions and of those being
  -- killed, then both still hold after any steps of the workers, the write-back thread, the main
  -- loop and the pool of the statistics, in any order: no memory is lost or made up. This is for
  -- functions that need the same memory each time.
  pub Steps-Conserved :
      (fl : Floats) (max_memory : ℤ) (threshold : fl.Float) (containers : Bool) (capacity : ℤ)
      (s t : System)
      → Steps fl max_memory threshold containers s t
      → Conserved capacity containers s
      → Conserved capacity containers t
  Steps-Conserved fl max_memory threshold containers capacity s _ start v = v
  Steps-Conserved fl max_memory threshold containers capacity s t (later {t = u} past step) v =
      Step-Conserved fl max_memory threshold containers capacity u t step
        (Steps-Conserved fl max_memory threshold containers capacity s u past v)

  arrives-held :
      (trace : List Invocation)
      → All (Sized size) trace
      → (sum_by held (map arrives trace) ≡ pos 0)
        × (sum_by detached (map arrives trace) ≡ pos 0)
        × AllWorkers size (map arrives trace)
  unfolding sum_by
  arrives-held [] h = (refl, refl, tt)
  arrives-held (i ∷ trace) h =
      let (a, b, c) = arrives-held trace h.1 in
      (omega (int_laws, parts_of_eq a), omega (int_laws, parts_of_eq b), (h.0, c))

  -- When the threads start, all of the memory configured is free.
  pub init_system-Conserved :
      (containers : Bool) (memory : ℤ) (trace : List Invocation)
      → All (Sized size) trace
      → Conserved memory containers (init_system memory trace)
  unfolding init_system init_ram sum_by
  init_system-Conserved containers memory trace h =
      let (a, b, c) = arrives-held trace h in
      record {
        balance = omega (int_laws, parts_of_eq a, parts_of_eq (owed-nil containers));
        occupied = omega (int_laws, parts_of_eq b);
        sized_head = tt;
        sized_workers = c;
        sized_batch = tt;
      }
