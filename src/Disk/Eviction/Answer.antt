-- ===== src/Disk/Eviction/Answer.antt =====
-- `freeDisk` as a whole: its answer, and that it comes back.
use c_faas_emulator.Common.{
  ℕ, ◌+◌, ◌≤◌, Bool, true, false, Option, none, some, List, [], ◌∷◌, ◌++◌, ◌≡◌, refl, ap, sym, ◌∙◌,
  ◌⊎◌, inl, inr, arith, Bool-cases, append-nil, not, if◌then◌else◌, length, length-append, lt→ltb,
}
use c_faas_emulator.Common.Int.{ℤ, pos, ◌+ℤ◌, ◌<ℤ◌, ◌≤ℤ◌, ltb_ℤ, ltb_ℤ→lt, ltb_ℤ→le, zero-+ℤ}
use c_faas_emulator.Common.Sums.{sum_by}
use c_faas_emulator.Common.Outcome.{fault, Ensures, Ensures-bind, ensured, Returns, Returns-bind}
use c_faas_emulator.Types.{DiskNode}
use c_faas_emulator.Network.{NetCache, find_in_network, enqueue_upload, queue_capacity}
use c_faas_emulator.Disk.{Disk, Freeing, free_containers, dispose, await, free_disk}
use c_faas_emulator.Disk.Eviction.{
  Evicts, Evicted, memory_of, free_files-Evicts, free_containers-Evicted,
}

-- 1 says that the request is met, and 0 that the cache is now empty and was smaller than it.
-- What `freeDisk` reads for the memory of a node: without containers it reads it before it frees.
abbrev pub memory_read : Disk → DiskNode → ℤ
memory_read d = if d.containers then d.read_after else memory_of

abbrev pub Answers : (DiskNode → ℤ) → ℤ → Disk → Bool → Freeing → Type 0
Answers w needed d answer f =
    ((answer ≡ true) × (needed ≤ℤ f.freed))
    ⊎ ((answer ≡ false) × (f.disk.head ≡ []) × (sum_by w d.head <ℤ needed))

Evicts-total :
    (w : DiskNode → ℤ) (needed : ℤ) (d : Disk) (f : Freeing)
    → Evicts w needed (pos 0) d.head d f
    → f.disk.head ≡ []
    → f.freed ≡ sum_by w d.head
Evicts-total w needed d f e gone =
    let all : d.head ≡ e.removed = e.whole ∙ ap (◌++◌ e.removed) gone ∙ append-nil e.removed in
    e.freed ∙ zero-+ℤ (sum_by w e.removed) ∙ ap (sum_by w) (sym all)

Evicts-Answers :
    (w : DiskNode → ℤ) (needed : ℤ) (d : Disk) (f : Freeing)
    → Evicts w needed (pos 0) d.head d f
    → Answers w needed d (not (ltb_ℤ f.freed needed)) f
Evicts-Answers w needed d f e = elim (Bool-cases (ltb_ℤ f.freed needed)) [
  | inl less ↦
      let gone : f.disk.head ≡ [] = empty less e.stops in
      inr (rw less, gone, rw (Evicts-total w needed d f e gone) at (ltb_ℤ→lt f.freed needed less))
  | inr enough ↦ inl (rw enough, ltb_ℤ→le f.freed needed enough)
]
  where
    empty :
        ltb_ℤ f.freed needed ≡ true → (f.disk.head ≡ []) ⊎ (needed ≤ℤ f.freed) → f.disk.head ≡ []
    empty less (inl g) = g
    empty less (inr h) = absurd (omega (arith, ltb_ℤ→lt f.freed needed less))

-- If `freeDisk` comes back, it has taken the least recently used nodes off the front, no more than
-- were wanted by what it read for their memory; this is what it has added to the counter and what its
-- answer goes by. Without containers it is their memory. With containers it is read when the nodes
-- have been freed or handed over, and is any number.
pub free_disk-Evicts :
    (needed : ℤ) (d : Disk)
    → Ensures
        (λ r.
          Evicts (memory_read d) needed (pos 0) d.head d r.1
          × Answers (memory_read d) needed d r.0 r.1)
        (free_disk needed d)
unfolding free_disk
free_disk-Evicts needed d = elim (Bool-cases d.containers) [
  | inl with_containers ↦ simp with_containers (
      Ensures-bind _ (free_containers needed (pos 0) d.head d) _ λ f q.
        let e = ensured _ _ f (free_containers-Evicted needed (pos 0) d.head d) q in
        (e.0, Evicts-Answers d.read_after needed d f e.0))
  | inr without ↦ simp without (
      let e = free_files-Evicts needed (pos 0) d.head d in
      (e, Evicts-Answers memory_of needed d _ e))
]

-- With containers, if `freeDisk` comes back, a node that has gone was either handed to the
-- upload thread, in order, or, if the object store has its function or there is no network
-- cache, its file was removed; and before either `freeDisk` has waited for a reader that was
-- using the node.
pub free_disk-Disposed :
    (needed : ℤ) (d : Disk)
    → d.containers ≡ true
    → Ensures (λ r. Evicted needed (pos 0) d.head d r.1) (free_disk needed d)
unfolding free_disk
free_disk-Disposed needed d c = simp c (
    Ensures-bind _ (free_containers needed (pos 0) d.head d) _
      λ f q. ensured _ _ f (free_containers-Evicted needed (pos 0) d.head d) q)

abbrev pub queue_length : Option NetCache → ℕ
queue_length none = 0
queue_length (some net) = length net.queue

dispose-Returns :
    (n : DiskNode) (net : Option NetCache)
    → queue_length net + 1 ≤ queue_capacity
    → Returns (dispose n net)
unfolding dispose enqueue_upload
dispose-Returns n none h = (_, refl)
dispose-Returns n (some net) h = elim (Bool-cases (find_in_network n.function net)) [
  | inl known ↦ rw known ((some net, _), refl)
  | inr new ↦ rw (new, lt→ltb (length net.queue) queue_capacity (omega arith)) (_, refl)
]

pub queue_length-dispose :
    (n : DiskNode) (net : Option NetCache)
    → Ensures (λ r. queue_length r.0 ≤ queue_length net + 1) (dispose n net)
unfolding dispose enqueue_upload
queue_length-dispose n none = omega arith
queue_length-dispose n (some net) = ground (arith, length-append net.queue (n ∷ []))

free_containers-Returns :
    (needed before : ℤ) (xs : List DiskNode) (d : Disk)
    → queue_length d.net_cache + length xs ≤ queue_capacity
    → Returns (free_containers needed before xs d)
unfolding free_containers
free_containers-Returns needed before [] d h = (_, refl)
free_containers-Returns needed before (n ∷ ns) d h = elim (Bool-cases (ltb_ℤ before needed)) [
  | inl more ↦
      let n' : DiskNode = (await n).0 in
      rw more (
        Returns-bind (dispose n' d.net_cache) _ (dispose-Returns n' d.net_cache (omega arith))
          λ r e.
            let fits = ensured _ _ r (queue_length-dispose n' d.net_cache) e in
            Returns-bind _ _
              (free_containers-Returns needed (before +ℤ d.read_after n) ns
                (record d { memory = d.memory +ℤ d.read_after n; net_cache = r.0 })
                (omega (arith, fits)))
              λ f _. (_, refl))
  | inr enough ↦ rw enough (_, refl)
]

-- `freeDisk` comes back if the upload queue has room for every node of the disk.
pub free_disk-Returns :
    (needed : ℤ) (d : Disk)
    → queue_length d.net_cache + length d.head ≤ queue_capacity
    → Returns (free_disk needed d)
unfolding free_disk
free_disk-Returns needed d h = elim (Bool-cases d.containers) [
  | inl with_containers ↦ simp with_containers (
      Returns-bind (free_containers needed (pos 0) d.head d) _
        (free_containers-Returns needed (pos 0) d.head d h) λ f _. (_, refl))
  | inr without ↦ simp without (_, refl)
]

-- With containers, `freeDisk` that is asked for memory writes behind the end of the upload queue
-- if that is full and the object store lacks the function of the first node.
pub free_disk-overflow :
    (needed : ℤ) (n : DiskNode) (ns : List DiskNode) (memory : ℤ) (net : NetCache)
    (read_after : DiskNode → ℤ)
    → pos 0 <ℤ needed
    → queue_capacity ≤ length net.queue
    → find_in_network n.function net ≡ false
    → free_disk needed (record {
      head = n ∷ ns;
      memory = memory;
      containers = true;
      net_cache = some net;
      read_after = read_after;
    })
      ≡ fault
unfolding free_disk free_containers dispose enqueue_upload await
free_disk-overflow needed n ns memory net read_after pos_needed full new = ground (arith, full, new)
