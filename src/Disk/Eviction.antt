-- ===== src/Disk/Eviction.antt =====
-- `freeDisk`: which nodes go, what becomes of them, and the memory that comes back.
pub mod Answer
use mathlib.Core.Option
use c_faas_emulator.Common.{
  Bool, true, false, Option, none, some, List, [], ◌∷◌, ◌++◌, ◌≡◌, refl, ap, sym, ◌∙◌, ◌⊎◌, inl,
  inr, arith, Bool-cases, append-nil, append_assoc, not, if◌then◌else◌,
}
use c_faas_emulator.Common.Int.{
  ℤ, pos, ◌+ℤ◌, ◌<ℤ◌, ◌≤ℤ◌, ltb_ℤ, ltb_ℤ→lt, ltb_ℤ→le, int_laws, +ℤ_assoc, +ℤ_zero, parts_of_eq,
}
use c_faas_emulator.Common.Sums.{sum_by, sum_by-append}
use c_faas_emulator.Common.Name.{Name}
use c_faas_emulator.Common.Outcome.{Outcome, ok, ◌>>=◌, Ensures, Ensures-bind, ensured}
use c_faas_emulator.Types.{DiskNode, Effect, await_reader, remove, container_path}
use c_faas_emulator.Network.{NetCache, find_in_network, enqueue_upload}
use c_faas_emulator.Disk.{
  Disk, Freeing, free_files, free_containers, dispose, await, free_disk, total_disk,
}

abbrev pub Wanted : (DiskNode → ℤ) → ℤ → ℤ → List DiskNode → Type 0
Wanted w needed freed [] = Unit
Wanted w needed freed (n ∷ ns) = (freed <ℤ needed) × Wanted w needed (freed +ℤ w n) ns

-- `f` comes from `d`, whose list is `xs`, by taking a prefix off that is no longer than wanted, where
-- `w` is what was read for the memory of a node.
pub record Evicts (w : DiskNode → ℤ) (needed before : ℤ) (xs : List DiskNode) (d : Disk)
    (f : Freeing) : Type 0 where
  pub removed : List DiskNode
  pub whole : xs ≡ removed ++ f.disk.head
  pub freed : f.freed ≡ before +ℤ sum_by w removed
  pub memory : f.disk.memory ≡ d.memory +ℤ sum_by w removed
  pub wanted : Wanted w needed before removed
  pub stops : (f.disk.head ≡ []) ⊎ (needed ≤ℤ f.freed)
  pub containers : f.disk.containers ≡ d.containers

Evicts-none :
    (w : DiskNode → ℤ) (needed before : ℤ) (xs : List DiskNode) (d : Disk)
    → (xs ≡ []) ⊎ (needed ≤ℤ before)
    → Evicts w needed before xs d
        (record { freed = before; disk = record d { head = xs }; effects = [] })
unfolding sum_by
Evicts-none w needed before xs d s = record {
  removed = [];
  whole = refl;
  freed = omega int_laws;
  memory = omega int_laws;
  wanted = tt;
  stops = s;
  containers = refl;
}

Evicts-cons :
    (w : DiskNode → ℤ) (needed before : ℤ) (n : DiskNode) (xs : List DiskNode) (d d' : Disk)
    (f : Freeing) (effects : List Effect)
    → before <ℤ needed
    → d'.memory ≡ d.memory +ℤ w n
    → d'.containers ≡ d.containers
    → Evicts w needed (before +ℤ w n) xs d' f
    → Evicts w needed before (n ∷ xs) d (record f { effects = effects })
unfolding sum_by
Evicts-cons w needed before n xs d d' f effects lt m c e = record {
  removed = n ∷ e.removed;
  whole = ap (◌∷◌ n) e.whole;
  freed = e.freed ∙ +ℤ_assoc before (w n) (sum_by w e.removed);
  memory =
      e.memory
      ∙ ap (λ (t : ℤ). t +ℤ sum_by w e.removed) m
      ∙ +ℤ_assoc d.memory (w n) (sum_by w e.removed);
  wanted = (lt, e.wanted);
  stops = e.stops;
  containers = e.containers ∙ c;
}

-- The memory of a node.
abbrev pub memory_of : DiskNode → ℤ
memory_of n = n.memory

free_files-Evicts :
    (needed before : ℤ) (xs : List DiskNode) (d : Disk)
    → Evicts memory_of needed before xs d (free_files needed before xs d)
unfolding free_files
free_files-Evicts needed before [] d = Evicts-none memory_of needed before [] d (inl refl)
free_files-Evicts needed before (n ∷ ns) d = elim (Bool-cases (ltb_ℤ before needed)) [
  | inl more ↦
      let d' : Disk = record d { memory = d.memory +ℤ n.memory } in
      rw more (
        Evicts-cons memory_of needed before n ns d d' _ _ (ltb_ℤ→lt before needed more) refl refl
          (free_files-Evicts needed (before +ℤ n.memory) ns d'))
  | inr enough ↦
      rw enough
        (Evicts-none memory_of needed before (n ∷ ns) d (inr (ltb_ℤ→le before needed enough)))
]

-- Does the file of a function that is taken off go, or is it wanted by the upload thread?
abbrev pub file_goes : Option NetCache → Name → Bool
file_goes none name = true
file_goes (some net) name = find_in_network name net

-- The nodes that the upload thread is handed, in order. A reader has left each of them.
abbrev pub sent : (Name → Bool) → List DiskNode → List DiskNode
sent goes [] = []
sent goes (n ∷ ns) =
    (if goes n.function then [] else record n { in_use = false } ∷ []) ++ sent goes ns

abbrev pub eviction_effects : (Name → Bool) → List DiskNode → List Effect
eviction_effects goes [] = []
eviction_effects goes (n ∷ ns) =
    (if n.in_use then await_reader n.function ∷ [] else [])
    ++ ((if goes n.function then remove (container_path n.function) ∷ [] else [])
        ++ eviction_effects goes ns)

abbrev pub queued : List DiskNode → Option NetCache → Option NetCache
queued ns none = none
queued ns (some net) = some (record net { queue = net.queue ++ ns })

-- What has become of the nodes `removed`, that were taken off while the network cache was `net`.
abbrev pub Disposed : Option NetCache → List DiskNode → Freeing → Type 0
Disposed net removed f =
    (f.disk.net_cache ≡ queued (sent (file_goes net) removed) net)
    × (f.effects ≡ eviction_effects (file_goes net) removed)

queued-nil : (net : Option NetCache) → net ≡ queued [] net
queued-nil none = refl
queued-nil (some net) =
    ap (λ (q : List DiskNode). some (record net { queue = q })) (sym (append-nil net.queue))

queued-queued :
    (net : Option NetCache) (xs ys : List DiskNode)
    → queued ys (queued xs net) ≡ queued (xs ++ ys) net
queued-queued none xs ys = refl
queued-queued (some net) xs ys =
    ap (λ (q : List DiskNode). some (record net { queue = q })) (append_assoc net.queue xs ys)

file_goes-queued :
    (net : Option NetCache) (ns : List DiskNode) → file_goes (queued ns net) ≡ file_goes net
unfolding find_in_network
file_goes-queued none ns = refl
file_goes-queued (some net) ns = refl

-- One node is disposed of.
dispose_lem :
    (n : DiskNode) (net : Option NetCache) {net' : Option NetCache} {effects : List Effect}
    → dispose n net ≡ ok (net', effects)
    → (net' ≡ queued (if file_goes net n.function then [] else n ∷ []) net)
      × (effects
          ≡ (if file_goes net n.function then remove (container_path n.function) ∷ [] else []))
unfolding dispose enqueue_upload
dispose_lem n none h = (ground arith, ground arith)
dispose_lem n (some net) h = (ground (arith, queued-nil (some net)), ground arith)

abbrev pub Evicted : ℤ → ℤ → List DiskNode → Disk → Freeing → Type 0
Evicted needed before xs d f =
    (e : Evicts d.read_after needed before xs d f) × Disposed d.net_cache e.removed f

Evicted-none :
    (needed before : ℤ) (xs : List DiskNode) (d : Disk)
    → (xs ≡ []) ⊎ (needed ≤ℤ before)
    → Evicted needed before xs d
        (record { freed = before; disk = record d { head = xs }; effects = [] })
unfolding Evicts-none
Evicted-none needed before xs d s =
    (Evicts-none d.read_after needed before xs d s, (queued-nil d.net_cache, refl))

abbrev cleared : DiskNode → DiskNode
cleared n = record n { in_use = false }

abbrev waited : DiskNode → List Effect
waited n = if n.in_use then await_reader n.function ∷ [] else []

await_lem : (n : DiskNode) → await n ≡ (cleared n, waited n)
unfolding await
await_lem n = ground arith

module _ (needed before : ℤ) (n : DiskNode) (xs : List DiskNode) (d : Disk) (net : Option NetCache)
    (disposed : List Effect) (f : Freeing) where
  Evicted-cons :
      before <ℤ needed
      → (net ≡ queued (if file_goes d.net_cache n.function then [] else cleared n ∷ []) d.net_cache)
        × (disposed ≡ (
            if file_goes d.net_cache n.function
            then remove (container_path n.function) ∷ []
            else []))
      → Evicted needed
          (before +ℤ d.read_after n)
          xs
          (record d { memory = d.memory +ℤ d.read_after n; net_cache = net })
          f
      → Evicted needed before (n ∷ xs) d (record f { effects = waited n ++ disposed ++ f.effects })
  unfolding Evicts-cons
  Evicted-cons lt (p, q) (e, (c, w)) =
      let goes = ap file_goes p ∙ file_goes-queued d.net_cache _ in
      (
        Evicts-cons d.read_after needed before n xs d _ f _ lt refl refl e,
        (
          c
              ∙ ap (λ g. queued (sent g e.removed) net) goes
              ∙ ap (queued (sent (file_goes d.net_cache) e.removed)) p
              ∙ queued-queued d.net_cache _ _,
          ap (λ (t : List Effect). waited n ++ disposed ++ t)
                (w ∙ ap (λ g. eviction_effects g e.removed) goes)
              ∙ ap
                  (λ (t : List Effect).
                    waited n ++ t ++ eviction_effects (file_goes d.net_cache) e.removed)
                  q
              ∙ append_assoc (waited n) _ _,
        ),
      )

free_containers-Evicted :
    (needed before : ℤ) (xs : List DiskNode) (d : Disk)
    → Ensures (Evicted needed before xs d) (free_containers needed before xs d)
unfolding free_containers
free_containers-Evicted needed before [] d = Evicted-none needed before [] d (inl refl)
free_containers-Evicted needed before (n ∷ ns) d = elim (Bool-cases (ltb_ℤ before needed)) [
  | inl more ↦
      rw (more, await_lem n)
        (Ensures-bind _ (dispose (cleared n) d.net_cache) _ λ (net, disposed) p.
          let d' : Disk = record d { memory = d.memory +ℤ d.read_after n; net_cache = net } in
          Ensures-bind _ (free_containers needed (before +ℤ d.read_after n) ns d') _ λ f q.
            Evicted-cons needed before n ns d net disposed f (ltb_ℤ→lt before needed more)
              (dispose_lem (cleared n) d.net_cache p)
              (ensured _ _ f (free_containers-Evicted needed (before +ℤ d.read_after n) ns d') q))
  | inr enough ↦
      rw enough (Evicted-none needed before (n ∷ ns) d (inr (ltb_ℤ→le before needed enough)))
]
