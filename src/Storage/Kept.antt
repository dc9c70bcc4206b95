-- ===== src/Storage/Kept.antt =====
-- With containers and a network cache, a function that was on disk once can be found again.
use c_faas_emulator.Common.{
  Bool, true, false, ◌||◌, Option, none, some, List, [], ◌∷◌, ◌++◌, ◌≡◌, refl, ap, sym, ◌∙◌, inl,
  inr, arith, Bool-cases, length, ltb, if◌then◌else◌,
}
use c_faas_emulator.Common.Int.{ℤ}
use c_faas_emulator.Common.Name.{Name, codes, str_eq_sound}
use c_faas_emulator.Common.Outcome.{ok, ◌>>=◌, Ensures, Ensures-bind, ensured}
use c_faas_emulator.Types.{Invocation, DiskNode, NetNode, Effect, write_file}
use c_faas_emulator.Network.{
  NetCache, find_in_network, enqueue_upload, insert_net_cache, queue_capacity,
}
use c_faas_emulator.Network.Upload.{find_node-append}
use c_faas_emulator.Disk.{
  Disk, Outside, find_in_disk, dispose, checkpoint_container, link_node, store_node,
}
use c_faas_emulator.Disk.Lookup.{is_node, find_in_disk-cases}
use c_faas_emulator.Disk.Retrieve.{mark, holds}
use c_faas_emulator.Storage.{
  Writer, Store, free_node, Writes, finds, has_room, lacks_room, evicts, drops, makes_room,
  gives_up, stores, Uploads, takes, lists, Step, writes, looks_up, marks, uploads, Steps, start,
  later,
}
use c_faas_emulator.Storage.Valid.{free_node-lem, store_node-Linked}

-- On disk, or waiting for its upload, or being uploaded, or listed as stored.
abbrev pub held_by : Option DiskNode → Name → Bool
held_by none f = false
held_by (some n) f = is_node f n

abbrev pub known_to : Option NetCache → Name → Bool
known_to none f = false
known_to (some net) f = holds f net.queue || find_in_network f net

abbrev pub kept : Name → Disk → Option DiskNode → Bool
kept f d u = holds f d.head || (held_by u f || known_to d.net_cache f)

holds-append : (f : Name) (xs ys : List DiskNode) → holds f (xs ++ ys) ≡ (holds f xs || holds f ys)
unfolding holds
holds-append f [] ys = refl
holds-append f (x ∷ xs) ys = ground (arith, holds-append f xs ys)

holds_first :
    (f : Name) (queue : List DiskNode) (item : DiskNode) (rest : List DiskNode)
    → queue ≡ item ∷ rest
    → holds f queue ≡ (is_node f item || holds f rest)
unfolding holds
holds_first f queue item rest e = ap (holds f) e ∙ ground arith

holds-mark :
    (f name : Name) (flag : Bool) (ns : List DiskNode) → holds f (mark name flag ns) ≡ holds f ns
unfolding holds mark
holds-mark f name flag [] = refl
holds-mark f name flag (n ∷ ns) = ground (arith, holds-mark f name flag ns)

find_in_disk-holds :
    (f name : Name) (d : Disk) → holds f (find_in_disk name d).1.head ≡ holds f d.head
unfolding holds
find_in_disk-holds f name d = elim (find_in_disk-cases name d) [
  | inl (e, _) ↦ rw e refl
  | inr (after, e, m) ↦
      let first = m.first in
      rw e (
        ap (holds f) m.moved
        ∙ ground (
          arith,
          ap (holds f) first.whole,
          holds-append f (first.before ++ first.after) (m.node ∷ []),
          holds-append f first.before first.after,
          holds-append f first.before (m.node ∷ first.after),
        ))
]

find_in_disk-net_cache : (name : Name) (d : Disk) → (find_in_disk name d).1.net_cache ≡ d.net_cache
find_in_disk-net_cache name d = elim (find_in_disk-cases name d) [
  | inl (e, _) ↦ rw e refl
  | inr (after, e, _) ↦ rw e refl
]

-- A node that is disposed of is in the object store, or waits.
abbrev Knows : Name → DiskNode → NetCache → Option NetCache → Type 0
Knows f n net net' =
    (after : NetCache) × (net' ≡ some after)
    × ((is_node f n || known_to (some net) f) ≡ true → known_to (some after) f ≡ true)

find_in_network-same :
    (f : Name) (n : DiskNode) (net : NetCache)
    → is_node f n ≡ true
    → find_in_network f net ≡ find_in_network n.function net
find_in_network-same f n net e =
    ap (λ (g : Name). find_in_network g net) (sym (str_eq_sound n.function f e))

queued-known :
    (f : Name) (n : DiskNode) (net : NetCache)
    → known_to (some (record net { queue = net.queue ++ n ∷ [] })) f
      ≡ (is_node f n || known_to (some net) f)
unfolding holds find_in_network
queued-known f n net = ground (arith, holds-append f net.queue (n ∷ []))

dispose-Knows :
    (f : Name) (n : DiskNode) (net : NetCache)
    → Ensures (λ r. Knows f n net r.0) (dispose n (some net))
unfolding dispose enqueue_upload
dispose-Knows f n net = elim (Bool-cases (find_in_network n.function net)) [
  | inl listed ↦ rw listed (
    net,
    refl,
    λ h. elim (Bool-cases (is_node f n)) [
      | inl e ↦ ground (arith, find_in_network-same f n net e, listed)
      | inr e ↦ ground (arith, e, h)
    ],
  )
  | inr new ↦ rw new (elim (Bool-cases (ltb (length net.queue) queue_capacity)) [
    | inl room ↦
        rw room (record net { queue = net.queue ++ n ∷ [] }, refl, λ h. queued-known f n net ∙ h)
    | inr full ↦ rw full tt
  ])
]

free_node-Knows :
    (f : Name) (read : ℤ) (n : DiskNode) (ns : List DiskNode) (d : Disk) (net : NetCache)
    → d.net_cache ≡ some net
    → Ensures (λ r. (r.0.head ≡ ns) × Knows f n net r.0.net_cache) (free_node read n ns d)
unfolding free_node
free_node-Knows f read n ns d net e =
    rw e (
      Ensures-bind _ (dispose n (some net)) _
        λ r q. (refl, ensured _ _ r (dispose-Knows f n net) q))

-- There is a network cache, and the function is kept.
abbrev pub Keeps : Name → Disk → Option DiskNode → Type 0
Keeps f d u = ((net : NetCache) × (d.net_cache ≡ some net)) × (kept f d u ≡ true)

-- A step that changes neither the functions on disk nor the network cache.
Keeps-same :
    (f : Name) (d d' : Disk) (u : Option DiskNode)
    → holds f d'.head ≡ holds f d.head
    → d'.net_cache ≡ d.net_cache
    → Keeps f d u
    → Keeps f d' u
Keeps-same f d d' u e n ((net, c), k) = ((net, n ∙ c), rw (e, n) k)

-- Of four tests: what leaves the second gets into the fifth.
moves :
    (x r u k k' : Bool)
    → ((x || k) ≡ true → k' ≡ true)
    → ((x || r) || (u || k)) ≡ true
    → (r || (u || k')) ≡ true
moves true r u k k' h e = ground (arith, h refl)
moves false r u true k' h e = ground (arith, h refl)
moves false r u false k' h e = ground (arith, e)

kept_more : (x x' r : Bool) → (x ≡ true → x' ≡ true) → (x || r) ≡ true → (x' || r) ≡ true
kept_more true x' r h e = ground (arith, h refl)
kept_more false x' r h e = ground (arith, e)

link_node-holds :
    (f path : Name) (i : Invocation) (d : Disk)
    → holds f d.head ≡ true
    → holds f (link_node path i d).head ≡ true
unfolding link_node
link_node-holds f path i d h =
    let n : DiskNode = record {
      function = i.hash_function;
      file = path;
      memory = i.memory;
      in_use = false;
    } in
    ground (arith, holds-append f d.head (n ∷ []), h)

store_node-holds :
    (f : Name) (o : Outside) (i : Invocation) (d : Disk)
    → Ensures
        (λ r. (r.0.net_cache ≡ d.net_cache) × (holds f d.head ≡ true → holds f r.0.head ≡ true))
        (store_node o i d)
unfolding store_node link_node
store_node-holds f o i d = stored d.containers
  where
    Held : Disk × List Effect → Type 0
    Held r = (r.0.net_cache ≡ d.net_cache) × (holds f d.head ≡ true → holds f r.0.head ≡ true)

    saved : (success : Bool) (es : List Effect) → Held (if success then link_node [] i d else d, es)
    saved true es = (refl, link_node-holds f [] i d)
    saved false es = (refl, λ h. h)

    stored :
        (containers : Bool)
        → Ensures Held (
            if containers
            then (do
              (success, effects) ←
                  checkpoint_container o i.container_id i.hash_function i.restored d.net_cache
              ok (if success then link_node [] i d else d, effects))
            else (let path = codes "cache/" ++ i.hash_function in
                ok (link_node path i d, write_file path ∷ [])))
    stored true =
        Ensures-bind _
          (checkpoint_container o i.container_id i.hash_function i.restored d.net_cache) _
          λ r q. saved r.0 r.1
    stored false = (refl, link_node-holds f _ i d)

Writes-Keeps :
    (f : Name) {d d' : Disk} {w w' : Writer} {effects : List Effect} (u : Option DiskNode)
    → d.containers ≡ true
    → Writes d w effects d' w'
    → Keeps f d u
    → Keeps f d' u
Writes-Keeps f u c₀ (finds i d) k =
    Keeps-same f d (find_in_disk i.hash_function d).1 u (find_in_disk-holds f i.hash_function d)
      (find_in_disk-net_cache i.hash_function d) k
Writes-Keeps f u c₀ (has_room enough) k = k
Writes-Keeps f u c₀ (lacks_room short) k = k
Writes-Keeps f u c₀ (evicts {i} {freed} {d} {d'} {n} {ns} {effects} read on e more free m)
      ((net, c), k) =
    let (rest, (net', c', knows)) =
      ensured _ _ (d', effects) (free_node-Knows f read n ns d net c) m in
    let before : ((is_node f n || holds f ns) || (held_by u f || known_to (some net) f)) ≡ true =
      rw (c, holds_first f d.head n ns e) at k in
    ((net', c'), rw (rest, c') (moves _ _ _ _ _ knows before))
Writes-Keeps f u c₀ (drops off e more) k = absurd (cc (sym c₀ ∙ off))
Writes-Keeps f u c₀ (makes_room enough) k = k
Writes-Keeps f u c₀ (gives_up on gone less) k = k
Writes-Keeps f u c₀ (stores {i} {d} {d'} {effects} o e) ((net, c), k) =
    let (same, more) = ensured _ _ (d', effects) (store_node-holds f o i d) e in
    ((net, same ∙ c), rw same (kept_more (holds f d.head) (holds f d'.head) _ more k))

Uploads-Keeps :
    (f : Name) {net net' : NetCache} {u u' : Option DiskNode} {effects : List Effect}
    → Uploads net u effects net' u'
    → (held_by u f || known_to (some net) f) ≡ true
    → (held_by u' f || known_to (some net') f) ≡ true
unfolding holds find_in_network insert_net_cache
Uploads-Keeps f (takes {net} {item} {rest} e live) k =
    let queue = holds_first f net.queue item rest e in ground (arith, queue, k)
Uploads-Keeps f (lists {net} {item}) k =
    let node : NetNode = record { function = item.function; memory = item.memory } in
    ground (arith, find_node-append f net.head (node ∷ []), k)

uploaded : (x r r' : Bool) → (r ≡ true → r' ≡ true) → (x || r) ≡ true → (x || r') ≡ true
uploaded true r r' h e = refl
uploaded false r r' h e = h e

find_in_disk-containers :
    (name : Name) (d : Disk) → (find_in_disk name d).1.containers ≡ d.containers
find_in_disk-containers name d = elim (find_in_disk-cases name d) [
  | inl (e, _) ↦ rw e refl
  | inr (after, e, _) ↦ rw e refl
]

-- Nothing sets `disk->containers` again.
Writes-containers :
    {d d' : Disk} {w w' : Writer} {effects : List Effect}
    → Writes d w effects d' w'
    → d'.containers ≡ d.containers
unfolding link_node
Writes-containers (finds i d) = find_in_disk-containers i.hash_function d
Writes-containers (has_room enough) = refl
Writes-containers (lacks_room short) = refl
Writes-containers (evicts {i} {freed} {d} {d'} {n} {ns} {effects} read on e more free m) =
    (ensured _ _ (d', effects) (free_node-lem read n ns d) m).1
Writes-containers (drops off e more) = refl
Writes-containers (makes_room enough) = refl
Writes-containers (gives_up on gone less) = refl
Writes-containers (stores {i} {d} {d'} {effects} o e) =
    elim (ensured _ _ (d', effects) (store_node-Linked o i d) e) [
      | inl same ↦ ap (λ (x : Disk). x.containers) same
      | inr (path, linked) ↦ ap (λ (x : Disk). x.containers) linked
    ]

Step-containers : {s t : Store} → Step s t → t.disk.containers ≡ s.disk.containers
Step-containers (writes st) = Writes-containers st
Step-containers (looks_up {d} name free) = find_in_disk-containers name d
Step-containers (marks name flag allowed) = refl
Step-containers (uploads e st) = refl

Steps-containers : {s t : Store} → Steps s t → t.disk.containers ≡ s.disk.containers
Steps-containers start = refl
Steps-containers (later ss st) = Step-containers st ∙ Steps-containers ss

Step-Keeps :
    (f : Name) {s t : Store}
    → s.disk.containers ≡ true
    → Keeps f s.disk s.uploading
    → Step s t
    → Keeps f t.disk t.uploading
Step-Keeps f on k (writes {d} {d'} {w} {w'} {effects} {u} st) = Writes-Keeps f u on st k
Step-Keeps f on k (looks_up {d} {w} {u} name free) =
    Keeps-same f d (find_in_disk name d).1 u (find_in_disk-holds f name d)
      (find_in_disk-net_cache name d) k
Step-Keeps f on k (marks {d} {w} {u} name flag allowed) =
    Keeps-same f d (record d { head = mark name flag d.head }) u (holds-mark f name flag d.head)
      refl k
Step-Keeps f on ((old, c), k) (uploads {d} {w} {net} {net'} {u} {u'} e st) =
    let before : (holds f d.head || (held_by u f || known_to (some net) f)) ≡ true = rw e at k in
    ((net', refl), uploaded (holds f d.head) _ _ (Uploads-Keeps f st) before)

-- With containers and a network cache, a function that is on disk at some time is kept from then on,
-- whatever `freeDisk` reads for the memory of a node that it has freed, and whatever order the
-- write-back thread, the lookups, the reader and the upload thread run in: it is on disk, or in the
-- upload queue, or in the hands of the upload thread, or listed as stored.
pub Steps-Keeps :
    (f : Name) {s t : Store}
    → s.disk.containers ≡ true
    → Keeps f s.disk s.uploading
    → Steps s t
    → Keeps f t.disk t.uploading
Steps-Keeps f on k start = k
Steps-Keeps f on k (later ss st) =
    Step-Keeps f (Steps-containers ss ∙ on) (Steps-Keeps f on k ss) st
