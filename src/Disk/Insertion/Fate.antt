-- ===== src/Disk/Insertion/Fate.antt =====
-- What becomes of the container of a function that is moved to disk.
use c_faas_emulator.Common.{
  ℕ, ◌+◌, Bool, true, false, Option, List, [], ◌∷◌, ◌++◌, ◌≡◌, refl, ap, ◌∙◌, arith, Bool-cases,
  if◌then◌else◌, inl, inr,
}
use c_faas_emulator.Common.Int.{ltb_ℤ}
use c_faas_emulator.Common.Name.{Name}
use c_faas_emulator.Common.Outcome.{ok, ◌>>=◌, Ensures, Ensures-bind, Ensures-mono, ensured}
use c_faas_emulator.Types.{
  Invocation, DiskNode, Effect, kill, await_reader, remove, write_file, checkpoint, upload, fetch,
}
use c_faas_emulator.Network.{NetCache}
use c_faas_emulator.Disk.{
  Disk, Outside, free_disk, make_room, checkpoint_container, link_node, store_node,
  insert_disk_item,
}
use c_faas_emulator.Disk.Eviction.{eviction_effects}
use c_faas_emulator.Disk.Eviction.Answer.{free_disk-Disposed}

-- The effects that end a running container.
abbrev pub ends : List Effect → ℕ
ends [] = 0
ends (kill _ ∷ es) = 1 + ends es
ends (checkpoint _ ∷ es) = 1 + ends es
ends (await_reader _ ∷ es) = ends es
ends (remove _ ∷ es) = ends es
ends (write_file _ ∷ es) = ends es
ends (upload _ ∷ es) = ends es
ends (fetch _ ∷ es) = ends es

pub ends-append : (xs ys : List Effect) → ends (xs ++ ys) ≡ ends xs + ends ys
ends-append [] ys = omega arith
ends-append (x ∷ xs) ys = ground (arith, ends-append xs ys)

ends-eviction_effects :
    (goes : Name → Bool) (ns : List DiskNode) → ends (eviction_effects goes ns) ≡ 0
ends-eviction_effects goes [] = refl
ends-eviction_effects goes (n ∷ ns) = ground (arith, ends-eviction_effects goes ns)

-- After the first part: nothing has ended the container if there is room, else one effect has.
abbrev pub RoomMade : Bool × Disk × List Effect → Type 0
RoomMade r = (r.1.containers ≡ true) × (ends r.2 ≡ (if r.0 then 0 else 1))

pub make_room-RoomMade :
    (i : Invocation) (d : Disk) → d.containers ≡ true → Ensures RoomMade (make_room i d)
unfolding make_room
make_room-RoomMade i d c = elim (Bool-cases (ltb_ℤ d.memory i.memory)) [
  | inl short ↦ rw short (
      Ensures-bind _ (free_disk i.memory d) _ λ r q.
        let (e, w) = ensured _ _ r (free_disk-Disposed i.memory d c) q in
        let none_ended : ends r.1.effects ≡ 0 = ap ends w.1 ∙ ends-eviction_effects _ e.removed in
        ground
          (arith, e.containers, none_ended, ends-append r.1.effects (kill i.container_id ∷ [])))
  | inr enough ↦ rw enough (c, refl)
]

checkpoint_container-ends :
    (o : Outside) (id function : Name) (restored : Bool) (net : Option NetCache)
    → Ensures (λ r. ends r.1 ≡ 1) (checkpoint_container o id function restored net)
unfolding checkpoint_container
checkpoint_container-ends o id function restored net = ground arith

-- Of a disk and effects: it is one with containers, and one effect has ended a container.
abbrev pub EndsOne : Disk × List Effect → Type 0
EndsOne r = (r.0.containers ≡ true) × (ends r.1 ≡ 1)

store_node-EndsOne :
    (o : Outside) (i : Invocation) (d : Disk)
    → d.containers ≡ true
    → Ensures EndsOne (store_node o i d)
unfolding store_node link_node
store_node-EndsOne o i d c = simp c (
    Ensures-bind _ (checkpoint_container o i.container_id i.hash_function i.restored d.net_cache) _
      λ r q.
        let one =
          ensured _ _ r
            (checkpoint_container-ends o i.container_id i.hash_function i.restored d.net_cache) q in
        ground (arith, one, c))

pub insert_disk_item-EndsOne :
    (o : Outside) (i : Invocation) (d : Disk)
    → d.containers ≡ true
    → Ensures EndsOne (insert_disk_item o i d)
unfolding insert_disk_item
insert_disk_item-EndsOne o i d c =
    Ensures-bind _ (make_room i d) _
      λ r q. go r.0 r.1 r.2 (ensured _ _ r (make_room-RoomMade i d c) q)
  where
    go :
        (room : Bool) (d' : Disk) (effects : List Effect)
        → RoomMade (room, d', effects)
        → Ensures EndsOne (
            if room
            then (do (d'', later) ← store_node o i d'; ok (d'', effects ++ later))
            else ok (d', effects))
    go true d' effects (c', e) = Ensures-bind _ (store_node o i d') _ λ t q.
        let one = ensured _ _ t (store_node-EndsOne o i d' c') q in
        (one.0, omega (arith, ends-append effects t.1, one.1))
    go false d' effects (c', e) = (c', e)

-- With containers, `insertDiskItem` ends the container that it is given exactly once, by a kill or
-- by the export of a checkpoint, on every branch that returns: no container is left running, and
-- none is ended twice.
pub insert_disk_item-ends :
    (o : Outside) (i : Invocation) (d : Disk)
    → d.containers ≡ true
    → Ensures (λ r. ends r.1 ≡ 1) (insert_disk_item o i d)
insert_disk_item-ends o i d c =
    Ensures-mono EndsOne _ (insert_disk_item o i d) (λ r e. e.1) (insert_disk_item-EndsOne o i d c)
