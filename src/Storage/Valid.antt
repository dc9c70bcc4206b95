-- ===== src/Storage/Valid.antt =====
-- No function stands on disk twice, whatever order the threads run in.
use mathlib.Core.List.{Nodup, Nodup-cons, map-append, perm_append_singleton}
use mathlib.Core.List.Perm
use c_faas_emulator.Common.{
  Bool, true, false, some, List, [], ◌∷◌, ◌++◌, ◌≡◌, refl, sym, subst, ◌⊎◌, inl, inr, arith,
  Bool-cases, All, All-append, All-prefix, All-suffix, Lacks, map, if◌then◌else◌,
}
use c_faas_emulator.Common.Int.{ℤ, ◌+ℤ◌}
use c_faas_emulator.Common.Name.{Name, codes}
use c_faas_emulator.Common.Outcome.{ok, ◌>>=◌, Ensures, Ensures-bind, ensured}
use c_faas_emulator.Types.{Invocation, DiskNode, Effect, write_file}
use c_faas_emulator.Disk.{
  Disk, Outside, find_in_disk, dispose, link_node, store_node, checkpoint_container,
}
use c_faas_emulator.Disk.Lookup.{is_node, find_in_disk-cases, find_in_disk-Perm}
use c_faas_emulator.Disk.Retrieve.{mark}
use c_faas_emulator.Disk.Insertion.{functions, not-mem_of-Lacks}
use c_faas_emulator.Storage.{
  Files, Writer, idle, checked, freeing, saving, Store, free_node, Writes, finds, has_room,
  lacks_room, evicts, drops, makes_room, gives_up, stores, Step, writes, looks_up, marks, uploads,
  Steps, start, later, init_store,
}

-- What the write-back thread relies on: the function that it is about to store is not on disk.
abbrev pub Relies : Disk → Writer → Type 0
Relies d idle = Unit
Relies d (checked i) = Lacks (is_node i.hash_function) d.head
Relies d (freeing i freed) = Lacks (is_node i.hash_function) d.head
Relies d (saving i) = Lacks (is_node i.hash_function) d.head

-- What holds between any two steps.
pub record Valid (d : Disk) (w : Writer) : Type 0 where
  pub distinct : Nodup (functions d)
  pub relies : Relies d w

mark-functions :
    (name : Name) (flag : Bool) (ns : List DiskNode)
    → map (λ n. n.function) (mark name flag ns) ≡ map (λ n. n.function) ns
unfolding mark
mark-functions name flag [] = refl
mark-functions name flag (n ∷ ns) = ground (arith, mark-functions name flag ns)

mark-Lacks :
    (other name : Name) (flag : Bool) (ns : List DiskNode)
    → Lacks (is_node other) ns
    → Lacks (is_node other) (mark name flag ns)
unfolding mark
mark-Lacks other name flag [] l = tt
mark-Lacks other name flag (n ∷ ns) l = elim (Bool-cases (is_node name n)) [
  | inl hit ↦ rw hit l
  | inr miss ↦ rw miss (l.0, mark-Lacks other name flag ns l.1)
]

-- A change of the disk that brings no new function.
Relies-same :
    (d d' : Disk) (w : Writer)
    → ((other : Name) → Lacks (is_node other) d.head → Lacks (is_node other) d'.head)
    → Relies d w
    → Relies d' w
Relies-same d d' idle l r = tt
Relies-same d d' (checked i) l r = l i.hash_function r
Relies-same d d' (freeing i freed) l r = l i.hash_function r
Relies-same d d' (saving i) l r = l i.hash_function r

-- What holds of all nodes still does after a lookup.
pub find_in_disk-All {κ} :
    (P : DiskNode → Type κ) (name : Name) (d : Disk)
    → All P d.head
    → All P (find_in_disk name d).1.head
find_in_disk-All P name d l = elim (find_in_disk-cases name d) [
  | inl (e, _) ↦ rw e l
  | inr (after, e, m) ↦
      let f = m.first in
      let whole = subst (All P) f.whole l in
      let (at_node, behind) = All-suffix P f.before (m.node ∷ f.after) whole in
      let before = All-prefix P f.before (m.node ∷ f.after) whole in
      rw (e, m.moved)
        (All-append P (f.before ++ f.after) (m.node ∷ [])
          (All-append P f.before f.after before behind) (at_node, tt))
]

pub free_node-lem :
    (read : ℤ) (n : DiskNode) (ns : List DiskNode) (d : Disk)
    → Ensures (λ r. (r.0.head ≡ ns) × (r.0.containers ≡ d.containers)) (free_node read n ns d)
unfolding free_node
free_node-lem read n ns d = Ensures-bind _ (dispose n d.net_cache) _ λ r q. (refl, refl)

-- A node is linked, or it is not.
abbrev pub Linked : Invocation → Disk → Disk → Type 0
Linked i d d' = (d' ≡ d) ⊎ ((path : Name) × (d' ≡ link_node path i d))

pub store_node-Linked :
    (o : Outside) (i : Invocation) (d : Disk) → Ensures (λ r. Linked i d r.0) (store_node o i d)
unfolding store_node
store_node-Linked o i d = stored d.containers
  where
    saved : (success : Bool) → Linked i d (if success then link_node [] i d else d)
    saved true = inr ([], refl)
    saved false = inl refl

    stored :
        (containers : Bool)
        → Ensures
            (λ (r : Disk × List Effect). Linked i d r.0)
            (if containers
              then (do
                (success, effects) ←
                    checkpoint_container o i.container_id i.hash_function i.restored d.net_cache
                ok (if success then link_node [] i d else d, effects))
              else (let path = codes "cache/" ++ i.hash_function in
                  ok (link_node path i d, write_file path ∷ [])))
    stored true =
        Ensures-bind _
          (checkpoint_container o i.container_id i.hash_function i.restored d.net_cache) _
          λ r q. saved r.0
    stored false = inr (_, refl)

-- A function that is not on disk is linked.
linked-distinct :
    (path : Name) (i : Invocation) (d : Disk)
    → Lacks (is_node i.hash_function) d.head
    → Nodup (functions d)
    → Nodup (functions (link_node path i d))
unfolding link_node
linked-distinct path i d lacks distinct =
    subst Nodup (sym (map-append (λ (m : DiskNode). m.function) d.head (_ ∷ []))) (
      Perm.nodup (Perm.symm (perm_append_singleton i.hash_function (functions d)))
        (Nodup-cons.1 (not-mem_of-Lacks i.hash_function d.head lacks, distinct)))

found-distinct :
    (name : Name) (d : Disk) → Nodup (functions d) → Nodup (functions (find_in_disk name d).1)
found-distinct name d = Perm.nodup (Perm.map (λ n. n.function) (find_in_disk-Perm name d))

looks_up-Valid :
    (d : Disk) (w : Writer) (name : Name) → Valid d w → Valid ((find_in_disk name d).1) w
looks_up-Valid d w name v = record {
  distinct = found-distinct name d v.distinct;
  relies =
      Relies-same d (find_in_disk name d).1 w
        (λ other. find_in_disk-All (λ n. is_node other n ≡ false) name d) v.relies;
}

-- The first node goes.
rest-Valid :
    (i : Invocation) (freed freed' : ℤ) (d d' : Disk) (n : DiskNode) (ns : List DiskNode)
    → d.head ≡ n ∷ ns
    → d'.head ≡ ns
    → Valid d (freeing i freed)
    → Valid d' (freeing i freed')
rest-Valid i freed freed' d d' n ns e rest v =
    let lacks = subst (Lacks (is_node i.hash_function)) e v.relies in
    let distinct : Nodup (n.function ∷ map (λ m. m.function) ns) =
      subst (λ ms. Nodup (map (λ m. m.function) ms)) e v.distinct in
    record {
      distinct =
          subst (λ ms. Nodup (map (λ m. m.function) ms)) (sym rest) (Nodup-cons.0 distinct).1;
      relies = subst (Lacks (is_node i.hash_function)) (sym rest) lacks.1;
    }

pub Writes-Valid :
    {d d' : Disk} {w w' : Writer} {effects : List Effect}
    → Writes d w effects d' w'
    → Valid d w
    → Valid d' w'
Writes-Valid (finds i d) v =
    let after = looks_up-Valid d idle i.hash_function v in
    elim (find_in_disk-cases i.hash_function d) [
      | inl (e, lacks) ↦ rw e (record { distinct = v.distinct; relies = lacks })
      | inr (ns, e, m) ↦ rw e (rw e at after)
    ]
Writes-Valid (has_room enough) v = record { distinct = v.distinct; relies = v.relies }
Writes-Valid (lacks_room short) v = record { distinct = v.distinct; relies = v.relies }
Writes-Valid (evicts {i} {freed} {d} {d'} {n} {ns} {effects} read c e more free f) v =
    rest-Valid i freed (freed +ℤ read) d d' n ns e
      (ensured _ _ (d', effects) (free_node-lem read n ns d) f).0 v
Writes-Valid (drops {i} {freed} {d} {n} {ns} c e more) v =
    rest-Valid i freed (freed +ℤ n.memory) d _ n ns e refl v
Writes-Valid (makes_room enough) v = record { distinct = v.distinct; relies = v.relies }
Writes-Valid (gives_up c gone less) v = record { distinct = v.distinct; relies = tt }
Writes-Valid (stores {i} {d} {d'} {effects} o e) v = record {
  distinct = elim (ensured _ _ (d', effects) (store_node-Linked o i d) e) [
    | inl same ↦ subst (λ x. Nodup (functions x)) (sym same) v.distinct
    | inr (path, linked) ↦
        subst (λ x. Nodup (functions x)) (sym linked) (linked-distinct path i d v.relies v.distinct)
  ];
  relies = tt;
}

pub Step-Valid : {s t : Store} → Valid s.disk s.writer → Step s t → Valid t.disk t.writer
Step-Valid v (writes st) = Writes-Valid st v
Step-Valid v (looks_up {d} {w} name free) = looks_up-Valid d w name v
Step-Valid v (marks {d} {w} name flag allowed) = record {
  distinct = rw (mark-functions name flag d.head) v.distinct;
  relies =
      Relies-same d (record d { head = mark name flag d.head }) w
        (λ other. mark-Lacks other name flag d.head) v.relies;
}
Step-Valid v (uploads {d} {w} {net} {net'} e st) = record {
  distinct = v.distinct;
  relies = Relies-same d (record d { net_cache = some net' }) w (λ other l. l) v.relies;
}

pub Steps-Valid : {s t : Store} → Valid s.disk s.writer → Steps s t → Valid t.disk t.writer
Steps-Valid v start = v
Steps-Valid v (later ss st) = Step-Valid (Steps-Valid v ss) st

-- If no function stands on disk twice, then none ever does, whatever order the write-back thread, the
-- lookups, the reader and the upload thread run in, and whatever `freeDisk` reads for the memory of a
-- node that it has freed; and from the lookup of a function by the write-back thread to the link of
-- its node the function is not on disk.
pub Steps-distinct :
    (files : Files) (d : Disk) (t : Store)
    → Nodup (functions d)
    → Steps (init_store files d) t
    → Nodup (functions t.disk) × Relies t.disk t.writer
Steps-distinct files d t distinct run =
    let after = Steps-Valid (record { distinct = distinct; relies = tt }) run in
    (after.distinct, after.relies)
