-- ===== src/Storage/Backed.antt =====
-- With containers and without a network cache, each function on disk has its checkpoint.
use mathlib.Core.List.{Nodup, Nodup-cons, Mem, mem-cons}
use mathlib.Core.Logic.Or
use c_faas_emulator.Common.{
  Bool, true, false, ◌&&◌, Option, none, some, List, [], ◌∷◌, ◌++◌, ◌≡◌, refl, sym, ◌∙◌, subst, inl,
  inr, arith, Bool-cases, All, All-append, map, if◌then◌else◌,
}
use c_faas_emulator.Common.Int.{ℤ, pos, ◌≤ℤ◌}
use c_faas_emulator.Common.Name.{Name, codes, str_eq, str_eq_sound, str_eq_refl}
use c_faas_emulator.Common.Outcome.{ok, exits, ◌>>=◌, Ensures, ensured}
use c_faas_emulator.Types.{
  Invocation, DiskNode, Effect, kill, remove, write_file, fetch, checkpoint, container_path,
}
use c_faas_emulator.Network.{NetCache}
use c_faas_emulator.Disk.{Disk, Outside, find_in_disk, checkpoint_container, link_node, store_node}
use c_faas_emulator.Disk.Lookup.{find_in_disk-cases}
use c_faas_emulator.Disk.Retrieve.{mark}
use c_faas_emulator.Disk.Insertion.{IsValid}
use c_faas_emulator.Storage.{
  Files, run_effects, Writer, Store, free_node, Writes, finds, has_room, lacks_room, evicts, drops,
  makes_room, gives_up, stores, Step, writes, looks_up, marks, uploads, Steps, start, later,
  init_store,
}
use c_faas_emulator.Storage.Valid.{Valid, Step-Valid, find_in_disk-All}

abbrev pub HasFile : Files → DiskNode → Type 0
HasFile files n = files (container_path n.function) ≡ true

-- Every node has its file.
pub record Backed (files : Files) (d : Disk) : Type 0 where
  pub containers : d.containers ≡ true
  pub no_network : d.net_cache ≡ none
  pub backed : All (HasFile files) d.head

container_path-str_eq : (f g : Name) → str_eq (container_path f) (container_path g) ≡ str_eq f g
unfolding str_eq
container_path-str_eq f g = refl

kills-files :
    (b : Bool) (id : Name) (files : Files)
    → run_effects (if b then kill id ∷ [] else []) files ≡ files
unfolding run_effects
kills-files true id files = refl
kills-files false id files = refl

find_in_disk-Backed :
    (files : Files) (name : Name) (d : Disk) → Backed files d → Backed files (find_in_disk name d).1
find_in_disk-Backed files name d b = record {
  containers = (elim (find_in_disk-cases name d) [
    | inl (e, _) ↦ rw e b.containers
    | inr (after, e, _) ↦ rw e b.containers
  ]);
  no_network = (elim (find_in_disk-cases name d) [
    | inl (e, _) ↦ rw e b.no_network
    | inr (after, e, _) ↦ rw e b.no_network
  ]);
  backed = find_in_disk-All (HasFile files) name d b.backed;
}

mark-HasFile :
    (files : Files) (name : Name) (flag : Bool) (ns : List DiskNode)
    → All (HasFile files) ns
    → All (HasFile files) (mark name flag ns)
unfolding mark
mark-HasFile files name flag [] h = tt
mark-HasFile files name flag (n ∷ ns) h = elim (Bool-cases (str_eq n.function name)) [
  | inl hit ↦ rw hit h
  | inr miss ↦ rw miss (h.0, mark-HasFile files name flag ns h.1)
]

-- The files of other functions stay when one is removed.
removed-HasFile :
    (files : Files) (f : Name) (ns : List DiskNode)
    → ¬ Mem f (map (λ n. n.function) ns)
    → All (HasFile files) ns
    → All (HasFile (run_effects (remove (container_path f) ∷ []) files)) ns
unfolding run_effects
removed-HasFile files f [] absent h = tt
removed-HasFile files f (n ∷ ns) absent h =
    let miss : str_eq n.function f ≡ false = elim (Bool-cases (str_eq n.function f)) [
      | inl hit ↦ absurd (absent (mem-cons.1 (Or.inl (sym (str_eq_sound n.function f hit)))))
      | inr miss ↦ miss
    ] in
    (
      rw (container_path-str_eq n.function f, miss) h.0,
      removed-HasFile files f ns (λ m. absent (mem-cons.1 (Or.inr m))) h.1,
    )

-- A file more does not take one away.
added-HasFile :
    (files : Files) (f : Name) (ns : List DiskNode)
    → All (HasFile files) ns
    → All (HasFile (run_effects (checkpoint f ∷ []) files)) ns
unfolding run_effects
added-HasFile files f [] h = tt
added-HasFile files f (n ∷ ns) h = (ground (arith, h.0), added-HasFile files f ns h.1)

checkpointed :
    (files : Files) (f : Name) → run_effects (checkpoint f ∷ []) files (container_path f) ≡ true
unfolding run_effects
checkpointed files f = rw (str_eq_refl (container_path f)) refl

link_node-Backed :
    (files : Files) (i : Invocation) (d : Disk)
    → Backed files d
    → Backed (run_effects (checkpoint i.hash_function ∷ []) files) (link_node [] i d)
unfolding link_node
link_node-Backed files i d b = record {
  containers = b.containers;
  no_network = b.no_network;
  backed =
      All-append _ d.head _ (added-HasFile files i.hash_function d.head b.backed)
        (checkpointed files i.hash_function, tt);
}

store_node-Backed :
    (files : Files) (o : Outside) (i : Invocation) (d : Disk)
    → Backed files d
    → Ensures (λ r. Backed (run_effects r.1 files) r.0) (store_node o i d)
unfolding store_node checkpoint_container
store_node-Backed files o i d b =
    stored d.containers d.net_cache i.restored o.curl_ok b.containers b.no_network
  where
    stored :
        (containers : Bool) (net : Option NetCache) (restored curl_ok : Bool)
        → containers ≡ true
        → net ≡ none
        → Ensures
            (λ (r : Disk × List Effect). Backed (run_effects r.1 files) r.0)
            (if containers
              then (do
                (success, effects) ←
                    if (elim net [ none ↦ false | some _ ↦ o.find_object i.hash_function ])
                    then ok (true, kill i.container_id ∷ fetch i.hash_function ∷ [])
                    else if restored
                    then ok (false, kill i.container_id ∷ [])
                    else if curl_ok
                    then ok (true, checkpoint i.hash_function ∷ [])
                    else exits
                ok (if success then link_node [] i d else d, effects))
              else (let path = codes "cache/" ++ i.hash_function in
                  ok (link_node path i d, write_file path ∷ [])))
    stored false net restored curl_ok c n = absurd (cc c)
    stored true (some net) restored curl_ok c n = absurd (cc n)
    stored true none true curl_ok c n =
        subst (λ fs. Backed fs d) (sym (kills-files true i.container_id files)) b
    stored true none false true c n = link_node-Backed files i d b
    stored true none false false c n = tt

free_node-Backed :
    (files : Files) (read : ℤ) (n : DiskNode) (ns : List DiskNode) (d : Disk)
    → Backed files d
    → ¬ Mem n.function (map (λ m. m.function) ns)
    → d.head ≡ n ∷ ns
    → Ensures (λ r. Backed (run_effects r.1 files) r.0) (free_node read n ns d)
unfolding free_node
free_node-Backed files read n ns d b absent e = rw b.no_network (record {
  containers = b.containers;
  no_network = refl;
  backed =
      removed-HasFile files n.function ns absent
        (let all : All (HasFile files) (n ∷ ns) = rw e at b.backed in all.1);
})

Writes-Backed :
    (files : Files) {d d' : Disk} {w w' : Writer} {effects : List Effect}
    → Writes d w effects d' w'
    → Valid d w
    → Backed files d
    → Backed (run_effects effects files) d'
Writes-Backed files (finds i d) v b =
    subst (λ fs. Backed fs (find_in_disk i.hash_function d).1)
      (sym (kills-files ((find_in_disk i.hash_function d).0 && d.containers) i.container_id files))
      (find_in_disk-Backed files i.hash_function d b)
Writes-Backed files (has_room {i} {d} enough) v b =
    subst (λ fs. Backed fs d) (sym (kills-files false i.container_id files)) b
Writes-Backed files (lacks_room {i} {d} short) v b =
    subst (λ fs. Backed fs d) (sym (kills-files false i.container_id files)) b
Writes-Backed files (evicts {i} {freed} {d} {d'} {n} {ns} {effects} read c e more free m) v b =
    let distinct : Nodup (n.function ∷ map (λ m. m.function) ns) =
      subst (λ ms. Nodup (map (λ m. m.function) ms)) e v.distinct in
    ensured _ _ (d', effects) (free_node-Backed files read n ns d b (Nodup-cons.0 distinct).0 e) m
Writes-Backed files (drops {d} c e more) v b =
    let wrong : true ≡ false = sym b.containers ∙ c in absurd (cc wrong)
Writes-Backed files (makes_room {i} {freed} {d} enough) v b =
    subst (λ fs. Backed fs d) (sym (kills-files false i.container_id files)) b
Writes-Backed files (gives_up {i} {freed} {d} c gone less) v b =
    subst (λ fs. Backed fs d) (sym (kills-files true i.container_id files)) b
Writes-Backed files (stores {i} {d} {d'} {effects} o e) v b =
    ensured _ _ (d', effects) (store_node-Backed files o i d b) e

-- What holds between any two steps.
abbrev Holds : Store → Type 0
Holds s = Valid s.disk s.writer × Backed s.files s.disk

Step-Holds : {s t : Store} → Holds s → Step s t → Holds t
Step-Holds h st = (Step-Valid h.0 st, backed h st)
  where
    backed : {s t : Store} → Holds s → Step s t → Backed t.files t.disk
    backed h (writes {d} {d'} {w} {w'} {effects} {u} {files} st) = Writes-Backed files st h.0 h.1
    backed h (looks_up {d} {w} {u} {files} name free) = find_in_disk-Backed files name d h.1
    backed h (marks {d} {w} {u} {files} name flag allowed) = record {
      containers = h.1.containers;
      no_network = h.1.no_network;
      backed = mark-HasFile files name flag d.head h.1.backed;
    }
    backed h (uploads {d} {w} {net} {net'} e st) =
        let none_there : none ≡ some net = sym h.1.no_network ∙ e in absurd (cc none_there)

Steps-Holds : {s t : Store} → Holds s → Steps s t → Holds t
Steps-Holds h start = h
Steps-Holds h (later ss st) = Step-Holds (Steps-Holds h ss) st

-- With containers and without a network cache, from a well-formed disk cache of a capacity that is
-- not negative and of which each function has its checkpoint, the same holds at any time, whatever
-- order the write-back thread, the lookups and the reader run in: the file that the reader opens
-- for a function on disk is there.
pub Steps-Backed :
    (capacity : ℤ) (files : Files) (d : Disk) (t : Store)
    → pos 0 ≤ℤ capacity
    → IsValid capacity d
    → Backed files d
    → Steps (init_store files d) t
    → Backed t.files t.disk
Steps-Backed capacity files d t cap v b run =
    let h = Steps-Holds (record { distinct = v.distinct; relies = tt }, b) run in h.1
