-- ===== src/Disk.antt =====
-- The disk cache of source/disk_cache.c: the functions kept on disk, least recently used first. The
-- linked list of `disk_node` is the list of their contents; `containers` says whether
-- `disk->containers` is set, `net_cache` is `none` where `disk->net_cache` is NULL. Each
-- function runs under `disk_lock`, except that `insertDiskItem` gives it up for the checkpoint and
-- for the writing of the file, which both are in `store_node`, and `retrieveFromDisk` for the read.
-- Only the write-back thread inserts. The read queue, which has a lock of its own, is
-- ReadBuffer.antt.
pub mod Lookup
pub mod Eviction
pub mod Insertion
pub mod Retrieve
pub mod Nodes
pub mod Reader
pub mod Recency
use c_faas_emulator.Common.{
  ℕ, ◌*◌, Bool, true, false, Option, none, some, List, [], ◌∷◌, ◌++◌, not, if◌then◌else◌,
}
use c_faas_emulator.Common.Int.{ℤ, pos, ◌+ℤ◌, ◌-ℤ◌, ltb_ℤ}
use c_faas_emulator.Common.Sums.{sum_by}
use c_faas_emulator.Common.Name.{Name, codes, str_eq}
use c_faas_emulator.Common.Outcome.{Outcome, ok, exits, fault, ◌>>=◌}
use c_faas_emulator.Types.{
  Invocation, DiskNode, Effect, kill, await_reader, remove, write_file, checkpoint, fetch,
  container_path,
}
use c_faas_emulator.Network.{NetCache, find_in_network, enqueue_upload}

-- `read_after` is what `freeDisk` reads for the memory of a node after it has freed it, or has handed
-- it to the upload thread, which frees it: any number.
pub record Disk : Type 0 where
  pub head : List DiskNode
  pub memory : ℤ
  pub containers : Bool
  pub net_cache : Option NetCache
  pub read_after : DiskNode → ℤ

-- `initDisk`, of the size that the options give in GB; the containers are set by `main_loop`.
unfoldable pub init_disk :
    (gigabytes : ℕ) → (containers : Bool) → Option NetCache → (read_after : DiskNode → ℤ) → Disk
init_disk gigabytes containers net_cache read_after = record {
  head = [];
  memory = pos (gigabytes * 1000);
  containers = containers;
  net_cache = net_cache;
  read_after = read_after;
}

-- The walk of `findInDisk` with its re-linking: the node goes behind the last one.
unfoldable pub move_to_end : Name → List DiskNode → Option (List DiskNode)
move_to_end name [] = none
move_to_end name (n ∷ ns) =
    let found = move_to_end name ns in
    if str_eq n.function name
    then some (ns ++ n ∷ [])
    else elim found [ none ↦ none | some ns' ↦ some (n ∷ ns') ]

unfoldable pub find_in_disk : Name → Disk → Bool × Disk
unfolding move_to_end
find_in_disk name d = elim (move_to_end name d.head) [
  | none ↦ (false, d)
  | some ns ↦ (true, record d { head = ns })
]

-- How far freeDisk has come.
pub record Freeing : Type 0 where
  pub freed : ℤ
  pub disk : Disk
  pub effects : List Effect

-- The loop of freeDisk without containers.
unfoldable pub free_files : ℤ → ℤ → List DiskNode → Disk → Freeing
free_files memory freed [] d = record { freed = freed; disk = record d { head = [] }; effects = [] }
free_files memory freed (n ∷ ns) d =
    let next =
      free_files memory (freed +ℤ n.memory) ns (record d { memory = d.memory +ℤ n.memory }) in
    if ltb_ℤ freed memory
    then record next { effects = remove n.file ∷ next.effects }
    else record { freed = freed; disk = record d { head = n ∷ ns }; effects = [] }

-- What becomes of a node that is taken off: handed to the upload thread if the object store does
-- not have the function, and its file removed otherwise.
unfoldable pub dispose : DiskNode → Option NetCache → Outcome (Option NetCache × List Effect)
dispose n none = ok (none, remove (container_path n.function) ∷ [])
dispose n (some net) =
    if find_in_network n.function net
    then ok (some net, remove (container_path n.function) ∷ [])
    else (do net' ← enqueue_upload n net; ok (some net', []))

-- `while (head->in_use == 1) usleep`, which ends when the reader has stored 0.
unfoldable pub await : DiskNode → DiskNode × List Effect
await n = if n.in_use then (record n { in_use = false }, await_reader n.function ∷ []) else (n, [])

-- The loop of freeDisk with containers, which adds up the memory of a node once it is gone.
unfoldable pub free_containers : ℤ → ℤ → List DiskNode → Disk → Outcome Freeing
unfolding dispose await
free_containers memory freed [] d =
    ok (record { freed = freed; disk = record d { head = [] }; effects = [] })
free_containers memory freed (n ∷ ns) d =
    let go = do
      let (n', waited) = await n
      (net', disposed) ← dispose n' d.net_cache
      next ←
          free_containers memory (freed +ℤ d.read_after n) ns
            (record d { memory = d.memory +ℤ d.read_after n; net_cache = net' })
      ok (record next { effects = waited ++ disposed ++ next.effects })
    in if ltb_ℤ freed memory
      then go
      else ok (record { freed = freed; disk = record d { head = n ∷ ns }; effects = [] })

unfoldable pub free_disk : ℤ → Disk → Outcome (Bool × Freeing)
unfolding free_files free_containers
free_disk memory d = do
  f ←
      if d.containers
      then free_containers memory (pos 0) d.head d
      else ok (free_files memory (pos 0) d.head d)
  ok (not (ltb_ℤ f.freed memory), f)

-- What `checkpointContainer` asks of the outside: minio's findObject, and whether curl succeeds.
pub record Outside : Type 0 where
  pub find_object : Name → Bool
  pub curl_ok : Bool

unfoldable pub checkpoint_container :
    Outside
    → (id function_id : Name) → (restored : Bool) → Option NetCache
    → Outcome (Bool × List Effect)
checkpoint_container o id function_id restored net_cache =
    if (elim net_cache [ none ↦ false | some _ ↦ o.find_object function_id ])
    then ok (true, kill id ∷ fetch function_id ∷ [])
    else if restored
    then ok (false, kill id ∷ [])
    else if o.curl_ok
    then ok (true, checkpoint function_id ∷ [])
    else exits

-- The first part of insertDiskItem: `true` if there is room. Without containers, `handle` has no
-- value when it is passed to killContainer.
unfoldable pub make_room : Invocation → Disk → Outcome (Bool × Disk × List Effect)
unfolding free_disk
make_room i d =
    if ltb_ℤ d.memory i.memory
    then (do
      (freed, f) ← free_disk i.memory d
      if freed
          then ok (true, f.disk, f.effects)
          else if d.containers
          then ok (false, f.disk, f.effects ++ kill i.container_id ∷ [])
          else fault)
    else ok (true, d, [])

-- The node goes behind the last one, and is charged.
unfoldable pub link_node : Name → Invocation → Disk → Disk
link_node path i d = record d {
  head =
      d.head
      ++ record { function = i.hash_function; file = path; memory = i.memory; in_use = false } ∷ [];
  memory = d.memory -ℤ i.memory;
}

-- The rest of insertDiskItem: the function is written to disk, or its container saved.
unfoldable pub store_node : Outside → Invocation → Disk → Outcome (Disk × List Effect)
unfolding checkpoint_container link_node
store_node o i d =
    if d.containers
    then (do
      (success, effects) ←
          checkpoint_container o i.container_id i.hash_function i.restored d.net_cache
      ok (if success then link_node [] i d else d, effects))
    else (let path = codes "cache/" ++ i.hash_function in
        ok (link_node path i d, write_file path ∷ []))

unfoldable pub insert_disk_item : Outside → Invocation → Disk → Outcome (Disk × List Effect)
unfolding make_room store_node
insert_disk_item o i d = do
  (room, d', effects) ← make_room i d
  if room
      then (do (d'', later) ← store_node o i d'; ok (d'', effects ++ later))
      else ok (d', effects)

abbrev pub total_disk : List DiskNode → ℤ
total_disk = sum_by λ n. n.memory
