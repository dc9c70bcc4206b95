-- ===== src/Storage.antt =====
-- The disk cache and the upload queue under the threads that use them at the same time: the
-- write-back thread (findInDisk, insertDiskItem, freeDisk), the workers (findInDisk), the reader of
-- the disk and the upload thread (netThreadFunc) of source/disk_cache.c. One step for each section
-- under `disk_lock` or `upload_lock`, save that `freeDisk`, during which the upload thread runs on,
-- is a step for each node. What each step does is the function of Disk.antt or Network.antt.
pub mod Valid
pub mod Kept
pub mod Backed
pub mod Bag
use c_faas_emulator.Common.{
  Bool, true, false, Option, none, some, List, [], ◌∷◌, ◌≡◌, ◌⊎◌, ◌&&◌, if◌then◌else◌,
}
use c_faas_emulator.Common.Int.{ℤ, pos, ◌+ℤ◌, ltb_ℤ}
use c_faas_emulator.Common.Name.{Name, str_eq}
use c_faas_emulator.Common.Outcome.{Outcome, ok, ◌>>=◌}
use c_faas_emulator.Types.{
  Invocation, DiskNode, Effect, quit, kill, remove, write_file, checkpoint, container_path,
}
use c_faas_emulator.Network.{NetCache, insert_net_cache}
use c_faas_emulator.Disk.{Disk, Outside, find_in_disk, dispose, store_node}
use c_faas_emulator.Disk.Retrieve.{mark}

-- Where the write-back thread is: between two functions, before `insertDiskItem` of a function that
-- it has not found on disk, in `freeDisk` with so much freed, or with the lock given up for the
-- checkpoint.
pub data Writer : Type 0 where
  idle : Writer
  checked : Invocation → Writer
  freeing : Invocation → ℤ → Writer
  saving : Invocation → Writer

-- Which paths have a file.
abbrev pub Files : Type 0
Files = Name → Bool

-- The calls that make and remove a file. What minio writes is not told here.
abbrev pub run_effect : Effect → Files → Files
run_effect (remove path) files = λ p. if str_eq p path then false else files p
run_effect (write_file path) files = λ p. if str_eq p path then true else files p
run_effect (checkpoint f) files = λ p. if str_eq p (container_path f) then true else files p
run_effect _ files = files

unfoldable pub run_effects : List Effect → Files → Files
run_effects [] files = files
run_effects (e ∷ es) files = run_effects es (run_effect e files)

-- `uploading` is what the upload thread has taken from the queue and not listed yet.
pub record Store : Type 0 where
  pub disk : Disk
  pub writer : Writer
  pub uploading : Option DiskNode
  pub files : Files

-- Is `disk_lock` free?
abbrev pub unlocked : Writer → Bool
unlocked (freeing i freed) = false
unlocked _ = true

-- A round of the loop of `freeDisk` with containers, for a node that no reader uses. `read` is what
-- `temp->memory` gives when it is read for the counter: the node has been freed by then, or handed to
-- the upload thread, which frees it, so that it can be any number.
unfoldable pub free_node :
    (read : ℤ) → DiskNode → List DiskNode → Disk → Outcome (Disk × List Effect)
unfolding dispose
free_node read n ns d = do
  (net', effects) ← dispose n d.net_cache
  ok (record d { head = ns; memory = d.memory +ℤ read; net_cache = net' }, effects)

-- The steps of the write-back thread: disk and place before, the effects, disk and place after. In
-- `freeDisk` a node is evicted with containers and dropped without; without, `insertDiskItem` passes
-- a handle that has no value to killContainer if that is not enough, and nothing follows.
pub data Writes : Disk → Writer → List Effect → Disk → Writer → Type 0 where
  finds :
      (i : Invocation) (d : Disk)
      → Writes d idle
          (if (find_in_disk i.hash_function d).0 && d.containers
            then kill i.container_id ∷ []
            else [])
          (find_in_disk i.hash_function d).1
          (if (find_in_disk i.hash_function d).0 then idle else checked i)
  has_room :
      {i : Invocation} {d : Disk}
      → ltb_ℤ d.memory i.memory ≡ false
      → Writes d (checked i) [] d (saving i)
  lacks_room :
      {i : Invocation} {d : Disk}
      → ltb_ℤ d.memory i.memory ≡ true
      → Writes d (checked i) [] d (freeing i (pos 0))
  evicts :
      {i : Invocation} {freed : ℤ} {d d' : Disk} {n : DiskNode} {ns : List DiskNode}
      {effects : List Effect} (read : ℤ)
      → d.containers ≡ true
      → d.head ≡ n ∷ ns
      → ltb_ℤ freed i.memory ≡ true
      → n.in_use ≡ false
      → free_node read n ns d ≡ ok (d', effects)
      → Writes d (freeing i freed) effects d' (freeing i (freed +ℤ read))
  drops :
      {i : Invocation} {freed : ℤ} {d : Disk} {n : DiskNode} {ns : List DiskNode}
      → d.containers ≡ false
      → d.head ≡ n ∷ ns
      → ltb_ℤ freed i.memory ≡ true
      → Writes d
          (freeing i freed)
          (remove n.file ∷ [])
          (record d { head = ns; memory = d.memory +ℤ n.memory })
          (freeing i (freed +ℤ n.memory))
  makes_room :
      {i : Invocation} {freed : ℤ} {d : Disk}
      → ltb_ℤ freed i.memory ≡ false
      → Writes d (freeing i freed) [] d (saving i)
  gives_up :
      {i : Invocation} {freed : ℤ} {d : Disk}
      → d.containers ≡ true
      → d.head ≡ []
      → ltb_ℤ freed i.memory ≡ true
      → Writes d (freeing i freed) (kill i.container_id ∷ []) d idle
  stores :
      {i : Invocation} {d d' : Disk} {effects : List Effect} (o : Outside)
      → store_node o i d ≡ ok (d', effects)
      → Writes d (saving i) effects d' idle

-- The steps of the upload thread, on the network cache and what it holds, with their effects. The
-- two together are a round, `net_thread_turn`.
pub data Uploads
    : NetCache → Option DiskNode → List Effect → NetCache → Option DiskNode → Type 0 where
  takes :
      {net : NetCache} {item : DiskNode} {rest : List DiskNode}
      → net.queue ≡ item ∷ rest
      → str_eq item.function quit ≡ false
      → Uploads net none [] (record net { queue = rest }) (some item)
  lists :
      {net : NetCache} {item : DiskNode}
      → Uploads net
          (some item)
          (insert_net_cache item.function item.memory net).1
          (insert_net_cache item.function item.memory net).0
          none

-- A step of any thread. The reader marks the node that it uses under the lock, and takes the mark
-- away without.
pub data Step : Store → Store → Type 0 where
  writes :
      {d d' : Disk} {w w' : Writer} {effects : List Effect} {u : Option DiskNode} {files : Files}
      → Writes d w effects d' w'
      → Step
          (record { disk = d; writer = w; uploading = u; files = files })
          (record { disk = d'; writer = w'; uploading = u; files = run_effects effects files })
  looks_up :
      {d : Disk} {w : Writer} {u : Option DiskNode} {files : Files} (name : Name)
      → unlocked w ≡ true
      → Step
          (record { disk = d; writer = w; uploading = u; files = files })
          (record { disk = (find_in_disk name d).1; writer = w; uploading = u; files = files })
  marks :
      {d : Disk} {w : Writer} {u : Option DiskNode} {files : Files} (name : Name) (flag : Bool)
      → (flag ≡ false) ⊎ (unlocked w ≡ true)
      → Step
          (record { disk = d; writer = w; uploading = u; files = files })
          (record {
            disk = record d { head = mark name flag d.head };
            writer = w;
            uploading = u;
            files = files;
          })
  uploads :
      {d : Disk} {w : Writer} {net net' : NetCache} {u u' : Option DiskNode} {effects : List Effect}
      {files : Files}
      → d.net_cache ≡ some net
      → Uploads net u effects net' u'
      → Step
          (record { disk = d; writer = w; uploading = u; files = files })
          (record {
            disk = record d { net_cache = some net' };
            writer = w;
            uploading = u';
            files = run_effects effects files;
          })

pub data Steps (s : Store) : Store → Type 0 where
  start : Steps s s
  later : {t u : Store} → Steps s t → Step t u → Steps s u

abbrev pub init_store : Files → Disk → Store
init_store files d = record { disk = d; writer = idle; uploading = none; files = files }
