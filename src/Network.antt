-- ===== src/Network.antt =====
-- The network cache of source/disk_cache.c: what is in the object store, and the queue of evicted
-- functions that the upload thread works off. The array `queue` of 500 entries, of which the first
-- `queue_size` count, is the list of those; what it does past its end is a fault.
pub mod Upload
use c_faas_emulator.Common.{
  ℕ, zero, suc, Bool, true, false, Option, none, some, List, [], ◌∷◌, ◌++◌, length, ltb,
  if◌then◌else◌,
}
use c_faas_emulator.Common.Int.{ℤ, pos}
use c_faas_emulator.Common.Name.{Name, str_eq}
use c_faas_emulator.Common.Outcome.{Outcome, ok, fault}
use c_faas_emulator.Types.{DiskNode, NetNode, Effect, remove, upload, container_path, quit}

pub record NetCache : Type 0 where
  pub head : List NetNode
  pub queue : List DiskNode

-- The part of `initNetCache` that concerns these two.
unfoldable pub init_net_cache : NetCache
init_net_cache = record { head = []; queue = [] }

-- The loop of `findInNetwork`.
unfoldable pub find_node : Name → List NetNode → Bool
find_node name [] = false
find_node name (n ∷ ns) =
    let found = find_node name ns in if str_eq n.function name then true else found

unfoldable pub find_in_network : Name → NetCache → Bool
unfolding find_node
find_in_network name net = find_node name net.head

abbrev pub queue_capacity : ℕ
queue_capacity = 500

-- `queue[queue_size] = node; queue_size += 1`, with no test of the bound.
unfoldable pub enqueue_upload : DiskNode → NetCache → Outcome NetCache
enqueue_upload node net =
    if ltb (length net.queue) queue_capacity
    then ok (record net { queue = net.queue ++ node ∷ [] })
    else fault

-- The file is removed first, and then uploaded.
unfoldable pub insert_net_cache : Name → ℤ → NetCache → NetCache × List Effect
insert_net_cache function memory net = (
  record net { head = net.head ++ record { function = function; memory = memory } ∷ [] },
  remove (container_path function) ∷ upload function ∷ [],
)

-- One round of the upload thread.
pub data Turn : Type 0 where
  waits : Turn
  ends : Turn
  works : NetCache → List Effect → Turn

unfoldable pub net_thread_turn : NetCache → Turn
unfolding insert_net_cache
net_thread_turn net = elim net.queue [
  | [] ↦ waits
  | item ∷ rest ↦
      let (net', effects) =
        insert_net_cache item.function item.memory (record net { queue = rest }) in
      if str_eq item.function quit then ends else works net' effects
]

-- The upload thread until it waits or ends, for at most `fuel` rounds: whether it ended, the cache,
-- and the effects in order.
unfoldable pub net_thread_func : ℕ → NetCache → Option (Bool × NetCache × List Effect)
net_thread_func zero net = none
net_thread_func (suc fuel) net = elim (net_thread_turn net) [
  | waits ↦ some (false, net, [])
  | ends ↦ some (true, net, [])
  | works net' effects ↦ elim (net_thread_func fuel net') [
    | none ↦ none
    | some (ended, last, later) ↦ some (ended, last, effects ++ later)
  ]
]

-- The first half of `destroyNetCache`: the node "quit" goes to the end of the queue.
unfoldable pub destroy_net_cache : NetCache → Outcome NetCache
unfolding enqueue_upload
destroy_net_cache net =
    enqueue_upload (record { function = quit; file = []; memory = pos 0; in_use = false }) net
