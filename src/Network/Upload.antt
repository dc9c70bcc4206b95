-- ===== src/Network/Upload.antt =====
-- The upload thread works the queue off in order.
use c_faas_emulator.Common.{
  ℕ, zero, suc, ◌<◌, true, false, some, List, [], ◌∷◌, ◌++◌, ◌≡◌, refl, subst, length, All, arith,
  append_assoc, append-nil, map, ◌||◌,
}
use c_faas_emulator.Common.Name.{Name, str_eq, str_eq_iff, str_eq_refl}
use c_faas_emulator.Types.{DiskNode, NetNode, Effect, remove, upload, container_path, quit}
use c_faas_emulator.Network.{find_node, find_in_network, net_thread_turn, net_thread_func}

abbrev pub listed : DiskNode → NetNode
listed d = record { function = d.function; memory = d.memory }

-- What the store lists, and what is done, for each function in turn.
abbrev pub stored : List DiskNode → List NetNode
stored = map listed

abbrev pub upload_effects : List DiskNode → List Effect
upload_effects [] = []
upload_effects (d ∷ ds) = remove (container_path d.function) ∷ upload d.function ∷ upload_effects ds

abbrev pub NoQuit : List DiskNode → Type 0
NoQuit = All λ d. str_eq d.function quit ≡ false

-- The thread started on a queue of functions, none of them named "quit", followed by "quit" ends
-- after one round for each function: it has uploaded all of them, in the order of the queue, and
-- listed them behind what was stored.
pub net_thread_func-drains :
    (ds : List DiskNode) (last : DiskNode) (later : List DiskNode) (head : List NetNode) (fuel : ℕ)
    → NoQuit ds
    → last.function ≡ quit
    → length ds < fuel
    → net_thread_func fuel (record { head = head; queue = ds ++ last ∷ later })
      ≡ some (true, record { head = head ++ stored ds; queue = last ∷ later }, upload_effects ds)
unfolding net_thread_func net_thread_turn
net_thread_func-drains [] last later head zero nq q h = absurd (omega arith)
net_thread_func-drains [] last later head (suc fuel) nq q h =
    let e : str_eq last.function quit ≡ true = (str_eq_iff last.function quit).1 q in
    ground (arith, append-nil head)
net_thread_func-drains (d ∷ ds) last later head zero nq q h = absurd (omega arith)
net_thread_func-drains (d ∷ ds) last later head (suc fuel) nq q h =
    let rest =
      net_thread_func-drains ds last later (head ++ listed d ∷ []) fuel nq.1 q (omega arith) in
    ground (arith, rest, append_assoc head (listed d ∷ []) (stored ds))

pub find_node-append :
    (name : Name) (xs ys : List NetNode)
    → find_node name (xs ++ ys) ≡ (find_node name xs || find_node name ys)
unfolding find_node
find_node-append name [] ys = refl
find_node-append name (x ∷ xs) ys = ground (arith, find_node-append name xs ys)

-- Once the thread has listed the functions of `ds`, `findInNetwork` finds each of them.
pub find_in_network-stored :
    (head : List NetNode) (ds : List DiskNode) (queue : List DiskNode)
    → All
        (λ d.
          find_in_network d.function (record { head = head ++ stored ds; queue = queue }) ≡ true)
        ds
unfolding find_in_network find_node
find_in_network-stored head [] queue = tt
find_in_network-stored head (d ∷ ds) queue = (
  ground (arith, find_node-append d.function head (stored (d ∷ ds)), str_eq_refl d.function),
  subst
      (λ xs. All (λ e. find_in_network e.function (record { head = xs; queue = queue }) ≡ true) ds)
      (append_assoc head (listed d ∷ []) (stored ds))
      (find_in_network-stored (head ++ listed d ∷ []) ds queue),
)
