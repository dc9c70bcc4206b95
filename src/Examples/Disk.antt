-- ===== src/Examples/Disk.antt =====
-- Runs of the disk cache and of the network cache.
use mathlib.Core.List.{Nodup-nil, Nodup-cons, not-mem-nil}
use c_faas_emulator.Common.{
  none, ◌++◌, true, false, some, List, [], ◌∷◌, ◌≡◌, refl, ◌⊎◌, replicate, arith,
}
use c_faas_emulator.Common.Int.{pos, ◌+ℤ◌}
use c_faas_emulator.Common.Sums.{sum_by}
use c_faas_emulator.Common.Outcome.{Ensures, ok}
use c_faas_emulator.Common.Name.{str_eq}
use c_faas_emulator.Types.{DiskNode, remove}
use c_faas_emulator.Network.{NetCache, find_node, find_in_network, queue_capacity}
use c_faas_emulator.Disk.{Disk, Outside, Freeing, free_disk, find_in_disk}
use c_faas_emulator.Disk.Recency.{find_in_disk-free_disk}
use c_faas_emulator.Disk.Lookup.{is_node}
use c_faas_emulator.Disk.Eviction.{Evicts}
use c_faas_emulator.Disk.Eviction.Answer.{Answers, memory_read, free_disk-Evicts}
use c_faas_emulator.Disk.Insertion.{IsValid}
use c_faas_emulator.Examples.{function_a, function_b, node_of}

-- 100 MB of the function a are on disk, 50 MB are free; the object store is empty.
abbrev pub one_stored : Disk
one_stored = record {
  head = node_of function_a 100 ∷ [];
  memory = pos 50;
  containers = true;
  net_cache = some (record { head = []; queue = [] });
  read_after = λ n. n.memory;
}

abbrev pub reachable_outside : Outside
reachable_outside = record { find_object = λ _. false; curl_ok = true }

pub one_stored-IsValid : IsValid (pos 150) one_stored
unfolding ◌+ℤ◌ sum_by
one_stored-IsValid = record {
  balance = refl;
  fits = omega arith;
  distinct = Nodup-cons.1 (not-mem-nil, Nodup-nil);
}

free_disk-Evicts_example :
    Ensures
      (λ r.
        Evicts (memory_read one_stored) (pos 60) (pos 0) one_stored.head one_stored r.1
        × Answers (memory_read one_stored) (pos 60) one_stored r.0 r.1)
      (free_disk (pos 60) one_stored)
free_disk-Evicts_example = free_disk-Evicts (pos 60) one_stored

abbrev full_net : NetCache
full_net = record { head = []; queue = replicate queue_capacity (node_of function_b 10) }

full_net-lacks : find_in_network function_a full_net ≡ false
unfolding find_in_network find_node
full_net-lacks = refl

-- The functions a and b are on disk, a is looked up, and b alone is evicted for 40 MB.
abbrev two_stored : Disk
two_stored = record {
  head = node_of function_a 100 ∷ node_of function_b 100 ∷ [];
  memory = pos 50;
  containers = false;
  net_cache = none;
  read_after = λ n. n.memory;
}

abbrev b_evicted : Freeing
b_evicted = record {
  freed = pos 100;
  disk = record two_stored { head = node_of function_a 100 ∷ []; memory = pos 150 };
  effects = remove (node_of function_b 100).file ∷ [];
}

two_stored-found : (find_in_disk function_a two_stored).0 ≡ true
unfolding find_in_disk str_eq
two_stored-found = refl

two_stored-freed : free_disk (pos 40) (find_in_disk function_a two_stored).1 ≡ ok (true, b_evicted)
unfolding find_in_disk free_disk str_eq ◌+ℤ◌
two_stored-freed = refl

find_in_disk-free_disk_example :
    (b_evicted.disk.head ≡ [])
    ⊎ ((zs : List DiskNode) × (node : DiskNode) × (b_evicted.disk.head ≡ zs ++ node ∷ [])
        × (is_node function_a node ≡ true))
find_in_disk-free_disk_example =
    find_in_disk-free_disk function_a two_stored (pos 40) true b_evicted two_stored-found
      two_stored-freed
