-- ===== src/Examples/Storage.antt =====
-- The function b of 60 MB is written to disk, for which a is evicted, and a is taken up for its
-- upload.
use mathlib.Core.List.{Nodup}
use c_faas_emulator.Common.{true, false, some, none, [], ◌∷◌, ◌≡◌, refl, arith}
use c_faas_emulator.Common.Int.{pos, ◌+ℤ◌}
use c_faas_emulator.Common.Name.{str_eq, str_eq_refl}
use c_faas_emulator.Common.Outcome.{ok}
use c_faas_emulator.Types.{Invocation, remove, container_path}
use c_faas_emulator.Network.{find_in_network, enqueue_upload}
use c_faas_emulator.Disk.{Disk, find_in_disk}
use c_faas_emulator.Disk.Retrieve.{holds}
use c_faas_emulator.Disk.Insertion.{IsValid, functions}
use c_faas_emulator.Storage.{
  Files, run_effects, freeing, saving, Store, free_node, finds, lacks_room, evicts, makes_room,
  takes, writes, uploads, Steps, start, later, init_store,
}
use c_faas_emulator.Storage.Valid.{Relies, Steps-distinct}
use c_faas_emulator.Storage.Backed.{Backed, Steps-Backed}
use c_faas_emulator.Storage.Kept.{Keeps, Steps-Keeps}
use c_faas_emulator.Examples.{function_a, function_b, invocation_of, node_of, a_is_not_quit}
use c_faas_emulator.Examples.Disk.{one_stored, one_stored-IsValid}

abbrev new_b : Invocation
new_b = invocation_of function_b 60

abbrev no_files : Files
no_files = λ _. false

abbrev a_evicted : Disk
a_evicted = record {
  head = [];
  memory = pos 150;
  containers = true;
  net_cache = some (record { head = []; queue = node_of function_a 100 ∷ [] });
  read_after = λ n. n.memory;
}

-- The write-back thread has looked b up, and begun to free.
b_needs_room : Steps (init_store no_files one_stored) (record {
  disk = one_stored;
  writer = freeing new_b (pos 0);
  uploading = none;
  files = no_files;
})
unfolding find_in_disk str_eq run_effects
b_needs_room = later (later start (writes (finds new_b one_stored))) (writes (lacks_room refl))

a_is_freed : free_node (pos 100) (node_of function_a 100) [] one_stored ≡ ok (a_evicted, [])
unfolding free_node find_in_network enqueue_upload ◌+ℤ◌
a_is_freed = refl

abbrev a_uploading : Store
a_uploading = record {
  disk = record a_evicted { net_cache = some (record { head = []; queue = [] }) };
  writer = saving new_b;
  uploading = some (node_of function_a 100);
  files = no_files;
}

to_a_uploading : Steps (init_store no_files one_stored) a_uploading
unfolding ◌+ℤ◌ run_effects
to_a_uploading =
    later
      (later (later b_needs_room (writes (evicts (pos 100) refl refl refl refl a_is_freed)))
        (writes (makes_room refl)))
      (uploads refl (takes refl a_is_not_quit))

Steps-distinct_example : Nodup (functions a_uploading.disk) × Relies a_uploading.disk (saving new_b)
Steps-distinct_example =
    Steps-distinct no_files one_stored a_uploading one_stored-IsValid.distinct to_a_uploading

a_is_kept : Keeps function_a one_stored none
unfolding holds str_eq
a_is_kept = ((record { head = []; queue = [] }, refl), refl)

Steps-Keeps_example : Keeps function_a a_uploading.disk a_uploading.uploading
Steps-Keeps_example = Steps-Keeps function_a refl a_is_kept to_a_uploading

-- Without a network cache: the function a has its checkpoint, and goes with it.
abbrev a_file : Files
a_file path = str_eq path (container_path function_a)

abbrev local_disk : Disk
local_disk = record one_stored { net_cache = none }

local_disk-IsValid : IsValid (pos 150) local_disk
local_disk-IsValid = record {
  balance = one_stored-IsValid.balance;
  fits = one_stored-IsValid.fits;
  distinct = one_stored-IsValid.distinct;
}

local_disk-Backed : Backed a_file local_disk
local_disk-Backed = record {
  containers = refl;
  no_network = refl;
  backed = (str_eq_refl (container_path function_a), tt);
}

abbrev local_after : Store
local_after = record {
  disk = record local_disk { head = []; memory = pos 150 };
  writer = freeing new_b (pos 100);
  uploading = none;
  files = run_effects (remove (container_path function_a) ∷ []) a_file;
}

to_local_after : Steps (init_store a_file local_disk) local_after
unfolding find_in_disk str_eq free_node ◌+ℤ◌ run_effects
to_local_after =
    later (later (later start (writes (finds new_b local_disk))) (writes (lacks_room refl)))
      (writes (evicts {n = node_of function_a 100} {ns = []} (pos 100) refl refl refl refl refl))

Steps-Backed_example : Backed local_after.files local_after.disk
Steps-Backed_example =
    Steps-Backed (pos 150) a_file local_disk local_after (omega arith) local_disk-IsValid
      local_disk-Backed to_local_after
