-- ===== src/Examples/Nodes.antt =====
-- Two caches as nodes in memory, and a read of the disk among other steps.
use c_faas_emulator.Common.{true, none, some, [], ◌∷◌, ◌++◌, ◌≡◌, refl, arith}
use c_faas_emulator.Common.Int.{pos}
use c_faas_emulator.Common.Name.{str_eq}
use c_faas_emulator.Common.Outcome.{ok}
use c_faas_emulator.Types.{Invocation, DiskNode}
use c_faas_emulator.Nodes.{Memory, cell, put, append_node, scan_loop, last_loop, set_next, load}
use c_faas_emulator.Nodes.Chain.{Cells, values, Chain}
use c_faas_emulator.Ram.{init_ram, insert_ram_item}
use c_faas_emulator.Ram.Nodes.{Searches, search_ram_nodes}
use c_faas_emulator.Ram.Nodes.Refines.{search_ram_nodes-Searches, append_node-insert_ram_item}
use c_faas_emulator.Disk.{find_in_disk}
use c_faas_emulator.Disk.Nodes.{Moves, relink, find_in_disk_nodes}
use c_faas_emulator.Disk.Nodes.Refines.{find_in_disk_nodes-Moves}
use c_faas_emulator.Disk.Retrieve.{holds, retrieve_begin}
use c_faas_emulator.Disk.Reader.{
  ReaderState, Steps, start, later, begins, finds, Guarded, Steps-Guarded,
}
use c_faas_emulator.Examples.{function_a, function_b, invocation_of, node_of}
use c_faas_emulator.Examples.Disk.{one_stored}

abbrev two_cached : Cells Invocation
two_cached = (5, invocation_of function_a 100) ∷ (2, invocation_of function_b 50) ∷ []

-- The first node stands at 5, the second at 2.
abbrev two_nodes : Memory Invocation
two_nodes =
    put (put (λ p. none) 5 (some (cell (invocation_of function_a 100) 2))) 2
      (some (cell (invocation_of function_b 50) 0))

two_nodes-Chain : Chain two_nodes 0 two_cached
two_nodes-Chain =
    (record { ne = refl; holds = refl }, (refl, tt), (record { ne = refl; holds = refl }, tt, tt))

search_ram_nodes-Searches_example :
    Searches function_b two_cached (search_ram_nodes 3 function_b 5 two_nodes)
search_ram_nodes-Searches_example =
    search_ram_nodes-Searches 3 function_b two_nodes two_cached (omega arith) two_nodes-Chain

append_node-insert_ram_item_example :
    let longer : Cells Invocation = two_cached ++ (7, invocation_of function_a 30) ∷ [] in
    (h' : Memory Invocation) × (append_node 3 7 (invocation_of function_a 30) 5 two_nodes
      ≡ ok (5, h'))
    × Chain h' 0 longer
    × (values longer
        ≡ (insert_ram_item
            (invocation_of function_a 30)
            (record (init_ram (pos 150)) { head = values two_cached })).head)
append_node-insert_ram_item_example =
    append_node-insert_ram_item 3 7 (invocation_of function_a 30) two_nodes two_cached
      (init_ram (pos 150)) (omega arith) refl (refl, (refl, tt)) two_nodes-Chain

abbrev three_stored : Cells DiskNode
three_stored =
    (4, node_of function_b 10) ∷ (9, node_of function_a 20) ∷ (6, node_of function_b 30) ∷ []

abbrev three_nodes : Memory DiskNode
three_nodes =
    put
      (put (put (λ p. none) 4 (some (cell (node_of function_b 10) 9))) 9
        (some (cell (node_of function_a 20) 6)))
      6 (some (cell (node_of function_b 30) 0))

three_nodes-Chain : Chain three_nodes 0 three_stored
three_nodes-Chain = (
  record { ne = refl; holds = refl },
  (refl, (refl, tt)),
  (record { ne = refl; holds = refl }, (refl, tt), (record { ne = refl; holds = refl }, tt, tt)),
)

find_in_disk_nodes-Moves_example :
    Moves function_a three_stored (find_in_disk_nodes 4 function_a 4 three_nodes)
find_in_disk_nodes-Moves_example =
    find_in_disk_nodes-Moves 4 function_a three_nodes three_stored (omega arith) three_nodes-Chain

-- The node of the function a goes to the end.
find_moves :
    (h : Memory DiskNode) × (find_in_disk_nodes 4 function_a 4 three_nodes ≡ ok (true, 4, h))
unfolding find_in_disk_nodes relink scan_loop last_loop set_next load str_eq
find_moves = (_, refl)

abbrev at_rest : ReaderState
at_rest = record { disk = one_stored; reading = none }

abbrev reading_a : ReaderState
reading_a = record {
  disk = (find_in_disk function_a (retrieve_begin (invocation_of function_a 100) one_stored).1).1;
  reading = some (invocation_of function_a 100);
}

to_reading : Steps at_rest reading_a
unfolding holds str_eq
to_reading =
    later (later start (begins (invocation_of function_a 100) one_stored refl))
      (finds function_a _ (some (invocation_of function_a 100)))

at_rest-Guarded : Guarded at_rest
at_rest-Guarded = record { containers = refl; guarded = λ i e. absurd (cc e) }

Steps-Guarded_example : Guarded reading_a
Steps-Guarded_example = Steps-Guarded at_rest-Guarded to_reading
