-- ===== src/Disk/Nodes.antt =====
-- `findInDisk` on the nodes in memory, with the assignments to `next` in the order in which the
-- source makes them, and that it does to the nodes what find_in_disk of Disk.antt does to the list.
pub mod Relinked
pub mod Refines
use c_faas_emulator.Common.{
  ℕ, ◌<◌, Bool, true, false, Option, none, some, List, [], ◌∷◌, ◌++◌, ◌≡◌, refl, ap, sym, subst,
  ◌==◌, if◌then◌else◌, inl, inr, arith, length, length-append, append_assoc, append-nil,
}
use c_faas_emulator.Common.Name.{Name}
use c_faas_emulator.Common.Outcome.{Outcome, ok, ◌>>=◌}
use c_faas_emulator.Types.{DiskNode}
use c_faas_emulator.Nodes.{Ptr, Cell, Memory, cell, put, load, set_next, scan_loop, last_loop}
use c_faas_emulator.Nodes.Chain.{
  Cells, values, first_of, Absent, At, Chain, Parts, Chain-split, load-At, set_next-At, At-put,
  Absent-suffix,
}
use c_faas_emulator.Nodes.Loops.{
  last_of, last_loop_lem, scan_loop-miss, scan_loop-hit, Misses, Found-cases, snoc-cases,
  last_of-snoc, values-append,
}
use c_faas_emulator.Nodes.Move.{lengthened, skipped, Chain-first_moved, Chain-moved}
use c_faas_emulator.Nodes.Append.{first_of-snoc_more}
use c_faas_emulator.Nodes.Relink.{At-last, Apart-cons, Apart-last}
use c_faas_emulator.Disk.{Disk, move_to_end, find_in_disk}
use c_faas_emulator.Disk.Lookup.{is_node}

-- The assignments if the node found is not the last: `prev` is NULL if it is the first.
unfoldable pub relink :
    (head prev node last : Ptr) → Memory DiskNode → Outcome (Ptr × Memory DiskNode)
unfolding load set_next
relink head prev node last h = do
  head' ← if node == head then (do c ← load node h; ok c.next) else ok head
  h₁ ← set_next last node h
  h₂ ← if prev == 0 then ok h₁ else (do c ← load node h₁; set_next prev c.next h₁)
  h₃ ← set_next node 0 h₂
  ok (head', h₃)

-- The answer, `disk->head` and the nodes. `prev` is NULL before the loop.
unfoldable pub find_in_disk_nodes :
    ℕ → Name → (head : Ptr) → Memory DiskNode → Outcome (Bool × Ptr × Memory DiskNode)
unfolding scan_loop last_loop
find_in_disk_nodes fuel name head h = do
  (prev, node) ← scan_loop (is_node name) fuel 0 head h
  if node == 0 then ok (false, head, h) else (do
    last ← last_loop fuel node h
    if last == node
        then ok (true, head, h)
        else (do (head', h') ← relink head prev node last h; ok (true, head', h')))

-- A run of `findInDisk` on nodes that are the list `xs` leaves nodes that are the list it should.
pub record Moves (name : Name) (xs : Cells DiskNode) (run : Outcome (Bool × Ptr × Memory DiskNode))
    : Type 0 where
  pub found : Bool
  pub left : Cells DiskNode
  pub memory : Memory DiskNode
  pub returns : run ≡ ok (found, first_of 0 left, memory)
  pub chain : Chain memory 0 left
  pub same :
      (d : Disk)
      → find_in_disk name (record d { head = values xs }) ≡ (found, record d { head = values left })
