-- ===== src/Ram/Nodes.antt =====
-- `searchRam` on the nodes in memory, as it is written, and what it is to do to them: what search_ram
-- of Ram.antt does to the list. `insertRamItem` is append_node of Nodes.antt. A node's invocation
-- stands for the pointer to it.
pub mod Refines
use c_faas_emulator.Common.{
  ℕ, zero, suc, ◌<◌, Bool, true, false, Option, none, some, List, [], ◌∷◌, ◌++◌, ◌≡◌, refl, ap, sym,
  ◌∙◌, subst, ◌==◌, if◌then◌else◌, inl, inr, arith, length, length-append,
}
use c_faas_emulator.Common.Name.{Name}
use c_faas_emulator.Common.Outcome.{Outcome, ok, ◌>>=◌}
use c_faas_emulator.Types.{Invocation}
use c_faas_emulator.Nodes.{
  Ptr, Cell, Memory, cell, put, load, set_next, release, append_node, scan_loop,
}
use c_faas_emulator.Nodes.Chain.{
  Cells, values, first_of, Absent, At, Chain, load-At, set_next-At, release-At, Chain-put, At-put,
  Chain-split,
}
use c_faas_emulator.Nodes.Loops.{
  last_of, last_loop_lem, scan_loop-miss, scan_loop-hit, Misses, Found, Found-cases, snoc-cases,
  last_of-snoc, values-append,
}
use c_faas_emulator.Nodes.Append.{append_node-Chain}
use c_faas_emulator.Nodes.Relink.{At-last, At-bypassed, Chain-unlink, bypassed, first_of-front}
use c_faas_emulator.Ram.{Ram, unlink, search_ram, insert_ram_item}
use c_faas_emulator.Ram.Search.{is_of}

-- `temp != NULL && strcmp(temp->invocation->hash_function, function) == 0`, at the head.
unfoldable pub heads : Name → Ptr → Memory Invocation → Outcome Bool
heads f head h = if head == 0 then ok false else (do c ← load head h; ok (is_of f c.value))

-- From `prev->next = temp->next` on.
unfoldable pub take_out :
    (prev temp : Ptr) → Memory Invocation → Outcome (Invocation × Memory Invocation)
take_out prev temp h = do
  c ← load temp h
  h' ← set_next prev c.next h
  h'' ← release temp h'
  ok (c.value, h'')

-- The node that is unlinked from the head is not freed. `prev` has no value before the loop.
unfoldable pub search_ram_nodes :
    ℕ
    → Name
    → (head : Ptr) → Memory Invocation
    → Outcome (Option Invocation × Ptr × Memory Invocation)
unfolding heads take_out
search_ram_nodes fuel f head h = do
  at_head ← heads f head h
  if at_head then (do c ← load head h; ok (some c.value, c.next, h)) else (do
    (prev, temp) ← scan_loop (is_of f) fuel 0 head h
    if temp == 0
        then ok (none, head, h)
        else (do (i, h') ← take_out prev temp h; ok (some i, head, h')))

-- A run of `searchRam` on nodes that are the list `xs` leaves nodes that are the list it should.
pub record Searches (f : Name) (xs : Cells Invocation)
    (run : Outcome (Option Invocation × Ptr × Memory Invocation)) : Type 0 where
  pub found : Option Invocation
  pub left : Cells Invocation
  pub memory : Memory Invocation
  pub returns : run ≡ ok (found, first_of 0 left, memory)
  pub chain : Chain memory 0 left
  pub same :
      (r : Ram)
      → search_ram f (record r { head = values xs }) ≡ (found, record r { head = values left })
