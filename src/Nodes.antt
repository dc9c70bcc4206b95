-- ===== src/Nodes.antt =====
-- The linked lists of the source as nodes in memory: what `->next`, its assignment and `free` do,
-- and the two loops over `next` that the functions on lists share. A node is its content and the
-- address of the next; 0 is NULL. To follow NULL, or an address that holds no node, is a fault. The
-- loops run on fuel, whose end is a fault too.
pub mod Chain
pub mod Loops
pub mod Relink
pub mod Append
pub mod Move
use c_faas_emulator.Common.{
  ℕ, zero, suc, Bool, true, false, Option, none, some, List, [], ◌∷◌, ◌≡◌, ◌==◌, if◌then◌else◌, map,
}
use c_faas_emulator.Common.Outcome.{Outcome, ok, fault, ◌>>=◌}

abbrev pub Ptr : Type 0
Ptr = ℕ

module _ {ℓ} (A : Type ℓ) where
  pub record Cell : Type ℓ where
    pub value : A
    pub next : Ptr

  abbrev pub Memory : Type ℓ
  Memory = Ptr → Option Cell

module _ {ℓ} {A : Type ℓ} where
  abbrev pub cell : A → Ptr → Cell A
  cell a n = record { value = a; next = n }

  abbrev pub put : Memory A → Ptr → Option (Cell A) → Memory A
  put h p v a = if a == p then v else h a

  unfoldable pub load : Ptr → Memory A → Outcome (Cell A)
  load p h = if p == 0 then fault else elim (h p) [ none ↦ fault | some c ↦ ok c ]

  -- `p->next = n`
  unfoldable pub set_next : Ptr → Ptr → Memory A → Outcome (Memory A)
  unfolding load
  set_next p n h = do c ← load p h; ok (put h p (some (record c { next = n })))

  unfoldable pub release : Ptr → Memory A → Outcome (Memory A)
  unfolding load
  release p h = do c ← load p h; ok (put h p none)

  -- `while (iter->next != NULL) iter = iter->next`
  unfoldable pub last_loop : ℕ → Ptr → Memory A → Outcome Ptr
  unfolding load
  last_loop zero p h = fault
  last_loop (suc fuel) p h = do
    c ← load p h
    let rest = last_loop fuel c.next h
    if c.next == 0 then ok p else rest

  -- `while (p != NULL && !test(p)) { prev = p; p = p->next; }`: where both end.
  unfoldable pub scan_loop : (A → Bool) → ℕ → (prev p : Ptr) → Memory A → Outcome (Ptr × Ptr)
  unfolding load
  scan_loop test zero prev p h = fault
  scan_loop test (suc fuel) prev p h = if p == 0 then ok (prev, p) else (do
    c ← load p h
    let rest = scan_loop test fuel p c.next h
    if test c.value then ok (prev, p) else rest)

  -- A new node, at the address that `malloc` returned, goes behind the last: the code that
  -- insertRamItem, insertDiskItem and insertNetCache share. The head, and the nodes.
  unfoldable pub append_node :
      ℕ → (fresh : Ptr) → A → (head : Ptr) → Memory A → Outcome (Ptr × Memory A)
  unfolding last_loop set_next
  append_node fuel fresh a head h =
      let h' = put h fresh (some (cell a 0)) in
      if head == 0
      then ok (fresh, h')
      else (do l ← last_loop fuel head h'; h'' ← set_next l fresh h'; ok (head, h''))
