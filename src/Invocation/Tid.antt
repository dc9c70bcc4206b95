-- ===== src/Invocation/Tid.antt =====
-- `getTid`: each thread has a slot of its own in a table of thread ids, whose number picks the
-- thread's curl handle. A slot with 0 is free.
pub mod Stable
use c_faas_emulator.Common.{
  ℕ, zero, suc, ◌+◌, Option, none, some, List, [], ◌∷◌, ◌==◌, set, if◌then◌else◌,
}
use c_faas_emulator.Common.Int.{ℤ, pos, negsuc}

-- `for (i = 0; i < n_threads; i++) if (thread_ids[i] == x) …`, from slot `i` on.
unfoldable pub slot_of : ℕ → ℕ → List ℕ → Option ℕ
slot_of x i [] = none
slot_of x i (t ∷ ts) = let later = slot_of x (i + 1) ts in if t == x then some i else later

-- `thread_ids` has `n_threads` entries. A table with no free slot gives -1.
unfoldable pub get_tid : ℕ → List ℕ → ℤ × List ℕ
unfolding slot_of
get_tid x thread_ids = elim (slot_of x 0 thread_ids) [
  | some i ↦ (pos i, thread_ids)
  | none ↦ elim (slot_of 0 0 thread_ids) [
    | some i ↦ (pos i, set thread_ids i x)
    | none ↦ (negsuc 0, thread_ids)
  ]
]
