-- ===== src/Containers/Setup.antt =====
-- `initPodman` of source/containers.c: the tables of threads and of their curl handles. A table is
-- the list of its entries; `fresh` is what `malloc` left in one. A handle is `true` once
-- `curl_easy_init` has made it.
pub mod Tables
pub mod Destroyed
use c_faas_emulator.Common.{
  ℕ, zero, suc, ◌+◌, ◌-◌, ◌≤◌, ◌<◌, Bool, true, false, List, [], ◌∷◌, ◌++◌, ◌≡◌, refl, ap, sym, ◌∙◌,
  ◌⊎◌, inl, inr, ltb, if◌then◌else◌, arith, length, length-append, length-replicate, replicate, set,
  append_assoc, append-nil, Bool-cases,
}
use native.Mathlib.Decide.{dec_lt}
use c_faas_emulator.Common.Int.{ℤ, pos}
use c_faas_emulator.Common.Outcome.{Outcome, ok, fault, ◌>>=◌}
use c_faas_emulator.Containers.{first_port}

pub record Containers : Type 0 where
  pub ports : List ℕ
  pub port : ℕ
  pub thread_ids : List ℕ
  pub api_handles : List Bool
  pub checkpoint_thread_ids : List ℕ
  pub checkpoint_handles : List Bool
  pub restore_thread_ids : List ℕ
  pub restore_handles : List Bool
  pub remove_handle : Bool
  pub prune_in_progress : Bool
  pub creation_in_progress : ℤ

-- `xs[i] = v`, which is undefined past the end.
unfoldable pub store {ℓ} : {A : Type ℓ} → ℕ → A → List A → Outcome (List A)
store i v xs = if ltb i (length xs) then ok (set xs i v) else fault

-- The body of the three loops, for `rounds` entries from `i` on.
unfoldable pub init_slots : (rounds i : ℕ) → List ℕ → List Bool → Outcome (List ℕ × List Bool)
unfolding store
init_slots zero i ids handles = ok (ids, handles)
init_slots (suc rounds) i ids handles = do
  ids' ← store i 0 ids
  handles' ← store i true handles
  init_slots rounds (i + 1) ids' handles'

-- The checkpoint and the restore handles get as many entries as there are threads.
unfoldable pub init_podman :
    (fresh_id : ℕ) (fresh_handle : Bool)
    → (n_threads n_checkpoint_threads n_restore_threads : ℕ) → Outcome Containers
unfolding init_slots
init_podman fresh_id fresh_handle n_threads n_checkpoint_threads n_restore_threads = do
  (ids, handles) ←
      init_slots n_threads 0 (replicate n_threads fresh_id) (replicate n_threads fresh_handle)
  (checkpoint_ids, checkpoint_handles) ←
      init_slots n_checkpoint_threads 0 (replicate n_checkpoint_threads fresh_id)
        (replicate n_threads fresh_handle)
  (restore_ids, restore_handles) ←
      init_slots n_restore_threads 0 (replicate n_threads fresh_id)
        (replicate n_threads fresh_handle)
  ok (record {
    ports = replicate 500 0;
    port = first_port;
    thread_ids = ids;
    api_handles = handles;
    checkpoint_thread_ids = checkpoint_ids;
    checkpoint_handles = checkpoint_handles;
    restore_thread_ids = restore_ids;
    restore_handles = restore_handles;
    remove_handle = true;
    prune_in_progress = false;
    creation_in_progress = pos 0;
  })
