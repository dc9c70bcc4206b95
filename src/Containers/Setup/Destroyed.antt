-- ===== src/Containers/Setup/Destroyed.antt =====
-- `destroyPodman` of source/containers.c: the handles that it gives back, and what it does after it
-- has freed the record of the containers. The stopping of all containers by a shell is left out.
use c_faas_emulator.Common.{
  ℕ, zero, suc, ◌+◌, ◌-◌, Bool, true, false, Option, none, some, List, [], ◌∷◌, ◌++◌, ◌≡◌, refl, ap,
  sym, ◌∙◌, if◌then◌else◌, length, replicate, get_elem?, append_assoc, append-nil,
}
use c_faas_emulator.Common.Outcome.{Outcome, ok, fault, ◌>>=◌}
use c_faas_emulator.Containers.Setup.{Containers, store}
use c_faas_emulator.Containers.Setup.Tables.{shift_in, store-here, length-snoc, IsSetUp}

-- Is entry `i` a handle that has not been given back?
abbrev pub is_open : ℕ → List Bool → Bool
is_open i handles = elim (get_elem? handles i) [ none ↦ false | some b ↦ b ]

-- `for (int i = 0; i < …; i++) curl_easy_cleanup(…[i])`, from `i` on; to give back what is not
-- a handle is undefined.
unfoldable pub cleanup_slots : (rounds i : ℕ) → List Bool → Outcome (List Bool)
unfolding store
cleanup_slots zero i handles = ok handles
cleanup_slots (suc rounds) i handles =
    let rest = do handles' ← store i false handles; cleanup_slots rounds (i + 1) handles'
    in if is_open i handles then rest else fault

-- The three loops, and `curl_easy_cleanup(containers->remove_handle)`.
unfoldable pub destroy_handles :
    (n_threads n_checkpoint_threads n_restore_threads : ℕ) → Containers → Outcome Containers
unfolding cleanup_slots
destroy_handles n_threads n_checkpoint_threads n_restore_threads k = do
  api ← cleanup_slots n_threads 0 k.api_handles
  checkpoint ← cleanup_slots n_checkpoint_threads 0 k.checkpoint_handles
  restore ← cleanup_slots n_restore_threads 0 k.restore_handles
  let closed = ok (record k {
    api_handles = api;
    checkpoint_handles = checkpoint;
    restore_handles = restore;
    remove_handle = false;
  })
  if k.remove_handle then closed else fault

-- `pthread_mutex_destroy(&containers->…)`, where `none` is a record that was freed.
unfoldable pub destroy_lock : Option Containers → Outcome (Option Containers)
destroy_lock none = fault
destroy_lock (some k) = ok (some k)

-- `ports_lock` is destroyed, the handles are given back, the record is freed, and `restore_lock`,
-- the first of the other locks, is destroyed.
unfoldable pub destroy_podman :
    (n_threads n_checkpoint_threads n_restore_threads : ℕ)
    → Containers
    → Outcome (Option Containers)
unfolding destroy_handles destroy_lock
destroy_podman n_threads n_checkpoint_threads n_restore_threads k = do
  _ ← destroy_lock (some k)
  _ ← destroy_handles n_threads n_checkpoint_threads n_restore_threads k
  let freed = none
  destroy_lock freed

get_elem?-here {ℓ} :
    {A : Type ℓ} (xs ys : List A) (y : A) → get_elem? (xs ++ y ∷ ys) (length xs) ≡ some y
get_elem?-here [] ys y = refl
get_elem?-here (x ∷ xs) ys y = get_elem?-here xs ys y

is_open-here : (i : ℕ) (qs ns : List Bool) (b : Bool) → length qs ≡ i → is_open i (qs ++ b ∷ ns) ≡ b
is_open-here i qs ns b e =
    ap (λ (j : ℕ). is_open j (qs ++ b ∷ ns)) (sym e)
    ∙ ap (λ (o : Option Bool). elim o as (λ _. Bool) [ none ↦ false | some v ↦ v ])
        (get_elem?-here qs ns b)

cleanup_slots-closes :
    (rounds i : ℕ) (qs ns : List Bool)
    → length qs ≡ i
    → cleanup_slots rounds i (qs ++ (replicate rounds true ++ ns))
      ≡ ok (qs ++ (replicate rounds false ++ ns))
unfolding cleanup_slots
cleanup_slots-closes zero i qs ns e = refl
cleanup_slots-closes (suc rounds) i qs ns e =
    rw
      (
        is_open-here i qs (replicate rounds true ++ ns) true e,
        store-here i qs (replicate rounds true ++ ns) true false e,
        shift_in qs (replicate rounds true ++ ns) false,
        cleanup_slots-closes rounds (i + 1) (qs ++ false ∷ []) ns (length-snoc qs false i e),
        append_assoc qs (false ∷ []) (replicate rounds false ++ ns),
      )
      refl

cleanup_slots-closes_all : (n : ℕ) → cleanup_slots n 0 (replicate n true) ≡ ok (replicate n false)
cleanup_slots-closes_all n =
    ap (cleanup_slots n 0) (sym (append-nil (replicate n true)))
    ∙ cleanup_slots-closes n 0 [] [] refl
    ∙ ap ok (append-nil (replicate n false))

-- On containers as `initPodman` leaves them, `destroyPodman` gives back each handle that was made,
-- once, and nothing else; but it destroys locks that are in the record that it has freed before, and
-- so is undefined.
pub destroy_podman-fault :
    (x : ℕ) (y : Bool) (n c r : ℕ) (k : Containers)
    → IsSetUp x y n c r k
    → (destroy_handles n c r k
        ≡ ok (record k {
          api_handles = replicate n false;
          checkpoint_handles = replicate c false ++ replicate (n - c) y;
          restore_handles = replicate r false ++ replicate (n - r) y;
          remove_handle = false;
        }))
      × (destroy_podman n c r k ≡ fault)
unfolding destroy_podman destroy_handles
destroy_podman-fault x y n c r k s = (closed, rw closed refl)
  where
    closed :
        destroy_handles n c r k
        ≡ ok (record k {
          api_handles = replicate n false;
          checkpoint_handles = replicate c false ++ replicate (n - c) y;
          restore_handles = replicate r false ++ replicate (n - r) y;
          remove_handle = false;
        })
    closed =
        rw
          (
            s.api_handles,
            s.checkpoint_handles,
            s.restore_handles,
            s.remove_handle,
            cleanup_slots-closes_all n,
            cleanup_slots-closes c 0 [] (replicate (n - c) y) refl,
            cleanup_slots-closes r 0 [] (replicate (n - r) y) refl,
          )
          refl
