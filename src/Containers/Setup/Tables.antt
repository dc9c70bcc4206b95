-- ===== src/Containers/Setup/Tables.antt =====
-- What the loops of `initPodman` do to the tables, and past their ends.
use c_faas_emulator.Common.{
  ℕ, zero, suc, ◌+◌, ◌-◌, ◌≤◌, ◌<◌, Bool, true, false, List, [], ◌∷◌, ◌++◌, ◌≡◌, refl, ap, sym, ◌∙◌,
  ◌⊎◌, inl, inr, ltb, arith, length, length-append, replicate, set, append_assoc, append-nil,
}
use native.Mathlib.Decide.{dec_lt}
use c_faas_emulator.Common.Int.{pos}
use c_faas_emulator.Common.Outcome.{ok, fault}
use c_faas_emulator.Containers.{first_port}
use c_faas_emulator.Containers.Setup.{Containers, store, init_slots, init_podman}

set-here {ℓ} :
    {A : Type ℓ} (xs ys : List A) (y v : A) → set (xs ++ y ∷ ys) (length xs) v ≡ xs ++ v ∷ ys
set-here [] ys y v = refl
set-here (x ∷ xs) ys y v = ap (◌∷◌ x) (set-here xs ys y v)

pub store-here {ℓ} :
    {A : Type ℓ} (i : ℕ) (xs ys : List A) (y v : A)
    → length xs ≡ i
    → store i v (xs ++ y ∷ ys) ≡ ok (xs ++ v ∷ ys)
unfolding store
store-here i xs ys y v e =
    let lt : ltb i (length (xs ++ y ∷ ys)) ≡ true = ground (arith, length-append xs (y ∷ ys), e) in
    rw (lt, sym e, set-here xs ys y v) refl

store-end {ℓ} : {A : Type ℓ} (i : ℕ) (xs : List A) (v : A) → length xs ≡ i → store i v xs ≡ fault
unfolding store
store-end i xs v e = ground (arith, e)

pub shift_in {ℓ} : {A : Type ℓ} (xs ys : List A) (v : A) → xs ++ v ∷ ys ≡ (xs ++ v ∷ []) ++ ys
shift_in xs ys v = sym (append_assoc xs (v ∷ []) ys)

pub length-snoc {ℓ} :
    {A : Type ℓ} (xs : List A) (v : A) (i : ℕ) → length xs ≡ i → length (xs ++ v ∷ []) ≡ i + 1
length-snoc xs v i e = omega (arith, e, length-append xs (v ∷ []))

-- The loop on tables that are long enough.
init_slots-fills :
    (rounds i : ℕ) (ps ms : List ℕ) (qs ns : List Bool) (x : ℕ) (y : Bool)
    → length ps ≡ i
    → length qs ≡ i
    → init_slots rounds i (ps ++ (replicate rounds x ++ ms)) (qs ++ (replicate rounds y ++ ns))
      ≡ ok (ps ++ (replicate rounds 0 ++ ms), qs ++ (replicate rounds true ++ ns))
unfolding init_slots
init_slots-fills zero i ps ms qs ns x y p q = refl
init_slots-fills (suc rounds) i ps ms qs ns x y p q =
    rw
      (
        store-here i ps (replicate rounds x ++ ms) x 0 p,
        store-here i qs (replicate rounds y ++ ns) y true q,
        shift_in ps (replicate rounds x ++ ms) 0,
        shift_in qs (replicate rounds y ++ ns) true,
        init_slots-fills rounds (i + 1) (ps ++ 0 ∷ []) ms (qs ++ true ∷ []) ns x y
            (length-snoc ps 0 i p) (length-snoc qs true i q),
        append_assoc ps (0 ∷ []) (replicate rounds 0 ++ ms),
        append_assoc qs (true ∷ []) (replicate rounds true ++ ns),
      )
      refl

-- The loop on a table of handles that is too short.
init_slots-overflow :
    (rounds i n : ℕ) (ps ms : List ℕ) (qs : List Bool) (x : ℕ) (y : Bool)
    → length ps ≡ i
    → length qs ≡ i
    → n < rounds
    → init_slots rounds i (ps ++ (replicate rounds x ++ ms)) (qs ++ replicate n y) ≡ fault
unfolding init_slots
init_slots-overflow zero i n ps ms qs x y p q lt = absurd (omega arith)
init_slots-overflow (suc rounds) i zero ps ms qs x y p q lt =
    rw (store-here i ps (replicate rounds x ++ ms) x 0 p, append-nil qs, store-end i qs true q) refl
init_slots-overflow (suc rounds) i (suc n) ps ms qs x y p q lt =
    rw
      (
        store-here i ps (replicate rounds x ++ ms) x 0 p,
        store-here i qs (replicate n y) y true q,
        shift_in ps (replicate rounds x ++ ms) 0,
        shift_in qs (replicate n y) true,
      )
      (init_slots-overflow rounds (i + 1) n (ps ++ 0 ∷ []) ms (qs ++ true ∷ []) x y
        (length-snoc ps 0 i p) (length-snoc qs true i q) (omega arith))

replicate-split {ℓ} :
    {A : Type ℓ} (m n : ℕ) (v : A) → m ≤ n → replicate n v ≡ replicate m v ++ replicate (n - m) v
replicate-split zero n v le = ap (λ (k : ℕ). replicate k v) (omega arith)
replicate-split (suc m) zero v le = absurd (omega arith)
replicate-split (suc m) (suc n) v le =
    ap (◌∷◌ v) (replicate-split m n v (omega arith))
    ∙ ap (λ (k : ℕ). v ∷ (replicate m v ++ replicate k v)) (omega arith)

module _ (x : ℕ) (y : Bool) where
  -- A table of ids and one of handles, of lengths `m` and `n`, in a loop of `rounds`.
  init_slots-whole :
      (rounds m n : ℕ)
      → rounds ≤ m
      → rounds ≤ n
      → init_slots rounds 0 (replicate m x) (replicate n y)
        ≡ ok (
          replicate rounds 0 ++ replicate (m - rounds) x,
          replicate rounds true ++ replicate (n - rounds) y,
        )
  init_slots-whole rounds m n le le' =
      rw (replicate-split rounds m x le, replicate-split rounds n y le')
        (init_slots-fills rounds 0 [] (replicate (m - rounds) x) [] (replicate (n - rounds) y) x y
          refl refl)

  init_slots-past :
      (rounds m n : ℕ)
      → rounds ≤ m
      → n < rounds
      → init_slots rounds 0 (replicate m x) (replicate n y) ≡ fault
  init_slots-past rounds m n le lt =
      rw (replicate-split rounds m x le)
        (init_slots-overflow rounds 0 n [] (replicate (m - rounds) x) [] x y refl refl lt)

  -- Both tables are too short.
  init_slots-short :
      (rounds i n : ℕ) (ps : List ℕ) (qs : List Bool)
      → length ps ≡ i
      → length qs ≡ i
      → n < rounds
      → init_slots rounds i (ps ++ replicate n x) (qs ++ replicate n y) ≡ fault
  unfolding init_slots
  init_slots-short zero i n ps qs p q lt = absurd (omega arith)
  init_slots-short (suc rounds) i zero ps qs p q lt = rw (append-nil ps, store-end i ps 0 p) refl
  init_slots-short (suc rounds) i (suc n) ps qs p q lt =
      rw
        (
          store-here i ps (replicate n x) x 0 p,
          store-here i qs (replicate n y) y true q,
          shift_in ps (replicate n x) 0,
          shift_in qs (replicate n y) true,
        )
        (init_slots-short rounds (i + 1) n (ps ++ 0 ∷ []) (qs ++ true ∷ []) (length-snoc ps 0 i p)
          (length-snoc qs true i q) (omega arith))

  -- The tables after `initPodman` for `n` threads, `c` of them for checkpoints and `r` for reads.
  pub record IsSetUp (n c r : ℕ) (k : Containers) : Type 0 where
    pub thread_ids : k.thread_ids ≡ replicate n 0
    pub api_handles : k.api_handles ≡ replicate n true
    pub checkpoint_thread_ids : k.checkpoint_thread_ids ≡ replicate c 0
    pub checkpoint_handles : k.checkpoint_handles ≡ replicate c true ++ replicate (n - c) y
    pub restore_thread_ids : k.restore_thread_ids ≡ replicate r 0 ++ replicate (n - r) x
    pub restore_handles : k.restore_handles ≡ replicate r true ++ replicate (n - r) y
    pub remove_handle : k.remove_handle ≡ true
    pub idle : (k.prune_in_progress ≡ false) × (k.creation_in_progress ≡ pos 0)

  whole-replicate {ℓ} :
      {A : Type ℓ} (n : ℕ) (u v : A) → replicate n u ++ replicate (n - n) v ≡ replicate n u
  whole-replicate n u v =
      let none_left : n - n ≡ 0 = omega arith in
      ap (λ (k : ℕ). replicate n u ++ replicate k v) none_left ∙ append-nil (replicate n u)

  init_podman-fits :
      (n c r : ℕ)
      → c ≤ n
      → r ≤ n
      → (k : Containers) × (init_podman x y n c r ≡ ok k) × IsSetUp n c r k
  unfolding init_podman
  init_podman-fits n c r le le' = (
    set_up,
    rw
        (
          init_slots-whole n n n (omega arith) (omega arith),
          init_slots-whole c c n (omega arith) le,
          init_slots-whole r n n le' le',
        )
        refl,
    record {
      thread_ids = whole-replicate n 0 x;
      api_handles = whole-replicate n true y;
      checkpoint_thread_ids = whole-replicate c 0 x;
      checkpoint_handles = refl;
      restore_thread_ids = refl;
      restore_handles = refl;
      remove_handle = refl;
      idle = (refl, refl);
    },
  )
    where
      set_up : Containers
      set_up = record {
        ports = replicate 500 0;
        port = first_port;
        thread_ids = replicate n 0 ++ replicate (n - n) x;
        api_handles = replicate n true ++ replicate (n - n) y;
        checkpoint_thread_ids = replicate c 0 ++ replicate (c - c) x;
        checkpoint_handles = replicate c true ++ replicate (n - c) y;
        restore_thread_ids = replicate r 0 ++ replicate (n - r) x;
        restore_handles = replicate r true ++ replicate (n - r) y;
        remove_handle = true;
        prune_in_progress = false;
        creation_in_progress = pos 0;
      }

  -- `initPodman` comes back exactly if there are at most as many threads for checkpoints, and for
  -- reads, as threads in all: then every thread has a free slot, and a handle of its own for it, and
  -- there is one more to remove containers with.
  -- Otherwise it writes behind a table, since those of the handles are made for `n_threads`.
  pub init_podman-cases :
      (n c r : ℕ)
      → ((c ≤ n) × (r ≤ n) × ((k : Containers) × (init_podman x y n c r ≡ ok k) × IsSetUp n c r k))
        ⊎ (((n < c) ⊎ (n < r)) × (init_podman x y n c r ≡ fault))
  unfolding init_podman
  init_podman-cases n c r = elim (dec_lt n c) [
    | yes many ↦ inr (
      inl many,
      rw
          (
            init_slots-whole n n n (omega arith) (omega arith),
            init_slots-past c c n (omega arith) many,
          )
          refl,
    )
    | no few ↦ elim (dec_lt n r) [
      | yes many ↦ inr (
        inr many,
        rw
            (
              init_slots-whole n n n (omega arith) (omega arith),
              init_slots-whole c c n (omega arith) (omega (arith, few)),
              init_slots-short r 0 n [] [] refl refl many,
            )
            refl,
      )
      | no few' ↦ inl (
        omega (arith, few),
        omega (arith, few'),
        init_podman-fits n c r (omega (arith, few)) (omega (arith, few')),
      )
    ]
  ]
