-- ===== src/Ram/Search.antt =====
-- What `searchRam` finds, and that it finds what `insertRamItem` put in.
use c_faas_emulator.Common.{
  Bool, true, none, some, List, [], ◌∷◌, ◌++◌, ◌≡◌, refl, ap, ◌⊎◌, inl, inr, Bool-cases, Lacks,
  FirstHit, FirstHit-here, FirstHit-later,
}
use c_faas_emulator.Common.Name.{Name, str_eq, str_eq_refl}
use c_faas_emulator.Types.{Invocation}
use c_faas_emulator.Ram.{Ram, unlink, search_ram, insert_ram_item}

-- The test of the walk: is the entry of the function `f`?
abbrev pub is_of : Name → Invocation → Bool
is_of f i = str_eq i.hash_function f

-- `i` is the first entry of `f` in `xs`, and `rest` is `xs` without it.
pub record Unlinked (f : Name) (xs : List Invocation) (i : Invocation) (rest : List Invocation)
    : Type 0 where
  pub first : FirstHit (is_of f) xs i
  pub without : rest ≡ first.before ++ first.after

unlink-cases :
    (f : Name) (xs : List Invocation)
    → ((unlink f xs ≡ none) × Lacks (is_of f) xs)
      ⊎ ((i : Invocation) × (rest : List Invocation) × (unlink f xs ≡ some (i, rest))
          × Unlinked f xs i rest)
unfolding unlink
unlink-cases f [] = inl (refl, tt)
unlink-cases f (x ∷ xs) = elim (Bool-cases (is_of f x)) [
  | inl hit ↦
      inr (x, xs, rw hit refl, record { first = FirstHit-here (is_of f) x xs hit; without = refl })
  | inr miss ↦ elim (unlink-cases f xs) [
    | inl (e, l) ↦ inl (rw (miss, e) refl, (miss, l))
    | inr (i, rest, e, u) ↦ inr (
      i,
      x ∷ rest,
      rw (miss, e) refl,
      record {
        first = FirstHit-later (is_of f) x xs i miss u.first;
        without = ap (◌∷◌ x) u.without;
      },
    )
  ]
]

-- `searchRam` returns NULL and leaves the cache alone if no entry is of the function; otherwise it
-- returns the oldest entry of the function and unlinks exactly that one, and the two memory
-- counters stay as they are.
pub search_ram-cases :
    (f : Name) (r : Ram)
    → ((search_ram f r ≡ (none, r)) × Lacks (is_of f) r.head)
      ⊎ ((i : Invocation) × (rest : List Invocation) × (search_ram f r
            ≡ (some i, record r { head = rest }))
          × Unlinked f r.head i rest)
unfolding search_ram
search_ram-cases f r = elim (unlink-cases f r.head) [
  | inl (e, l) ↦ inl (rw (e, search_ram) refl, l)
  | inr (i, rest, e, u) ↦ inr (i, rest, rw (e, search_ram) refl, u)
]

unlink-snoc :
    (f : Name) (xs : List Invocation) (i : Invocation)
    → Lacks (is_of f) xs
    → is_of f i ≡ true
    → unlink f (xs ++ i ∷ []) ≡ some (i, xs)
unfolding unlink
unlink-snoc f [] i l h = rw h refl
unlink-snoc f (x ∷ xs) i l h = rw (l.0, unlink-snoc f xs i l.1 h) refl

-- A function that was not cached is found again right after `insertRamItem`, and the search
-- gives back the list from before the insertion.
pub search_ram-insert :
    (i : Invocation) (r : Ram)
    → Lacks (is_of i.hash_function) r.head
    → search_ram i.hash_function (insert_ram_item i r)
      ≡ (some i, record (insert_ram_item i r) { head = r.head })
unfolding search_ram insert_ram_item
search_ram-insert i r l =
    rw (unlink-snoc i.hash_function r.head i l (str_eq_refl i.hash_function), search_ram) refl
