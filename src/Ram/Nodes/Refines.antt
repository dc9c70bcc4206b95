-- ===== src/Ram/Nodes/Refines.antt =====
-- A run of `searchRam` or `insertRamItem` on nodes, case by case.
use c_faas_emulator.Common.{
  ℕ, ◌<◌, true, false, none, some, [], ◌∷◌, ◌++◌, ◌≡◌, refl, sym, subst, ◌==◌, inl, inr, arith,
  length, length-append,
}
use c_faas_emulator.Common.Name.{Name}
use c_faas_emulator.Common.Outcome.{ok}
use c_faas_emulator.Types.{Invocation}
use c_faas_emulator.Nodes.{Ptr, Memory, put, append_node}
use c_faas_emulator.Nodes.Chain.{
  Cells, values, first_of, Absent, Chain, load-At, set_next-At, release-At, Chain-split,
}
use c_faas_emulator.Nodes.Loops.{
  scan_loop-miss, scan_loop-hit, Misses, Found-cases, snoc-cases, last_of-snoc, values-append,
}
use c_faas_emulator.Nodes.Append.{append_node-Chain}
use c_faas_emulator.Nodes.Relink.{At-last, At-bypassed, Chain-unlink, bypassed, first_of-front}
use c_faas_emulator.Ram.{Ram, unlink, search_ram, insert_ram_item}
use c_faas_emulator.Ram.Search.{is_of}
use c_faas_emulator.Ram.Nodes.{heads, take_out, search_ram_nodes, Searches}

unlink-Misses :
    (f : Name) (xs : Cells Invocation) → Misses (is_of f) xs → unlink f (values xs) ≡ none
unfolding unlink
unlink-Misses f [] m = refl
unlink-Misses f (x ∷ xs) m = rw (m.0, unlink-Misses f xs m.1) refl

unlink-found :
    (f : Name) (xs : Cells Invocation) (q : Ptr) (i : Invocation) (ys : Cells Invocation)
    → Misses (is_of f) xs
    → is_of f i ≡ true
    → unlink f (values (xs ++ (q, i) ∷ ys)) ≡ some (i, values (xs ++ ys))
unfolding unlink
unlink-found f [] q i ys m t = rw t refl
unlink-found f (x ∷ xs) q i ys m t = rw (m.0, unlink-found f xs q i ys m.1 t) refl

heads-Misses :
    (f : Name) (xs : Cells Invocation) (h : Memory Invocation)
    → Chain h 0 xs
    → Misses (is_of f) xs
    → heads f (first_of 0 xs) h ≡ ok false
unfolding heads
heads-Misses f [] h c m = refl
heads-Misses f ((q, i) ∷ xs) h c m = rw (load-At h q i (first_of 0 xs) c.0, c.0.ne, m.0) refl

take_out-lem :
    (h : Memory Invocation) (xs : Cells Invocation) (l : Ptr) (b : Invocation) (q : Ptr)
    (i : Invocation) (ys : Cells Invocation)
    → Chain h 0 ((xs ++ (l, b) ∷ []) ++ (q, i) ∷ ys)
    → take_out l q h ≡ ok (i, put (bypassed h xs l b q i ys) q none)
unfolding take_out
take_out-lem h xs l b q i ys c =
    let p = Chain-split h 0 (xs ++ (l, b) ∷ []) ((q, i) ∷ ys) c in
    rw
      (
        load-At h q i (first_of 0 ys) p.back.0,
        set_next-At h l b q (first_of 0 ys) (At-last h q l b xs p.front),
        release-At (bypassed h xs l b q i ys) q i (first_of 0 ys) (At-bypassed h xs l b q i ys c),
      )
      refl

heads-front :
    (f : Name) (h : Memory Invocation) (xs : Cells Invocation) (l : Ptr) (b : Invocation)
    (zs : Cells Invocation)
    → Chain h 0 ((xs ++ (l, b) ∷ []) ++ zs)
    → Misses (is_of f) (xs ++ (l, b) ∷ [])
    → heads f (first_of 0 ((xs ++ (l, b) ∷ []) ++ zs)) h ≡ ok false
unfolding heads
heads-front f h [] l b zs c m = rw (load-At h l b (first_of 0 zs) c.0, c.0.ne, m.0) refl
heads-front f h ((q, i) ∷ xs) l b zs c m =
    rw (load-At h q i (first_of 0 ((xs ++ (l, b) ∷ []) ++ zs)) c.0, c.0.ne, m.0) refl

-- The search runs through the nodes of `front`, the last of which is `l`, and takes `q` out.
search-middle :
    (fuel : ℕ) (f : Name) (h : Memory Invocation) (xs : Cells Invocation) (l : Ptr) (b : Invocation)
    (q : Ptr) (i : Invocation) (ys : Cells Invocation)
    → let whole : Cells Invocation = (xs ++ (l, b) ∷ []) ++ (q, i) ∷ ys in
      length whole < fuel
      → Chain h 0 whole
      → Misses (is_of f) (xs ++ (l, b) ∷ [])
      → is_of f i ≡ true
      → Searches f whole (search_ram_nodes fuel f (first_of 0 whole) h)
unfolding search_ram_nodes search_ram
search-middle fuel f h xs l b q i ys lt c m t =
    let front : Cells Invocation = xs ++ (l, b) ∷ [] in
    let p = Chain-split h 0 front ((q, i) ∷ ys) c in
    let found =
      scan_loop-hit (is_of f) fuel h 0 front q i ys
        (omega (arith, lt, length-append front ((q, i) ∷ ys))) c m t in
    record {
      found = some i;
      left = front ++ ys;
      memory = put (bypassed h xs l b q i ys) q none;
      returns =
          rw
            (
              heads-front f h xs l b ((q, i) ∷ ys) c m,
              found,
              p.back.0.ne,
              last_of-snoc 0 l b xs,
              take_out-lem h xs l b q i ys c,
              first_of-front h xs l b q i ys,
            )
            refl;
      chain = Chain-unlink h xs l b q i ys c;
      same = λ r. rw (unlink-found f front q i ys m t, search_ram) refl;
    }

search-head :
    (fuel : ℕ) (f : Name) (h : Memory Invocation) (q : Ptr) (i : Invocation) (ys : Cells Invocation)
    → Chain h 0 ((q, i) ∷ ys)
    → is_of f i ≡ true
    → Searches f ((q, i) ∷ ys) (search_ram_nodes fuel f q h)
unfolding search_ram_nodes heads search_ram
search-head fuel f h q i ys c t = record {
  found = some i;
  left = ys;
  memory = h;
  returns = rw (load-At h q i (first_of 0 ys) c.0, c.0.ne, t) refl;
  chain = c.2;
  same = λ r. rw (unlink-found f [] q i ys tt t, search_ram) refl;
}

search-none :
    (fuel : ℕ) (f : Name) (h : Memory Invocation) (xs : Cells Invocation)
    → length xs < fuel
    → Chain h 0 xs
    → Misses (is_of f) xs
    → Searches f xs (search_ram_nodes fuel f (first_of 0 xs) h)
unfolding search_ram_nodes search_ram
search-none fuel f h xs lt c m = record {
  found = none;
  left = xs;
  memory = h;
  returns = rw (heads-Misses f xs h c m, scan_loop-miss (is_of f) fuel h 0 xs lt c m) refl;
  chain = c;
  same = λ r. rw (unlink-Misses f xs m, search_ram) refl;
}

search-found :
    (fuel : ℕ) (f : Name) (h : Memory Invocation) (before : Cells Invocation) (q : Ptr)
    (i : Invocation) (ys : Cells Invocation)
    → length (before ++ (q, i) ∷ ys) < fuel
    → Chain h 0 (before ++ (q, i) ∷ ys)
    → Misses (is_of f) before
    → is_of f i ≡ true
    → Searches f
        (before ++ (q, i) ∷ ys)
        (search_ram_nodes fuel f (first_of 0 (before ++ (q, i) ∷ ys)) h)
search-found fuel f h before q i ys lt c m t = elim (snoc-cases before) [
  | inl e ↦ subst Goal (sym e) (λ lt' c' m'. search-head fuel f h q i ys c' t) lt c m
  | inr (xs, l, b, e) ↦
      subst Goal (sym e) (λ lt' c' m'. search-middle fuel f h xs l b q i ys lt' c' m' t) lt c m
]
  where
    Goal : Cells Invocation → Type 0
    Goal zs =
        length (zs ++ (q, i) ∷ ys) < fuel
        → Chain h 0 (zs ++ (q, i) ∷ ys)
        → Misses (is_of f) zs
        → Searches f (zs ++ (q, i) ∷ ys)
            (search_ram_nodes fuel f (first_of 0 (zs ++ (q, i) ∷ ys)) h)

-- On nodes in memory that are a list, with more rounds than nodes, `searchRam` as it is written
-- follows no bad pointer, and leaves nodes that are again a list: it returns what `search_ram`
-- finds in the list, and leaves the list that `search_ram` leaves.
pub search_ram_nodes-Searches :
    (fuel : ℕ) (f : Name) (h : Memory Invocation) (xs : Cells Invocation)
    → length xs < fuel
    → Chain h 0 xs
    → Searches f xs (search_ram_nodes fuel f (first_of 0 xs) h)
search_ram_nodes-Searches fuel f h xs lt c = elim (Found-cases (is_of f) xs) [
  | inl m ↦ search-none fuel f h xs lt c m
  | inr w ↦
      subst
        (λ zs.
          length zs < fuel
          → Chain h 0 zs
          → Searches f zs (search_ram_nodes fuel f (first_of 0 zs) h))
        (sym w.whole)
        (λ lt' c'. search-found fuel f h w.before w.ptr w.value w.after lt' c' w.misses w.hit) lt c
]

-- On nodes in memory that are a list, with a new node at an address that none of them has,
-- `insertRamItem` as it is written follows no bad pointer, and leaves nodes that are the list of
-- `insert_ram_item`; all other nodes are where they were.
pub append_node-insert_ram_item :
    (fuel : ℕ) (fresh : Ptr) (i : Invocation) (h : Memory Invocation) (xs : Cells Invocation)
    (r : Ram)
    → length xs < fuel
    → (fresh == 0) ≡ false
    → Absent fresh xs
    → Chain h 0 xs
    → (h' : Memory Invocation) × (append_node fuel fresh i (first_of 0 xs) h
        ≡ ok (first_of 0 (xs ++ (fresh, i) ∷ []), h'))
      × Chain h' 0 (xs ++ (fresh, i) ∷ [])
      × (values (xs ++ (fresh, i) ∷ []) ≡ (insert_ram_item i (record r { head = values xs })).head)
unfolding insert_ram_item
append_node-insert_ram_item fuel fresh i h xs r lt ne absent c =
    let (h', e, c') = append_node-Chain fuel fresh i h xs lt ne absent c in
    (h', e, c', values-append xs ((fresh, i) ∷ []))
