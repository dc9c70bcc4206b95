-- ===== src/Disk/Nodes/Refines.antt =====
-- A run of `findInDisk` on nodes, case by case.
use c_faas_emulator.Common.{
  ℕ, ◌<◌, Bool, true, false, none, some, [], ◌∷◌, ◌++◌, ◌≡◌, refl, sym, subst, inl, inr, arith,
  length, length-append,
}
use c_faas_emulator.Common.Name.{Name}
use c_faas_emulator.Common.Outcome.{Outcome}
use c_faas_emulator.Types.{DiskNode}
use c_faas_emulator.Nodes.{Ptr, Memory, cell, put}
use c_faas_emulator.Nodes.Chain.{Cells, values, first_of, Chain, Parts, Chain-split}
use c_faas_emulator.Nodes.Loops.{
  last_loop_lem, scan_loop-miss, scan_loop-hit, Misses, Found-cases, snoc-cases, last_of-snoc,
  values-append,
}
use c_faas_emulator.Nodes.Move.{lengthened, skipped, Chain-first_moved, Chain-moved}
use c_faas_emulator.Nodes.Append.{first_of-snoc_more}
use c_faas_emulator.Disk.{move_to_end, find_in_disk}
use c_faas_emulator.Disk.Lookup.{is_node}
use c_faas_emulator.Disk.Nodes.{find_in_disk_nodes, Moves}
use c_faas_emulator.Disk.Nodes.Relinked.{
  same_ptr, last-ne, relink-first, relink-middle, parts, ahead_first,
}

move_to_end-Misses :
    (name : Name) (xs : Cells DiskNode)
    → Misses (is_node name) xs
    → move_to_end name (values xs) ≡ none
unfolding move_to_end
move_to_end-Misses name [] m = refl
move_to_end-Misses name (x ∷ xs) m = rw (m.0, move_to_end-Misses name xs m.1) refl

move_to_end-found :
    (name : Name) (xs : Cells DiskNode) (q : Ptr) (n : DiskNode) (ys : Cells DiskNode)
    → Misses (is_node name) xs
    → is_node name n ≡ true
    → move_to_end name (values (xs ++ (q, n) ∷ ys)) ≡ some (values (xs ++ (ys ++ (q, n) ∷ [])))
unfolding move_to_end
move_to_end-found name [] q n ys m t = rw (t, values-append ys ((q, n) ∷ [])) refl
move_to_end-found name (x ∷ xs) q n ys m t = rw (m.0, move_to_end-found name xs q n ys m.1 t) refl

module _ (name : Name) (fuel : ℕ) (h : Memory DiskNode) where
  abbrev run : Cells DiskNode → Outcome (Bool × Ptr × Memory DiskNode)
  run xs = find_in_disk_nodes fuel name (first_of 0 xs) h

  Moves-none :
      (xs : Cells DiskNode)
      → length xs < fuel
      → Chain h 0 xs
      → Misses (is_node name) xs
      → Moves name xs (run xs)
  unfolding find_in_disk_nodes find_in_disk
  Moves-none xs lt c m = record {
    found = false;
    left = xs;
    memory = h;
    returns = rw (scan_loop-miss (is_node name) fuel h 0 xs lt c m) refl;
    chain = c;
    same = λ d. rw (move_to_end-Misses name xs m, find_in_disk) refl;
  }

  -- The node found is the last already.
  Moves-last :
      (xs : Cells DiskNode) (q : Ptr) (n : DiskNode)
      → length (xs ++ (q, n) ∷ []) < fuel
      → Chain h 0 (xs ++ (q, n) ∷ [])
      → Misses (is_node name) xs
      → is_node name n ≡ true
      → Moves name (xs ++ (q, n) ∷ []) (run (xs ++ (q, n) ∷ []))
  unfolding find_in_disk_nodes find_in_disk
  Moves-last xs q n lt c m t =
      let p = Chain-split h 0 xs ((q, n) ∷ []) c in
      let small = length-append xs ((q, n) ∷ []) in
      record {
        found = true;
        left = xs ++ (q, n) ∷ [];
        memory = h;
        returns =
            rw
              (
                scan_loop-hit (is_node name) fuel h 0 xs q n [] (omega (arith, lt, small)) c m t,
                p.back.0.ne,
                last_loop_lem fuel h [] q n (omega (arith, lt, small)) p.back,
                same_ptr q,
              )
              refl;
        chain = c;
        same = λ d. rw (move_to_end-found name xs q n [] m t, find_in_disk) refl;
      }

  module _ (q : Ptr) (n : DiskNode) (ws : Cells DiskNode) (l₂ : Ptr) (b₂ : DiskNode) where
    abbrev behind : Cells DiskNode
    behind = ws ++ (l₂, b₂) ∷ []

    -- The node found is the first, but not the last.
    Moves-first :
        length ((q, n) ∷ behind) < fuel
        → Chain h 0 ((q, n) ∷ behind)
        → is_node name n ≡ true
        → Moves name ((q, n) ∷ behind) (run ((q, n) ∷ behind))
    unfolding find_in_disk_nodes find_in_disk
    Moves-first lt c t =
        let small = length-append ws ((l₂, b₂) ∷ []) in
        record {
          found = true;
          left = behind ++ (q, n) ∷ [];
          memory = put (lengthened h q n ws l₂ b₂) q (some (cell n 0));
          returns =
              rw
                (
                  scan_loop-hit (is_node name) fuel h 0 [] q n behind (omega (arith, lt)) c tt t,
                  c.0.ne,
                  last_loop_lem fuel h ((q, n) ∷ ws) l₂ b₂ (omega (arith, lt, small)) c,
                  last-ne h q n ws l₂ b₂ c,
                  relink-first h q n ws l₂ b₂ c,
                  first_of-snoc_more ws l₂ b₂ ((q, n) ∷ []),
                )
                refl;
          chain = Chain-first_moved h q n ws l₂ b₂ c;
          same = λ d. rw (move_to_end-found name [] q n behind tt t, find_in_disk) refl;
        }

    module _ (xs : Cells DiskNode) (l : Ptr) (b : DiskNode) where
      abbrev ahead : Cells DiskNode
      ahead = xs ++ (l, b) ∷ []

      abbrev all_nodes : Cells DiskNode
      all_nodes = ahead ++ (q, n) ∷ behind

      module _ (c : Chain h 0 all_nodes) where
        before_and_after : Parts h 0 ahead ((q, n) ∷ behind)
        before_and_after = parts h q n ws l₂ b₂ xs l b c

        Moves-middle :
            length all_nodes < fuel
            → Misses (is_node name) ahead
            → is_node name n ≡ true
            → Moves name all_nodes (run all_nodes)
        unfolding find_in_disk_nodes find_in_disk
        Moves-middle lt m t =
            let small = length-append ws ((l₂, b₂) ∷ []) in
            let all = length-append ahead ((q, n) ∷ behind) in
            record {
              found = true;
              left = ahead ++ (behind ++ (q, n) ∷ []);
              memory = put (skipped h q n ws l₂ b₂ xs l b) q (some (cell n 0));
              returns =
                  rw
                    (
                      scan_loop-hit (is_node name) fuel h 0 ahead q n behind
                          (omega (arith, lt, all)) c m t,
                      before_and_after.back.0.ne,
                      last_loop_lem fuel h ((q, n) ∷ ws) l₂ b₂ (omega (arith, lt, small, all))
                          before_and_after.back,
                      last-ne h q n ws l₂ b₂ before_and_after.back,
                      last_of-snoc 0 l b xs,
                      relink-middle h q n ws l₂ b₂ xs l b c,
                      ahead_first h q n ws l₂ b₂ xs l b c,
                    )
                    refl;
              chain = Chain-moved h q n ws l₂ b₂ xs l b c;
              same = λ d. rw (move_to_end-found name ahead q n behind m t, find_in_disk) refl;
            }

  Moves-found :
      (before : Cells DiskNode) (q : Ptr) (n : DiskNode) (ys : Cells DiskNode)
      → length (before ++ (q, n) ∷ ys) < fuel
      → Chain h 0 (before ++ (q, n) ∷ ys)
      → Misses (is_node name) before
      → is_node name n ≡ true
      → Moves name (before ++ (q, n) ∷ ys) (run (before ++ (q, n) ∷ ys))
  Moves-found before q n ys lt c m t = elim (snoc-cases ys) [
    | inl e ↦
        subst (λ zs. Goal before zs) (sym e) (λ lt' c' m'. Moves-last before q n lt' c' m' t) lt c m
    | inr (ws, l₂, b₂, e) ↦
        subst (λ zs. Goal before zs) (sym e)
          (elim (snoc-cases before) [
            | inl f ↦
                subst (λ zs. Goal zs (ws ++ (l₂, b₂) ∷ [])) (sym f)
                  (λ lt' c' m'. Moves-first q n ws l₂ b₂ lt' c' t)
            | inr (xs, l, b, f) ↦
                subst (λ zs. Goal zs (ws ++ (l₂, b₂) ∷ [])) (sym f)
                  (λ lt' c' m'. Moves-middle q n ws l₂ b₂ xs l b c' lt' m' t)
          ])
          lt c m
  ]
    where
      Goal : Cells DiskNode → Cells DiskNode → Type 0
      Goal bs zs =
          length (bs ++ (q, n) ∷ zs) < fuel
          → Chain h 0 (bs ++ (q, n) ∷ zs)
          → Misses (is_node name) bs
          → Moves name (bs ++ (q, n) ∷ zs) (run (bs ++ (q, n) ∷ zs))

-- On nodes in memory that are a list, with more rounds than nodes, `findInDisk` as it is written
-- follows no bad pointer, and leaves nodes that are again a list: it answers what `find_in_disk`
-- answers for the list, and leaves the list that `find_in_disk` leaves, with `disk->head` at its
-- first node.
pub find_in_disk_nodes-Moves :
    (fuel : ℕ) (name : Name) (h : Memory DiskNode) (xs : Cells DiskNode)
    → length xs < fuel
    → Chain h 0 xs
    → Moves name xs (find_in_disk_nodes fuel name (first_of 0 xs) h)
find_in_disk_nodes-Moves fuel name h xs lt c = elim (Found-cases (is_node name) xs) [
  | inl m ↦ Moves-none name fuel h xs lt c m
  | inr w ↦
      subst
        (λ zs.
          length zs < fuel
          → Chain h 0 zs
          → Moves name zs (find_in_disk_nodes fuel name (first_of 0 zs) h))
        (sym w.whole)
        (λ lt' c'. Moves-found name fuel h w.before w.ptr w.value w.after lt' c' w.misses w.hit) lt
        c
]
