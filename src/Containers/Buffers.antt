-- ===== src/Containers/Buffers.antt =====
-- What the callbacks of curl bring and take.
use c_faas_emulator.Common.{
  ℕ, ◌+◌, ◌-◌, true, false, some, List, [], ◌∷◌, ◌++◌, ◌≡◌, ap, sym, ◌∙◌, drop, append_assoc,
  append-nil, All,
}
use c_faas_emulator.Containers.{
  write_all, writefunc, Source, Attempt, create_loop, create_container, init_string,
}

abbrev pub concat : List (List ℕ) → List ℕ
concat [] = []
concat (x ∷ xs) = x ++ concat xs

write_all-concat : (chunks : List (List ℕ)) (s : List ℕ) → write_all chunks s ≡ s ++ concat chunks
unfolding write_all writefunc
write_all-concat [] s = sym (append-nil s)
write_all-concat (c ∷ cs) s = write_all-concat cs (s ++ c) ∙ append_assoc s c (concat cs)

-- The answers of attempts.
abbrev pub bodies : List Attempt → List ℕ
bodies [] = []
bodies (a ∷ attempts) = concat a.chunks ++ bodies attempts

abbrev pub Fails : List Attempt → Type 0
Fails = All λ a. a.succeeds ≡ false

create_loop-bodies :
    (failed : List Attempt) (last : Attempt) (later : List Attempt) (s : List ℕ)
    → Fails failed
    → last.succeeds ≡ true
    → create_loop (failed ++ last ∷ later) s ≡ some (s ++ (bodies failed ++ concat last.chunks))
unfolding create_loop
create_loop-bodies [] last later s f l = rw l (ap some (write_all-concat last.chunks s))
create_loop-bodies (a ∷ failed) last later s f l =
    let s' : List ℕ = write_all a.chunks s in
    let e = create_loop-bodies failed last later s' f.1 l in
    rw f.0 (
      e
      ∙ ap some (
          ap (λ (t : List ℕ). t ++ (bodies failed ++ concat last.chunks))
            (write_all-concat a.chunks s)
          ∙ append_assoc s (concat a.chunks) (bodies failed ++ concat last.chunks)
          ∙ ap (λ (t : List ℕ). s ++ t)
              (sym (append_assoc (concat a.chunks) (bodies failed) (concat last.chunks)))))

-- `createContainer` stops at the first attempt that succeeds, and what it then parses for the Id is
-- the answer of that attempt behind the answers of all the attempts that failed before it.
pub create_container-bodies :
    (failed : List Attempt) (last : Attempt) (later : List Attempt)
    → Fails failed
    → last.succeeds ≡ true
    → create_container (failed ++ last ∷ later) ≡ some (bodies failed ++ concat last.chunks)
unfolding create_container init_string
create_container-bodies failed last later f l = create_loop-bodies failed last later [] f l

abbrev pub total_size : List ℕ → ℕ
total_size [] = 0
total_size (n ∷ ns) = n + total_size ns

-- `sent` is what stands in the block between the pointers before and after.
record Sends (total : ℕ) (u : Source) (sent : List ℕ) (u' : Source) : Type 0 where
  block : u'.block ≡ u.block
  len : u'.len ≡ u.len - total
  moved : u'.ptr + u'.len ≡ u.ptr + u.len
  whole : drop u.ptr u.block ≡ sent ++ drop u'.ptr u.block
