-- ===== src/ReadBuffer/Fifo.antt =====
-- The array and its size implement a first-in first-out queue.
use c_faas_emulator.Common.{
  ℕ, zero, suc, ◌+◌, ◌<◌, ◌&&◌, Option, some, List, [], ◌∷◌, ◌++◌, ◌≡◌, refl, ltb, leb, ◌==◌,
  if◌then◌else◌, arith, length, length-append, get_elem?,
}
use c_faas_emulator.Common.Name.{str_eq}
use c_faas_emulator.Common.Outcome.{ok}
use c_faas_emulator.Types.{Invocation, quit}
use c_faas_emulator.ReadBuffer.{
  ReadBuffer, store_at, push_request, shift, pop_request, look, waits, ends, takes,
}

-- The queue holds the requests `xs`, oldest first.
pub record Holds (b : ReadBuffer) (xs : List Invocation) : Type 0 where
  pub size : b.buffer_size ≡ length xs
  pub entry : (j : ℕ) → j < length xs → b.buffer j ≡ get_elem? xs j

get_elem?-snoc :
    (xs : List Invocation) (i : Invocation) (j : ℕ)
    → get_elem? (xs ++ i ∷ []) j ≡ (if j == length xs then some i else get_elem? xs j)
get_elem?-snoc [] i zero = refl
get_elem?-snoc [] i (suc j) = ground arith
get_elem?-snoc (x ∷ xs) i zero = ground arith
get_elem?-snoc (x ∷ xs) i (suc j) = ground (arith, get_elem?-snoc xs i j)

-- A request that is stored comes after all others.
pub push_request-Holds :
    (b : ReadBuffer) (xs : List Invocation) (i : Invocation)
    → Holds b xs
    → Holds (push_request i b) (xs ++ i ∷ [])
unfolding push_request
push_request-Holds b xs i h = record {
  size = omega (arith, h.size, length-append xs (i ∷ []));
  entry =
      λ j lt. ground (arith, get_elem?-snoc xs i j, h.entry j, length-append xs (i ∷ []), h.size);
}

-- The shifting loop moves each entry it covers one place down, and touches no other.
shift_lem :
    (rounds n : ℕ) (f : ℕ → Option Invocation) (j : ℕ)
    → shift rounds n f j ≡ (if leb n j && ltb j (n + rounds) then f (j + 1) else f j)
unfolding shift
shift_lem zero n f j = ground arith
shift_lem (suc rounds) n f j = ground (arith, shift_lem rounds (n + 1) (store_at f n (f (n + 1))) j)

-- Taking the oldest request out leaves the others in order.
pub pop_request-Holds :
    (b : ReadBuffer) (x : Invocation) (xs : List Invocation)
    → Holds b (x ∷ xs)
    → Holds (pop_request b) xs
unfolding pop_request
pop_request-Holds b x xs h = record {
  size = omega (arith, h.size);
  entry = λ j lt. ground (arith, shift_lem b.buffer_size 0 b.buffer j, h.entry (suc j), h.size);
}

-- What a reader is to find in a queue of the requests `xs`.
abbrev pub Finds : ReadBuffer → List Invocation → Type 0
Finds b [] = look b ≡ ok waits
Finds b (x ∷ rest) =
    (b' : ReadBuffer) × Holds b' rest
    × (look b ≡ ok (if str_eq x.hash_function quit then ends else takes x b'))

-- A reader of a queue that holds given requests waits if there are none, ends if the oldest is
-- "quit", and otherwise takes the oldest and leaves the rest in order. It never meets an entry
-- that was not stored.
pub look-Finds : (b : ReadBuffer) (xs : List Invocation) → Holds b xs → Finds b xs
unfolding look
look-Finds b [] h = ground (arith, h.size)
look-Finds b (x ∷ xs) h =
    (pop_request b, pop_request-Holds b x xs h, ground (arith, h.size, h.entry 0))
