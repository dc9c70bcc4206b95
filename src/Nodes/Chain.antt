-- ===== src/Nodes/Chain.antt =====
-- The nodes of a list in memory.
use c_faas_emulator.Common.{
  false, Option, none, some, List, [], ◌∷◌, ◌++◌, ◌≡◌, refl, ◌==◌, arith, map,
}
use c_faas_emulator.Common.Outcome.{ok}
use c_faas_emulator.Nodes.{Ptr, Cell, Memory, cell, put, load, set_next, release}

-- Where the nodes of a list stand and what they hold, in order.
abbrev pub Cells {ℓ} : Type ℓ → Type ℓ
Cells A = List (Ptr × A)

module _ {ℓ} {A : Type ℓ} where
  abbrev pub values : Cells A → List A
  values = map λ c. c.1

  -- The address of the first node, or `stop` if there is none.
  abbrev pub first_of : Ptr → Cells A → Ptr
  first_of stop [] = stop
  first_of stop ((q, a) ∷ xs) = q

  abbrev pub Absent : Ptr → Cells A → Type 0
  Absent p [] = Unit
  Absent p ((q, a) ∷ xs) = ((p == q) ≡ false) × Absent p xs

  abbrev pub Apart : Cells A → Cells A → Type 0
  Apart [] ys = Unit
  Apart ((q, a) ∷ xs) ys = Absent q ys × Apart xs ys

  pub record At (h : Memory A) (q : Ptr) (a : A) (n : Ptr) : Type ℓ where
    pub ne : (q == 0) ≡ false
    pub holds : h q ≡ some (cell a n)

  -- From the first node on, `next` leads through the nodes `xs`, which are distinct, to `stop`.
  abbrev pub Chain : Memory A → Ptr → Cells A → Type ℓ
  Chain h stop [] = Unit
  Chain h stop ((q, a) ∷ xs) = At h q a (first_of stop xs) × Absent q xs × Chain h stop xs

  pub load-At : (h : Memory A) (q : Ptr) (a : A) (n : Ptr) → At h q a n → load q h ≡ ok (cell a n)
  unfolding load
  load-At h q a n e = rw (e.ne, e.holds) refl

  pub set_next-At :
      (h : Memory A) (q : Ptr) (a : A) (n m : Ptr)
      → At h q a n
      → set_next q m h ≡ ok (put h q (some (cell a m)))
  unfolding set_next
  set_next-At h q a n m e = rw (load-At h q a n e) refl

  pub release-At :
      (h : Memory A) (q : Ptr) (a : A) (n : Ptr) → At h q a n → release q h ≡ ok (put h q none)
  unfolding release
  release-At h q a n e = rw (load-At h q a n e) refl

  pub At-put :
      (h : Memory A) (p q : Ptr) (a : A) (n : Ptr) (v : Option (Cell A))
      → (q == p) ≡ false
      → At h q a n
      → At (put h p v) q a n
  At-put h p q a n v d e = record { ne = e.ne; holds = rw d e.holds }

  pub At-here :
      (h : Memory A) (q : Ptr) (a : A) (n : Ptr)
      → (q == 0) ≡ false
      → At (put h q (some (cell a n))) q a n
  At-here h q a n e = record { ne = e; holds = ground arith }

  -- A write elsewhere keeps a chain.
  pub Chain-put :
      (h : Memory A) (p stop : Ptr) (xs : Cells A) (v : Option (Cell A))
      → Absent p xs
      → Chain h stop xs
      → Chain (put h p v) stop xs
  Chain-put h p stop [] v d c = tt
  Chain-put h p stop ((q, a) ∷ xs) v d (e, apart, c) = (
    At-put h p q a (first_of stop xs) v (ground (arith, d.0)) e,
    apart,
    Chain-put h p stop xs v d.1 c,
  )

  pub Absent-append : (p : Ptr) (xs ys : Cells A) → Absent p xs → Absent p ys → Absent p (xs ++ ys)
  Absent-append p [] ys d e = e
  Absent-append p ((q, a) ∷ xs) ys d e = (d.0, Absent-append p xs ys d.1 e)

  pub Absent-prefix : (p : Ptr) (xs ys : Cells A) → Absent p (xs ++ ys) → Absent p xs
  Absent-prefix p [] ys d = tt
  Absent-prefix p ((q, a) ∷ xs) ys d = (d.0, Absent-prefix p xs ys d.1)

  pub Absent-suffix : (p : Ptr) (xs ys : Cells A) → Absent p (xs ++ ys) → Absent p ys
  Absent-suffix p [] ys d = d
  Absent-suffix p ((q, a) ∷ xs) ys d = Absent-suffix p xs ys d.1

  pub first_of-append :
      (stop : Ptr) (xs ys : Cells A) → first_of stop (xs ++ ys) ≡ first_of (first_of stop ys) xs
  first_of-append stop [] ys = refl
  first_of-append stop ((q, a) ∷ xs) ys = refl

  -- A chain in two parts, of which the first leads to the second.
  pub record Parts (h : Memory A) (stop : Ptr) (xs ys : Cells A) : Type ℓ where
    pub front : Chain h (first_of stop ys) xs
    pub back : Chain h stop ys
    pub apart : Apart xs ys

  pub Chain-split :
      (h : Memory A) (stop : Ptr) (xs ys : Cells A) → Chain h stop (xs ++ ys) → Parts h stop xs ys
  Chain-split h stop [] ys c = record { front = tt; back = c; apart = tt }
  Chain-split h stop ((q, a) ∷ xs) ys (e, d, c) =
      let p = Chain-split h stop xs ys c in
      record {
        front = (rw (first_of-append stop xs ys) at e, Absent-prefix q xs ys d, p.front);
        back = p.back;
        apart = (Absent-suffix q xs ys d, p.apart);
      }

  pub Chain-join :
      (h : Memory A) (stop : Ptr) (xs ys : Cells A) → Parts h stop xs ys → Chain h stop (xs ++ ys)
  Chain-join h stop [] ys p = p.back
  Chain-join h stop ((q, a) ∷ xs) ys p = (
    rw (first_of-append stop xs ys) p.front.0,
    Absent-append q xs ys p.front.1 p.apart.0,
    Chain-join h stop xs ys (record { front = p.front.2; back = p.back; apart = p.apart.1 }),
  )
