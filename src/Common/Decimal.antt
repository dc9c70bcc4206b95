-- ===== src/Common/Decimal.antt =====
-- The conversions "%d" and "%s" of C's `sprintf`, and its writing into a block of a given size.
use Prim.Native.Nat.{ℕ, zero, suc, ◌+◌, ◌*◌, ◌/◌, ◌%◌, ◌^◌, ◌≤◌, ◌<◌}
use mathlib.Core.Path.{◌≡◌, refl, ap, ◌∙◌}
use mathlib.Core.List.{List, [], ◌∷◌, ◌++◌}
use native.Mathlib.Omega.{arith}
use c_faas_emulator.Common.Tests.{ltb, if◌then◌else◌, Bool-cases}
use mathlib.Core.Logic.{inl, inr}
use c_faas_emulator.Common.Lists.{length, length-append, All-append}
use c_faas_emulator.Common.Int.{ℤ, pos, negsuc, pos_part, neg_part, ◌-ℤ◌, eq_of_parts, int_laws}
use c_faas_emulator.Common.Outcome.{Outcome, ok, fault}
use c_faas_emulator.Common.Text.Laws.{
  Digits, numeral, value_from, Ends, atoi-numeral, digits_from-numeral,
}
use c_faas_emulator.Common.Text.{atoi, signed_digits, digits_from}

-- The digits of a number, most significant first; `fuel` bounds how many.
unfoldable pub digits_of : ℕ → ℕ → List ℕ
digits_of zero n = []
digits_of (suc fuel) n =
    let more = digits_of fuel (n / 10) in if ltb n 10 then n ∷ [] else more ++ (n % 10) ∷ []

-- "%d": as many digits are enough as the number itself says, and one.
unfoldable pub print_int : ℤ → List ℕ
unfolding digits_of
print_int (pos n) = numeral (digits_of (suc n) n)
print_int (negsuc n) = b'-' ∷ numeral (digits_of (suc (suc n)) (suc n))

pub digits_of-Digits : (fuel n : ℕ) → Digits (digits_of fuel n)
unfolding digits_of
digits_of-Digits zero n = tt
digits_of-Digits (suc fuel) n = elim (Bool-cases (ltb n 10)) [
  | inl small ↦ rw small (ground (arith, small), tt)
  | inr large ↦
      rw large (
        All-append _ (digits_of fuel (n / 10)) _ (digits_of-Digits fuel (n / 10)) (omega arith, tt))
]

value_from-snoc : (m d : ℕ) (ds : List ℕ) → value_from m (ds ++ d ∷ []) ≡ value_from m ds * 10 + d
value_from-snoc m d [] = refl
value_from-snoc m d (x ∷ xs) = value_from-snoc (m * 10 + x) d xs

-- The digits show the number.
pub value_from-digits_of : (fuel n : ℕ) → n < fuel → value_from 0 (digits_of fuel n) ≡ n
unfolding digits_of
value_from-digits_of zero n lt = absurd (omega arith)
value_from-digits_of (suc fuel) n lt = elim (Bool-cases (ltb n 10)) [
  | inl small ↦ rw small (omega arith)
  | inr large ↦
      rw
        (
          large,
          value_from-snoc 0 (n % 10) (digits_of fuel (n / 10)),
          value_from-digits_of fuel (n / 10) (ground (arith, large)),
        )
        (omega arith)
]

abbrev pub ten_to : ℕ → ℕ
ten_to zero = 1
ten_to (suc k) = 10 * ten_to k

length-digits_of : (fuel n k : ℕ) → n < ten_to (suc k) → length (digits_of fuel n) ≤ suc k
unfolding digits_of
length-digits_of zero n k lt = omega arith
length-digits_of (suc fuel) n zero lt = ground (arith, lt)
length-digits_of (suc fuel) n (suc k) lt = elim (Bool-cases (ltb n 10)) [
  | inl small ↦ rw small (omega arith)
  | inr large ↦ rw large (
      omega (
        arith,
        length-digits_of fuel (n / 10) k (omega (arith, lt)),
        length-append (digits_of fuel (n / 10)) ((n % 10) ∷ []),
      ))
]

length-numeral : (ds : List ℕ) → length (numeral ds) ≡ length ds
length-numeral [] = refl
length-numeral (d ∷ ds) = ap suc (length-numeral ds)

-- A number of 32 bits takes at most eleven characters.
pub length-print_int :
    (z : ℤ) → pos_part z < 2 ^ 31 → neg_part z ≤ 2 ^ 31 → length (print_int z) ≤ 11
unfolding print_int
length-print_int (pos n) h k = omega (
  arith,
  h,
  length-numeral (digits_of (suc n) n),
  length-digits_of (suc n) n 9 (omega (arith, h)),
)
length-print_int (negsuc n) h k = omega (
  arith,
  k,
  length-numeral (digits_of (suc (suc n)) (suc n)),
  length-digits_of (suc (suc n)) (suc n) 9 (omega (arith, k)),
)

-- There is a first digit.
digits_of-first : (fuel n : ℕ) → (d : ℕ) × (ds : List ℕ) × (digits_of (suc fuel) n ≡ d ∷ ds)
unfolding digits_of
digits_of-first fuel n = elim (Bool-cases (ltb n 10)) [
  | inl small ↦ (n, [], rw small refl)
  | inr large ↦ rw large (first (digits_of fuel (n / 10)))
]
  where
    first : (xs : List ℕ) → (d : ℕ) × (ds : List ℕ) × (xs ++ (n % 10) ∷ [] ≡ d ∷ ds)
    first [] = (n % 10, [], refl)
    first (x ∷ xs) = (x, xs ++ (n % 10) ∷ [], refl)

atoi-digits_of :
    (n : ℕ) (rest : List ℕ) → Ends rest → atoi (numeral (digits_of (suc n) n) ++ rest) ≡ pos n
atoi-digits_of n rest e =
    let (d, ds, first) = digits_of-first n n in
    let digits : Digits (d ∷ ds) = rw first at (digits_of-Digits (suc n) n) in
    let value : value_from 0 (d ∷ ds) ≡ n =
      rw first at (value_from-digits_of (suc n) n (omega arith)) in
    rw first (atoi-numeral d ds rest digits e ∙ ap pos value)

atoi-minus : (cs : List ℕ) → atoi (b'-' ∷ cs) ≡ pos 0 -ℤ pos (digits_from 0 cs)
unfolding atoi signed_digits
atoi-minus cs = refl

minus_ℤ : (n : ℕ) → pos 0 -ℤ pos (suc n) ≡ negsuc n
minus_ℤ n = eq_of_parts _ _ (omega int_laws)

-- `atoi` reads back what "%d" printed, whatever follows, unless it is a digit.
pub atoi-print_int : (z : ℤ) (rest : List ℕ) → Ends rest → atoi (print_int z ++ rest) ≡ z
unfolding print_int
atoi-print_int (pos n) rest e = atoi-digits_of n rest e
atoi-print_int (negsuc n) rest e =
    atoi-minus (numeral (digits_of (suc (suc n)) (suc n)) ++ rest)
    ∙ ap (λ (m : ℕ). pos 0 -ℤ pos m)
        (digits_from-numeral 0 (digits_of (suc (suc n)) (suc n)) rest
            (digits_of-Digits (suc (suc n)) (suc n)) e
          ∙ value_from-digits_of (suc (suc n)) (suc n) (omega arith))
    ∙ minus_ℤ n

-- `sprintf` of a text into a block: its characters, and the 0 that ends it.
unfoldable pub sprintf : (size : ℕ) → List ℕ → Outcome (List ℕ)
sprintf size text = if ltb (length text) size then ok text else fault
