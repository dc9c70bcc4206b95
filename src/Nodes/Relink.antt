-- ===== src/Nodes/Relink.antt =====
-- What taking a node out of a chain does to it: `free` of a node, and its move to the end.
use c_faas_emulator.Common.{false, none, some, [], ◌∷◌, ◌++◌, ◌≡◌, refl, ◌==◌, arith}
use c_faas_emulator.Nodes.{Ptr, Memory, cell, put}
use c_faas_emulator.Nodes.Chain.{
  Cells, first_of, Absent, Apart, At, Chain, Chain-split, Chain-join, Chain-put, At-put,
  Absent-append, Absent-suffix,
}
use c_faas_emulator.Nodes.Loops.{Chain-set_last}

Absent-swap : (p q : Ptr) → (p == q) ≡ false → (q == p) ≡ false
Absent-swap p q e = ground (arith, e)

module _ {ℓ} {A : Type ℓ} where
  pub At-last :
      (h : Memory A) (stop l : Ptr) (b : A) (xs : Cells A)
      → Chain h stop (xs ++ (l, b) ∷ [])
      → At h l b stop
  At-last h stop l b [] c = c.0
  At-last h stop l b ((q, a) ∷ xs) c = At-last h stop l b xs c.2

  -- Two lists that are apart, seen from the second.
  pub Apart-cons :
      (xs : Cells A) (q : Ptr) (a : A) (ys : Cells A)
      → Apart xs ((q, a) ∷ ys)
      → Absent q xs × Apart xs ys
  Apart-cons [] q a ys d = (tt, tt)
  Apart-cons ((p, b) ∷ xs) q a ys d =
      let (e, f) = Apart-cons xs q a ys d.1 in ((Absent-swap p q d.0.0, e), (d.0.1, f))

  pub Apart-last :
      (xs : Cells A) (l : Ptr) (b : A) (ys : Cells A) → Apart (xs ++ (l, b) ∷ []) ys → Absent l ys
  Apart-last [] l b ys d = d.0
  Apart-last ((q, a) ∷ xs) l b ys d = Apart-last xs l b ys d.1

  pub Apart-Absent_last :
      (xs ys : Cells A) (l : Ptr) (b : A) → Apart xs (ys ++ (l, b) ∷ []) → Absent l xs
  Apart-Absent_last [] ys l b d = tt
  Apart-Absent_last ((q, a) ∷ xs) ys l b d =
      (Absent-swap q l (Absent-suffix q ys ((l, b) ∷ []) d.0).0, Apart-Absent_last xs ys l b d.1)

  pub Apart-snoc :
      (xs ys : Cells A) (q : Ptr) (a : A) → Apart xs ys → Absent q xs → Apart xs (ys ++ (q, a) ∷ [])
  Apart-snoc [] ys q a d e = tt
  Apart-snoc ((p, b) ∷ xs) ys q a d e =
      (Absent-append p ys ((q, a) ∷ []) d.0 (Absent-swap q p e.0, tt), Apart-snoc xs ys q a d.1 e.1)

  module _ (h : Memory A) (xs : Cells A) (l : Ptr) (b : A) (q : Ptr) (a : A) (ys : Cells A) where
    abbrev pub front : Cells A
    front = xs ++ (l, b) ∷ []

    -- The node before `q` is linked to the one behind it.
    abbrev pub bypassed : Memory A
    bypassed = put h l (some (cell b (first_of 0 ys)))

    pub Chain-unlink :
        Chain h 0 (front ++ (q, a) ∷ ys) → Chain (put bypassed q none) 0 (front ++ ys)
    Chain-unlink c =
        let p = Chain-split h 0 front ((q, a) ∷ ys) c in
        let (absent, apart) = Apart-cons front q a ys p.apart in
        Chain-join (put bypassed q none) 0 front ys (record {
          front =
              Chain-put bypassed q (first_of 0 ys) front none absent
                (Chain-set_last h q (first_of 0 ys) l b xs p.front);
          back = Chain-put bypassed q 0 ys none p.back.1 (
              Chain-put h l 0 ys (some (cell b (first_of 0 ys))) (Apart-last xs l b ys apart)
                p.back.2);
          apart = apart;
        })

    pub At-bypassed : Chain h 0 (front ++ (q, a) ∷ ys) → At bypassed q a (first_of 0 ys)
    At-bypassed c =
        let p = Chain-split h 0 front ((q, a) ∷ ys) c in
        At-put h l q a (first_of 0 ys) (some (cell b (first_of 0 ys)))
          (Absent-swap l q (Apart-last xs l b ((q, a) ∷ ys) p.apart).0) p.back.0

    same_first :
        (zs : Cells A)
        → first_of 0 ((zs ++ (l, b) ∷ []) ++ ys) ≡ first_of 0 ((zs ++ (l, b) ∷ []) ++ (q, a) ∷ ys)
    same_first [] = refl
    same_first ((p, c) ∷ zs) = refl

    -- Without its node the list starts where it did.
    pub first_of-front : first_of 0 (front ++ ys) ≡ first_of 0 (front ++ (q, a) ∷ ys)
    first_of-front = same_first xs
