-- ===== src/Storage/Bag.antt =====
-- What the disk cache is to the rest of the program: a bag of functions, whatever
-- the order of the nodes, their files and marks.
use mathlib.Core.Quot
use mathlib.Core.Quot.{Quot, Quot-set}
use native.Mathlib.Nat.{ℕ_set}
use c_faas_emulator.Common.{ℕ, List, ◌∷◌, ◌≡◌, arith, if◌then◌else◌}
use c_faas_emulator.Common.Int.{ℤ}
use c_faas_emulator.Common.Name.{Name, str_eq}
use c_faas_emulator.Common.Sums.{count_by}
use c_faas_emulator.Types.{DiskNode}
use c_faas_emulator.Disk.{Disk}
use c_faas_emulator.Storage.Valid.{Valid}

-- A count that sees the function and the memory of a node.
abbrev pub weigh : (Name → ℤ → ℕ) → List DiskNode → ℕ
weigh w = count_by λ n. w n.function n.memory

abbrev pub SameBag : List DiskNode → List DiskNode → Type 0
SameBag xs ys = (w : Name → ℤ → ℕ) → weigh w xs ≡ weigh w ys

abbrev pub Bag : Type 0
Bag = Quot SameBag

abbrev pub contents : List DiskNode → Bag
contents = Quot.mk

pub SameBag-cons :
    (n : DiskNode) (xs ys : List DiskNode) → SameBag xs ys → SameBag (n ∷ xs) (n ∷ ys)
SameBag-cons n xs ys h w = omega (arith, h w)

unfoldable pub put : DiskNode → Bag → Bag
put n = Quot.lift Quot-set (λ xs. Quot.mk (n ∷ xs)) λ xs ys h. Quot.sound (SameBag-cons n xs ys h)

-- How often a function is in a bag.
unfoldable pub occurrences : Name → Bag → ℕ
occurrences f =
    Quot.lift ℕ_set (weigh λ g m. if str_eq g f then 1 else 0)
      λ xs ys h. h λ g m. if str_eq g f then 1 else 0

-- The specification: a function is added if it is not there, any can go.
pub data Change : Bag → Bag → Type 0 where
  stays : {b : Bag} → Change b b
  gains : {b : Bag} (n : DiskNode) → occurrences n.function b ≡ 0 → Change b (put n b)
  loses : {b : Bag} (n : DiskNode) → Change (put n b) b

pub data Changes (b : Bag) : Bag → Type 0 where
  none_yet : Changes b b
  then_one : {b' b'' : Bag} → Changes b b' → Change b' b'' → Changes b b''

abbrev pub cache_of : Disk → Bag
cache_of d = contents d.head
