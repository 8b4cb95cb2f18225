-- ===== src/Base/Lists.antt =====
-- Lists measured by native numbers, and predicates on lists by recursion.
use Prim.Native.Nat.{ℕ, zero, suc, ◌+◌, ◌≤◌}
use Prim.Native.String.{String}
use mathlib.Core.Path.{◌≡◌, refl}
use mathlib.Core.Logic.{◌≢◌, ◌⊎◌}
use mathlib.Core.List.{List, [], ◌∷◌}
use native.Mathlib.Omega.{arith}
use text.Mathlib.Text.{◌==◌}
use text.Mathlib.TextEquality.{eq_iff}
use text.Mathlib.TextPositions.{eq_refl}
use nebraska.Base.Tests.{if◌then◌else◌}

module _ {ℓ} {A : Type ℓ} where
  abbrev pub length : List A → ℕ
  length [] = 0
  length (x ∷ xs) = suc (length xs)

  abbrev pub take : ℕ → List A → List A
  take zero xs = []
  take (suc n) [] = []
  take (suc n) (x ∷ xs) = x ∷ take n xs

-- How often a text occurs in a list.
unfoldable pub count : String → List String → ℕ
count k [] = 0
count k (x ∷ xs) = (if x == k then 1 else 0) + count k xs

-- The list without the first occurrence of a text.
unfoldable pub erase : String → List String → List String
erase k [] = []
erase k (x ∷ xs) = if x == k then xs else x ∷ erase k xs

pub count-cons :
    (k x : String) (xs : List String) → count k (x ∷ xs) ≡ (if x == k then 1 else 0) + count k xs
unfolding count
count-cons k x xs = refl

pub count-nil : (k : String) → count k [] ≡ 0
unfolding count
count-nil k = refl

-- `erase` takes one occurrence of its own text away, and none of another.
pub count-erase :
    (k j : String) (xs : List String)
    → 1 ≤ count k xs
    → count j xs ≡ (if k == j then 1 else 0) + count j (erase k xs)
unfolding count erase
count-erase k j [] h = absurd (omega arith)
count-erase k j (x ∷ xs) h =
    ground (arith, count-erase k j xs, eq_iff x k, eq_iff x j, eq_iff k j, eq_refl k, eq_refl j)

-- The count of the held uses after one more use is taken, and after one is given back.
pub count-more : (id j : String) (l : List String) → id ≢ j → count j (id ∷ l) ≡ count j l
count-more id j l h = ground (arith, count-cons j id l, eq_iff id j)

pub count-less :
    (id j : String) (l : List String) → 1 ≤ count id l → id ≢ j → count j (erase id l) ≡ count j l
count-less id j l h n = ground (arith, count-erase id j l, eq_iff id j)

pub count-more_self : (id : String) (l : List String) → count id (id ∷ l) ≡ 1 + count id l
count-more_self id l = ground (arith, count-cons id id l, eq_iff id id)

pub count-less_self :
    (id : String) (l : List String) → 1 ≤ count id l → count id l ≡ 1 + count id (erase id l)
count-less_self id l h = ground (arith, count-erase id id l, eq_iff id id)

pub count-le-length : (id : String) (l : List String) → count id l ≤ length l
count-le-length id [] = omega (arith, count-nil id)
count-le-length id (x ∷ l) = ground (arith, count-cons id x l, count-le-length id l)

pub ne_of_held : (id : String) (l : List String) → 1 ≤ count id l → count id l ≡ 0 → ⊥
ne_of_held id l h e = omega arith

abbrev pub In : {A : Type 0} → A → List A → Type 0
In x [] = ⊥
In x (y ∷ l) = (x ≡ y) ⊎ In x l
