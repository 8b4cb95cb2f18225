-- ===== src/Reads/Floors/Order.antt =====
-- The order of versions as arrays, and the list of floors sorted by it.
use nebraska.Base.{ℕ, ◌≡◌, refl, true, false, List, [], ◌∷◌, In}
use nebraska.Base.{arith, ◌&&◌, not, Bool-cases, inl, inr}
use nebraska.Reads.Floors.{array_lt, Keyed, insert_keyed, sort_keyed, between}

array_lt-asym : (x y : List ℕ) → array_lt x y ≡ true → array_lt y x ≡ false
unfolding array_lt
array_lt-asym [] [] h = refl
array_lt-asym [] (y ∷ ys) h = refl
array_lt-asym (x ∷ xs) [] h = ground arith
array_lt-asym (x ∷ xs) (y ∷ ys) h = ground (arith, array_lt-asym xs ys)

-- What comes after something comes after anything below it.
array_lt-split :
    (x y z : List ℕ) → array_lt y x ≡ false → array_lt z y ≡ false → array_lt z x ≡ false
unfolding array_lt
array_lt-split x [] [] h k = h
array_lt-split [] [] (z ∷ zs) h k = refl
array_lt-split (x ∷ xs) [] (z ∷ zs) h k = ground arith
array_lt-split x (y ∷ ys) [] h k = ground arith
array_lt-split [] (y ∷ ys) (z ∷ zs) h k = refl
array_lt-split (x ∷ xs) (y ∷ ys) (z ∷ zs) h k = ground (arith, array_lt-split xs ys zs)

array_lt_irrefl : (x : List ℕ) → array_lt x x ≡ false
array_lt_irrefl x = elim (Bool-cases (array_lt x x)) [ inl e ↦ array_lt-asym x x e | inr e ↦ e ]

-- The head of the second list is least among the elements of the first.
abbrev pub LeastHead : List Keyed → List Keyed → Type 0
LeastHead l [] = (b : Keyed) → In b l → ⊥
LeastHead l (m ∷ s) = (b : Keyed) → In b l → array_lt b.0 m.0 ≡ false

insert_least : (a : Keyed) (l s : List Keyed) → LeastHead l s → LeastHead (a ∷ l) (insert_keyed a s)
unfolding insert_keyed
insert_least a l [] h =
    λ b i. elim i [ inl e ↦ rw e (array_lt_irrefl a.0) | inr j ↦ absurd (h b j) ]
insert_least a l (m ∷ s) h = elim (Bool-cases (array_lt m.0 a.0)) [
  | inl below ↦
      rw below (λ b i. elim i [ inl e ↦ rw e (array_lt-asym m.0 a.0 below) | inr j ↦ h b j ])
  | inr above ↦ rw above (λ b i. elim i [
    | inl e ↦ rw e (array_lt_irrefl a.0)
    | inr j ↦ array_lt-split a.0 m.0 b.0 above (h b j)
  ])
]

pub sort_least : (l : List Keyed) → LeastHead l (sort_keyed l)
unfolding sort_keyed
sort_least [] = λ b i. i
sort_least (a ∷ l) = insert_least a l (sort_keyed l) (sort_least l)

pub between-In :
    (above up_to : List ℕ) (l : List Keyed) (a : Keyed)
    → In a l
    → array_lt above a.0 ≡ true
    → array_lt up_to a.0 ≡ false
    → In a (between above up_to l)
unfolding between
between-In above up_to [] a i h k = absurd i
between-In above up_to (b ∷ l) a (inl e) h k = rw (← e, h, k) (inl refl)
between-In above up_to (b ∷ l) a (inr i) h k =
    elim (Bool-cases (array_lt above b.0 && not (array_lt up_to b.0))) [
      | inl inside ↦ rw inside (inr (between-In above up_to l a i h k))
      | inr outside ↦ rw outside (between-In above up_to l a i h k)
    ]
