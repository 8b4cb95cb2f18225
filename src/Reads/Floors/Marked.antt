-- ===== src/Reads/Floors/Marked.antt =====
-- `GetRequiredChannelFloors` marks every package as a floor.
use mathlib.Core.Path.{subst}
use mathlib.Core.Option.{some-injective, none-ne-some}
use nebraska.Base.{ℕ, zero, suc, String, ◌≡◌, refl, true, Option, none, some, List, [], ◌∷◌, take}
use nebraska.Base.{◌&&◌, not, ◌==◌, Bool-cases, inl, inr}
use nebraska.Types.{Package}
use nebraska.Db.{World, FloorRow, find}
use nebraska.Reads.Outside.{Outside}
use nebraska.Reads.Floors.{
  array_lt, Keyed, insert_keyed, sort_keyed, between, packages_of, add_floor, keyed_floors,
  required_floors, max_floors,
}
use nebraska.Reads.Floors.Laws.{IfRead}

abbrev KeyedFloors : List Keyed → Type 0
KeyedFloors [] = Unit
KeyedFloors (a ∷ l) = (a.1.is_floor ≡ true) × KeyedFloors l

abbrev pub AllFloors : List Package → Type 0
AllFloors [] = Unit
AllFloors (p ∷ l) = (p.is_floor ≡ true) × AllFloors l

between-KeyedFloors :
    (above up_to : List ℕ) (l : List Keyed) → KeyedFloors l → KeyedFloors (between above up_to l)
unfolding between
between-KeyedFloors above up_to [] h = tt
between-KeyedFloors above up_to (a ∷ l) h =
    elim (Bool-cases (array_lt above a.0 && not (array_lt up_to a.0))) [
      | inl inside ↦ rw inside (h.0, between-KeyedFloors above up_to l h.1)
      | inr outside ↦ rw outside (between-KeyedFloors above up_to l h.1)
    ]

insert-KeyedFloors :
    (a : Keyed) (l : List Keyed)
    → a.1.is_floor ≡ true
    → KeyedFloors l
    → KeyedFloors (insert_keyed a l)
unfolding insert_keyed
insert-KeyedFloors a [] k h = (k, tt)
insert-KeyedFloors a (b ∷ l) k h = elim (Bool-cases (array_lt b.0 a.0)) [
  | inl below ↦ rw below (h.0, insert-KeyedFloors a l k h.1)
  | inr over ↦ rw over (k, h)
]

sort-KeyedFloors : (l : List Keyed) → KeyedFloors l → KeyedFloors (sort_keyed l)
unfolding sort_keyed
sort-KeyedFloors [] h = tt
sort-KeyedFloors (a ∷ l) h = insert-KeyedFloors a (sort_keyed l) h.0 (sort-KeyedFloors l h.1)

take-AllFloors : (n : ℕ) (l : List Keyed) → KeyedFloors l → AllFloors (packages_of (take n l))
unfolding packages_of
take-AllFloors zero l h = tt
take-AllFloors (suc n) [] h = tt
take-AllFloors (suc n) (a ∷ l) h = (h.0, take-AllFloors n l h.1)

add_floor-KeyedFloors :
    (o : Outside) (f : FloorRow) (p : Package) (k : Option (List ℕ)) (rest : Option (List Keyed))
    → IfRead o KeyedFloors rest
    → IfRead o KeyedFloors (add_floor f p k rest)
add_floor-KeyedFloors o f p none rest h = tt
add_floor-KeyedFloors o f p (some k) none h = tt
add_floor-KeyedFloors o f p (some k) (some l) h = (refl, h)

module _ (o : Outside) where
  joined-KeyedFloors :
      (f : FloorRow) (found : Option Package) (rest : Option (List Keyed))
      → IfRead o KeyedFloors rest
      → IfRead o KeyedFloors
          (elim found [ none ↦ rest | some p ↦ add_floor f p (o.int_array p.version) rest ])
  joined-KeyedFloors f none rest h = h
  joined-KeyedFloors f (some p) rest h = add_floor-KeyedFloors o f p (o.int_array p.version) rest h

  keyed-KeyedFloors :
      (c : String) (packages : List Package) (rows : List FloorRow)
      → IfRead o KeyedFloors (keyed_floors o c packages rows)
  unfolding keyed_floors
  keyed-KeyedFloors c packages [] = tt
  keyed-KeyedFloors c packages (f ∷ rows) = elim (Bool-cases (f.channel_id == c)) [
    | inl here ↦ rw here (
        joined-KeyedFloors f (find (λ p. p.id == f.package_id) packages)
          (keyed_floors o c packages rows) (keyed-KeyedFloors c packages rows))
    | inr there ↦ rw there (keyed-KeyedFloors c packages rows)
  ]

  selected_floors :
      {l : List Package} (a b : Option (List ℕ)) (m : Option (List Keyed))
      → (elim a [
        | none ↦ none
        | some above ↦ elim b [
          | none ↦ none
          | some up_to ↦ elim m [
            | none ↦ none
            | some keyed ↦
                some (packages_of (take (max_floors o) (sort_keyed (between above up_to keyed))))
          ]
        ]
      ])
        ≡ some l
      → IfRead o KeyedFloors m
      → AllFloors l
  selected_floors none b m e all = absurd (none-ne-some _ e)
  selected_floors (some above) none m e all = absurd (none-ne-some _ e)
  selected_floors (some above) (some up_to) none e all = absurd (none-ne-some _ e)
  selected_floors (some above) (some up_to) (some m) e all =
      let sorted = sort_keyed (between above up_to m) in
      subst AllFloors (some-injective _ _ e) (
        take-AllFloors (max_floors o) sorted
          (sort-KeyedFloors (between above up_to m) (between-KeyedFloors above up_to m all)))

  pub required_floors-AllFloors :
      (c iv tv : String) (w : World) {l : List Package}
      → required_floors o c iv tv w ≡ some l
      → AllFloors l
  unfolding required_floors
  required_floors-AllFloors c iv tv w e =
      selected_floors (o.int_array iv) (o.int_array tv) (keyed_floors o c w.packages w.floors) e
        (keyed-KeyedFloors c w.packages w.floors)
