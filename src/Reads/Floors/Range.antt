-- ===== src/Reads/Floors/Range.antt =====
-- `GetRequiredChannelFloors`: how many floors it returns, and in which range.
use mathlib.Core.Path.{subst}
use mathlib.Core.Option.{some-injective, none-ne-some}
use nebraska.Base.{
  ℕ, zero, suc, ◌≤◌, String, ◌≡◌, sym, ◌∙◌, true, false, Option, none, some, List, [], ◌∷◌, take,
  length,
}
use nebraska.Base.{arith, ◌&&◌, not, Bool-cases, inl, inr}
use nebraska.Types.{Package}
use nebraska.Db.{World}
use nebraska.Reads.Outside.{Outside}
use nebraska.Reads.Floors.{
  array_lt, Keyed, insert_keyed, sort_keyed, between, packages_of, keyed_floors, required_floors,
  max_floors,
}
use nebraska.Reads.Floors.Laws.{AllKeyed, IfRead, keyed-AllKeyed, read_keys}

length-take-le : (n : ℕ) (l : List Keyed) → length (packages_of (take n l)) ≤ n
unfolding packages_of
length-take-le zero l = omega arith
length-take-le (suc n) [] = omega arith
length-take-le (suc n) (a ∷ l) = omega (arith, length-take-le n l)

module _ (o : Outside) (above up_to : List ℕ) where
  -- A version that lies above the one array and not above the other.
  pub record InRange (p : Package) : Type 0 where
    pub key : List ℕ
    pub keyed : o.int_array p.version ≡ some key
    pub later : array_lt above key ≡ true
    pub within : array_lt up_to key ≡ false

  abbrev AllKeyedIn : List Keyed → Type 0
  AllKeyedIn [] = Unit
  AllKeyedIn (a ∷ l) = InRange a.1 × AllKeyedIn l

  abbrev pub AllInRange : List Package → Type 0
  AllInRange [] = Unit
  AllInRange (p ∷ l) = InRange p × AllInRange l

  between-AllKeyedIn : (l : List Keyed) → AllKeyed o l → AllKeyedIn (between above up_to l)
  unfolding between
  between-AllKeyedIn [] h = tt
  between-AllKeyedIn (a ∷ l) h =
      elim (Bool-cases (array_lt above a.0 && not (array_lt up_to a.0))) [
        | inl inside ↦ rw inside (
          record {
            key = a.0;
            keyed = h.0;
            later = ground (arith, inside);
            within = ground (arith, inside);
          },
          between-AllKeyedIn l h.1,
        )
        | inr outside ↦ rw outside (between-AllKeyedIn l h.1)
      ]

  insert-AllKeyedIn :
      (a : Keyed) (l : List Keyed) → InRange a.1 → AllKeyedIn l → AllKeyedIn (insert_keyed a l)
  unfolding insert_keyed
  insert-AllKeyedIn a [] k h = (k, tt)
  insert-AllKeyedIn a (b ∷ l) k h = elim (Bool-cases (array_lt b.0 a.0)) [
    | inl below ↦ rw below (h.0, insert-AllKeyedIn a l k h.1)
    | inr over ↦ rw over (k, h)
  ]

  sort-AllKeyedIn : (l : List Keyed) → AllKeyedIn l → AllKeyedIn (sort_keyed l)
  unfolding sort_keyed
  sort-AllKeyedIn [] h = tt
  sort-AllKeyedIn (a ∷ l) h = insert-AllKeyedIn a (sort_keyed l) h.0 (sort-AllKeyedIn l h.1)

  take-AllInRange : (n : ℕ) (l : List Keyed) → AllKeyedIn l → AllInRange (packages_of (take n l))
  unfolding packages_of
  take-AllInRange zero l h = tt
  take-AllInRange (suc n) [] h = tt
  take-AllInRange (suc n) (a ∷ l) h = (h.0, take-AllInRange n l h.1)

  selected_range :
      {l : List Package} (m : Option (List Keyed))
      → (elim m [
        | none ↦ none
        | some keyed ↦
            some (packages_of (take (max_floors o) (sort_keyed (between above up_to keyed))))
      ])
        ≡ some l
      → IfRead o (AllKeyed o) m
      → AllInRange l × (length l ≤ max_floors o)
  selected_range none e all = absurd (none-ne-some _ e)
  selected_range (some m) e all =
      let sorted = sort_keyed (between above up_to m) in
      subst (λ (x : List Package). AllInRange x × (length x ≤ max_floors o)) (some-injective _ _ e)
        (
          take-AllInRange (max_floors o) sorted
              (sort-AllKeyedIn (between above up_to m) (between-AllKeyedIn m all)),
          length-take-le (max_floors o) sorted,
        )

  -- Where the query succeeds, for versions that PostgreSQL reads as these arrays, each package that it
  -- selects lies above the instance's version and not above the target's, and there are no more of them
  -- than the configured limit.
  pub required_floors-AllInRange :
      (c iv tv : String) (w : World) {l : List Package}
      → o.int_array iv ≡ some above
      → o.int_array tv ≡ some up_to
      → required_floors o c iv tv w ≡ some l
      → AllInRange l × (length l ≤ max_floors o)
  required_floors-AllInRange c iv tv w from to e =
      selected_range (keyed_floors o c w.packages w.floors)
        (sym (read_keys o c iv tv w above up_to from to) ∙ e)
        (keyed-AllKeyed o c w.packages w.floors)
