-- ===== src/Reads/Floors.antt =====
-- dbreads/packages_floors.go: `GetRequiredChannelFloors`.
pub mod Order
pub mod Laws
pub mod Range
pub mod Marked
use nebraska.Base.{ℕ, zero, suc, String, Bool, true, false, Option, none, some, List, [], ◌∷◌, take}
use nebraska.Base.{◌==◌, ltb, eqb, ◌&&◌, not, if◌then◌else◌}
use nebraska.Base.Exec.{Result, ok, err, Exec, pure, raise, ◌>>=◌, ◌>>◌}
use nebraska.Types.{Error, database, no_package_found, empty_instance_version, Package, Channel}
use nebraska.Db.{World, Action, FloorRow, query, find}
use nebraska.Reads.Outside.{Outside}

-- PostgreSQL's order of int arrays: by the first difference, and a prefix comes first.
unfoldable pub array_lt : List ℕ → List ℕ → Bool
array_lt [] [] = false
array_lt [] (y ∷ ys) = true
array_lt (x ∷ xs) [] = false
array_lt (x ∷ xs) (y ∷ ys) = let rest = array_lt xs ys in if ltb x y then true else eqb x y && rest

-- A package with the array that its version is ordered by.
abbrev pub Keyed : Type 0
Keyed = List ℕ × Package

-- ORDER BY the array.
unfoldable pub insert_keyed : Keyed → List Keyed → List Keyed
insert_keyed a [] = a ∷ []
insert_keyed a (b ∷ l) =
    let rest = b ∷ insert_keyed a l in if array_lt b.0 a.0 then rest else a ∷ b ∷ l

unfoldable pub sort_keyed : List Keyed → List Keyed
unfolding insert_keyed
sort_keyed [] = []
sort_keyed (a ∷ l) = insert_keyed a (sort_keyed l)

-- above < version <= up_to
unfoldable pub between : List ℕ → List ℕ → List Keyed → List Keyed
between above up_to [] = []
between above up_to (a ∷ l) =
    let rest = between above up_to l in
    if array_lt above a.0 && not (array_lt up_to a.0) then a ∷ rest else rest

unfoldable pub packages_of : List Keyed → List Package
packages_of [] = []
packages_of (a ∷ l) = a.1 ∷ packages_of l

-- DefaultMaxFloorsPerResponse
abbrev pub default_max_floors : ℕ
default_max_floors = 5

-- `p.*, true as is_floor, cpf.floor_reason`: the blacklist is not joined.
abbrev pub floor_package : FloorRow → Package → Package
floor_package f p = record p {
  channels_blacklist = [];
  is_floor = true;
  floor_reason = f.floor_reason;
}

-- The two statements of `loadPackageExtras`, for at least one package. The actions that it loads are
-- left out: a handler that sends an action looks it up again.
unfoldable pub load_package_extras : List Package → Action (List Package)
load_package_extras [] = pure []
load_package_extras (p ∷ l) = do query (λ w. ok tt); query (λ w. ok tt); pure (p ∷ l)

-- A floor and its package, before the other floors.
abbrev pub add_floor :
    FloorRow → Package → Option (List ℕ) → Option (List Keyed) → Option (List Keyed)
add_floor f p none rest = none
add_floor f p (some key) none = none
add_floor f p (some key) (some l) = some ((key, floor_package f p) ∷ l)

module _ (o : Outside) where
  -- The floors of a channel, joined with their packages; the reading of a version may fail.
  unfoldable pub keyed_floors : String → List Package → List FloorRow → Option (List Keyed)
  unfolding find
  keyed_floors channel_id packages [] = some []
  keyed_floors channel_id packages (f ∷ rows) =
      let rest = keyed_floors channel_id packages rows in
      if f.channel_id == channel_id
      then elim (find (λ p. p.id == f.package_id) packages) [
        | none ↦ rest
        | some p ↦ add_floor f p (o.int_array p.version) rest
      ]
      else rest

  unfoldable pub max_floors : ℕ
  max_floors =
      if ltb 0 o.max_floors_per_response then o.max_floors_per_response else default_max_floors

  -- What the query selects.
  unfoldable pub required_floors : String → String → String → World → Option (List Package)
  unfolding keyed_floors max_floors sort_keyed between packages_of
  required_floors channel_id instance_version target_version w =
      elim (o.int_array instance_version) [
        | none ↦ none
        | some above ↦ elim (o.int_array target_version) [
          | none ↦ none
          | some up_to ↦ elim (keyed_floors channel_id w.packages w.floors) [
            | none ↦ none
            | some l ↦ some (packages_of (take max_floors (sort_keyed (between above up_to l))))
          ]
        ]
      ]

  abbrev pub rows_or_failure : Option (List Package) → Result Error (List Package)
  rows_or_failure none = err database
  rows_or_failure (some l) = ok l

  -- `getPackagesFromQuery`.
  unfoldable pub get_packages_from_query :
      (World → Result Error (List Package)) → Action (List Package)
  get_packages_from_query rows = do l ← query rows; load_package_extras l

  unfoldable pub floors_up_to : String → String → Option Package → Action (List Package)
  floors_up_to channel_id instance_version none = raise no_package_found
  floors_up_to channel_id instance_version (some target) =
      if instance_version == ""
      then raise empty_instance_version
      else get_packages_from_query
          (λ w. rows_or_failure (required_floors channel_id instance_version target.version w))

  -- `GetRequiredChannelFloors`.
  unfoldable pub get_required_channel_floors : Channel → String → Action (List Package)
  get_required_channel_floors c instance_version = floors_up_to c.id instance_version c.pkg
