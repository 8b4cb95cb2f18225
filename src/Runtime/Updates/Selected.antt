-- ===== src/Runtime/Updates/Selected.antt =====
-- What succeeded calls that read the floors returned.
use mathlib.Core.Path.{subst}
use nebraska.Base.{String, ◌≡◌, refl, sym, ◌∙◌, ap, true, false, Option, some, List, [], ◌∷◌, arith}
use nebraska.Base.{◌==◌, Bool, if◌then◌else◌}
use nebraska.Base.Exec.{ok, pure, raise, ◌>>=◌, >>=-eq-ok}
use nebraska.Types.{Error, Group, empty_instance_version, Group, Channel, Package}
use nebraska.Db.{World, Action, query}
use nebraska.Reads.Outside.{Outside}
use nebraska.Reads.Floors.{
  required_floors, rows_or_failure, load_package_extras, get_packages_from_query, floors_up_to,
  get_required_channel_floors,
}
use nebraska.Runtime.Updates.{
  with_target, last_id, get_packages_with_floors_for_update, first_of_packages, contains, target_of,
}
use nebraska.Db.Keeps.{quiet}

load_ok :
    (l : List Package) (w : World) {m : List Package} {u : World}
    → load_package_extras l w ≡ (ok m, u)
    → l ≡ m
unfolding load_package_extras query ◌>>=◌
load_ok [] w h = ground arith
load_ok (p ∷ l) w h = ground arith

module _ (o : Outside) where
  -- A test before an action that succeeded was passed, and a last action that returns its argument.
  pub guard_ok :
      {A : Type 0} (b : Bool) (e : Error) (m : Action A) (w : World) {a : A} {w' : World}
      → (if b then raise e else m) w ≡ (ok a, w')
      → (b ≡ false) × (m w ≡ (ok a, w'))
  guard_ok true e m w h = ground arith
  guard_ok false e m w h = (refl, h)

  pub pure_ok :
      {A : Type 0} {a b : A} {w w' : World} → pure {E = Error} a w ≡ (ok b, w') → (a ≡ b) × (w ≡ w')
  pure_ok h = ground arith

  query_ok :
      (rows : World → Option (List Package)) (w : World) {l : List Package} {u : World}
      → query (λ v. rows_or_failure o (rows v)) w ≡ (ok l, u)
      → rows w ≡ some l
  unfolding query
  query_ok rows w h = ground arith

  floors_up_to_ok :
      (c iv : String) (target : Package) (w : World) {l : List Package} {u : World}
      → floors_up_to o c iv (some target) w ≡ (ok l, u)
      → required_floors o c iv target.version w ≡ some l
  unfolding floors_up_to get_packages_from_query
  floors_up_to_ok c iv target w h =
      let rows = required_floors o c iv target.version in
      let (_, h1) =
        guard_ok (iv == "") empty_instance_version
          (query (λ v. rows_or_failure o (rows v)) >>= load_package_extras) w h in
      let (m, u, read, rest) =
        >>=-eq-ok (query (λ v. rows_or_failure o (rows v))) load_package_extras w h1 in
      query_ok rows w read ∙ ap some (load_ok m u rest)

  -- The floors that a successful call returns are those that the query selects.
  pub floors_ok :
      (c : Channel) (target : Package) (iv : String) (w : World) {l : List Package} {u : World}
      → c.pkg ≡ some target
      → get_required_channel_floors o c iv w ≡ (ok l, u)
      → required_floors o c.id iv target.version w ≡ some l
  unfolding get_required_channel_floors
  floors_ok c target iv w {l} {u} points h =
      floors_up_to_ok c.id iv target w
        (subst (λ (x : Option Package). floors_up_to o c.id iv x w ≡ (ok l, u)) points h)

  -- The floors depend on the tables only.
  pub floors_same :
      (c iv tv : String) (u w : World)
      → quiet u ≡ quiet w
      → required_floors o c iv tv u ≡ required_floors o c iv tv w
  unfolding required_floors
  floors_same c iv tv u w e = ap (required_floors o c iv tv) e

cons_first : {p q : Package} {l m : List Package} → ◌≡◌ {A = List Package} (p ∷ l) (q ∷ m) → p ≡ q
cons_first h = cc

next_unlisted :
    (id : String) (floors rest : List Package) (target p : Package)
    → with_target floors target ≡ p ∷ rest
    → contains p.channels_blacklist id ≡ false
    → floors ≡ []
    → contains target.channels_blacklist id ≡ false
unfolding with_target last_id
next_unlisted id [] rest target p h n e =
    rw (ap (λ (x : Package). contains x.channels_blacklist id) (cons_first h)) n
next_unlisted id (f ∷ l) rest target p h n e = absurd (cc)

module _ (o : Outside) where
  -- The package that is offered: the first of the floors that the query selects or, where there is
  -- none, the target, which is then not kept from the channel. A floor is read without a blacklist.
  pub record IsNext (c : Channel) (iv : String) (target p : Package) (w : World) : Type 0 where
    pub floors : List Package
    pub rest : List Package
    pub selected : required_floors o c.id iv target.version w ≡ some floors
    pub first : with_target floors target ≡ p ∷ rest
    pub unlisted : floors ≡ [] → contains target.channels_blacklist c.id ≡ false

  first_cons :
      (l : List Package) (u u' : World) {p : Package}
      → first_of_packages o l u ≡ (ok p, u')
      → (rest : List Package) × (l ≡ p ∷ rest)
  unfolding first_of_packages
  first_cons [] u u' h = absurd (cc)
  first_cons (q ∷ l) u u' h = (l, ap (λ (x : Package). x ∷ l) (pure_ok o h).0)

  pub first_selected :
      (c : Channel) (iv : String) (target p : Package) (l : List Package) (w u u' : World)
      → c.pkg ≡ some target
      → get_packages_with_floors_for_update o c target iv w ≡ (ok l, u)
      → first_of_packages o l u ≡ (ok p, u')
      → contains p.channels_blacklist c.id ≡ false
      → IsNext c iv target p w
  unfolding get_packages_with_floors_for_update
  first_selected c iv target p l w u u' points read taken listed =
      let (floors, t, found, whole) = >>=-eq-ok (get_required_channel_floors o c iv) _ w read in
      let (rest, e) = first_cons l u u' taken in
      let first = (pure_ok o whole).0 ∙ e in
      record {
        floors = floors;
        rest = rest;
        selected = floors_ok o c target iv w points found;
        first = first;
        unlisted = next_unlisted c.id floors rest target p first listed;
      }

  pub IsNext-quiet :
      (c : Channel) (iv : String) (target p : Package) (u w : World)
      → quiet u ≡ quiet w
      → IsNext c iv target p u
      → IsNext c iv target p w
  IsNext-quiet c iv target p u w e n = record {
    floors = n.floors;
    rest = n.rest;
    selected = sym (floors_same o c.id iv target.version u w e) ∙ n.selected;
    first = n.first;
    unlisted = n.unlisted;
  }

pub target_of-points :
    (g : Group) {c : Channel} {target : Package}
    → target_of g ≡ some (c, target)
    → c.pkg ≡ some target
unfolding target_of
target_of-points g e = ground arith
