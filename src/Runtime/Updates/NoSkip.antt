-- ===== src/Runtime/Updates/NoSkip.antt =====
-- A granted update passes over no floor that its channel requires.
use mathlib.Core.Path.{subst}
use nebraska.Base.{ℕ, String, ◌≡◌, refl, sym, ◌∙◌, ap, false, some, List, [], ◌∷◌}
use nebraska.Base.{Bool-cases, Option-cases, ◌++◌, inl, inr, not, ◌==◌}
use nebraska.Base.Exec.{ok, pure, ◌>>=◌, ◌>>◌, >>=-eq-ok}
use nebraska.Types.{no_update_package_available, Instance, Group, Channel, Package}
use nebraska.Db.{World}
use nebraska.Reads.Outside.{Outside, semver_lt}
use nebraska.Reads.Floors.{array_lt, get_required_channel_floors}
use nebraska.Reads.Floors.Laws.{IsRequired, BeginsBy, no_floor_skipped}
use nebraska.Runtime.Updates.{
  with_target, last_id, get_packages_with_floors_for_update, first_of_packages, fresh_grant, offer,
  grant, contains,
}
use nebraska.Runtime.Updates.Selected.{guard_ok, pure_ok, floors_ok}

module _ (o : Outside) where
  with_target-cons :
      (f : Package) (l : List Package) (target : Package)
      → (rest : List Package) × (with_target (f ∷ l) target ≡ f ∷ rest)
  unfolding with_target
  with_target-cons f l target = elim (Option-cases (last_id (f ∷ l))) [
    | inl e ↦ (l ++ (target ∷ []), rw (with_target, e) refl)
    | inr (id, e) ↦ elim (Bool-cases (id == target.id)) [
      | inl same ↦ (l, rw (with_target, e, same) refl)
      | inr other ↦ (l ++ (target ∷ []), rw (with_target, e, other) refl)
    ]
  ]

  first_lem :
      (f p : Package) (rest : List Package) (u u' : World)
      → first_of_packages o (f ∷ rest) u ≡ (ok p, u')
      → f ≡ p
  unfolding first_of_packages
  first_lem f p rest u u' h = (pure_ok o h).0

  offer_same :
      (i : Instance) (a gid : String) (g : Group) (c : Channel) (next p : Package) (w w' : World)
      → offer o i a gid g c next w ≡ (ok p, w')
      → next ≡ p
  unfolding offer
  offer_same i a gid g c next p w w' h =
      let (_, h1) =
        guard_ok o (contains next.channels_blacklist c.id) no_update_package_available
          (do grant o i g a gid next.version; pure next) w h in
      let (_, u, granted, last) =
        >>=-eq-ok (grant o i g a gid next.version) (λ _. pure next) w h1 in
      (pure_ok o last).0

  -- The first package is the first floor, or else the target.
  first_floor :
      (floors : List Package) (target p : Package) (u u' : World) (k : List ℕ)
      → first_of_packages o (with_target floors target) u ≡ (ok p, u')
      → BeginsBy o k floors
      → BeginsBy o k (p ∷ [])
  first_floor [] target p u u' k h b = absurd b
  first_floor (f ∷ l) target p u u' k h b =
      let (rest, e) = with_target-cons f l target in
      let same =
        first_lem f p rest u u'
          (subst (λ (x : List Package). first_of_packages o x u ≡ (ok p, u')) e h) in
      subst (λ (x : Package). BeginsBy o k (x ∷ [])) same b

  -- A fresh grant, of a channel that points to its target, never passes over a floor: where a floor of
  -- the channel lies above the instance's version and not above the target's, the package that is
  -- granted is no later than that floor.
  pub fresh_grant_no_skip :
      (i : Instance) (iv a gid : String) (g : Group) (c : Channel) (target p : Package)
      (w w' : World) (k : List ℕ)
      → c.pkg ≡ some target
      → fresh_grant o i iv a gid g c target w ≡ (ok p, w')
      → IsRequired o c.id iv target.version w k
      → (key : List ℕ) × (o.int_array p.version ≡ some key) × (array_lt k key ≡ false)
  unfolding fresh_grant get_packages_with_floors_for_update
  fresh_grant_no_skip i iv a gid g c target p w w' k points h required =
      let (_, h1) =
        guard_ok o (not (semver_lt o iv target.version)) no_update_package_available
          (get_packages_with_floors_for_update o c target iv >>= λ l.
            first_of_packages o l >>= λ next. offer o i a gid g c next)
          w h in
      let (l, u, read, h2) = >>=-eq-ok _ _ w h1 in
      let (next, u1, taken, h3) = >>=-eq-ok _ _ u h2 in
      let (floors, u2, found, whole) = >>=-eq-ok (get_required_channel_floors o c iv) _ w read in
      let (listed, _) = pure_ok o whole in
      first_floor floors target p u u1 k
        (subst (λ (x : List Package). first_of_packages o x u ≡ (ok p, u1)) (sym listed)
          (taken ∙ ap (λ (x : Package). (ok x, u1)) (offer_same i a gid g c next p u1 w' h3)))
        (no_floor_skipped o c.id iv target.version w k (floors_ok o c target iv w points found)
          required)
