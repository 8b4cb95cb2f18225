-- ===== src/Runtime/Updates/Syncers.antt =====
-- What a syncer's check that is answered with packages went through.
use nebraska.Base.{String, ◌≡◌, refl, sym, ◌∙◌, ap, true, false, some, List, arith}
use nebraska.Base.{not, [], ◌∷◌, ◌++◌, ◌⊎◌, inl, inr, ◌==◌, Bool-cases, Option-cases}
use nebraska.Base.Exec.{Result, ok, pure, ◌>>=◌, ◌>>◌, >>=-eq-ok}
use nebraska.Types.{
  text, Error, no_update_package_available, Instance, InstanceApplication, Group, Channel, Package,
}
use nebraska.Db.{World}
use nebraska.Db.Keeps.{quiet}
use nebraska.Reads.Outside.{Outside, semver_lt}
use nebraska.Reads.Groups.{get_group}
use nebraska.Reads.Floors.{required_floors, get_required_channel_floors}
use nebraska.Runtime.Rollout.Policy.{IsAllowed}
use nebraska.Runtime.Sound.Handlers.{get_group-Keeps}
use nebraska.Runtime.Updates.{
  is_busy, target_of, registered, found_target, channel_and_package, any_blacklisted, contains,
  last_id, with_target, last_or, get_packages_with_floors_for_update, grant, syncer_grant,
  syncer_packages, get_update_packages_for_syncer,
}
use nebraska.Runtime.Updates.Grants.{floors_quiet, grant_any, rows_after_grant, IsAllowed-quiet}
use nebraska.Runtime.Updates.Selected.{guard_ok, pure_ok, floors_ok, floors_same, target_of-points}
use nebraska.Runtime.Updates.Checks.{registered_ok, found_ok}

appended_unlisted :
    (k : String) (l : List Package) (p : Package)
    → any_blacklisted k (l ++ (p ∷ [])) ≡ false
    → contains p.channels_blacklist k ≡ false
unfolding any_blacklisted
appended_unlisted k [] p h = ground (arith, h)
appended_unlisted k (q ∷ l) p h = appended_unlisted k l p (ground (arith, h))

target_unlisted :
    (k : String) (floors : List Package) (target : Package) (l : List Package)
    → l ≡ with_target floors target
    → any_blacklisted k l ≡ false
    → (l ≡ floors) ⊎ (contains target.channels_blacklist k ≡ false)
unfolding with_target
target_unlisted k floors target l e h = elim (Option-cases (last_id floors)) [
  | inl none_there ↦
      let whole : l ≡ floors ++ (target ∷ []) = e ∙ rw (with_target, none_there) refl in
      inr (appended_unlisted k floors target (ap (any_blacklisted k) (sym whole) ∙ h))
  | inr (id, last) ↦ elim (Bool-cases (id == target.id)) [
    | inl same ↦ inl (e ∙ rw (with_target, last, same) refl)
    | inr other ↦
        let whole : l ≡ floors ++ (target ∷ []) = e ∙ rw (with_target, last, other) refl in
        inr (appended_unlisted k floors target (ap (any_blacklisted k) (sym whole) ∙ h))
  ]
]

module _ (o : Outside) where
  syncer_grant_ok :
      (i : Instance) (a gid : String) (g : Group) (c : Channel) (target : Package)
      (l m : List Package) (w w' : World)
      → syncer_grant o i a gid g c target l w ≡ (ok m, w')
      → (l ≡ m)
        × (any_blacklisted c.id l ≡ false)
        × IsAllowed o g w
        × (w'.instance_apps ≡ rows_after_grant i w.now (last_or target l).version w.instance_apps)
  unfolding syncer_grant
  syncer_grant_ok i a gid g c target l m w w' h =
      let (listed, h1) =
        guard_ok o (any_blacklisted c.id l) no_update_package_available
          (do grant o i g a gid (last_or target l).version; pure l) w h in
      let (_, u, granted, last) =
        >>=-eq-ok (grant o i g a gid (last_or target l).version) (λ _. pure l) w h1 in
      let (same_l, same_w) = pure_ok o last in
      let (allowed, rows) = grant_any o i g a gid (last_or target l).version w u granted in
      (same_l, listed, allowed, ap World.instance_apps (sym same_w) ∙ rows)

  syncer_packages_ok :
      (i : Instance) (iv a gid : String) (g : Group) (c : Channel) (target : Package)
      (l : List Package) (w w' : World)
      → c.pkg ≡ some target
      → syncer_packages o i iv a gid g c target w ≡ (ok l, w')
      → (floors : List Package) × (semver_lt o iv target.version ≡ true)
        × (required_floors o c.id iv target.version w ≡ some floors)
        × (l ≡ with_target floors target)
        × ((l ≡ floors) ⊎ (contains target.channels_blacklist c.id ≡ false))
        × IsAllowed o g w
        × (w'.instance_apps ≡ rows_after_grant i w.now (last_or target l).version w.instance_apps)
  unfolding syncer_packages get_packages_with_floors_for_update
  syncer_packages_ok i iv a gid g c target l w w' points h =
      let (older, h1) =
        guard_ok o (not (semver_lt o iv target.version)) no_update_package_available
          (get_packages_with_floors_for_update o c target iv >>= λ m.
            syncer_grant o i a gid g c target m)
          w h in
      let (m, u, read, h2) = >>=-eq-ok (get_packages_with_floors_for_update o c target iv) _ w h1 in
      let (floors, t, found, whole) = >>=-eq-ok (get_required_channel_floors o c iv) _ w read in
      let (same_l, listed, allowed, rows) = syncer_grant_ok i a gid g c target m l u w' h2 in
      let same : quiet u ≡ quiet w =
        ap quiet (sym (ap (λ (x : Result Error (List Package) × World). x.1) read))
        ∙ floors_quiet o c target iv w in
      (
        floors,
        ground (arith, older),
        floors_ok o c target iv w points found,
        sym same_l ∙ sym (pure_ok o whole).0,
        target_unlisted c.id floors target l (sym same_l ∙ sym (pure_ok o whole).0)
            (ap (any_blacklisted c.id) (sym same_l) ∙ listed),
        IsAllowed-quiet o g same allowed,
        rows
            ∙ ap
                (λ (q : List Package).
                  rows_after_grant i u.now (last_or target q).version u.instance_apps)
                same_l
            ∙ ap
                (λ (x : World). rows_after_grant i x.now (last_or target l).version x.instance_apps)
                same,
      )

  -- How a syncer's check is answered with packages.
  pub record IsSynced (given : Instance) (app : InstanceApplication) (l : List Package)
      (w w' : World) : Type 0 where
    pub instance : Instance
    pub after : World
    pub g : Group
    pub c : Channel
    pub target : Package
    pub floors : List Package
    pub stored : registered o given app w ≡ (ok instance, after)
    pub idle : is_busy instance.application.status ≡ false
    pub read : (get_group (text app.group_id) after).0 ≡ ok g
    pub points : target_of g ≡ some (c, target)
    pub ahead : semver_lt o app.version target.version ≡ true
    pub selected : required_floors o c.id app.version target.version after ≡ some floors
    pub complete : l ≡ with_target floors target
    pub unlisted : (l ≡ floors) ⊎ (contains target.channels_blacklist c.id ≡ false)
    pub allowed : IsAllowed o g after
    pub rows :
        w'.instance_apps
        ≡ rows_after_grant instance after.now (last_or target l).version after.instance_apps

  -- A syncer's check answered with packages: the instance, as it was registered, was in none of the
  -- statuses of a running update, the target of its group's channel is ahead of its version, and the
  -- group's policy allowed the update. The packages are the floors that the query selects for that
  -- channel, in its order, followed by the target unless the last floor is the target; a target that
  -- is appended is not on the channel's blacklist, while the blacklists of floors are not looked at. The row of the instance is written as granted with the version of the
  -- last package, unless it was granted already: then no row is written.
  pub get_update_packages_for_syncer-IsSynced :
      (given : Instance) (app : InstanceApplication) (l : List Package) (w w' : World)
      → get_update_packages_for_syncer o given app w ≡ (ok l, w')
      → IsSynced given app l w w'
  unfolding get_update_packages_for_syncer channel_and_package
  get_update_packages_for_syncer-IsSynced given app l w w' h =
      let (x, u, stored, h1) = >>=-eq-ok (registered o given app) _ w h in
      let (g, v, read, h2) = >>=-eq-ok (get_group (text app.group_id)) _ u h1 in
      let (ct, v', found, h3) =
        >>=-eq-ok (found_target o app.application_id (text app.group_id) (target_of g)) _ v h2 in
      let (points, same_v) =
        found_ok o app.application_id (text app.group_id) (target_of g) v v' found in
      let same : quiet v' ≡ quiet u =
        ap quiet same_v
        ∙ ap quiet (sym (ap (λ (q : Result Error Group × World). q.1) read))
        ∙ (get_group-Keeps {P = λ q. q ≡ quiet u} (text app.group_id)).at u refl in
      let (floors, ahead, selected, complete, listed, allowed, rows) =
        syncer_packages_ok x app.version app.application_id (text app.group_id) g ct.0 ct.1 l v' w'
          (target_of-points g points) h3 in
      record {
        instance = x;
        after = u;
        g = g;
        c = ct.0;
        target = ct.1;
        floors = floors;
        stored = stored;
        idle = registered_ok o given app w u stored;
        read = ap (λ (q : Result Error Group × World). q.0) read;
        points = points;
        ahead = ahead;
        selected = sym (floors_same o ct.0.id app.version ct.1.version v' u same) ∙ selected;
        complete = complete;
        unlisted = listed;
        allowed = IsAllowed-quiet o g same allowed;
        rows =
            rows
            ∙ ap (λ (q : World). rows_after_grant x q.now (last_or ct.1 l).version q.instance_apps)
                same;
      }
