-- ===== src/Runtime/Updates/Checks.antt =====
-- What an update check that is answered with a package went through.
use nebraska.Base.{
  String, ◌≡◌, refl, sym, ◌∙◌, ap, Bool, true, false, Option, none, some, List, arith, ◌⊎◌,
}
use nebraska.Base.{Bool-cases, inl, inr, if◌then◌else◌, not, ◌==◌}
use nebraska.Base.Exec.{Result, ok, pure, ◌>>=◌, >>=-eq-ok}
use nebraska.Types.{
  text, Error, update_in_progress_on_instance, register_instance_failed, Instance,
  InstanceApplication, Group, Channel, Package,
}
use nebraska.Db.{World, Action, attempt, relabel}
use nebraska.Db.Keeps.{quiet}
use nebraska.Reads.Outside.{Outside, semver_lt}
use nebraska.Reads.Groups.{get_group}
use nebraska.Runtime.Instances.{register_instance}
use nebraska.Runtime.Rollout.Policy.{IsAllowed}
use nebraska.Runtime.Sound.Handlers.{get_group-Keeps}
use nebraska.Runtime.Updates.{
  contains, is_busy, is_granted, target_of, registered, found_target, channel_and_package,
  complete_grant, already_granted, get_packages_with_floors_for_update, first_of_packages,
  fresh_grant, get_update_package,
}
use nebraska.Runtime.Updates.Selected.{guard_ok, pure_ok, IsNext, IsNext-quiet, target_of-points}
use nebraska.Runtime.Updates.Grants.{
  first_ok, floors_quiet, granted_rows, fresh_grant_ok, IsAllowed-quiet,
}

module _ (o : Outside) where
  -- The instance as it was registered, the group as it was read then, and which way was taken.
  pub record IsAnswered (given : Instance) (app : InstanceApplication) (p : Package) (w w' : World)
      : Type 0 where
    pub instance : Instance
    pub after : World
    pub g : Group
    pub c : Channel
    pub target : Package
    pub stored : registered o given app w ≡ (ok instance, after)
    pub idle : is_busy instance.application.status ≡ false
    pub read : (get_group (text app.group_id) after).0 ≡ ok g
    pub points : target_of g ≡ some (c, target)
    pub way :
        ((is_granted instance.application.status ≡ true)
          × (semver_lt o app.version (text instance.application.last_update_version) ≡ true)
          × (contains target.channels_blacklist c.id ≡ false)
          × (quiet w' ≡ quiet after))
        ⊎ ((is_granted instance.application.status ≡ false)
            × (semver_lt o app.version target.version ≡ true)
            × IsNext o c app.version target p after
            × IsAllowed o g after
            × (w'.instance_apps ≡ granted_rows instance after.now p.version after.instance_apps))

  pub registered_ok :
      (i : Instance) (a : InstanceApplication) (w u : World) {x : Instance}
      → registered o i a w ≡ (ok x, u)
      → is_busy x.application.status ≡ false
  unfolding registered
  registered_ok i a w u h =
      let (y, v, stored, rest) =
        >>=-eq-ok (relabel register_instance_failed (register_instance o i a)) _ w h in
      let (idle, last) =
        guard_ok o (is_busy y.application.status) update_in_progress_on_instance (pure y) v rest in
      ap (λ (z : Instance). is_busy z.application.status) (sym (pure_ok o last).0) ∙ idle

  pub found_ok :
      (a g : String) (t : Option (Channel × Package)) (w u : World) {x : Channel × Package}
      → found_target o a g t w ≡ (ok x, u)
      → (t ≡ some x) × (u ≡ w)
  unfolding found_target attempt ◌>>=◌
  found_ok a g none w u h = ground arith
  found_ok a g (some t) w u h = let (e, f) = pure_ok o h in (ap some e, sym f)

  complete_fails : (i : Instance) (w u : World) {p : Package} → complete_grant o i w ≡ (ok p, u) → ⊥
  unfolding complete_grant attempt ◌>>=◌
  complete_fails i w u h = ground arith

  not_completed :
      (i : Instance) (b : Bool) (m : Action Package) (w u : World) {p : Package}
      → (if b then complete_grant o i else m) w ≡ (ok p, u)
      → (b ≡ false) × (m w ≡ (ok p, u))
  not_completed i true m w u h = absurd (complete_fails i w u h)
  not_completed i false m w u h = (refl, h)

  already_granted_ok :
      (i : Instance) (iv : String) (c : Channel) (target p : Package) (w u : World)
      → already_granted o i iv c target w ≡ (ok p, u)
      → (semver_lt o iv (text i.application.last_update_version) ≡ true)
        × (contains target.channels_blacklist c.id ≡ false)
        × (quiet u ≡ quiet w)
  unfolding already_granted
  already_granted_ok i iv c target p w u h =
      let next : Action Package =
        get_packages_with_floors_for_update o c target iv >>= first_of_packages o in
      let seen = text i.application.last_update_version in
      let (listed, h1) =
        not_completed i (contains target.channels_blacklist c.id)
          (if seen == ""
            then complete_grant o i
            else if not (semver_lt o iv seen)
            then complete_grant o i
            else next)
          w u h in
      let (_, h2) =
        not_completed i (seen == "")
          (if not (semver_lt o iv seen) then complete_grant o i else next) w u h1 in
      let (older, h3) = not_completed i (not (semver_lt o iv seen)) next w u h2 in
      let (l, v, read, taken) =
        >>=-eq-ok (get_packages_with_floors_for_update o c target iv) (first_of_packages o) w h3 in
      (
        ground (arith, older),
        listed,
        ap quiet (first_ok o l v taken)
            ∙ ap quiet (sym (ap (λ (x : Result Error (List Package) × World). x.1) read))
            ∙ floors_quiet o c target iv w,
      )

  -- The last part of an update check, from tables as they were after the registration.
  way_ok :
      (x : Instance) (iv a gid : String) (g : Group) (c : Channel) (target p : Package)
      (after v w' : World)
      → c.pkg ≡ some target
      → quiet v ≡ quiet after
      → (if is_granted x.application.status
            then already_granted o x iv c target
            else fresh_grant o x iv a gid g c target)
          v
        ≡ (ok p, w')
      → ((is_granted x.application.status ≡ true)
          × (semver_lt o iv (text x.application.last_update_version) ≡ true)
          × (contains target.channels_blacklist c.id ≡ false)
          × (quiet w' ≡ quiet after))
        ⊎ ((is_granted x.application.status ≡ false)
            × (semver_lt o iv target.version ≡ true)
            × IsNext o c iv target p after
            × IsAllowed o g after
            × (w'.instance_apps ≡ granted_rows x after.now p.version after.instance_apps))
  way_ok x iv a gid g c target p after v w' points same h =
      elim (Bool-cases (is_granted x.application.status)) [
        | inl held ↦
            let (ahead, listed, unchanged) =
              already_granted_ok x iv c target p v w' (rw held at h) in
            inl (held, ahead, listed, unchanged ∙ same)
        | inr free ↦
            let (ahead, next, allowed, rows) =
              fresh_grant_ok o x iv a gid g c target p v w' points free (rw free at h) in
            inr (
              free,
              ahead,
              IsNext-quiet o c iv target p v after same next,
              IsAllowed-quiet o g same allowed,
              rows ∙ ap (λ (q : World). granted_rows x q.now p.version q.instance_apps) same,
            )
      ]

  -- An update check answered with a package: the instance, as it was registered, was in none of the
  -- statuses of a running update, and its group's channel points to a package. Either an update had
  -- been granted, its version is still ahead of the instance's, the target is not on the channel's
  -- blacklist, and the answer changed no table after the registration; or none had been granted, the
  -- target is ahead of the instance's version, and the package is the first of the floors that the
  -- query selects or, where it selects none, the target, which is then not on the channel's blacklist;
  -- the group's policy allowed the update, and the row of the instance was written as granted. The
  -- blacklist of a floor is not looked at.
  pub get_update_package-IsAnswered :
      (given : Instance) (app : InstanceApplication) (p : Package) (w w' : World)
      → get_update_package o given app w ≡ (ok p, w')
      → IsAnswered given app p w w'
  unfolding get_update_package channel_and_package
  get_update_package-IsAnswered given app p w w' h =
      let (x, u, stored, h1) = >>=-eq-ok (registered o given app) _ w h in
      let (g, v, read, h2) = >>=-eq-ok (get_group (text app.group_id)) _ u h1 in
      let (ct, v', found, h3) =
        >>=-eq-ok (found_target o app.application_id (text app.group_id) (target_of g)) _ v h2 in
      let (points, same_v) =
        found_ok app.application_id (text app.group_id) (target_of g) v v' found in
      let same : quiet v' ≡ quiet u =
        ap quiet same_v
        ∙ ap quiet (sym (ap (λ (q : Result Error Group × World). q.1) read))
        ∙ (get_group-Keeps {P = λ q. q ≡ quiet u} (text app.group_id)).at u refl in
      record {
        instance = x;
        after = u;
        g = g;
        c = ct.0;
        target = ct.1;
        stored = stored;
        idle = registered_ok given app w u stored;
        read = ap (λ (q : Result Error Group × World). q.0) read;
        points = points;
        way =
            way_ok x app.version app.application_id (text app.group_id) g ct.0 ct.1 p u v' w'
              (target_of-points g points) same h3;
      }
