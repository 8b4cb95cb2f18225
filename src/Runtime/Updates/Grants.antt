-- ===== src/Runtime/Updates/Grants.antt =====
-- What a fresh grant rests on, and what it writes.
use mathlib.Core.Path.{subst}
use nebraska.Base.{
  ℕ, String, ◌≡◌, refl, sym, ◌∙◌, ap, Bool, true, false, some, List, [], ◌∷◌, arith,
}
use nebraska.Base.{if◌then◌else◌, not}
use nebraska.Base.Exec.{Result, ok, pure, ◌>>=◌, ◌>>◌, >>=-eq-ok}
use nebraska.Types.{
  Error, no_update_package_available, Instance, InstanceApplication, Group, Channel, Package,
}
use nebraska.Db.{World, Action, relabel, exec, update_where}
use nebraska.Db.Keeps.{Keeps, quiet, keeps_rules, Keeps-exec-some}
use nebraska.Reads.Outside.{Outside, semver_lt}
use nebraska.Reads.Stats.{updates_stats}
use nebraska.Runtime.Groups.{set_group_rollout_in_progress}
use nebraska.Runtime.Activity.{new_group_activity_entry}
use nebraska.Runtime.Instances.{
  update_instance_data, grant_update, write_changes, settle, apply_changes, same_row,
}
use nebraska.Runtime.Rollout.Policy.{IsAllowed, enforce_ok}
use nebraska.Runtime.Sound.{grant_change}
use nebraska.Runtime.Sound.Handlers.{floors-Keeps, recent-Keeps}
use nebraska.Runtime.Updates.Selected.{guard_ok, pure_ok, IsNext, first_selected}
use nebraska.Runtime.Updates.{
  contains, is_granted, get_packages_with_floors_for_update, first_of_packages, record_rollout,
  grant, fresh_grant, offer,
}

-- The rows of instance_application after a grant to one instance.
abbrev pub granted_rows :
    Instance → ℕ → String → List InstanceApplication → List InstanceApplication
granted_rows i now version =
    update_where (same_row i.id i.application.application_id)
      (apply_changes (settle (grant_change now version)))

-- An instance that had been granted an update keeps its row: the status would not change.
abbrev pub rows_after_grant :
    Instance → ℕ → String → List InstanceApplication → List InstanceApplication
rows_after_grant i now version l =
    if is_granted i.application.status then l else granted_rows i now version l

abbrev RowsAre : List InstanceApplication → World → Type 0
RowsAre l w = w.instance_apps ≡ l

module _ (l : List InstanceApplication) where
  activity-RowsAre :
      (c s : ℕ) (v a g : String) → Keeps (RowsAre l) (new_group_activity_entry c s v a g)
  unfolding new_group_activity_entry
  activity-RowsAre c s v a g = Keeps-exec-some _ (λ w h. h)

  rollout-RowsAre : (g : String) (b : Bool) → Keeps (RowsAre l) (set_group_rollout_in_progress g b)
  unfolding set_group_rollout_in_progress
  rollout-RowsAre g b = Keeps-exec-some _ (λ w h. h)

module _ (o : Outside) where
  record_rollout-RowsAre :
      (l : List InstanceApplication) (v a g : String) (r : Group)
      → Keeps (RowsAre l) (record_rollout o v a g r)
  unfolding record_rollout
  record_rollout-RowsAre l v a g r =
      search (keeps_rules, recent-Keeps, activity-RowsAre, rollout-RowsAre) depth 8

  -- Whether a policy allows an update does not depend on which statements will fail.
  pub IsAllowed-quiet :
      (g : Group) {u w : World} → quiet u ≡ quiet w → IsAllowed o g u → IsAllowed o g w
  unfolding updates_stats
  IsAllowed-quiet g {u} {w} e a =
      let moved : IsAllowed o g (quiet w) =
        subst (IsAllowed o g) e
          (record { enabled = a.enabled; in_hours = a.in_hours; below = a.below }) in
      record { enabled = moved.enabled; in_hours = moved.in_hours; below = moved.below }

  -- A grant that succeeds has written the row of its instance, unless it had been granted before.
  grant_update_ok :
      (i : Instance) (v : String) (w w' : World)
      → grant_update o i v w ≡ (ok tt, w')
      → w'.instance_apps ≡ rows_after_grant i w.now v w.instance_apps
  unfolding grant_update update_instance_data exec write_changes is_granted ◌>>=◌
  grant_update_ok i v w w' h = ground arith

  relabel_ok :
      {A : Type 0} (e : Error) (m : Action A) (w : World) {a : A} {w' : World}
      → relabel e m w ≡ (ok a, w')
      → m w ≡ (ok a, w')
  unfolding relabel
  relabel_ok e m w h = ground arith

  pub grant_any :
      (i : Instance) (g : Group) (a gid v : String) (w w' : World)
      → grant o i g a gid v w ≡ (ok tt, w')
      → IsAllowed o g w × (w'.instance_apps ≡ rows_after_grant i w.now v w.instance_apps)
  unfolding grant
  grant_any i g a gid v w w' h =
      let (_, u, allowed, rest) = >>=-eq-ok _ _ w h in
      let (_, t, written, recorded) = >>=-eq-ok _ _ u rest in
      let (policy, same) = enforce_ok o i g w u allowed in
      (
        policy,
        ap World.instance_apps (sym (ap (λ (p : Result Error Unit × World). p.1) recorded))
            ∙ (record_rollout-RowsAre (t.instance_apps) v a gid g).at t refl
            ∙ grant_update_ok i v u t (relabel_ok _ _ u written)
            ∙ ap (λ (x : World). rows_after_grant i x.now v x.instance_apps) same,
      )

  grant_ok :
      (i : Instance) (g : Group) (a gid v : String) (w w' : World)
      → is_granted i.application.status ≡ false
      → grant o i g a gid v w ≡ (ok tt, w')
      → IsAllowed o g w × (w'.instance_apps ≡ granted_rows i w.now v w.instance_apps)
  grant_ok i g a gid v w w' fresh h =
      let (allowed, rows) = grant_any i g a gid v w w' h in (allowed, rows ∙ rw fresh refl)

  -- Reading the floors changes no table.
  pub floors_quiet :
      (c : Channel) (target : Package) (v : String) (w : World)
      → quiet (get_packages_with_floors_for_update o c target v w).1 ≡ quiet w
  unfolding get_packages_with_floors_for_update
  floors_quiet c target v w =
      let kept : Keeps (λ x. x ≡ quiet w) (get_packages_with_floors_for_update o c target v) =
        search (keeps_rules, floors-Keeps) depth 8 in
      kept.at w refl

  pub first_ok :
      (l : List Package) (w : World) {p : Package} {w' : World}
      → first_of_packages o l w ≡ (ok p, w')
      → w' ≡ w
  unfolding first_of_packages
  first_ok [] w h = ground arith
  first_ok (p ∷ l) w h = ground arith

  offer_ok :
      (i : Instance) (a gid : String) (g : Group) (c : Channel) (next p : Package) (w w' : World)
      → is_granted i.application.status ≡ false
      → offer o i a gid g c next w ≡ (ok p, w')
      → (next ≡ p)
        × (contains p.channels_blacklist c.id ≡ false)
        × IsAllowed o g w
        × (w'.instance_apps ≡ granted_rows i w.now p.version w.instance_apps)
  unfolding offer
  offer_ok i a gid g c next p w w' fresh h =
      let (listed, h1) =
        guard_ok o (contains next.channels_blacklist c.id) no_update_package_available
          (do grant o i g a gid next.version; pure next) w h in
      let (_, u, granted, last) =
        >>=-eq-ok (grant o i g a gid next.version) (λ _. pure next) w h1 in
      let (same_p, same_w) = pure_ok o last in
      let (allowed, rows) = grant_ok i g a gid next.version w u fresh granted in
      (
        same_p,
        rw (sym same_p) listed,
        allowed,
        ap World.instance_apps (sym same_w)
            ∙ rows
            ∙ ap (λ (x : Package). granted_rows i w.now x.version w.instance_apps) same_p,
      )

  pub fresh_grant_ok :
      (i : Instance) (iv a gid : String) (g : Group) (c : Channel) (target p : Package)
      (w w' : World)
      → c.pkg ≡ some target
      → is_granted i.application.status ≡ false
      → fresh_grant o i iv a gid g c target w ≡ (ok p, w')
      → (semver_lt o iv target.version ≡ true)
        × IsNext o c iv target p w
        × IsAllowed o g w
        × (w'.instance_apps ≡ granted_rows i w.now p.version w.instance_apps)
  unfolding fresh_grant
  fresh_grant_ok i iv a gid g c target p w w' points fresh h =
      let (older, h1) =
        guard_ok o (not (semver_lt o iv target.version)) no_update_package_available
          (get_packages_with_floors_for_update o c target iv >>= λ l.
            first_of_packages o l >>= λ next. offer o i a gid g c next)
          w h in
      let (l, u, read, h2) = >>=-eq-ok _ _ w h1 in
      let (next, u1, taken, h3) = >>=-eq-ok _ _ u h2 in
      let (same_p, listed, allowed, rows) = offer_ok i a gid g c next p u1 w' fresh h3 in
      let same : quiet u1 ≡ quiet w =
        ap quiet (first_ok l u taken)
        ∙ ap quiet (sym (ap (λ (x : Result Error (List Package) × World). x.1) read))
        ∙ floors_quiet c target iv w in
      (
        ground (arith, older),
        first_selected o c iv target p l w u u1 points read
            (subst (λ (x : Package). first_of_packages o l u ≡ (ok x, u1)) same_p taken) listed,
        IsAllowed-quiet g same allowed,
        rows ∙ ap (λ (x : World). granted_rows i x.now p.version x.instance_apps) same,
      )
