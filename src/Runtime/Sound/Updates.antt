-- ===== src/Runtime/Sound/Updates.antt =====
-- The update handlers keep every row of instance_application sound.
use nebraska.Base.{String, Option, none, some, List, [], ◌∷◌}
use nebraska.Types.{Instance, InstanceApplication, Group, Channel, Package, UpdatesStats}
use nebraska.Db.Keeps.{Keeps, keeps_rules}
use nebraska.Reads.Outside.{Outside}
use nebraska.Runtime.Rollout.{hold, trip, check_limits, counted_limits, enforce_rollout_policy}
use nebraska.Runtime.Updates.{
  get_packages_with_floors_for_update, first_of_packages, registered, channel_and_package,
  found_target, complete_grant, already_granted, record_rollout, grant, fresh_grant, offer,
  get_update_package, syncer_grant, syncer_packages, get_update_packages_for_syncer, target_of,
}
use nebraska.Runtime.Sound.{Sound}
use nebraska.Runtime.Sound.Handlers.{
  get_group-Keeps, floors-Keeps, stats-Keeps, recent-Keeps, activity-Sound, disable-Sound,
  rollout-Sound, status-Sound, update_status-Sound, grant_update-Sound, register_instance-Sound,
}

module _ (o : Outside) where
  hold-Sound : (i : Instance) → Keeps Sound (hold o i)
  unfolding hold
  hold-Sound i = search (keeps_rules, update_status-Sound)

  trip-Sound : (i : Instance) (g : Group) → Keeps Sound (trip o i g)
  unfolding trip
  trip-Sound i g = search (keeps_rules, hold-Sound, disable-Sound) depth 8

  check_limits-Sound :
      (i : Instance) (g : Group) (s : UpdatesStats) → Keeps Sound (check_limits o i g s)
  unfolding check_limits
  check_limits-Sound i g s = search (keeps_rules, hold-Sound, trip-Sound) depth 8

  counted_limits-Sound : (i : Instance) (g : Group) → Keeps Sound (counted_limits o i g)
  unfolding counted_limits
  counted_limits-Sound i g = search (keeps_rules, stats-Keeps, check_limits-Sound)

  enforce-Sound : (i : Instance) (g : Group) → Keeps Sound (enforce_rollout_policy o i g)
  unfolding enforce_rollout_policy
  enforce-Sound i g = search (keeps_rules, counted_limits-Sound) depth 8

  packages-Sound :
      (c : Channel) (t : Package) (v : String)
      → Keeps Sound (get_packages_with_floors_for_update o c t v)
  unfolding get_packages_with_floors_for_update
  packages-Sound c t v = search (keeps_rules, floors-Keeps)

  first-Sound : (l : List Package) → Keeps Sound (first_of_packages o l)
  unfolding first_of_packages
  first-Sound [] = search keeps_rules
  first-Sound (p ∷ l) = search keeps_rules

  registered-Sound : (i : Instance) (a : InstanceApplication) → Keeps Sound (registered o i a)
  unfolding registered
  registered-Sound i a = search (keeps_rules, register_instance-Sound)

  found_target-Sound :
      (a g : String) (t : Option (Channel × Package)) → Keeps Sound (found_target o a g t)
  unfolding found_target
  found_target-Sound a g none = search (keeps_rules, activity-Sound)
  found_target-Sound a g (some ct) = search keeps_rules

  channel-Sound : (a g : String) (r : Group) → Keeps Sound (channel_and_package o a g r)
  unfolding channel_and_package
  channel-Sound a g r = found_target-Sound a g (target_of r)

  complete_grant-Sound : (i : Instance) → Keeps Sound (complete_grant o i)
  unfolding complete_grant
  complete_grant-Sound i = search (keeps_rules, status-Sound)

  already_granted-Sound :
      (i : Instance) (v : String) (c : Channel) (t : Package)
      → Keeps Sound (already_granted o i v c t)
  unfolding already_granted
  already_granted-Sound i v c t =
      search (keeps_rules, complete_grant-Sound, packages-Sound, first-Sound) depth 9

  record_rollout-Sound : (v a g : String) (r : Group) → Keeps Sound (record_rollout o v a g r)
  unfolding record_rollout
  record_rollout-Sound v a g r =
      search (keeps_rules, recent-Keeps, activity-Sound, rollout-Sound) depth 8

  grant-Sound : (i : Instance) (r : Group) (a g v : String) → Keeps Sound (grant o i r a g v)
  unfolding grant
  grant-Sound i r a g v =
      search (keeps_rules, enforce-Sound, grant_update-Sound, record_rollout-Sound) depth 8

  offer-Sound :
      (i : Instance) (a g : String) (r : Group) (c : Channel) (next : Package)
      → Keeps Sound (offer o i a g r c next)
  unfolding offer
  offer-Sound i a g r c next = search (keeps_rules, grant-Sound) depth 8

  fresh_grant-Sound :
      (i : Instance) (v a g : String) (r : Group) (c : Channel) (t : Package)
      → Keeps Sound (fresh_grant o i v a g r c t)
  unfolding fresh_grant
  fresh_grant-Sound i v a g r c t =
      search (keeps_rules, packages-Sound, first-Sound, offer-Sound) depth 9

  -- An update request, on every branch and whatever statement fails.
  pub get_update_package-Sound :
      (i : Instance) (a : InstanceApplication) → Keeps Sound (get_update_package o i a)
  unfolding get_update_package
  get_update_package-Sound i a =
      search
        (
          keeps_rules, registered-Sound, get_group-Keeps, channel-Sound, already_granted-Sound,
          fresh_grant-Sound,
        )
        depth 9

  syncer_grant-Sound :
      (i : Instance) (a g : String) (r : Group) (c : Channel) (t : Package) (l : List Package)
      → Keeps Sound (syncer_grant o i a g r c t l)
  unfolding syncer_grant
  syncer_grant-Sound i a g r c t l = search (keeps_rules, grant-Sound) depth 8

  syncer_packages-Sound :
      (i : Instance) (v a g : String) (r : Group) (c : Channel) (t : Package)
      → Keeps Sound (syncer_packages o i v a g r c t)
  unfolding syncer_packages
  syncer_packages-Sound i v a g r c t =
      search (keeps_rules, packages-Sound, syncer_grant-Sound) depth 8

  pub get_update_packages_for_syncer-Sound :
      (i : Instance) (a : InstanceApplication) → Keeps Sound (get_update_packages_for_syncer o i a)
  unfolding get_update_packages_for_syncer
  get_update_packages_for_syncer-Sound i a =
      search (keeps_rules, registered-Sound, get_group-Keeps, channel-Sound, syncer_packages-Sound)
        depth 9
