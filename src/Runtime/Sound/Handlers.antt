-- ===== src/Runtime/Sound/Handlers.antt =====
-- Each handler of the runtime service keeps every row of instance_application sound.
use nebraska.Base.{ℕ, String, Bool, Option, none, some, List, [], ◌∷◌}
use nebraska.Types.{Instance, InstanceApplication, Group, Channel, Package}
use nebraska.Db.{World, InstanceRow, exec}
use nebraska.Db.Keeps.{
  Keeps, keeps_rules, Keeps-exec-some, Keeps-exec_if, Keeps-exec_rows, Keeps-if, Keeps-pure,
  Keeps-bind,
}
use nebraska.Reads.Outside.{Outside}
use nebraska.Reads.Groups.{get_flatcar_action, get_package, get_channel, group_channel, get_group}
use nebraska.Reads.Instances.{get_instance, get_instance_app}
use nebraska.Reads.Stats.{get_group_updates_stats}
use nebraska.Reads.Floors.{
  get_required_channel_floors, floors_up_to, get_packages_from_query, load_package_extras,
}
use nebraska.Runtime.Groups.{
  disable_updates, set_group_rollout_in_progress, clear_updates_enabled_override,
}
use nebraska.Runtime.Activity.{
  new_group_activity_entry, new_instance_activity_entry, has_recent_runtime_activity,
}
use nebraska.Runtime.Instances.{
  upsert_instance, upsert_instance_application, update_instance_data, update_instance_obj_status,
  update_instance_status, grant_update, register_both, register_known, register_found,
  register_instance, validate_application_and_group, parse_uuid,
}
use nebraska.Runtime.Sound.{
  Sound, grant_change, status_change-IsSound, grant_change-IsSound, write_changes-Sound,
  upsert_application-Sound,
}

-- The reads change no table, so they keep whatever holds.
module _ {P : World → Type 0} where
  pub get_package-Keeps : (id : Option String) → Keeps P (get_package id)
  unfolding get_package get_flatcar_action
  get_package-Keeps id = search keeps_rules

  pub get_channel-Keeps : (id : String) → Keeps P (get_channel id)
  unfolding get_channel
  get_channel-Keeps id = search (keeps_rules, get_package-Keeps)

  group_channel-Keeps : (id : Option String) → Keeps P (group_channel id)
  unfolding group_channel
  group_channel-Keeps id = search (keeps_rules, get_channel-Keeps)

  load_package_extras-Keeps : (l : List Package) → Keeps P (load_package_extras l)
  unfolding load_package_extras
  load_package_extras-Keeps [] = search keeps_rules
  load_package_extras-Keeps (p ∷ l) = search keeps_rules

  pub get_group-Keeps : (id : String) → Keeps P (get_group id)
  unfolding get_group
  get_group-Keeps id = search (keeps_rules, group_channel-Keeps)

module _ {P : World → Type 0} (o : Outside) where
  pub get_instance-Keeps : (i a : String) → Keeps P (get_instance o i a)
  unfolding get_instance get_instance_app
  get_instance-Keeps i a = search keeps_rules

  parse_uuid-Keeps : (s : String) → Keeps P (parse_uuid o s)
  unfolding parse_uuid
  parse_uuid-Keeps s = search keeps_rules

  pub validate-Keeps : (a g : String) → Keeps P (validate_application_and_group o a g)
  unfolding validate_application_and_group
  validate-Keeps a g = search (keeps_rules, parse_uuid-Keeps, get_group-Keeps) depth 9

  floors_up_to-Keeps : (c v : String) (p : Option Package) → Keeps P (floors_up_to o c v p)
  unfolding floors_up_to get_packages_from_query
  floors_up_to-Keeps c v none = search keeps_rules
  floors_up_to-Keeps c v (some target) = search (keeps_rules, load_package_extras-Keeps)

  pub floors-Keeps : (c : Channel) (v : String) → Keeps P (get_required_channel_floors o c v)
  unfolding get_required_channel_floors
  floors-Keeps c v = floors_up_to-Keeps c.id v c.pkg

  pub stats-Keeps : (g : Group) → Keeps P (get_group_updates_stats o g)
  unfolding get_group_updates_stats
  stats-Keeps g = search keeps_rules

  pub recent-Keeps : (c s : ℕ) (v a g : String) → Keeps P (has_recent_runtime_activity o c s v a g)
  unfolding has_recent_runtime_activity
  recent-Keeps c s v a g = search keeps_rules

-- The writes to the other tables.
pub activity-Sound : (c s : ℕ) (v a g : String) → Keeps Sound (new_group_activity_entry c s v a g)
unfolding new_group_activity_entry
activity-Sound c s v a g = Keeps-exec-some _ (λ w h. h)

pub instance_activity-Sound :
    (c s : ℕ) (v a g i : String) → Keeps Sound (new_instance_activity_entry c s v a g i)
unfolding new_instance_activity_entry
instance_activity-Sound c s v a g i = Keeps-exec-some _ (λ w h. h)

pub disable-Sound : (g : String) → Keeps Sound (disable_updates g)
unfolding disable_updates
disable-Sound g = Keeps-exec-some _ (λ w h. h)

pub rollout-Sound : (g : String) (b : Bool) → Keeps Sound (set_group_rollout_in_progress g b)
unfolding set_group_rollout_in_progress
rollout-Sound g b = Keeps-exec-some _ (λ w h. h)

pub clear-Sound : (g : String) → Keeps Sound (clear_updates_enabled_override g)
unfolding clear_updates_enabled_override
clear-Sound g = Keeps-bind _ _ (Keeps-exec_rows _ (λ w h. h)) (λ n. search keeps_rules)

-- The writes to instance_application.
module _ (o : Outside) where
  pub status-Sound : (i : Instance) (s : ℕ) → Keeps Sound (update_instance_obj_status o i s)
  unfolding update_instance_obj_status update_instance_data
  status-Sound i s =
      Keeps-if _ _ _ (Keeps-pure tt)
        (Keeps-exec_if _ _ (λ w h. write_changes-Sound _ _ _ w (status_change-IsSound s) h))

  grant_data-Sound :
      (i : Instance) (now : ℕ) (v : String)
      → Keeps Sound (update_instance_data o i (grant_change now v))
  unfolding update_instance_data
  grant_data-Sound i now v = Keeps-if _ _ _ (Keeps-pure tt) (
      Keeps-exec_if _ _
        (λ w h. write_changes-Sound _ _ _ w (λ a _. grant_change-IsSound now v a) h))

  pub grant_update-Sound : (i : Instance) (v : String) → Keeps Sound (grant_update o i v)
  unfolding grant_update
  grant_update-Sound i v = search (keeps_rules, grant_data-Sound)

  pub update_status-Sound : (i a : String) (s : ℕ) → Keeps Sound (update_instance_status o i a s)
  unfolding update_instance_status
  update_status-Sound i a s = search (keeps_rules, get_instance-Keeps, status-Sound)

  write_instance-Sound : (r : InstanceRow) → Keeps Sound (exec (λ w. some (upsert_instance r w)))
  write_instance-Sound r = Keeps-exec-some _ (λ w h. h)

  write_application-Sound :
      (i a g v : String) → Keeps Sound (exec (λ w. some (upsert_instance_application i a g v w)))
  write_application-Sound i a g v = Keeps-exec-some _ (λ w h. upsert_application-Sound i a g v w h)

  ruleset write_rules =
      (keeps_rules, get_instance-Keeps, write_instance-Sound, write_application-Sound)

  both-Sound : (r : InstanceRow) (a g v : String) → Keeps Sound (register_both o r a g v)
  unfolding register_both
  both-Sound r a g v = search write_rules

  known-Sound :
      (r : InstanceRow) (a g v : String) (i : Instance) → Keeps Sound (register_known o r a g v i)
  unfolding register_known
  known-Sound r a g v i = search (write_rules, both-Sound) depth 8

  found-Sound :
      (i : Instance) (a g v : String) (k : Option Instance)
      → Keeps Sound (register_found o i a g v k)
  unfolding register_found
  found-Sound i a g v none = both-Sound _ a g v
  found-Sound i a g v (some stored) = known-Sound _ a g v stored

  -- Registration, on every branch and whatever statement fails.
  pub register_instance-Sound :
      (i : Instance) (a : InstanceApplication) → Keeps Sound (register_instance o i a)
  unfolding register_instance
  register_instance-Sound i a =
      search (keeps_rules, validate-Keeps, get_instance-Keeps, found-Sound) depth 8
