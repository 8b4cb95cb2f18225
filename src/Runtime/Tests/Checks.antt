-- ===== src/Runtime/Tests/Checks.antt =====
-- Update checks of the instance, as a machine and as a syncer, and the theorems on checks at them.
use nebraska.Base.{◌≡◌, refl, [], ◌∷◌}
use nebraska.Base.Exec.{ok, ◌>>=◌}
use nebraska.Db.{
  World, query, exec, attempt, relabel, find, select, count_where, if_no_error, or_raise,
}
use nebraska.Reads.Outside.{semver_lt, is_valid_semver}
use nebraska.Reads.Stats
use nebraska.Reads.Floors
use nebraska.Reads.Groups
use nebraska.Reads.Instances
use nebraska.Runtime.Activity
use nebraska.Runtime.Rollout
use nebraska.Runtime.Updates
use nebraska.Runtime.Updates.Checks.{IsAnswered, get_update_package-IsAnswered}
use nebraska.Runtime.Updates.Syncers.{IsSynced, get_update_packages_for_syncer-IsSynced}
use nebraska.Runtime.Tests.{outside, start, instance, application, target, floor}

abbrev answered_world : World
answered_world = (Updates.get_update_package outside instance application start).1

answered :
    Updates.get_update_package outside instance application start ≡ (ok floor, answered_world)
unfolding Updates.get_update_package Updates.fresh_grant Updates.first_of_packages Updates.offer
    Updates.registered Updates.channel_and_package Updates.found_target Updates.target_of
    Updates.is_busy Updates.is_granted Groups.get_group Groups.group_rows Groups.group_channel
    Groups.get_channel Groups.get_package Groups.get_flatcar_action Groups.optional
    Groups.joined_group Groups.effective_policy is_valid_semver Instances.get_instance
    Instances.get_instance_app nebraska.Runtime.Instances.register_instance
    nebraska.Runtime.Instances.validate_application_and_group nebraska.Runtime.Instances.parse_uuid
    or_raise nebraska.Runtime.Instances.register_found nebraska.Runtime.Instances.register_known
    nebraska.Runtime.Instances.instance_changed nebraska.Runtime.Instances.application_changed
    Updates.get_packages_with_floors_for_update Floors.get_required_channel_floors
    Floors.floors_up_to Floors.get_packages_from_query Floors.required_floors Floors.keyed_floors
    find Floors.sort_keyed Floors.insert_keyed Floors.between Floors.array_lt Floors.packages_of
    Floors.max_floors Floors.load_package_extras Updates.with_target Updates.last_id
    Updates.contains Updates.grant Rollout.enforce_rollout_policy Rollout.in_office_hours_now
    Rollout.unlimited Rollout.counted_limits Rollout.check_limits Rollout.effective_max
    Stats.get_group_updates_stats Stats.updates_stats Stats.counted Stats.granted_lately
    Stats.progressing Stats.timed_out Stats.current_version count_where select
    nebraska.Runtime.Instances.grant_update nebraska.Runtime.Instances.update_instance_data
    nebraska.Runtime.Instances.write_changes Updates.record_rollout exec query attempt relabel ◌>>=◌
    semver_lt Activity.has_recent_runtime_activity if_no_error
answered = refl

get_update_package-IsAnswered_example :
    IsAnswered outside instance application floor start answered_world
get_update_package-IsAnswered_example =
    get_update_package-IsAnswered outside instance application floor start answered_world answered

abbrev synced_world : World
synced_world = (Updates.get_update_packages_for_syncer outside instance application start).1

synced :
    Updates.get_update_packages_for_syncer outside instance application start
    ≡ (ok (floor ∷ target ∷ []), synced_world)
unfolding Updates.get_update_packages_for_syncer Updates.syncer_packages Updates.syncer_grant
    Updates.any_blacklisted Updates.last_or Updates.registered Updates.channel_and_package
    Updates.found_target Updates.target_of Updates.is_busy Updates.is_granted Groups.get_group
    Groups.group_rows Groups.group_channel Groups.get_channel Groups.get_package
    Groups.get_flatcar_action Groups.optional Groups.joined_group Groups.effective_policy
    is_valid_semver Instances.get_instance Instances.get_instance_app
    nebraska.Runtime.Instances.register_instance
    nebraska.Runtime.Instances.validate_application_and_group nebraska.Runtime.Instances.parse_uuid
    or_raise nebraska.Runtime.Instances.register_found nebraska.Runtime.Instances.register_known
    nebraska.Runtime.Instances.instance_changed nebraska.Runtime.Instances.application_changed
    Updates.get_packages_with_floors_for_update Floors.get_required_channel_floors
    Floors.floors_up_to Floors.get_packages_from_query Floors.required_floors Floors.keyed_floors
    find Floors.sort_keyed Floors.insert_keyed Floors.between Floors.array_lt Floors.packages_of
    Floors.max_floors Floors.load_package_extras Updates.with_target Updates.last_id
    Updates.contains Updates.grant Rollout.enforce_rollout_policy Rollout.in_office_hours_now
    Rollout.unlimited Rollout.counted_limits Rollout.check_limits Rollout.effective_max
    Stats.get_group_updates_stats Stats.updates_stats Stats.counted Stats.granted_lately
    Stats.progressing Stats.timed_out Stats.current_version count_where select
    nebraska.Runtime.Instances.grant_update nebraska.Runtime.Instances.update_instance_data
    nebraska.Runtime.Instances.write_changes Updates.record_rollout exec query attempt relabel ◌>>=◌
    semver_lt Activity.has_recent_runtime_activity if_no_error
synced = refl

get_update_packages_for_syncer-IsSynced_example :
    IsSynced outside instance application (floor ∷ target ∷ []) start synced_world
get_update_packages_for_syncer-IsSynced_example =
    get_update_packages_for_syncer-IsSynced outside instance application (floor ∷ target ∷ []) start
      synced_world synced
