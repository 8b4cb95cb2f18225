-- ===== src/Runtime/Tests/Grants.antt =====
-- The grant of the floor to the instance, and the theorems on grants and on the policy at it.
use nebraska.Base.{length, ◌≤◌, ℕ, ◌≡◌, refl, true, false, some, List, [], ◌∷◌, inl, ◌==◌}
use nebraska.Base.Exec.{ok, ◌>>=◌}
use nebraska.Types.{Package}
use nebraska.Db.{World, query, exec, attempt, relabel, find, select, count_where, if_no_error}
use nebraska.Db.Keeps.{quiet}
use nebraska.Reads.Outside.{semver_lt}
use nebraska.Reads.Stats
use nebraska.Reads.Floors
use nebraska.Reads.Floors.Range.{AllInRange, required_floors-AllInRange}
use nebraska.Reads.Floors.Laws.{IsRequired, BeginsBy, no_floor_skipped}
use nebraska.Runtime.Instances
use nebraska.Runtime.Activity
use nebraska.Runtime.Rollout
use nebraska.Runtime.Rollout.Policy.{IsAllowed, enforce_ok, enforce_allowed, safe_mode_first}
use nebraska.Runtime.Updates
use nebraska.Runtime.Updates.NoSkip.{fresh_grant_no_skip}
use nebraska.Runtime.Tests.{outside, start, instance, group, channel, target, floor, floor_row}

abbrev granted_world : World
granted_world =
    (Updates.fresh_grant outside instance "1.0.0" "app" "group" group channel target start).1

granted :
    Updates.fresh_grant outside instance "1.0.0" "app" "group" group channel target start
    ≡ (ok floor, granted_world)
unfolding Updates.fresh_grant Updates.get_packages_with_floors_for_update
    Floors.get_required_channel_floors Floors.floors_up_to Floors.get_packages_from_query
    Floors.required_floors Floors.keyed_floors find Floors.sort_keyed Floors.insert_keyed
    Floors.between Floors.array_lt Floors.packages_of Floors.max_floors Floors.load_package_extras
    Updates.with_target Updates.last_id Updates.first_of_packages Updates.offer Updates.contains
    Updates.grant Rollout.enforce_rollout_policy Rollout.in_office_hours_now Rollout.unlimited
    Rollout.counted_limits Rollout.check_limits Rollout.effective_max Stats.get_group_updates_stats
    Stats.updates_stats Stats.counted Stats.granted_lately Stats.progressing Stats.timed_out
    Stats.current_version count_where select Instances.grant_update Instances.update_instance_data
    Updates.record_rollout exec query attempt relabel ◌>>=◌ semver_lt
    Activity.has_recent_runtime_activity if_no_error Instances.write_changes
granted = refl

floor_found :
    find (λ (p : Package). p.id == "p2") start.packages ≡ some (record floor { is_floor = false })
unfolding find
floor_found = refl

floor_above : Floors.array_lt (1 ∷ 0 ∷ 0 ∷ []) (2 ∷ 0 ∷ 0 ∷ []) ≡ true
unfolding Floors.array_lt
floor_above = refl

floor_within : Floors.array_lt (3 ∷ 0 ∷ 0 ∷ []) (2 ∷ 0 ∷ 0 ∷ []) ≡ false
unfolding Floors.array_lt
floor_within = refl

-- The floor 2.0.0 is required on the way from 1.0.0 to 3.0.0.
abbrev floor_required : IsRequired outside "stable" "1.0.0" "3.0.0" start (2 ∷ 0 ∷ 0 ∷ [])
floor_required = record {
  floor = floor_row;
  pkg = record floor { is_floor = false };
  above = 1 ∷ 0 ∷ 0 ∷ [];
  up_to = 3 ∷ 0 ∷ 0 ∷ [];
  member = inl refl;
  of_channel = refl;
  found = floor_found;
  keyed = refl;
  from = refl;
  to = refl;
  later = floor_above;
  within = floor_within;
}

fresh_grant_no_skip_example :
    (key : List ℕ) × (outside.int_array floor.version ≡ some key)
    × (Floors.array_lt (2 ∷ 0 ∷ 0 ∷ []) key ≡ false)
fresh_grant_no_skip_example =
    fresh_grant_no_skip outside instance "1.0.0" "app" "group" group channel target floor start
      granted_world (2 ∷ 0 ∷ 0 ∷ []) refl granted floor_required

abbrev after_policy : World
after_policy = (Rollout.enforce_rollout_policy outside instance group start).1

passed : Rollout.enforce_rollout_policy outside instance group start ≡ (ok tt, after_policy)
unfolding Rollout.enforce_rollout_policy ◌>>=◌ Rollout.in_office_hours_now Rollout.unlimited
    Rollout.counted_limits relabel Stats.get_group_updates_stats query Rollout.check_limits
    Rollout.effective_max Stats.updates_stats
passed = refl

enforce_ok_example : IsAllowed outside group start × (quiet after_policy ≡ quiet start)
enforce_ok_example = enforce_ok outside instance group start after_policy passed

enforce_allowed_example : (Rollout.enforce_rollout_policy outside instance group start).0 ≡ ok tt
enforce_allowed_example =
    enforce_allowed outside instance group start refl
      (enforce_ok outside instance group start after_policy passed).0

none_attempted : (Stats.updates_stats outside group start).updates_to_current_version_attempted ≡ 0
unfolding Stats.updates_stats
none_attempted = refl

safe_mode_first_example :
    ((Stats.updates_stats outside group start).updates_in_progress ≡ 0)
    × ((Stats.updates_stats outside group start).updates_timed_out ≡ 0)
    × ((Stats.updates_stats outside group start).updates_granted_in_last_period ≡ 0)
safe_mode_first_example =
    safe_mode_first outside instance group start after_policy refl none_attempted passed

floors_read : Floors.required_floors outside "stable" "1.0.0" "3.0.0" start ≡ some (floor ∷ [])
unfolding Floors.required_floors Floors.array_lt
floors_read = refl

no_floor_skipped_example : BeginsBy outside (2 ∷ 0 ∷ 0 ∷ []) (floor ∷ [])
no_floor_skipped_example =
    no_floor_skipped outside "stable" "1.0.0" "3.0.0" start (2 ∷ 0 ∷ 0 ∷ []) floors_read
      floor_required

required_floors-AllInRange_example :
    AllInRange outside (1 ∷ 0 ∷ 0 ∷ []) (3 ∷ 0 ∷ 0 ∷ []) (floor ∷ [])
    × (length (floor ∷ []) ≤ Floors.max_floors outside)
required_floors-AllInRange_example =
    required_floors-AllInRange outside (1 ∷ 0 ∷ 0 ∷ []) (3 ∷ 0 ∷ 0 ∷ []) "stable" "1.0.0" "3.0.0"
      start refl refl floors_read
