-- ===== src/Runtime/Tests/Calls.antt =====
-- Calls of the service on the small database, and the theorems on any calls at them.
use nebraska.Base.{◌+◌, ◌≤◌, ◌≡◌, ◌≢◌, refl, true, false, none, some, List, [], ◌∷◌, arith}
use nebraska.Base.Exec.{ok, err, ◌>>=◌}
use nebraska.Types.{no_update_in_progress, UpdatesStats, InstanceApplication}
use nebraska.Db.{
  World, query, exec, exec_rows, relabel, find, select, update_where, count_where, or_raise,
}
use nebraska.Db.Keeps.{quiet}
use nebraska.Reads.Groups.{joined_group, group_rows}
use nebraska.Reads.Stats.{updates_stats, counted}
use nebraska.Reads.Stats.Laws.{IsCounted, HasEnded, stats_partition}
use nebraska.Runtime.Groups.{disable_updates, clear_updates_enabled_override, with_override}
use nebraska.Runtime.Groups.Overrides.{disabled_until_cleared}
use nebraska.Runtime.Events.{register_event}
use nebraska.Runtime.Events.Refused.{refused_event}
use nebraska.Runtime.Sound.{Sound}
use nebraska.Runtime.Service.{Visit, update_check, event, run, run-Sound, run_progress}
use nebraska.Runtime.Tests.{
  outside, start, instance, application, group, group_row, own_row, channel, target,
}

-- The instance asks for an update, and reports a failure ten seconds later, when a statement fails.
abbrev visits : List Visit
visits =
    record { call = update_check instance application; elapsed = 5; outcomes = [] }
    ∷ record {
      call = event "machine" "app" "group" 3 0 "1.0.0" "1";
      elapsed = 10;
      outcomes = false ∷ false ∷ true ∷ [];
    }
    ∷ []

start-Sound : Sound start
start-Sound = (
  record {
    granted = λ h. ground arith;
    versioned = λ h. ground arith;
    under_way = λ h. ground arith;
  },
  tt,
)

run-Sound_example : Sound (run outside start visits)
run-Sound_example = run-Sound outside start visits start-Sound

run_progress_example :
    let v : World = run outside start visits in
    (updates_stats outside group v).updates_in_progress
      + (updates_stats outside group v).updates_timed_out
    ≡ count_where (λ a. a.update_in_progress) (select (counted outside group v.now) v.instance_apps)
run_progress_example = run_progress outside start visits group start-Sound

stats_partition_example :
    let s : UpdatesStats = updates_stats outside group (run outside start visits) in
    (s.updates_to_current_version_succeeded + s.updates_to_current_version_failed
      ≡ s.updates_to_current_version_attempted)
    × (s.updates_to_current_version_attempted ≤ s.updates_to_current_version_granted)
    × (s.updates_to_current_version_granted ≤ s.total_instances)
    × (s.updates_to_current_version_failed ≡ 0
        → (a : InstanceApplication) → IsCounted outside group (run outside start visits) a
        → HasEnded "3.0.0" a
        → a.version ≡ "3.0.0")
    × (s.updates_to_current_version_succeeded ≡ 0
        → (a : InstanceApplication) → IsCounted outside group (run outside start visits) a
        → HasEnded "3.0.0" a
        → a.version ≢ "3.0.0")
stats_partition_example =
    stats_partition outside group (run outside start visits) "3.0.0"
      (channel, target, refl, refl, refl)

abbrev disabled_world : World
disabled_world = (disable_updates "group" start).1

abbrev cleared_world : World
cleared_world = (clear_updates_enabled_override "group" disabled_world).1

group_found : group_rows "group" start ≡ some (group_row, own_row)
unfolding group_rows find
group_found = refl

disabled : disable_updates "group" start ≡ (ok tt, disabled_world)
unfolding disable_updates exec
disabled = refl

cleared : clear_updates_enabled_override "group" disabled_world ≡ (ok tt, cleared_world)
unfolding clear_updates_enabled_override ◌>>=◌ exec_rows disable_updates exec count_where
    update_where
cleared = refl

disabled_until_cleared_example :
    (group_rows "group" disabled_world ≡ some (group_row, with_override (some false) own_row))
    × ((joined_group group_row
          (with_override (some false) own_row)
          (some channel)).policy.updates_enabled
        ≡ false)
    × (group_rows "group" cleared_world ≡ some (group_row, with_override none own_row))
    × ((joined_group group_row (with_override none own_row) (some channel)).policy.updates_enabled
        ≡ true)
disabled_until_cleared_example =
    disabled_until_cleared "group" start disabled_world cleared_world (some channel) group_found
      disabled cleared

abbrev refused_world : World
refused_world = (register_event outside "machine" "app" "group" 3 2 "1.0.0" "0" start).1

refused :
    register_event outside "machine" "app" "group" 3 2 "1.0.0" "0" start
    ≡ (err no_update_in_progress, refused_world)
unfolding register_event ◌>>=◌ nebraska.Runtime.Instances.validate_application_and_group
    nebraska.Runtime.Instances.parse_uuid or_raise nebraska.Reads.Groups.get_group query group_rows
    find nebraska.Reads.Groups.group_channel nebraska.Reads.Groups.optional
    nebraska.Reads.Groups.get_channel nebraska.Reads.Groups.get_package
    nebraska.Reads.Groups.get_flatcar_action joined_group relabel
    nebraska.Reads.Instances.get_instance nebraska.Reads.Instances.get_instance_app
    nebraska.Runtime.Events.accept_event
refused = refl

refused_event_example : quiet refused_world ≡ quiet start
refused_event_example =
    refused_event outside "machine" "app" "group" 3 2 "1.0.0" "0" start refused_world
      no_update_in_progress refused (λ e. ground (arith, e))

-- The same database while an update of the instance is in progress.
abbrev updating : World
updating = record start {
  instance_apps =
      record application {
        status = some 5;
        last_update_granted_ts = some 99000;
        last_update_version = some "2.0.0";
        update_in_progress = true;
      }
      ∷ [];
}

abbrev recorded_world : World
recorded_world = (register_event outside "machine" "app" "group" 3 2 "1.0.0" "0" updating).1
