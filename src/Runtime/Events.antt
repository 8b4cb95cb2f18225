-- ===== src/Runtime/Events.antt =====
-- runtime/events.go: `RegisterEvent` and `triggerEventConsequences`.
pub mod Refused
pub mod Recorded
use nebraska.Base.{
  ℕ, String, Bool, true, false, Option, none, some, ◌==◌, eqb, ◌&&◌, ◌||◌, not, ◌∷◌,
}
use nebraska.Base.{if◌then◌else◌}
use nebraska.Base.Exec.{Result, ok, err, pure, raise, ◌>>=◌, ◌>>◌}
use nebraska.Types.{
  text, Error, invalid_instance, invalid_application_or_group, no_update_in_progress, no_rows,
  flatcar_event_ignored, invalid_event_type_or_result, event_registration_failed, Instance, Group,
  status_undefined, status_error, status_complete, status_installed, status_downloaded,
  status_downloading, activity_rollout_finished, activity_rollout_failed,
  activity_instance_update_failed, activity_success, activity_error, event_update_complete,
  event_update_download_started, event_update_download_finished, event_update_installed,
  result_failed, result_success, result_success_reboot,
}
use nebraska.Db.{World, Action, EventRow, exec, query, attempt, relabel, find}
use nebraska.Reads.Outside.{Outside}
use nebraska.Reads.Groups.{get_group, row_or_none}
use nebraska.Reads.Instances.{get_instance}
use nebraska.Reads.Stats.{get_group_updates_stats}
use nebraska.Runtime.Groups.{disable_updates, set_group_rollout_in_progress}
use nebraska.Runtime.Activity.{new_group_activity_entry, new_instance_activity_entry}
use nebraska.Runtime.Instances.{
  validate_application_and_group, update_instance_status, update_instance_obj_status,
}

-- FlatcarAppID
abbrev pub flatcar_app_id : String
flatcar_app_id = "e96281a6-d1af-4bde-9a0a-97b76e56dc57"

-- What an event is about: the ids are the normalised ones.
pub record Subject : Type 0 where
  pub instance_id : String
  pub app_id : String
  pub group_id : String

-- The completion of an update; the plain success counts only for other applications than Flatcar.
unfoldable pub completes : String → ℕ → ℕ → Bool
completes app_id etype result =
    eqb etype event_update_complete
    && (eqb result result_success_reboot
        || not (app_id == flatcar_app_id) && eqb result result_success)

-- The status that the event of a successful step leads to.
unfoldable pub step_status : ℕ → ℕ → Option ℕ
step_status etype result =
    if not (eqb result result_success)
    then none
    else if eqb etype event_update_download_started
    then some status_downloading
    else if eqb etype event_update_download_finished
    then some status_downloaded
    else if eqb etype event_update_installed
    then some status_installed
    else none

-- An instance that already runs the update has no previous version to report.
unfoldable pub is_stale : String → ℕ → ℕ → String → Bool
is_stale app_id etype result previous_version =
    app_id == flatcar_app_id
    && eqb etype event_update_complete
    && eqb result result_success_reboot
    && (previous_version == "" || previous_version == "0.0.0.0")

module _ (o : Outside) where
  abbrev pub set_status : Subject → ℕ → Action Unit
  set_status s new_status = attempt (update_instance_status o s.instance_id s.app_id new_status)

  -- Every instance runs the current version: the rollout is over.
  unfoldable pub finish_rollout : Subject → String → Action Unit
  finish_rollout s version = do
    attempt (set_group_rollout_in_progress s.group_id false)
    attempt (
        new_group_activity_entry activity_rollout_finished activity_success version s.app_id
          s.group_id)

  unfoldable pub complete_event : Subject → Group → String → Action Unit
  complete_event s g version = do
    set_status s status_complete
    stats ← get_group_updates_stats o g
    if eqb stats.updates_to_current_version_succeeded stats.total_instances
        then finish_rollout s version
        else pure tt

  -- The first attempt of the rollout failed: updates are disabled on this node.
  unfoldable pub fail_rollout : Subject → String → Action Unit
  fail_rollout s version = do
    attempt (disable_updates s.group_id)
    attempt (set_group_rollout_in_progress s.group_id false)
    attempt (
        new_group_activity_entry activity_rollout_failed activity_error version s.app_id s.group_id)

  unfoldable pub brake : Subject → Group → String → Action Unit
  brake s g version =
      if o.disable_updates_on_failed_rollout
      then (do
        stats ← get_group_updates_stats o g
        if eqb stats.updates_to_current_version_attempted 1
            then fail_rollout s version
            else pure tt)
      else pure tt

  unfoldable pub failed_event : Subject → Group → String → Action Unit
  failed_event s g version = do
    set_status s status_error
    attempt (
        new_instance_activity_entry activity_instance_update_failed activity_error version s.app_id
          s.group_id s.instance_id)
    brake s g version

  unfoldable pub step_event : Subject → Option ℕ → Action Unit
  step_event s none = pure tt
  step_event s (some new_status) = set_status s new_status

  -- `triggerEventConsequences`.
  unfoldable pub trigger_event_consequences : Subject → String → ℕ → ℕ → Action Unit
  trigger_event_consequences s version etype result = do
    g ← get_group s.group_id
    if completes s.app_id etype result then complete_event s g version else pure tt
    step_event s (step_status etype result)
    if eqb result result_failed then failed_event s g version else pure tt

  -- The insertion of the event, and its consequences; a failure of those is only logged.
  unfoldable pub record_event : Subject → Instance → ℕ → ℕ → String → String → Action Unit
  record_event s instance etype result previous_version error_code = do
    row ← relabel invalid_event_type_or_result (
        query
          (λ w. row_or_none (find (λ t. eqb t.type etype && eqb t.result result) w.event_types)))
    relabel event_registration_failed (
        exec (λ w. some (record w {
          events =
              record {
                event_type_id = row.id;
                instance_id = s.instance_id;
                application_id = s.app_id;
                previous_version = previous_version;
                error_code = error_code;
              }
              ∷ w.events;
        })))
    attempt
        (trigger_event_consequences s (text instance.application.last_update_version) etype result)

  -- The event of an instance that is known, while an update of it is in progress.
  unfoldable pub accept_event : Subject → Instance → ℕ → ℕ → String → String → Action Unit
  accept_event s instance etype result previous_version error_code =
      if not (instance.application.application_id == s.app_id)
      then raise invalid_application_or_group
      else if not instance.application.update_in_progress
      then raise no_update_in_progress
      else if is_stale s.app_id etype result previous_version
      then (do
        attempt (update_instance_obj_status o instance status_undefined)
        raise flatcar_event_ignored)
      else record_event s instance etype result previous_version error_code

  -- `RegisterEvent`.
  unfoldable pub register_event : String → String → String → ℕ → ℕ → String → String → Action Unit
  register_event instance_id app_id group_id etype result previous_version error_code = do
    ids ← validate_application_and_group o app_id group_id
    instance ← relabel invalid_instance (get_instance o instance_id ids.0)
    accept_event (record { instance_id = instance_id; app_id = ids.0; group_id = ids.1 }) instance
        etype result previous_version error_code
