-- ===== src/Runtime/Rollout.antt =====
-- runtime/updates.go: `enforceRolloutPolicy` and `inOfficeHoursNow`.
pub mod Policy
use nebraska.Base.{
  ℕ, String, Bool, true, false, Option, none, some, ◌==◌, eqb, ltb, leb, ◌&&◌, ◌||◌, not,
}
use nebraska.Base.{if◌then◌else◌}
use nebraska.Base.Exec.{pure, raise, gets, ◌>>=◌, ◌>>◌}
use nebraska.Types.{
  text, Error, updates_disabled, get_updates_stats_failed, max_updates_per_period_limit_reached,
  max_concurrent_updates_limit_reached, max_timed_out_updates_limit_reached, Instance, Group,
  UpdatesStats, status_on_hold,
}
use nebraska.Db.{World, Action, attempt, relabel}
use nebraska.Reads.Outside.{Outside}
use nebraska.Reads.Stats.{get_group_updates_stats}
use nebraska.Runtime.Groups.{disable_updates}
use nebraska.Runtime.Instances.{update_instance_status}

-- maxParallelUpdates
abbrev pub max_parallel_updates : ℕ
max_parallel_updates = 900000

-- The limit that applies: one update where safe mode has no attempt to go by.
unfoldable pub effective_max : Group → UpdatesStats → ℕ
effective_max g stats =
    if g.policy.safe_mode && eqb stats.updates_to_current_version_attempted 0
    then 1
    else g.policy.max_updates_per_period

module _ (o : Outside) where
  -- `inOfficeHoursNow`.
  unfoldable pub in_office_hours_now : String → ℕ → Bool
  in_office_hours_now tz now = if tz == "" then false else elim (o.local_time tz now) [
    | none ↦ false
    | some (weekday, hour) ↦
        if eqb weekday 6 || eqb weekday 0
        then false
        else if ltb hour 9 || leb 17 hour
        then false
        else true
  ]

  -- The instance is put on hold; a failure of that is only logged.
  unfoldable pub hold : Instance → Action Unit
  hold instance =
      attempt
        (update_instance_status o instance.id instance.application.application_id status_on_hold)

  -- The group has safe mode on and too many updates timed out.
  unfoldable pub trip : Instance → Group → Action Unit
  trip instance g = do
    if g.policy.updates_enabled then attempt (disable_updates g.id) else pure tt
    hold instance
    raise max_timed_out_updates_limit_reached

  -- The limits, in the order in which the code tests them.
  unfoldable pub check_limits : Instance → Group → UpdatesStats → Action Unit
  check_limits instance g stats =
      let limit = effective_max g stats in
      if leb limit stats.updates_granted_in_last_period
      then (do hold instance; raise max_updates_per_period_limit_reached)
      else if leb limit stats.updates_in_progress
      then (do hold instance; raise max_concurrent_updates_limit_reached)
      else if g.policy.safe_mode && leb limit stats.updates_timed_out
      then trip instance g
      else pure tt

  -- No limit is enforced for a group that allows this many updates and has safe mode off.
  unfoldable pub unlimited : Group → Bool
  unlimited g = leb max_parallel_updates g.policy.max_updates_per_period && not g.policy.safe_mode

  unfoldable pub counted_limits : Instance → Group → Action Unit
  counted_limits instance g = do
    stats ← relabel get_updates_stats_failed (get_group_updates_stats o g)
    check_limits instance g stats

  -- `enforceRolloutPolicy`.
  unfoldable pub enforce_rollout_policy : Instance → Group → Action Unit
  enforce_rollout_policy instance g = do
    now ← gets (λ w. w.now)
    if not g.policy.updates_enabled
        then raise updates_disabled
        else if g.policy.office_hours && not (in_office_hours_now (text g.policy.timezone) now)
        then raise updates_disabled
        else if unlimited g
        then pure tt
        else counted_limits instance g
