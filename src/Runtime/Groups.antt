-- ===== src/Runtime/Groups.antt =====
-- runtime/groups.go: the writes to group_local, the node's own part of a group.
pub mod Overrides
use nebraska.Base.{ℕ, String, Bool, false, Option, none, some, ◌==◌, eqb, if◌then◌else◌}
use nebraska.Base.Exec.{pure, raise, ◌>>=◌}
use nebraska.Types.{no_rows_affected}
use nebraska.Db.{World, Action, GroupLocalRow, exec, exec_rows, update_where, count_where}

abbrev pub of_group : String → GroupLocalRow → Bool
of_group group_id l = l.group_id == group_id

abbrev pub with_override : Option Bool → GroupLocalRow → GroupLocalRow
with_override b l = record l { overrides = record l.overrides { updates_enabled = b } }

abbrev pub set_override : String → Option Bool → World → World
set_override group_id b w = record w {
  group_locals = update_where (of_group group_id) (with_override b) w.group_locals;
}

-- `ClearUpdatesEnabledOverride`.
unfoldable pub clear_updates_enabled_override : String → Action Unit
clear_updates_enabled_override group_id = do
  n ←
      exec_rows
        (λ w. (count_where (of_group group_id) w.group_locals, set_override group_id none w))
  if eqb n 0 then raise no_rows_affected else pure tt

-- `disableUpdates`.
unfoldable pub disable_updates : String → Action Unit
disable_updates group_id = exec (λ w. some (set_override group_id (some false) w))

-- `setGroupRolloutInProgress`.
unfoldable pub set_group_rollout_in_progress : String → Bool → Action Unit
set_group_rollout_in_progress group_id in_progress = exec λ w. some (record w {
  group_locals =
      update_where (of_group group_id) (λ l. record l { rollout_in_progress = in_progress })
        w.group_locals;
})
