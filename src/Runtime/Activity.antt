-- ===== src/Runtime/Activity.antt =====
-- runtime/activity.go, and `HasRecentRuntimeActivity` of dbreads/activity.go.
use nebraska.Base.{ℕ, ◌+◌, ◌*◌, String, Bool, true, false, Option, none, some, ◌∷◌, ◌==◌, eqb, ltb}
use nebraska.Base.{◌&&◌, ◌||◌, not}
use nebraska.Base.Exec.{pure, ◌>>=◌}
use nebraska.Types.{Activity}
use nebraska.Db.{World, Action, exec, query, if_no_error, find}
use nebraska.Reads.Outside.{Outside}
use nebraska.Reads.Groups.{row_or_none}

abbrev pub add_activity : (ℕ → Activity) → World → World
add_activity a w = record w { activities = a w.now ∷ w.activities }

-- `newGroupActivityEntry`.
unfoldable pub new_group_activity_entry : ℕ → ℕ → String → String → String → Action Unit
new_group_activity_entry class severity version app_id group_id = exec λ w. some (
    add_activity
      (λ now. record {
        class = class;
        severity = severity;
        version = version;
        application_id = app_id;
        group_id = some group_id;
        instance_id = none;
        created_ts = now;
      })
      w)

-- `newInstanceActivityEntry`.
unfoldable pub new_instance_activity_entry : ℕ → ℕ → String → String → String → String → Action Unit
new_instance_activity_entry class severity version app_id group_id instance_id = exec λ w. some (
    add_activity
      (λ now. record {
        class = class;
        severity = severity;
        version = version;
        application_id = app_id;
        group_id = some group_id;
        instance_id = some instance_id;
        created_ts = now;
      })
      w)

-- A filter that the query has only for a text that is not empty.
abbrev asked : String → String → Bool
asked wanted s = wanted == "" || s == wanted

abbrev asked_of : String → Option String → Bool
asked_of wanted o = wanted == "" || elim o [ none ↦ false | some s ↦ s == wanted ]

abbrev pub is_found : Option Activity → Bool
is_found none = false
is_found (some a) = true

module _ (o : Outside) where
  -- The rows that `HasRecentRuntimeActivity` looks for, with no instance asked for.
  unfoldable pub is_recent : ℕ → ℕ → String → String → String → ℕ → Activity → Bool
  is_recent class severity version app_id group_id now a =
      eqb a.class class
      && ltb now (a.created_ts + 24 * 60 * 60)
      && (eqb severity 0 || eqb a.severity severity)
      && asked version a.version
      && asked_of group_id a.group_id
      && asked app_id a.application_id
      && elim a.instance_id [ none ↦ true | some i ↦ not (o.is_fake i) ]

  -- `HasRecentRuntimeActivity`: a failure counts as no.
  unfoldable pub has_recent_runtime_activity : ℕ → ℕ → String → String → String → Action Bool
  has_recent_runtime_activity class severity version app_id group_id = do
    row ← if_no_error (
        query (λ w.
          row_or_none (find (is_recent class severity version app_id group_id w.now) w.activities)))
    pure (is_found row)
