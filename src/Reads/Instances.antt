-- ===== src/Reads/Instances.antt =====
-- dbreads/instances.go: `GetInstance`.
use nebraska.Base.{ℕ, ◌+◌, ◌*◌, String, Bool, none, ◌==◌, ltb, if◌then◌else◌, ◌&&◌}
use nebraska.Base.Exec.{err, pure, ◌>>=◌}
use nebraska.Types.{database, Instance, InstanceApplication, no_application}
use nebraska.Db.{Action, InstanceRow, query, find}
use nebraska.Reads.Outside.{Outside}
use nebraska.Reads.Groups.{row_or_none, optional, or_default}

-- "1 days"
abbrev pub validity_interval : ℕ
validity_interval = 24 * 60 * 60

-- last_check_for_updates > now() - interval '1 days'
abbrev pub checked_lately : ℕ → InstanceApplication → Bool
checked_lately now a = ltb now (a.last_check_for_updates + validity_interval)

-- The columns that `prepareInstanceAppQuery` selects.
abbrev pub selected : InstanceApplication → InstanceApplication
selected a = record a { last_update_granted_ts = none }

abbrev pub with_application : InstanceRow → InstanceApplication → Instance
with_application row a = record {
  id = row.id;
  ip = row.ip;
  oem = row.oem;
  aleph_version = row.aleph_version;
  alias = row.alias;
  application = a;
}

module _ (o : Outside) where
  -- `getInstanceApp`; the comparison with the uuid column fails for a text that is no uuid.
  unfoldable pub get_instance_app : String → String → Action InstanceApplication
  get_instance_app app_id instance_id = query λ w.
      if o.is_sql_uuid app_id
      then row_or_none (
          find
            (λ a.
              a.application_id == app_id && a.instance_id == instance_id && checked_lately w.now a)
            w.instance_apps)
      else err database

  -- `GetInstance`: an instance with no recent application row has the zero application.
  unfoldable pub get_instance : String → String → Action Instance
  get_instance instance_id app_id = do
    row ← query (λ w. row_or_none (find (λ i. i.id == instance_id) w.instances))
    a ← optional (get_instance_app app_id row.id)
    pure (with_application row (selected (or_default a no_application)))
