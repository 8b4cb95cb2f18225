-- ===== src/Runtime/Instances.antt =====
-- runtime/instances.go: registration of instances, and the changes of their status.
use nebraska.Base.{
  ℕ, ◌+◌, ◌*◌, String, Bool, true, false, Option, none, some, List, [], ◌∷◌, ◌++◌, map,
}
use nebraska.Base.{◌==◌, eqb, ltb, ◌&&◌, ◌||◌, not, if◌then◌else◌}
use nebraska.Base.Exec.{pure, raise, gets, ◌>>=◌, ◌>>◌}
use nebraska.Types.{
  text, invalid_semver, invalid_uuid, invalid_application_or_group, Instance, InstanceApplication,
  StatusHistoryEntry, status_undefined, status_update_granted, status_error, status_complete,
  status_on_hold,
}
use nebraska.Db.{
  World, Action, InstanceRow, or_raise, exec, transaction, if_no_error, select, update_where, find,
}
use nebraska.Reads.Outside.{Outside, is_valid_semver}
use nebraska.Reads.Groups.{get_group, or_default}
use nebraska.Reads.Instances.{get_instance}

-- What `updateInstanceData` is to write; none leaves a column alone.
pub record Changes : Type 0 where
  pub status : ℕ
  pub granted_ts : Option ℕ
  pub update_version : Option String
  pub update_in_progress : Option Bool

-- The statuses that end an update.
unfoldable pub ends_update : ℕ → Bool
ends_update s =
    eqb s status_complete || eqb s status_error || eqb s status_undefined || eqb s status_on_hold

unfoldable pub settle : Changes → Changes
unfolding ends_update
settle c = if ends_update c.status then record c { update_in_progress = some false } else c

abbrev or_kept {ℓ} : {A : Type ℓ} → Option A → Option A → Option A
or_kept none old = old
or_kept (some a) old = some a

-- The SET clause: a completed update installs the version that was granted.
unfoldable pub apply_changes : Changes → InstanceApplication → InstanceApplication
apply_changes c a = record a {
  version =
      if eqb c.status status_complete
      then or_default a.last_update_version a.version
      else a.version;
  status = some c.status;
  last_update_granted_ts = or_kept c.granted_ts a.last_update_granted_ts;
  last_update_version = or_kept c.update_version a.last_update_version;
  update_in_progress = or_default c.update_in_progress a.update_in_progress;
}

abbrev pub same_row : String → String → InstanceApplication → Bool
same_row instance_id app_id a = a.instance_id == instance_id && a.application_id == app_id

abbrev pub history_entry : ℕ → InstanceApplication → StatusHistoryEntry
history_entry new_status a = record {
  status = new_status;
  version = a.last_update_version;
  instance_id = a.instance_id;
  application_id = a.application_id;
  group_id = a.group_id;
}

-- The statement of `updateInstanceData`: the rows, and a history entry for each of them.
unfoldable pub write_changes : String → String → Changes → World → World
write_changes instance_id app_id c w =
    let rows = update_where (same_row instance_id app_id) (apply_changes c) w.instance_apps in
    record w {
      instance_apps = rows;
      history =
          w.history ++ map (history_entry c.status) (select (same_row instance_id app_id) rows);
    }

abbrev has_status : ℕ → Option ℕ → Bool
has_status s none = false
has_status s (some t) = eqb t s

-- INSERT … ON CONFLICT DO UPDATE: the rows that fit are changed, and a row is added if none does.
unfoldable pub upsert {ℓ} : {A : Type ℓ} → (A → Bool) → (A → A) → A → List A → List A
upsert p f new l = elim (find p l) [ none ↦ l ++ (new ∷ []) | some a ↦ update_where p f l ]

abbrev pub upsert_instance : InstanceRow → World → World
upsert_instance row w = record w {
  instances = upsert (λ i. i.id == row.id) (λ i. row) row w.instances;
}

abbrev pub upsert_instance_application : String → String → String → String → World → World
upsert_instance_application instance_id app_id group_id version w = record w {
  instance_apps =
      upsert (same_row instance_id app_id)
        (λ a. record a {
          group_id = some group_id;
          version = version;
          last_check_for_updates = w.now;
        })
        (record {
          instance_id = instance_id;
          application_id = app_id;
          group_id = some group_id;
          version = version;
          status = none;
          last_check_for_updates = w.now;
          last_update_granted_ts = none;
          last_update_version = none;
          update_in_progress = false;
        })
        w.instance_apps;
}

-- Precedence to what is stored over an omitted or empty field.
abbrev pub prefer : String → String → String
prefer given stored = if given == "" then stored else given

module _ (o : Outside) where
  unfoldable pub parse_uuid : String → Action String
  parse_uuid s = or_raise invalid_uuid (o.uuid_parse s)

  -- `validateApplicationAndGroup`: the normalised ids.
  unfoldable pub validate_application_and_group : String → String → Action (String × String)
  validate_application_and_group app_id group_id = do
    app ← parse_uuid app_id
    group ← parse_uuid group_id
    g ← get_group group_id
    if g.application_id == app then pure (app, group) else raise invalid_application_or_group

  -- Both writes, in a transaction.
  unfoldable pub register_both : InstanceRow → String → String → String → Action Instance
  register_both row app_id group_id version = do
    transaction (do
      exec (λ w. some (upsert_instance row w))
      exec (λ w. some (upsert_instance_application row.id app_id group_id version w)))
    get_instance o row.id app_id

  abbrev pub row_of : Instance → InstanceRow
  row_of i = record {
    id = i.id;
    ip = i.ip;
    oem = i.oem;
    aleph_version = i.aleph_version;
    alias = i.alias;
  }

  abbrev pub completed : Instance → Instance → InstanceRow
  completed given stored = record {
    id = given.id;
    ip = given.ip;
    oem = prefer given.oem stored.oem;
    aleph_version = prefer given.aleph_version stored.aleph_version;
    alias = prefer given.alias stored.alias;
  }

  -- Whether the IP, the alias, the OEM or the Aleph version changed.
  unfoldable pub instance_changed : InstanceRow → Instance → Bool
  instance_changed row stored = not (
      stored.ip == row.ip
      && stored.alias == row.alias
      && (stored.oem == row.oem && stored.aleph_version == row.aleph_version))

  -- Whether the latest check is older than five minutes, or the version or the group changed.
  unfoldable pub application_changed : String → String → ℕ → Instance → Bool
  application_changed group_id version now stored =
      ltb (stored.application.last_check_for_updates + 5 * 60) now
      || not (stored.application.version == version)
      || not (text stored.application.group_id == group_id)

  -- An instance that is known: only the tables with news are written, and where that is one table
  -- the instance is returned as it was read before.
  unfoldable pub register_known :
      InstanceRow → String → String → String → Instance → Action Instance
  register_known row app_id group_id version stored = do
    now ← gets (λ w. w.now)
    let update_instance = instance_changed row stored
    let update_application = application_changed group_id version now stored
    if update_instance
        then (if update_application
            then register_both row app_id group_id version
            else (do exec (λ w. some (upsert_instance row w)); pure stored))
        else (if update_application
            then (do
              exec (λ w. some (upsert_instance_application row.id app_id group_id version w))
              pure stored)
            else pure stored)

  -- A new instance is written to both tables.
  unfoldable pub register_found :
      Instance → String → String → String → Option Instance → Action Instance
  register_found inst app_id group_id version none =
      register_both (row_of inst) app_id group_id version
  register_found inst app_id group_id version (some stored) =
      register_known (completed inst stored) app_id group_id version stored

  -- `RegisterInstance`.
  unfoldable pub register_instance : Instance → InstanceApplication → Action Instance
  register_instance inst inst_app =
      if is_valid_semver o inst_app.version
      then (do
        ids ← validate_application_and_group inst_app.application_id (text inst_app.group_id)
        known ← if_no_error (get_instance o inst.id ids.0)
        register_found inst ids.0 ids.1 inst_app.version known)
      else raise invalid_semver

  -- `updateInstanceData`. The application's id is the one of the instance that was read; the uuid
  -- column refuses a text that is no uuid.
  unfoldable pub update_instance_data : Instance → Changes → Action Unit
  update_instance_data instance c =
      if has_status c.status instance.application.status
      then pure tt
      else exec λ w.
        if o.is_sql_uuid instance.application.application_id
        then some (write_changes instance.id instance.application.application_id (settle c) w)
        else none

  -- `updateInstanceObjStatus`.
  unfoldable pub update_instance_obj_status : Instance → ℕ → Action Unit
  update_instance_obj_status instance new_status = update_instance_data instance (record {
    status = new_status;
    granted_ts = none;
    update_version = none;
    update_in_progress = none;
  })

  -- `updateInstanceStatus`.
  unfoldable pub update_instance_status : String → String → ℕ → Action Unit
  update_instance_status instance_id app_id new_status = do
    instance ← get_instance o instance_id app_id
    update_instance_obj_status instance new_status

  -- `grantUpdate`.
  unfoldable pub grant_update : Instance → String → Action Unit
  grant_update instance version = do
    now ← gets (λ w. w.now)
    update_instance_data instance (record {
      status = status_update_granted;
      granted_ts = some now;
      update_version = some version;
      update_in_progress = some true;
    })
