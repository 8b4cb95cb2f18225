-- ===== src/Runtime/Tests.antt =====
-- A service on a small database, and the theorems at it: one application with a group whose channel
-- points to 3.0.0 and requires the floor 2.0.0, and one instance that runs 1.0.0.
pub mod Grants
pub mod Calls
pub mod Checks
use nebraska.Base.{
  ℕ, ◌+◌, ◌≤◌, ◌<◌, String, ◌≡◌, ◌≢◌, refl, Bool, true, false, Option, none, some, List, [], ◌∷◌,
  ◌==◌, if◌then◌else◌, ltb, leb, eqb, not, ◌&&◌, ◌||◌, arith, inl, inr,
}
use nebraska.Base.Exec.{Result, ok, err, ◌>>=◌}
use nebraska.Types.{
  Error, no_update_in_progress, flatcar_event_ignored, Instance, InstanceApplication, Package,
  Channel, Group, GroupPolicy, GroupPolicyOverrides, UpdatesStats,
}
use nebraska.Db.{
  World, GroupRow, GroupLocalRow, ChannelRow, FloorRow, InstanceRow, EventTypeRow, query, exec,
  attempt, relabel, find, select, update_where, count_where, or_raise, exec_rows, if_no_error,
  transaction,
}
use nebraska.Db.Keeps.{quiet}
use nebraska.Reads.Outside.{Outside, semver_lt, is_valid_semver}
use nebraska.Reads.Groups.{joined_group, effective_policy, group_rows}

abbrev number : String → Option ℕ
number s =
    if s == "1.0.0"
    then some 1
    else if s == "2.0.0"
    then some 2
    else if s == "3.0.0"
    then some 3
    else none

abbrev array : String → Option (List ℕ)
array s = elim (number s) [ none ↦ none | some n ↦ some (n ∷ 0 ∷ 0 ∷ []) ]

-- Intervals are fifteen minutes, and it is Monday, ten o'clock.
abbrev pub outside : Outside
outside = record {
  Version = ℕ;
  make = number;
  zero_version = 0;
  lt = ltb;
  uuid_parse = λ s. some s;
  is_sql_uuid = λ s. true;
  to_lower = λ s. s;
  interval = λ s. 900;
  int_array = array;
  is_fake = λ s. false;
  local_time = λ tz t. some (1, 10);
  max_floors_per_response = 0;
  disable_updates_on_failed_rollout = true;
}

abbrev package_of : String → String → Package
package_of id version = record {
  id = id;
  type = 1;
  version = version;
  url = "http://localhost/";
  filename = none;
  size = none;
  hash = none;
  channels_blacklist = [];
  application_id = "app";
  flatcar_action = none;
  arch = 1;
  extra_files = [];
  labels = [];
  is_floor = false;
  floor_reason = none;
}

abbrev pub target : Package
target = package_of "p3" "3.0.0"

abbrev pub floor_row : FloorRow
floor_row = record { channel_id = "stable"; package_id = "p2"; floor_reason = none }

abbrev pub floor : Package
floor = record (package_of "p2" "2.0.0") { is_floor = true }

abbrev pub channel : Channel
channel = record {
  id = "stable";
  name = "stable";
  application_id = "app";
  package_id = some "p3";
  pkg = some target;
  arch = 1;
}

abbrev pub policy : GroupPolicy
policy = record {
  updates_enabled = true;
  safe_mode = true;
  office_hours = true;
  timezone = some "Europe/Berlin";
  period_interval = "15 minutes";
  max_updates_per_period = 2;
  update_timeout = "15 minutes";
}

abbrev pub no_overrides : GroupPolicyOverrides
no_overrides = record {
  updates_enabled = none;
  safe_mode = none;
  office_hours = none;
  timezone = none;
  period_interval = none;
  max_updates_per_period = none;
  update_timeout = none;
}

abbrev pub group_row : GroupRow
group_row = record {
  id = "group";
  application_id = "app";
  channel_id = some "stable";
  track = "stable";
  policy = policy;
}

abbrev pub own_row : GroupLocalRow
own_row = record { group_id = "group"; rollout_in_progress = false; overrides = no_overrides }

abbrev pub group : Group
group = record {
  id = "group";
  application_id = "app";
  channel_id = some "stable";
  rollout_in_progress = false;
  policy = policy;
  channel = some channel;
  track = "stable";
  admin_policy = policy;
  local_overrides = no_overrides;
}

abbrev pub application : InstanceApplication
application = record {
  instance_id = "machine";
  application_id = "app";
  group_id = some "group";
  version = "1.0.0";
  status = none;
  last_check_for_updates = 100000;
  last_update_granted_ts = none;
  last_update_version = none;
  update_in_progress = false;
}

abbrev pub instance : Instance
instance = record {
  id = "machine";
  ip = "10.0.0.1";
  oem = "";
  aleph_version = "";
  alias = "";
  application = application;
}

abbrev pub start : World
start = record {
  instances =
      record { id = "machine"; ip = "10.0.0.1"; oem = ""; aleph_version = ""; alias = "" } ∷ [];
  instance_apps = application ∷ [];
  history = [];
  groups = group_row ∷ [];
  group_locals = own_row ∷ [];
  channels =
      record {
        id = "stable";
        name = "stable";
        application_id = "app";
        package_id = some "p3";
        arch = 1;
      }
      ∷ [];
  packages = target ∷ package_of "p2" "2.0.0" ∷ [];
  flatcar_actions = [];
  floors = floor_row ∷ [];
  event_types = record { id = 1; type = 3; result = 2 } ∷ [];
  events = [];
  activities = [];
  admin_activities = [];
  applications = record { id = "app"; product_id = some "io.example.App" } ∷ [];
  cached_app_ids = none;
  cached_groups = none;
  now = 100000;
  faults = [];
}
