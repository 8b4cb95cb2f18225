-- ===== src/Types.antt =====
-- backend/pkg/api/types: what the api reads from the database and returns to its callers, and the
-- errors that the runtime service and the read queries return. A null.String or null.Int is an
-- Option; `text` is the `.String` of a null.String.
pub mod Arch
pub mod Tests
use nebraska.Base.{ℕ, String, Bool, false, Option, none, some, List}

abbrev pub text : Option String → String
text none = ""
text (some s) = s

-- `database` is what the driver returns for a statement that failed.
pub data Error : Type 0 where
  database no_rows no_rows_affected invalid_uuid : Error
  invalid_semver no_package_found empty_instance_version : Error
  register_instance_failed update_in_progress_on_instance no_update_package_available : Error
  update_grant_failed updates_disabled get_updates_stats_failed : Error
  max_updates_per_period_limit_reached max_concurrent_updates_limit_reached : Error
  max_timed_out_updates_limit_reached : Error
  invalid_application_or_group invalid_instance invalid_event_type_or_result : Error
  event_registration_failed no_update_in_progress flatcar_event_ignored : Error
  invalid_package arch_mismatch package_blacklisted blacklisted_channel : Error
  blacklisting_channel blacklisting_floor package_is_floor invalid_arch invalid_labels : Error
  invalid_channel expecting_valid_timezone : Error
  -- made on the spot by fmt.Errorf; not an error, a panic
  unnamed go_panic : Error

-- `GroupDescriptor`.
pub record GroupDescriptor : Type 0 where
  pub app_id : String
  pub track : String
  pub arch : ℕ

-- The statuses of an instance.
abbrev pub status_undefined : ℕ
status_undefined = 1

abbrev pub status_update_granted : ℕ
status_update_granted = 2

abbrev pub status_error : ℕ
status_error = 3

abbrev pub status_complete : ℕ
status_complete = 4

abbrev pub status_installed : ℕ
status_installed = 5

abbrev pub status_downloaded : ℕ
status_downloaded = 6

abbrev pub status_downloading : ℕ
status_downloading = 7

abbrev pub status_on_hold : ℕ
status_on_hold = 8

-- Times are seconds.
pub record InstanceApplication : Type 0 where
  pub instance_id : String
  pub application_id : String
  pub group_id : Option String
  pub version : String
  pub status : Option ℕ
  pub last_check_for_updates : ℕ
  pub last_update_granted_ts : Option ℕ
  pub last_update_version : Option String
  pub update_in_progress : Bool

-- The zero value.
abbrev pub no_application : InstanceApplication
no_application = record {
  instance_id = "";
  application_id = "";
  group_id = none;
  version = "";
  status = none;
  last_check_for_updates = 0;
  last_update_granted_ts = none;
  last_update_version = none;
  update_in_progress = false;
}

pub record Instance : Type 0 where
  pub id : String
  pub ip : String
  pub oem : String
  pub aleph_version : String
  pub alias : String
  pub application : InstanceApplication

pub record StatusHistoryEntry : Type 0 where
  pub status : ℕ
  pub version : Option String
  pub instance_id : String
  pub application_id : String
  pub group_id : Option String

pub record File : Type 0 where
  pub id : ℕ
  pub name : Option String
  pub size : Option String
  pub hash : Option String
  pub hash256 : Option String

pub record FlatcarAction : Type 0 where
  pub id : String
  pub package_id : String
  pub event : String
  pub chromeos_version : String
  pub sha256 : String
  pub needs_admin : Bool
  pub is_delta : Bool
  pub disable_payload_backoff : Bool
  pub metadata_signature_rsa : String
  pub metadata_size : String
  pub deadline : String

-- The types of a package.
abbrev pub pkg_type_flatcar : ℕ
pkg_type_flatcar = 1

pub record Package : Type 0 where
  pub id : String
  pub type : ℕ
  pub version : String
  pub url : String
  pub filename : Option String
  pub size : Option String
  pub hash : Option String
  pub channels_blacklist : List String
  pub application_id : String
  pub flatcar_action : Option FlatcarAction
  pub arch : ℕ
  pub extra_files : List File
  pub labels : List (String × String)
  pub is_floor : Bool
  pub floor_reason : Option String

pub record Channel : Type 0 where
  pub id : String
  pub name : String
  pub application_id : String
  pub package_id : Option String
  pub pkg : Option Package
  pub arch : ℕ

-- The update policy of a group, as the admin sets it and as a node overrides it.
pub record GroupPolicy : Type 0 where
  pub updates_enabled : Bool
  pub safe_mode : Bool
  pub office_hours : Bool
  pub timezone : Option String
  pub period_interval : String
  pub max_updates_per_period : ℕ
  pub update_timeout : String

pub record GroupPolicyOverrides : Type 0 where
  pub updates_enabled : Option Bool
  pub safe_mode : Option Bool
  pub office_hours : Option Bool
  pub timezone : Option String
  pub period_interval : Option String
  pub max_updates_per_period : Option ℕ
  pub update_timeout : Option String

-- `policy` is the effective policy.
pub record Group : Type 0 where
  pub id : String
  pub application_id : String
  pub channel_id : Option String
  pub rollout_in_progress : Bool
  pub policy : GroupPolicy
  pub channel : Option Channel
  pub track : String
  pub admin_policy : GroupPolicy
  pub local_overrides : GroupPolicyOverrides

-- `ShowAdminPolicy`.
unfoldable pub show_admin_policy : Group → Group
show_admin_policy g = record g { policy = g.admin_policy }

pub record UpdatesStats : Type 0 where
  pub total_instances : ℕ
  pub updates_to_current_version_granted : ℕ
  pub updates_to_current_version_attempted : ℕ
  pub updates_to_current_version_succeeded : ℕ
  pub updates_to_current_version_failed : ℕ
  pub updates_granted_in_last_period : ℕ
  pub updates_in_progress : ℕ
  pub updates_timed_out : ℕ

pub record Activity : Type 0 where
  pub class : ℕ
  pub severity : ℕ
  pub version : String
  pub application_id : String
  pub group_id : Option String
  pub instance_id : Option String
  pub created_ts : ℕ

-- A row of admin_activity.
pub record AdminActivity : Type 0 where
  pub class : ℕ
  pub severity : ℕ
  pub version : String
  pub application_id : String
  pub channel_id : String

-- The classes and the severities of activity entries.
abbrev pub activity_package_not_found : ℕ
activity_package_not_found = 1

abbrev pub activity_rollout_started : ℕ
activity_rollout_started = 2

abbrev pub activity_rollout_finished : ℕ
activity_rollout_finished = 3

abbrev pub activity_rollout_failed : ℕ
activity_rollout_failed = 4

abbrev pub activity_instance_update_failed : ℕ
activity_instance_update_failed = 5

abbrev pub activity_channel_package_updated : ℕ
activity_channel_package_updated = 6

abbrev pub activity_success : ℕ
activity_success = 1

abbrev pub activity_info : ℕ
activity_info = 2

abbrev pub activity_warning : ℕ
activity_warning = 3

abbrev pub activity_error : ℕ
activity_error = 4

-- The types and the results of events.
abbrev pub event_update_complete : ℕ
event_update_complete = 3

abbrev pub event_update_download_started : ℕ
event_update_download_started = 13

abbrev pub event_update_download_finished : ℕ
event_update_download_finished = 14

abbrev pub event_update_installed : ℕ
event_update_installed = 800

abbrev pub result_failed : ℕ
result_failed = 0

abbrev pub result_success : ℕ
result_success = 1

abbrev pub result_success_reboot : ℕ
result_success_reboot = 2
