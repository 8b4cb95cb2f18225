-- ===== src/Omaha/Messages.antt =====
-- The messages of package go-omaha, by the fields that omaha.go reads of a request and sets in a
-- response. A pointer that may be nil is an Option.
use nebraska.Base.{ℕ, String, Bool, false, Option, none, some, List, []}

pub record EventRequest : Type 0 where
  pub type : ℕ
  pub result : ℕ
  pub error_code : String
  pub previous_version : String

-- `has_ping` and `has_update_check`: the pointer is not nil.
pub record AppRequest : Type 0 where
  pub id : String
  pub version : String
  pub track : String
  pub board : String
  pub machine_id : String
  pub machine_alias : String
  pub oem : String
  pub aleph_version : String
  pub multi_manifest_ok : Bool
  pub events : List EventRequest
  pub has_ping : Bool
  pub has_update_check : Bool

pub record Request : Type 0 where
  pub os_arch : Option String
  pub version : String
  pub install_source : String
  pub apps : List AppRequest

pub data AppStatus : Type 0 where
  app_ok app_unknown_id : AppStatus
  status_message : String → AppStatus

pub data UpdateStatus : Type 0 where
  no_update update_ok update_internal_error : UpdateStatus

pub record ManifestPackage : Type 0 where
  pub name : String
  pub sha1 : String
  pub sha256 : String
  pub size : ℕ
  pub required : Bool
  pub labels : List (String × String)

-- What `AddPackage` appends.
abbrev pub empty_package : ManifestPackage
empty_package = record {
  name = "";
  sha1 = "";
  sha256 = "";
  size = 0;
  required = false;
  labels = [];
}

pub record ManifestAction : Type 0 where
  pub event : String
  pub display_version : String
  pub sha256 : String
  pub needs_admin : Bool
  pub is_delta_payload : Bool
  pub disable_payload_backoff : Bool
  pub metadata_signature_rsa : String
  pub metadata_size : String
  pub deadline : String

pub record Manifest : Type 0 where
  pub version : String
  pub packages : List ManifestPackage
  pub actions : List ManifestAction
  pub is_floor : Bool
  pub floor_reason : String
  pub is_target : Bool

-- What `AddManifest` appends.
abbrev pub new_manifest : String → Manifest
new_manifest version = record {
  version = version;
  packages = [];
  actions = [];
  is_floor = false;
  floor_reason = "";
  is_target = false;
}

pub record UpdateResponse : Type 0 where
  pub status : UpdateStatus
  pub urls : List String
  pub manifests : List Manifest

-- `events` counts the `AddEvent`s.
pub record AppResponse : Type 0 where
  pub id : String
  pub status : AppStatus
  pub events : ℕ
  pub has_ping : Bool
  pub update_check : Option UpdateResponse

-- What `AddApp` appends.
abbrev pub new_app : String → AppStatus → AppResponse
new_app id status = record {
  id = id;
  status = status;
  events = 0;
  has_ping = false;
  update_check = none;
}

-- `AddUpdateCheck`.
abbrev pub add_update_check : UpdateStatus → AppResponse → AppResponse
add_update_check status r = record r {
  update_check = some (record { status = status; urls = []; manifests = [] });
}
