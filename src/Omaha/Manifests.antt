-- ===== src/Omaha/Manifests.antt =====
-- omaha.go: what a response says of packages, and the status texts.
pub mod Sent
use nebraska.Base.{
  ℕ, String, Bool, true, false, Option, none, some, List, [], ◌∷◌, ◌++◌, map, ◌==◌, eqb, not,
}
use nebraska.Base.{◌&&◌, if◌then◌else◌}
use nebraska.Base.Exec.{Result, ok, err, pure, ◌>>=◌, ◌>>◌}
use nebraska.Base.Texts.{text_leb, parse_uint}
use nebraska.Types.{
  Error, no_package_found, invalid_application_or_group, register_instance_failed,
  max_updates_per_period_limit_reached, max_concurrent_updates_limit_reached,
  max_timed_out_updates_limit_reached, updates_disabled, get_updates_stats_failed,
  update_in_progress_on_instance, text, File, FlatcarAction, Package, pkg_type_flatcar,
}
use nebraska.Db.{World, Action, try}
use nebraska.Reads.Groups.{or_default}
use nebraska.Reads.Groups.{get_flatcar_action}
use nebraska.Omaha.Messages.{
  UpdateStatus, no_update, update_ok, update_internal_error, ManifestPackage, empty_package,
  ManifestAction, Manifest, new_manifest, AppResponse, UpdateResponse, add_update_check,
}

-- `getStatusMessageStr`.
unfoldable pub get_status_message_str : Error → String
get_status_message_str no_package_found = "error-noPackageFound"
get_status_message_str invalid_application_or_group = "error-unknownApplicationOrGroup"
get_status_message_str register_instance_failed = "error-instanceRegistrationFailed"
get_status_message_str max_updates_per_period_limit_reached =
    "error-maxUpdatesPerPeriodLimitReached"
get_status_message_str max_concurrent_updates_limit_reached =
    "error-maxConcurrentUpdatesLimitReached"
get_status_message_str max_timed_out_updates_limit_reached = "error-maxTimedOutUpdatesLimitReached"
get_status_message_str updates_disabled = "error-updatesDisabled"
get_status_message_str get_updates_stats_failed = "error-couldNotCheckUpdatesStats"
get_status_message_str update_in_progress_on_instance = "error-updateInProgressOnInstance"
get_status_message_str _ = "error-failedToRetrieveUpdatePackageInfo"

-- `slices.Sorted(maps.Keys(labels))`, with the values.
unfoldable pub insert_label : String × String → List (String × String) → List (String × String)
insert_label a [] = a ∷ []
insert_label a (b ∷ l) =
    let rest = b ∷ insert_label a l in if text_leb a.0 b.0 then a ∷ b ∷ l else rest

unfoldable pub sorted_labels : List (String × String) → List (String × String)
unfolding insert_label
sorted_labels [] = []
sorted_labels (a ∷ l) = insert_label a (sorted_labels l)

-- A size that does not parse is logged, and stays 0.
unfoldable pub size_or_zero : String → ℕ
size_or_zero s = or_default (parse_uint s) 0

unfoldable pub main_package : Package → ManifestPackage
unfolding size_or_zero
main_package p = record {
  name = text p.filename;
  sha1 = text p.hash;
  sha256 = "";
  size = elim p.size [ none ↦ 0 | some s ↦ size_or_zero s ];
  required = true;
  labels = sorted_labels p.labels;
}

-- Both hashes are sent only with a valid first one.
unfoldable pub extra_package : File → ManifestPackage
unfolding size_or_zero
extra_package f = record empty_package {
  name = text f.name;
  sha1 = text f.hash;
  sha256 = elim f.hash [ none ↦ "" | some h ↦ text f.hash256 ];
  size = elim f.size [ none ↦ 0 | some s ↦ if s == "" then 0 else size_or_zero s ];
}

-- `addPackageToManifest`.
unfoldable pub add_package_to_manifest : Manifest → Package → Manifest
unfolding main_package extra_package
add_package_to_manifest m p = record m {
  packages = m.packages ++ main_package p ∷ map extra_package p.extra_files;
}

unfoldable pub manifest_action : FlatcarAction → ManifestAction
manifest_action a = record {
  event = a.event;
  display_version = a.chromeos_version;
  sha256 = a.sha256;
  needs_admin = a.needs_admin;
  is_delta_payload = a.is_delta;
  disable_payload_backoff = a.disable_payload_backoff;
  metadata_signature_rsa = a.metadata_signature_rsa;
  metadata_size = a.metadata_size;
  deadline = a.deadline;
}

-- `addFlatcarActionToManifest`.
unfoldable pub add_flatcar_action_to_manifest : Manifest → Package → Action Manifest
unfolding manifest_action
add_flatcar_action_to_manifest m p =
    if eqb p.type pkg_type_flatcar
    then (do
      a ← get_flatcar_action p.id
      pure (record m { actions = m.actions ++ manifest_action a ∷ [] }))
    else pure m

abbrev single_check : String → Manifest → UpdateResponse
single_check url m = record { status = update_ok; urls = url ∷ []; manifests = m ∷ [] }

unfoldable pub with_manifest : AppResponse → String → Result Error Manifest → AppResponse
with_manifest r url (ok m) = record r { update_check = some (single_check url m) }
with_manifest r url (err e) = add_update_check update_internal_error r

-- `prepareUpdateCheck`.
unfoldable pub prepare_update_check : AppResponse → Option Package → Action AppResponse
prepare_update_check r none = pure (add_update_check no_update r)
prepare_update_check r (some p) = do
  m ← try (add_flatcar_action_to_manifest (add_package_to_manifest (new_manifest p.version) p) p)
  pure (with_manifest r p.url m)

abbrev pub default_floor_reason : String
default_floor_reason = "Required intermediate version"

unfoldable pub with_flags : Package → Bool → Manifest → Manifest
with_flags p is_last m = record m {
  is_floor = p.is_floor;
  floor_reason = if p.is_floor then or_default p.floor_reason default_floor_reason else "";
  is_target = is_last;
}

abbrev pub is_empty {ℓ} : {A : Type ℓ} → List A → Bool
is_empty [] = true
is_empty (x ∷ l) = false

-- The first failure ends the loop; its manifest is there, without an action.
unfoldable pub add_rest :
    Manifest
    → Result Error Manifest
    → Action (List Manifest × UpdateStatus)
    → Action (List Manifest × UpdateStatus)
add_rest plain (ok m) rest = do more ← rest; pure (m ∷ more.0, more.1)
add_rest plain (err e) rest = pure (plain ∷ [], update_internal_error)

-- The loop over the packages: the manifests, and the status of the update check after it.
unfoldable pub manifests_of : List Package → Action (List Manifest × UpdateStatus)
unfolding with_flags add_rest
manifests_of [] = pure ([], update_ok)
manifests_of (p ∷ l) = do
  let plain = add_package_to_manifest (with_flags p (is_empty l) (new_manifest p.version)) p
  m ← try (add_flatcar_action_to_manifest plain p)
  add_rest plain m (manifests_of l)

unfoldable pub last_url : String → List Package → String
last_url url [] = url
last_url url (p ∷ l) = last_url p.url l

-- `prepareMultiManifestUpdateCheck`.
unfoldable pub prepare_multi_manifest_update_check : AppResponse → List Package → Action AppResponse
unfolding last_url
prepare_multi_manifest_update_check r [] = pure (add_update_check no_update r)
prepare_multi_manifest_update_check r (p ∷ l) = do
  ms ← manifests_of (p ∷ l)
  pure (record r {
    update_check = some (record { status = ms.1; urls = last_url p.url l ∷ []; manifests = ms.0 });
  })
