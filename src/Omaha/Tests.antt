-- ===== src/Omaha/Tests.antt =====
-- Requests to the small database of the runtime service's tests, and the theorems at them.
use nebraska.Base.{String, ◌≡◌, refl, true, false, some, List, [], ◌∷◌, map}
use nebraska.Base.Exec.{ok, err, ◌>>=◌}
use nebraska.Types.{unnamed, InstanceApplication, Instance, Package}
use nebraska.Db.{World, try, query}
use nebraska.Reads.Lookups.{get_all_groups, get_group_id, get_app_id}
use nebraska.Reads.Lookups.Laws.{wanted, last_group, answer, cached_last_group, failed_fill_stays}
use nebraska.Omaha.Messages.{
  AppRequest, Request, AppResponse, UpdateResponse, update_ok, new_app, app_ok, Manifest,
}
use nebraska.Omaha.Handler.{
  is_syncer_client, process_update_check, build_omaha_response, instance_of,
  new_instance_application,
}
use nebraska.Omaha.Handler.Answers.{Answers, request-Answers}
use nebraska.Omaha.Handler.Syncers.{IsSyncerOffer, syncer_check-IsSyncerOffer}
use nebraska.Runtime.Tests.{outside, start, group_row, channel}

abbrev app_request : AppRequest
app_request = record {
  id = "app";
  version = "1.0.0";
  track = "stable";
  board = "amd64-usr";
  machine_id = "machine";
  machine_alias = "";
  oem = "";
  aleph_version = "";
  multi_manifest_ok = true;
  events = [];
  has_ping = false;
  has_update_check = true;
}

abbrev request : Request
request = record {
  os_arch = some "x64";
  version = "CoreOSUpdateEngine-0.1.0.0";
  install_source = "scheduler";
  apps = app_request ∷ record app_request { multi_manifest_ok = false } ∷ [];
}

request-Answers_example :
    (l : List AppResponse) × (w' : World) × (build_omaha_response outside request "10.0.0.1" start
      ≡ (ok l, w'))
    × Answers outside request.apps l
request-Answers_example = request-Answers outside request "10.0.0.1" start

abbrev inst : Instance
inst = instance_of app_request "10.0.0.1"

abbrev inst_app : InstanceApplication
inst_app = new_instance_application "app" "group" "1.0.0"

abbrev manifest : String → Manifest
manifest version = record {
  version = version;
  packages =
      record { name = ""; sha1 = ""; sha256 = ""; size = 0; required = true; labels = [] } ∷ [];
  actions = [];
  is_floor = false;
  floor_reason = "";
  is_target = false;
}

abbrev with_actions : World
with_actions = record start {
  packages = map {A = Package} (λ p. record p { type = 2 }) start.packages;
}

abbrev offer : UpdateResponse
offer = record {
  status = update_ok;
  urls = "http://localhost/" ∷ [];
  manifests =
      record (manifest "2.0.0") { is_floor = true; floor_reason = "Required intermediate version" }
      ∷ record (manifest "3.0.0") { is_target = true }
      ∷ [];
}

abbrev offered : AppResponse
offered = record (new_app "app" app_ok) { update_check = some offer }

abbrev offered_world : World
offered_world =
    (process_update_check outside request app_request inst inst_app (new_app "app" app_ok)
      with_actions).1

offered_lem :
    process_update_check outside request app_request inst inst_app
      (new_app "app" app_ok)
      with_actions
    ≡ (ok offered, offered_world)
unfolding process_update_check nebraska.Omaha.Handler.is_syncer_client nebraska.Db.try
    new_instance_application nebraska.Omaha.Handler.answer_syncer nebraska.Omaha.Handler.has_floors
    nebraska.Omaha.Manifests.prepare_multi_manifest_update_check
    nebraska.Omaha.Manifests.manifests_of nebraska.Omaha.Manifests.with_flags
    nebraska.Omaha.Manifests.add_package_to_manifest
    nebraska.Omaha.Manifests.add_flatcar_action_to_manifest nebraska.Omaha.Manifests.main_package
    nebraska.Omaha.Manifests.sorted_labels nebraska.Omaha.Manifests.add_rest
    nebraska.Omaha.Manifests.last_url nebraska.Runtime.Updates.get_update_packages_for_syncer
    nebraska.Runtime.Updates.syncer_packages nebraska.Runtime.Updates.syncer_grant
    nebraska.Runtime.Updates.any_blacklisted nebraska.Runtime.Updates.last_or
    nebraska.Runtime.Updates.registered nebraska.Runtime.Updates.channel_and_package
    nebraska.Runtime.Updates.found_target nebraska.Runtime.Updates.target_of
    nebraska.Runtime.Updates.is_busy nebraska.Runtime.Updates.is_granted
    nebraska.Reads.Groups.get_group nebraska.Reads.Groups.group_rows
    nebraska.Reads.Groups.group_channel nebraska.Reads.Groups.get_channel
    nebraska.Reads.Groups.get_package nebraska.Reads.Groups.get_flatcar_action
    nebraska.Reads.Groups.optional nebraska.Reads.Groups.joined_group
    nebraska.Reads.Groups.effective_policy nebraska.Reads.Outside.is_valid_semver
    nebraska.Reads.Instances.get_instance nebraska.Reads.Instances.get_instance_app
    nebraska.Runtime.Instances.register_instance
    nebraska.Runtime.Instances.validate_application_and_group nebraska.Runtime.Instances.parse_uuid
    nebraska.Db.or_raise nebraska.Runtime.Instances.register_found
    nebraska.Runtime.Instances.register_known nebraska.Runtime.Instances.instance_changed
    nebraska.Runtime.Instances.application_changed
    nebraska.Runtime.Updates.get_packages_with_floors_for_update
    nebraska.Reads.Floors.get_required_channel_floors nebraska.Reads.Floors.floors_up_to
    nebraska.Reads.Floors.get_packages_from_query nebraska.Reads.Floors.required_floors
    nebraska.Reads.Floors.keyed_floors nebraska.Db.find nebraska.Reads.Floors.sort_keyed
    nebraska.Reads.Floors.insert_keyed nebraska.Reads.Floors.between nebraska.Reads.Floors.array_lt
    nebraska.Reads.Floors.packages_of nebraska.Reads.Floors.max_floors
    nebraska.Reads.Floors.load_package_extras nebraska.Runtime.Updates.with_target
    nebraska.Runtime.Updates.last_id nebraska.Runtime.Updates.contains
    nebraska.Runtime.Updates.grant nebraska.Runtime.Rollout.enforce_rollout_policy
    nebraska.Runtime.Rollout.in_office_hours_now nebraska.Runtime.Rollout.unlimited
    nebraska.Runtime.Rollout.counted_limits nebraska.Runtime.Rollout.check_limits
    nebraska.Runtime.Rollout.effective_max nebraska.Reads.Stats.get_group_updates_stats
    nebraska.Reads.Stats.updates_stats nebraska.Reads.Stats.counted
    nebraska.Reads.Stats.granted_lately nebraska.Reads.Stats.progressing
    nebraska.Reads.Stats.timed_out nebraska.Reads.Stats.current_version nebraska.Db.count_where
    nebraska.Db.select nebraska.Runtime.Instances.grant_update
    nebraska.Runtime.Instances.update_instance_data nebraska.Runtime.Instances.write_changes
    nebraska.Runtime.Updates.record_rollout nebraska.Db.exec nebraska.Db.query nebraska.Db.attempt
    nebraska.Db.relabel ◌>>=◌ nebraska.Reads.Outside.semver_lt
    nebraska.Runtime.Activity.has_recent_runtime_activity nebraska.Db.if_no_error
offered_lem = refl

is_syncer : is_syncer_client request ≡ true
unfolding is_syncer_client
is_syncer = refl

syncer_check-IsSyncerOffer_example :
    IsSyncerOffer outside app_request inst inst_app offer with_actions offered_world
syncer_check-IsSyncerOffer_example =
    syncer_check-IsSyncerOffer outside request app_request inst inst_app (new_app "app" app_ok)
      offered offer with_actions offered_world is_syncer refl offered_lem refl refl

-- The cache is filled by a request for another track, and outlives the groups.
abbrev cached : World
cached = record (get_group_id "app" "beta" 1 start).1 { groups = []; faults = true ∷ [] }

groups_read : get_all_groups start ≡ (ok ((group_row, some channel) ∷ []), start)
unfolding get_all_groups ◌>>=◌ query nebraska.Reads.Lookups.with_channels
    nebraska.Reads.Groups.group_channel nebraska.Reads.Groups.optional
    nebraska.Reads.Groups.get_channel nebraska.Db.find nebraska.Reads.Groups.get_package
    nebraska.Reads.Groups.get_flatcar_action
groups_read = refl

cached_last_group_example :
    ((get_group_id "app" "stable" 1 start).0
      ≡ answer (last_group (wanted "app" "stable" 1) ((group_row, some channel) ∷ [])))
    × ((get_group_id "app" "stable" 1 cached).0
        ≡ answer (last_group (wanted "app" "stable" 1) ((group_row, some channel) ∷ [])))
cached_last_group_example =
    cached_last_group start start cached ((group_row, some channel) ∷ []) "app" "beta" 1 "app"
      "stable" 1 refl groups_read refl

abbrev failing : World
failing = record start { faults = true ∷ [] }

abbrev later_world : World
later_world = (get_app_id outside "other" failing).1

failed_fill_stays_example : (get_app_id outside "app" later_world).0 ≡ err unnamed
failed_fill_stays_example =
    failed_fill_stays outside failing later_world "other" "app" refl refl refl
