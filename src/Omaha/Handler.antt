-- ===== src/Omaha/Handler.antt =====
-- omaha.go: `buildOmahaResponse`, from a request that has been decoded.
pub mod Floors
pub mod Answers
pub mod Syncers
use nebraska.Base.{
  ℕ, ◌+◌, String, Bool, true, false, Option, none, some, List, [], ◌∷◌, ◌++◌, ◌==◌, eqb, not,
}
use nebraska.Base.{◌&&◌, ◌||◌, if◌then◌else◌}
use nebraska.Base.Exec.{Result, ok, err, pure, ◌>>=◌, ◌>>◌}
use nebraska.Base.Dict.{lookup}
use nebraska.Types.{
  Error, no_update_package_available, update_grant_failed, Instance, InstanceApplication,
  no_application, Package,
}
use nebraska.Types.Arch.{Kind, ours, omaha, coreos, arch_amd64, arch_from_string}
use nebraska.Db.{World, Action, try, attempt}
use nebraska.Reads.Outside.{Outside}
use nebraska.Reads.Lookups.{get_app_id, get_group_id}
use nebraska.Runtime.Instances.{register_instance}
use nebraska.Runtime.Updates.{get_update_package, get_update_packages_for_syncer}
use nebraska.Runtime.Events.{register_event}
use nebraska.Omaha.Messages.{
  EventRequest, AppRequest, Request, app_ok, app_unknown_id, status_message, no_update,
  update_internal_error, AppResponse, new_app, add_update_check,
}
use nebraska.Omaha.Manifests.{
  get_status_message_str, prepare_update_check, prepare_multi_manifest_update_check,
}

-- `initialFlatcarGroups`.
abbrev pub initial_flatcar_groups : List (String × String)
initial_flatcar_groups =
    ("5b810680-e36a-4879-b98a-4f989e80b899", "alpha")
    ∷ ("3fe10490-dd73-4b49-b72a-28ac19acfcdc", "beta")
    ∷ ("9a2deb70-37be-4026-853f-bfdd6b347bbe", "stable")
    ∷ ("72834a2b-ad86-4d6d-b498-e08a19ebe54e", "edge")
    ∷ ("e641708d-fb48-4260-8bdf-ba2074a1147a", "alpha")
    ∷ ("d112ec01-ba34-4a9e-9d4b-9814a685f266", "beta")
    ∷ ("11a585f6-9418-4df0-8863-78b2fd3240f8", "stable")
    ∷ ("b4b2fa22-c1ea-498c-a8ac-c1dc0b1d7c17", "edge")
    ∷ []

abbrev or_same : Option String → String → String
or_same none s = s
or_same (some t) s = t

-- The track that a client names, by its name or by one of the old ids.
unfoldable pub track_name : String → String
track_name track = or_same (lookup track initial_flatcar_groups) track

abbrev first_arch : Option ℕ → ℕ → ℕ
first_arch none a = a
first_arch (some b) a = b

-- `getArch`, for an application request that is there.
unfoldable pub get_arch : Option String → AppRequest → ℕ
get_arch os_arch req = first_arch (arch_from_string coreos req.board) (elim os_arch [
  | none ↦ arch_amd64
  | some s ↦ first_arch (arch_from_string omaha s) (first_arch (arch_from_string ours s) arch_amd64)
])

-- `isSyncerClient`.
unfoldable pub is_syncer_client : Request → Bool
is_syncer_client req =
    req.install_source == "scheduler" && req.version == "CoreOSUpdateEngine-0.1.0.0"

unfoldable pub has_floors : List Package → Bool
has_floors [] = false
has_floors (p ∷ l) = p.is_floor || has_floors l

-- Whether the request ends here, or goes on with the next application.
pub data Step : Type 0 where
  done next : AppResponse → Step

abbrev pub response_of : Step → AppResponse
response_of (done r) = r
response_of (next r) = r

-- The status text of an error, with an update check that failed.
unfoldable pub refuse : AppResponse → Error → AppResponse
refuse r e =
    add_update_check update_internal_error
      (record r { status = status_message (get_status_message_str e) })

-- Two errors say that there is nothing to do.
unfoldable pub no_package : AppResponse → Error → AppResponse
unfolding refuse
no_package r no_update_package_available = add_update_check no_update r
no_package r update_grant_failed = add_update_check no_update r
no_package r e = refuse r e

-- An answer to a syncer: one that cannot take several manifests is not to skip floors.
unfoldable pub answer_syncer :
    AppRequest → AppResponse → Result Error (List Package) → Action AppResponse
unfolding has_floors no_package
answer_syncer req r (err e) = pure (no_package r e)
answer_syncer req r (ok []) = pure (add_update_check no_update r)
answer_syncer req r (ok (p ∷ l)) =
    if has_floors (p ∷ l) && not req.multi_manifest_ok
    then pure (add_update_check no_update r)
    else prepare_multi_manifest_update_check r (p ∷ l)

unfoldable pub answer_client : AppResponse → Result Error Package → Action AppResponse
unfolding no_package
answer_client r (err e) = pure (no_package r e)
answer_client r (ok p) = prepare_update_check r (some p)

abbrev pub instance_of : AppRequest → String → Instance
instance_of req ip = record {
  id = req.machine_id;
  ip = ip;
  oem = req.oem;
  aleph_version = req.aleph_version;
  alias = req.machine_alias;
  application = no_application;
}

-- `NewInstanceApplication`.
unfoldable pub new_instance_application : String → String → String → InstanceApplication
new_instance_application app_id group_id version = record no_application {
  application_id = app_id;
  group_id = some group_id;
  version = version;
}

module _ (o : Outside) where
  -- `processEvent`.
  unfoldable pub process_event : String → String → String → EventRequest → Action Unit
  process_event machine_id app_id group e =
      register_event o machine_id app_id group e.type e.result e.previous_version e.error_code

  -- An event that is refused is logged, and answered too.
  unfoldable pub process_events :
      String → String → String → List EventRequest → AppResponse → Action AppResponse
  unfolding process_event
  process_events machine_id app_id group [] r = pure r
  process_events machine_id app_id group (e ∷ l) r = do
    attempt (process_event machine_id app_id group e)
    process_events machine_id app_id group l (record r { events = r.events + 1 })

  unfoldable pub process_ping :
      AppRequest → Instance → InstanceApplication → AppResponse → Action AppResponse
  process_ping req inst inst_app r =
      if req.has_ping
      then (do
        registered ← try (register_instance o inst inst_app)
        pure (record r { has_ping = true }))
      else pure r

  unfoldable pub process_update_check :
      Request → AppRequest → Instance → InstanceApplication → AppResponse → Action AppResponse
  unfolding answer_syncer answer_client
  process_update_check req app inst inst_app r =
      if not app.has_update_check
      then pure r
      else if is_syncer_client req
      then (do
        packages ← try (get_update_packages_for_syncer o inst inst_app)
        answer_syncer app r packages)
      else (do pkg ← try (get_update_package o inst inst_app); answer_client r pkg)

  -- The group is known.
  unfoldable pub serve :
      Request → String → AppRequest → String → AppResponse → Result Error String → Action Step
  unfolding process_events process_ping process_update_check new_instance_application
  serve req ip app app_id r (err e) = pure (done (refuse r e))
  serve req ip app app_id r (ok group) = do
    let inst = instance_of app ip
    let inst_app = new_instance_application app_id group app.version
    r1 ← process_events app.machine_id app_id group app.events r
    r2 ← process_ping app inst inst_app r1
    r3 ← process_update_check req app inst inst_app r2
    pure (next r3)

  -- The application is known.
  unfoldable pub serve_app : Request → String → AppRequest → Result Error String → Action Step
  unfolding serve track_name get_arch
  serve_app req ip app (err e) = pure (done (refuse (new_app app.id app_unknown_id) e))
  serve_app req ip app (ok app_id) = do
    group ← try (get_group_id app_id (track_name app.track) (get_arch req.os_arch app))
    serve req ip app app_id (new_app app.id app_ok) group

  -- One round of the loop of `buildOmahaResponse`.
  unfoldable pub handle_app : Request → String → AppRequest → Action Step
  unfolding serve_app
  handle_app req ip app = do app_id ← try (get_app_id o app.id); serve_app req ip app app_id

  unfoldable pub go_on : Step → Action (List AppResponse) → Action (List AppResponse)
  go_on (done r) rest = pure (r ∷ [])
  go_on (next r) rest = do more ← rest; pure (r ∷ more)

  unfoldable pub handle_apps : Request → String → List AppRequest → Action (List AppResponse)
  unfolding handle_app go_on
  handle_apps req ip [] = pure []
  handle_apps req ip (app ∷ l) = do step ← handle_app req ip app; go_on step (handle_apps req ip l)

  -- `buildOmahaResponse`: the responses to the applications.
  unfoldable pub build_omaha_response : Request → String → Action (List AppResponse)
  build_omaha_response req ip = handle_apps req ip req.apps
