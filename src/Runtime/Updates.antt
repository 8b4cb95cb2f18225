-- ===== src/Runtime/Updates.antt =====
-- runtime/updates.go: `GetUpdatePackage` and `GetUpdatePackagesForSyncer`.
pub mod Selected
pub mod Grants
pub mod NoSkip
pub mod Checks
pub mod Syncers
use nebraska.Base.{ℕ, String, Bool, true, false, Option, none, some, List, [], ◌∷◌, ◌++◌, ◌==◌, eqb}
use nebraska.Base.{◌&&◌, ◌||◌, not, if◌then◌else◌}
use nebraska.Base.Exec.{pure, raise, ◌>>=◌, ◌>>◌}
use nebraska.Types.{
  text, Error, no_package_found, register_instance_failed, update_in_progress_on_instance,
  no_update_package_available, update_grant_failed, Instance, InstanceApplication, Package, Channel,
  Group, status_update_granted, status_complete, status_installed, status_downloaded,
  status_downloading, activity_package_not_found, activity_rollout_started, activity_info,
  activity_warning,
}
use nebraska.Db.{World, Action, attempt, relabel}
use nebraska.Reads.Outside.{Outside, semver_lt}
use nebraska.Reads.Groups.{get_group}
use nebraska.Reads.Floors.{get_required_channel_floors}
use nebraska.Runtime.Groups.{set_group_rollout_in_progress}
use nebraska.Runtime.Activity.{new_group_activity_entry, has_recent_runtime_activity}
use nebraska.Runtime.Instances.{register_instance, update_instance_obj_status, grant_update}
use nebraska.Runtime.Rollout.{enforce_rollout_policy}

-- `slices.Contains`.
unfoldable pub contains : List String → String → Bool
contains [] k = false
contains (x ∷ xs) k = x == k || contains xs k

-- The statuses between the grant and the end of an update.
unfoldable pub is_busy : Option ℕ → Bool
is_busy none = false
is_busy (some s) = eqb s status_downloading || eqb s status_downloaded || eqb s status_installed

unfoldable pub is_granted : Option ℕ → Bool
is_granted none = false
is_granted (some s) = eqb s status_update_granted

unfoldable pub last_id : List Package → Option String
last_id [] = none
last_id (p ∷ []) = some p.id
last_id (p ∷ q ∷ l) = last_id (q ∷ l)

-- Floors and target, where the last floor may be the target itself.
unfoldable pub with_target : List Package → Package → List Package
unfolding last_id
with_target floors target = elim (last_id floors) [
  | none ↦ floors ++ (target ∷ [])
  | some id ↦ if id == target.id then floors else floors ++ (target ∷ [])
]

-- The last element, for a list with a default.
unfoldable pub last_or : Package → List Package → Package
last_or d [] = d
last_or d (p ∷ l) = last_or p l

unfoldable pub any_blacklisted : String → List Package → Bool
unfolding contains
any_blacklisted channel_id [] = false
any_blacklisted channel_id (p ∷ l) =
    contains p.channels_blacklist channel_id || any_blacklisted channel_id l

-- The channel of a group and the package that it points to.
unfoldable pub target_of : Group → Option (Channel × Package)
target_of g = elim g.channel [
  | none ↦ none
  | some c ↦ elim c.pkg [ none ↦ none | some p ↦ some (c, p) ]
]

module _ (o : Outside) where
  -- `getPackagesWithFloorsForUpdate`, for a channel that points to a package.
  unfoldable pub get_packages_with_floors_for_update :
      Channel → Package → String → Action (List Package)
  get_packages_with_floors_for_update c target instance_version = do
    floors ← get_required_channel_floors o c instance_version
    pure (with_target floors target)

  -- The first element of a list of packages; Go panics on an empty one, which never comes up.
  unfoldable pub first_of_packages : List Package → Action Package
  first_of_packages [] = raise no_package_found
  first_of_packages (p ∷ l) = pure p

  -- The beginning of both handlers: the instance is registered and is not in the middle of an
  -- update.
  unfoldable pub registered : Instance → InstanceApplication → Action Instance
  registered inst inst_app = do
    instance ← relabel register_instance_failed (register_instance o inst inst_app)
    if is_busy instance.application.status
        then raise update_in_progress_on_instance
        else pure instance

  unfoldable pub found_target :
      String → String → Option (Channel × Package) → Action (Channel × Package)
  found_target app_id group_id none = do
    attempt (
        new_group_activity_entry activity_package_not_found activity_warning "0.0.0" app_id
          group_id)
    raise no_package_found
  found_target app_id group_id (some ct) = pure ct

  -- The group's channel and the package that it points to.
  unfoldable pub channel_and_package : String → String → Group → Action (Channel × Package)
  channel_and_package app_id group_id g = found_target app_id group_id (target_of g)

  -- The grant is over: the status becomes Complete, and there is nothing to install.
  unfoldable pub complete_grant : Instance → Action Package
  complete_grant instance = do
    attempt (update_instance_obj_status o instance status_complete)
    raise no_update_package_available

  -- An instance that already was granted an update.
  unfoldable pub already_granted : Instance → String → Channel → Package → Action Package
  already_granted instance instance_version c target =
      if contains target.channels_blacklist c.id
      then complete_grant instance
      else if text instance.application.last_update_version == ""
      then complete_grant instance
      else if not (semver_lt o instance_version (text instance.application.last_update_version))
      then complete_grant instance
      else (do
        packages ← get_packages_with_floors_for_update c target instance_version
        first_of_packages packages)

  -- What follows a grant: the activity entry and the rollout flag. Failures are only logged.
  unfoldable pub record_rollout : String → String → String → Group → Action Unit
  record_rollout version app_id group_id g = do
    recent ←
        has_recent_runtime_activity o activity_rollout_started activity_info version app_id group_id
    if recent
        then pure tt
        else attempt (
            new_group_activity_entry activity_rollout_started activity_info version app_id group_id)
    if g.rollout_in_progress then pure tt else attempt (set_group_rollout_in_progress group_id true)

  -- The policy, the grant and its records.
  unfoldable pub grant : Instance → Group → String → String → String → Action Unit
  grant instance g app_id group_id version = do
    enforce_rollout_policy o instance g
    relabel update_grant_failed (grant_update o instance version)
    record_rollout version app_id group_id g

  -- The next package: refused if the channel is on its blacklist, and granted otherwise.
  unfoldable pub offer : Instance → String → String → Group → Channel → Package → Action Package
  offer instance app_id group_id g c next =
      if contains next.channels_blacklist c.id
      then raise no_update_package_available
      else (do grant instance g app_id group_id next.version; pure next)

  -- A fresh grant of the next package.
  unfoldable pub fresh_grant :
      Instance → String → String → String → Group → Channel → Package → Action Package
  fresh_grant instance instance_version app_id group_id g c target =
      if not (semver_lt o instance_version target.version)
      then raise no_update_package_available
      else (do
        packages ← get_packages_with_floors_for_update c target instance_version
        next ← first_of_packages packages
        offer instance app_id group_id g c next)

  -- `GetUpdatePackage`.
  unfoldable pub get_update_package : Instance → InstanceApplication → Action Package
  get_update_package inst inst_app = do
    instance ← registered inst inst_app
    g ← get_group (text inst_app.group_id)
    ct ← channel_and_package inst_app.application_id (text inst_app.group_id) g
    if is_granted instance.application.status
        then already_granted instance inst_app.version ct.0 ct.1
        else fresh_grant instance inst_app.version inst_app.application_id (text inst_app.group_id)
            g ct.0 ct.1

  -- The rest of `GetUpdatePackagesForSyncer`, for the floors and the target.
  unfoldable pub syncer_grant :
      Instance → String → String → Group → Channel → Package → List Package → Action (List Package)
  syncer_grant instance app_id group_id g c target packages =
      if any_blacklisted c.id packages
      then raise no_update_package_available
      else (do grant instance g app_id group_id (last_or target packages).version; pure packages)

  unfoldable pub syncer_packages :
      Instance → String → String → String → Group → Channel → Package → Action (List Package)
  syncer_packages instance instance_version app_id group_id g c target =
      if not (semver_lt o instance_version target.version)
      then raise no_update_package_available
      else (do
        packages ← get_packages_with_floors_for_update c target instance_version
        syncer_grant instance app_id group_id g c target packages)

  -- `GetUpdatePackagesForSyncer`.
  unfoldable pub get_update_packages_for_syncer :
      Instance → InstanceApplication → Action (List Package)
  get_update_packages_for_syncer inst inst_app = do
    instance ← registered inst inst_app
    g ← get_group (text inst_app.group_id)
    ct ← channel_and_package inst_app.application_id (text inst_app.group_id) g
    syncer_packages instance inst_app.version inst_app.application_id (text inst_app.group_id) g
        ct.0 ct.1
