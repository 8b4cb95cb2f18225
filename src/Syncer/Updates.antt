-- ===== src/Syncer/Updates.antt =====
-- syncer.go: `processUpdate`, for one manifest or several.
pub mod Points
pub mod Moves
pub mod Targets
pub mod Unmoved
pub mod Floors
use Prim.Native.String
use nebraska.Base.{ℕ, String, Bool, true, false, Option, none, some, List, [], ◌∷◌}
use nebraska.Base.{◌==◌, not, ◌&&◌, if◌then◌else◌}
use nebraska.Base.Exec.{Result, ok, err, pure, raise, ◌>>=◌, ◌>>◌}
use nebraska.Types.{unnamed, Package, Channel}
use nebraska.Db.{World, Action}
use nebraska.Reads.Outside.{Outside}
use nebraska.Reads.Groups.{get_channel}
use nebraska.Omaha.Messages.{Manifest, UpdateResponse}
use nebraska.Admin.Rows.{Generators}
use nebraska.Admin.Channels.{update_channel}
use nebraska.Admin.Floors.{add_channel_package_floor}
use nebraska.Syncer.Packages.{Settings, get_or_create_package}

-- The reason of a floor whose manifest gives none.
abbrev pub synced_reason : String
synced_reason = "Synced from upstream Flatcar channel"

-- `markPackageAsFloor`.
unfoldable pub mark_package_as_floor : String → Package → Manifest → Action Unit
mark_package_as_floor channel_id p m =
    if not m.is_floor
    then pure tt
    else add_channel_package_floor channel_id p.id
        (some (if m.floor_reason == "" then synced_reason else m.floor_reason))

-- `updateChannelToPackage`: the version to track from now on.
unfoldable pub update_channel_to_package : String → Package → Action String
update_channel_to_package channel_id p = do
  c ← get_channel channel_id
  update_channel (record c { package_id = some p.id })
  pure p.version

-- The first manifest that says that it is the target.
unfoldable pub marked_target : List Manifest → Option Manifest
marked_target [] = none
marked_target (m ∷ l) = if m.is_target then some m else marked_target l

-- The last manifest that is no floor.
unfoldable pub last_plain : List Manifest → Option Manifest
last_plain [] = none
last_plain (m ∷ l) = elim (last_plain l) [
  | some n ↦ some n
  | none ↦ if m.is_floor then none else some m
]

-- The version of the target, or the empty text.
unfoldable pub target_version : List Manifest → String
target_version l = elim (marked_target l) [
  | some m ↦ m.version
  | none ↦ elim (last_plain l) [ some m ↦ m.version | none ↦ "" ]
]

abbrev pub tracked : Manifest → String → Package → Option Package → Option Package
tracked m version p before = if not (version == "") && m.version == version then some p else before

-- What is done with the target, if there is one; none leaves the tracked version alone.
unfoldable pub move_channel : String → Option Package → Action (Option String)
unfolding update_channel_to_package
move_channel channel_id none = pure none
move_channel channel_id (some p) = do v ← update_channel_to_package channel_id p; pure (some v)

module _ (set : Settings) (o : Outside) (gen : Generators) where
  -- The loop over the manifests: the package of the target.
  unfoldable pub process_manifests :
      String
      → ℕ
      → UpdateResponse
      → String
      → Option Package
      → List Manifest
      → Action (Option Package)
  unfolding mark_package_as_floor
  process_manifests channel_id arch u version target [] = pure target
  process_manifests channel_id arch u version target (m ∷ l) = do
    p ← get_or_create_package set o gen m u arch
    mark_package_as_floor channel_id p m
    process_manifests channel_id arch u version (tracked m version p target) l

  -- `processMultiManifestUpdate`.
  unfoldable pub process_multi_manifest_update :
      String → ℕ → UpdateResponse → Action (Option String)
  unfolding process_manifests move_channel target_version
  process_multi_manifest_update channel_id arch u = do
    target ← process_manifests channel_id arch u (target_version u.manifests) none u.manifests
    move_channel channel_id target

  -- `processSingleManifestUpdate`.
  unfoldable pub process_single_manifest_update :
      String → ℕ → Manifest → UpdateResponse → Action (Option String)
  unfolding move_channel
  process_single_manifest_update channel_id arch m u = do
    p ← get_or_create_package set o gen m u arch
    move_channel channel_id (some p)

  -- `processUpdate`.
  unfoldable pub process_manifests_of :
      String → ℕ → UpdateResponse → List Manifest → Action (Option String)
  unfolding process_multi_manifest_update process_single_manifest_update
  process_manifests_of channel_id arch u [] = raise unnamed
  process_manifests_of channel_id arch u (m ∷ []) =
      process_single_manifest_update channel_id arch m u
  process_manifests_of channel_id arch u (m ∷ n ∷ l) =
      process_multi_manifest_update channel_id arch u

  unfoldable pub process_update : String → ℕ → UpdateResponse → Action (Option String)
  unfolding process_manifests_of
  process_update channel_id arch u = process_manifests_of channel_id arch u u.manifests
