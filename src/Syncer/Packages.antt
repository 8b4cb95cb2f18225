-- ===== src/Syncer/Packages.antt =====
-- syncer.go: the package of a manifest, found or created.
pub mod Kept
pub mod Versions
pub mod Stored
use Prim.Native.String
use nebraska.Base.{ℕ, String, Bool, true, false, Option, none, some, List, [], ◌∷◌, ◌++◌, map}
use nebraska.Base.{◌==◌, eqb, not, ◌&&◌, if◌then◌else◌}
use nebraska.Base.Exec.{Result, ok, err, pure, raise, ◌>>=◌, ◌>>◌}
use nebraska.Base.Texts.{replace_all, trim_suffix, format_uint}
use nebraska.Types.{Error, text, unnamed, go_panic, File, FlatcarAction, Package, pkg_type_flatcar}
use nebraska.Types.Arch.{Kind, coreos, to_string}
use nebraska.Db.{World, Action, query, try, find, or_raise}
use nebraska.Reads.Outside.{Outside, is_valid_semver}
use nebraska.Reads.Groups.{row_or_none, optional, get_flatcar_action, plain}
use nebraska.Runtime.Events.{flatcar_app_id}
use nebraska.Omaha.Messages.{ManifestPackage, ManifestAction, Manifest, UpdateResponse}
use nebraska.Admin.Rows.{Generators}
use nebraska.Admin.Packages.{add_package_with_metadata}

-- The configuration, and whether a download succeeds: of a file with a SHA1 and a SHA256 (which may be
-- empty), from the URLs of an update to a file name.
pub record Settings : Type 0 where
  pub host_packages : Bool
  pub packages_url : String
  pub download : List String → String → String → String → String → Bool
  -- base64 to hexadecimal
  pub decode_sha256 : String → Option String

-- `getArchString`.
unfoldable pub get_arch_string : ℕ → String
get_arch_string arch = trim_suffix "-usr" (to_string coreos (λ a. "") arch)

infixr 65 ◌<>◌
abbrev ◌<>◌ : String → String → String
s <> t = String.◌++◌ s t

abbrev file_of : ManifestPackage → File
file_of p = record {
  id = 0;
  name = some p.name;
  size = some (format_uint p.size);
  hash = some p.sha1;
  hash256 = some p.sha256;
}

-- `GetPackageByVersionAndArch`.
unfoldable pub get_package_by_version_and_arch : Outside → String → String → ℕ → Action Package
get_package_by_version_and_arch o app_id version arch =
    if not (is_valid_semver o version) then raise unnamed else (do
      p ← query (λ w. row_or_none (
          find (λ p. p.application_id == app_id && (eqb p.arch arch && p.version == version))
            w.packages))
      a ← optional (get_flatcar_action p.id)
      pure (record (plain p a) { extra_files = [] }))

abbrev has_actions : Manifest → Bool
has_actions m = elim m.actions [ [] ↦ false | a ∷ l ↦ true ]

abbrev lacks_action : Package → Bool
lacks_action p = elim p.flatcar_action [ none ↦ true | some a ↦ false ]

-- `verifyPackageIntegrity`.
unfoldable pub verify_package_integrity : Package → Manifest → Action Unit
verify_package_integrity p m = elim m.packages [
  | [] ↦ raise unnamed
  | mp ∷ l ↦
      if not (text p.hash == mp.sha1)
      then raise unnamed
      else if not (text p.size == format_uint mp.size)
      then raise unnamed
      else if has_actions m && lacks_action p
      then raise unnamed
      else pure tt
]

-- `buildFlatcarAction`.
unfoldable pub build_flatcar_action : ManifestAction → FlatcarAction
build_flatcar_action a = record {
  id = "";
  package_id = "";
  event = a.event;
  chromeos_version = a.display_version;
  sha256 = a.sha256;
  needs_admin = a.needs_admin;
  is_delta = a.is_delta_payload;
  disable_payload_backoff = a.disable_payload_backoff;
  metadata_signature_rsa = a.metadata_signature_rsa;
  metadata_size = a.metadata_size;
  deadline = a.deadline;
}

unfoldable pub first_action : List ManifestAction → Option FlatcarAction
unfolding build_flatcar_action
first_action [] = none
first_action (a ∷ l) = some (build_flatcar_action a)

module _ (set : Settings) where
  -- The files of a manifest after its first one, under their own names or, downloaded, under new ones.
  unfoldable pub download_files : List String → String → List File → Option (List File)
  download_files urls prefix [] = some []
  download_files urls prefix (f ∷ l) =
      let rest = download_files urls prefix l in
      let name = prefix <> text f.name in
      if set.download urls (text f.name) (text f.hash) (text f.hash256) name
      then elim rest [ none ↦ none | some fs ↦ some (record f { name = some name } ∷ fs) ]
      else none

  -- `processExtraFiles`; what was downloaded before a failure is removed again.
  unfoldable pub process_extra_files :
      List ManifestPackage → UpdateResponse → ℕ → String → Action (List File)
  unfolding download_files get_arch_string
  process_extra_files extra u arch version =
      if set.host_packages
      then or_raise unnamed (
          download_files u.urls ("extrafile-" <> get_arch_string arch <> "-" <> version <> "-")
            (map file_of extra))
      else pure (map file_of extra)

  abbrev payload_sha256 : Manifest → Option String
  payload_sha256 m = elim m.actions [
    | [] ↦ some ""
    | a ∷ l ↦ if a.sha256 == "" then some "" else set.decode_sha256 a.sha256
  ]

  -- `downloadPackagePayload`.
  unfoldable pub download_package_payload :
      Manifest → UpdateResponse → ManifestPackage → String → Action Unit
  download_package_payload m u mp filename = do
    sha256 ← or_raise unnamed (payload_sha256 m)
    if set.download u.urls mp.name mp.sha1 sha256 filename then pure tt else raise unnamed

  unfoldable pub package_url : String → ℕ → String → String
  package_url upstream arch version =
      if set.packages_url == ""
      then upstream
      else replace_all (replace_all set.packages_url "{{VERSION}}" version) "{{ARCH}}"
          (get_arch_string arch)

  -- `update.URLs[0]`.
  unfoldable pub first_url : UpdateResponse → Action String
  first_url u = elim u.urls [ [] ↦ raise go_panic | url ∷ l ↦ pure url ]

  -- The file name of the payload, which is downloaded if packages are hosted here.
  unfoldable pub payload_name : Manifest → UpdateResponse → ManifestPackage → ℕ → Action String
  unfolding download_package_payload
  payload_name m u mp arch =
      if set.host_packages
      then (do
        let filename = "flatcar-" <> get_arch_string arch <> "-" <> m.version <> ".gz"
        download_package_payload m u mp filename
        pure filename)
      else pure mp.name

  unfoldable pub new_package :
      Manifest → ManifestPackage → ℕ → String → String → List File → Package
  unfolding first_action
  new_package m mp arch url filename files = record {
    id = "";
    type = pkg_type_flatcar;
    version = m.version;
    url = url;
    filename = some filename;
    size = some (format_uint mp.size);
    hash = some mp.sha1;
    channels_blacklist = [];
    application_id = flatcar_app_id;
    flatcar_action = first_action m.actions;
    arch = arch;
    extra_files = files;
    labels = [];
    is_floor = false;
    floor_reason = none;
  }

  module _ (o : Outside) (gen : Generators) where
    unfoldable pub create_first :
        Manifest → UpdateResponse → ℕ → List ManifestPackage → Action Package
    unfolding process_extra_files first_url payload_name new_package package_url
    create_first m u arch [] = raise unnamed
    create_first m u arch (mp ∷ extra) = do
      files ← process_extra_files extra u arch m.version
      url ← first_url u
      filename ← payload_name m u mp arch
      let p = new_package m mp arch (package_url url arch m.version) filename files
      id ← add_package_with_metadata o gen p
      pure (record p { id = id })

    -- `createPackage`.
    unfoldable pub create_package : Manifest → UpdateResponse → ℕ → Action Package
    unfolding create_first
    create_package m u arch = create_first m u arch m.packages

    abbrev pub several : List Manifest → Bool
    several [] = false
    several (m ∷ []) = false
    several (m ∷ n ∷ l) = true

    -- A package that is there must match, unless the update has only this manifest.
    unfoldable pub found_or_created :
        Manifest → UpdateResponse → ℕ → Result Error Package → Action Package
    unfolding create_package verify_package_integrity
    found_or_created m u arch (ok p) = do
      if several u.manifests then verify_package_integrity p m else pure tt
      pure p
    found_or_created m u arch (err e) = create_package m u arch

    -- `getOrCreatePackage`.
    unfoldable pub get_or_create_package : Manifest → UpdateResponse → ℕ → Action Package
    unfolding found_or_created
    get_or_create_package m u arch = do
      known ← try (get_package_by_version_and_arch o flatcar_app_id m.version arch)
      found_or_created m u arch known
