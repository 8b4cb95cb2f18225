-- ===== src/Syncer/Tests.antt =====
-- Updates from upstream to the small database of the runtime service's tests.
pub mod Round
use nebraska.Base.{
  ℕ, String, ◌≡◌, refl, Bool, true, false, Option, some, List, [], ◌∷◌, In, inl, inr,
}
use nebraska.Base.Exec.{ok, err}
use nebraska.Types.{Package}
use nebraska.Db.{World}
use nebraska.Omaha.Messages.{Manifest, UpdateResponse, update_ok}
use nebraska.Admin.Tests.{generators}
use nebraska.Runtime.Events.{flatcar_app_id}
use nebraska.Runtime.Tests.{outside, start, target, floor}
use nebraska.Syncer.Packages.{Settings}
use nebraska.Syncer.Updates.{process_update}
use nebraska.Syncer.Checks.{Followed, check_for_updates}
use nebraska.Syncer.Updates.Floors.{OnlyFloors, process_update-single, process_update-OnlyFloors}
use nebraska.Syncer.Updates.Moves.{PointsToVersion}
use nebraska.Syncer.Updates.Targets.{IsChosen, process_update-IsChosen}

abbrev pub settings : Settings
settings = record {
  host_packages = false;
  packages_url = "";
  download = λ urls name sha1 sha256 file. true;
  decode_sha256 = λ s. some s;
}

abbrev pub manifest : String → Bool → Bool → Manifest
manifest version is_floor is_target = record {
  version = version;
  packages =
      record { name = "f.gz"; sha1 = ""; sha256 = ""; size = 0; required = true; labels = [] } ∷ [];
  actions = [];
  is_floor = is_floor;
  floor_reason = "";
  is_target = is_target;
}

abbrev pub update : List Manifest → UpdateResponse
update l = record { status = update_ok; urls = "http://upstream/" ∷ []; manifests = l }

abbrev of_flatcar : Package → Package
of_flatcar p = record p { application_id = flatcar_app_id; size = some "0" }

-- The packages of the channel, as packages of Flatcar.
abbrev pub flatcar : World
flatcar = record start {
  packages = of_flatcar target ∷ of_flatcar floor ∷ [];
  channels =
      record {
        id = "stable";
        name = "stable";
        application_id = flatcar_app_id;
        package_id = some "p2";
        arch = 1;
      }
      ∷ [];
}

process_update-single_example :
    (process_update settings outside generators "stable" 1
      (update (manifest "3.0.0" true true ∷ []))
      flatcar).1.floors
    ≡ flatcar.floors
process_update-single_example =
    process_update-single settings outside generators "stable" 1 (manifest "3.0.0" true true)
      (update (manifest "3.0.0" true true ∷ [])) flatcar refl

abbrev floors : List Manifest
floors = manifest "2.0.0" true false ∷ manifest "3.0.0" true false ∷ []

floors-OnlyFloors : OnlyFloors floors
floors-OnlyFloors m (inl e) = rw e (refl, refl)
floors-OnlyFloors m (inr (inl e)) = rw e (refl, refl)
floors-OnlyFloors m (inr (inr i)) = absurd i

process_update-OnlyFloors_example :
    (process_update settings outside generators "stable" 1 (update floors) flatcar).1.channels
    ≡ flatcar.channels
process_update-OnlyFloors_example =
    process_update-OnlyFloors settings outside generators "stable" 1 (manifest "2.0.0" true false)
      (manifest "3.0.0" true false) [] (update floors) flatcar refl floors-OnlyFloors

abbrev pub steps : List Manifest
steps = manifest "2.0.0" true false ∷ manifest "3.0.0" true true ∷ []

abbrev moved : World
moved = (process_update settings outside generators "stable" 1 (update steps) flatcar).1

moved_lem :
    process_update settings outside generators "stable" 1 (update steps) flatcar
    ≡ (ok (some "3.0.0"), moved)
unfolding process_update nebraska.Base.Exec.◌>>=◌ nebraska.Syncer.Packages.get_or_create_package
    nebraska.Db.try nebraska.Syncer.Packages.get_package_by_version_and_arch
    nebraska.Reads.Outside.is_valid_semver nebraska.Db.query nebraska.Db.find
    nebraska.Reads.Groups.optional nebraska.Reads.Groups.get_flatcar_action
    nebraska.Base.Texts.format_uint nebraska.Admin.Floors.add_channel_package_floor
    nebraska.Admin.Floors.channel_with_package nebraska.Admin.Floors.check_floor
    nebraska.Admin.Floors.is_package_blacklisted_for_channel nebraska.Admin.Floors.insert_floor
    nebraska.Runtime.Updates.contains nebraska.Reads.Groups.get_channel
    nebraska.Reads.Groups.get_package nebraska.Admin.Channels.update_channel nebraska.Db.exec
    nebraska.Db.exec_rows nebraska.Db.attempt nebraska.Db.count_where nebraska.Admin.Rows.exec_some
    nebraska.Admin.Channels.validated nebraska.Admin.Channels.channel_moved
    nebraska.Admin.Channels.validate_package nebraska.Admin.Channels.check_package
    nebraska.Admin.Channels.update_channel_row nebraska.Admin.Floors.put_floor
    nebraska.Syncer.Updates.marked_target
moved_lem = refl

process_update-IsChosen_example : IsChosen steps "3.0.0" × PointsToVersion "stable" "3.0.0" moved
process_update-IsChosen_example =
    process_update-IsChosen settings outside generators "stable" 1 (update steps) flatcar moved
      "3.0.0" moved_lem

-- A round over one channel.
abbrev stable : Followed
stable = record { name = "stable"; arch = 1; channel_id = "stable"; version = "2.0.0" }

abbrev answered : Followed → Option (Option UpdateResponse)
answered f = some (some (update steps))

abbrev round_world : World
round_world = (check_for_updates settings outside generators answered (stable ∷ []) flatcar).1
