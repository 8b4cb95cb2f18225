-- ===== src/Admin/Actions.antt =====
-- admin/actions.go, and the actions of packages in admin/packages.go.
use nebraska.Base.{String, true, false, Option, none, some, [], ◌∷◌, ◌++◌, ◌==◌}
use nebraska.Base.{eqb, if◌then◌else◌}
use nebraska.Base.Exec.{pure}
use nebraska.Types.{Package, FlatcarAction, pkg_type_flatcar}
use nebraska.Db.{World, Action, exec, find, update_where}
use nebraska.Admin.Rows.{Generators}

unfoldable pub add_action : FlatcarAction → World → World
add_action a w = record w { flatcar_actions = w.flatcar_actions ++ a ∷ [] }

-- The columns that `AddPackage` leaves to their defaults.
abbrev pub minimal_action : String → String → String → FlatcarAction
minimal_action id package_id sha256 = record {
  id = id;
  package_id = package_id;
  event = "postinstall";
  chromeos_version = "";
  sha256 = sha256;
  needs_admin = false;
  is_delta = false;
  disable_payload_backoff = true;
  metadata_signature_rsa = "";
  metadata_size = "";
  deadline = "";
}

-- `AddFlatcarAction`, and the insertion of `AddPackageWithMetadata`.
unfoldable pub insert_action : Generators → String → FlatcarAction → Action Unit
unfolding add_action
insert_action gen package_id a =
    exec (λ w. some (add_action (record a { id = gen.row_id w; package_id = package_id }) w))

-- INSERT … ON CONFLICT (id): another action with the id gets the hash and the package.
unfoldable pub put_where : Option FlatcarAction → String → String → String → World → World
unfolding add_action
put_where none id package_id sha256 w = add_action (minimal_action id package_id sha256) w
put_where (some a) id package_id sha256 w = record w {
  flatcar_actions =
      update_where (λ a. a.id == id) (λ a. record a { sha256 = sha256; package_id = package_id })
        w.flatcar_actions;
}

unfoldable pub put_action : String → String → String → World → World
unfolding put_where
put_action id package_id sha256 w =
    put_where (find (λ a. a.id == id) w.flatcar_actions) id package_id sha256 w

-- The action that goes with a package of Flatcar.
unfoldable pub flatcar_action_of : Package → Option FlatcarAction
flatcar_action_of p = if eqb p.type pkg_type_flatcar then p.flatcar_action else none

unfoldable pub add_minimal_action : Generators → String → Option FlatcarAction → Action Unit
unfolding add_action
add_minimal_action gen package_id none = pure tt
add_minimal_action gen package_id (some a) =
    exec (λ w. some (add_action (minimal_action (gen.row_id w) package_id a.sha256) w))

unfoldable pub add_whole_action : Generators → String → Option FlatcarAction → Action Unit
unfolding insert_action
add_whole_action gen package_id none = pure tt
add_whole_action gen package_id (some a) = insert_action gen package_id a

-- An action without an id gets a new one.
unfoldable pub update_action : Generators → String → Option FlatcarAction → Action Unit
unfolding put_action
update_action gen package_id none = pure tt
update_action gen package_id (some a) =
    exec λ w. some (put_action (if a.id == "" then gen.new_uuid w else a.id) package_id a.sha256 w)
