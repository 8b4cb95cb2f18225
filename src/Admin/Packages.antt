-- ===== src/Admin/Packages.antt =====
-- admin/packages.go: adding, changing and deleting packages.
use nebraska.Base.{ℕ, String, Bool, true, false, Option, none, some, List, [], ◌∷◌, ◌++◌, ◌==◌}
use nebraska.Base.{eqb, ltb, not, ◌&&◌, ◌||◌, if◌then◌else◌}
use nebraska.Base.Exec.{ok, pure, raise, gets, ◌>>=◌, ◌>>◌}
use nebraska.Types.{
  text, invalid_semver, invalid_arch, invalid_labels, no_rows_affected, package_is_floor, unnamed,
  Package, pkg_type_flatcar,
}
use nebraska.Types.Arch.{is_valid}
use nebraska.Db.{
  World, Action, query, exec, exec_rows, transaction, update_where, select, count_where,
}
use nebraska.Reads.Outside.{Outside, is_valid_semver}
use nebraska.Reads.Groups.{get_package}
use nebraska.Admin.Blacklists.{
  check_matching_arch, insert_listings, update_package_blacklisted_channels,
}
use nebraska.Admin.Actions.{flatcar_action_of, add_minimal_action, add_whole_action, update_action}
use nebraska.Admin.Rows.{Generators, exec_some}
use nebraska.Admin.Labels.{validate}
use nebraska.Admin.Files.{of_package, update_package_files}

-- The new row, without what other tables hold.
unfoldable pub add_package_row : String → Package → World → World
add_package_row id p w = record w {
  packages =
      w.packages
      ++ (record p {
        id = id;
        channels_blacklist = [];
        extra_files = [];
        flatcar_action = none;
        is_floor = false;
        floor_reason = none;
      }
          ∷ []);
}

-- `AddPackageWithMetadata` wants an action with an event and a hash.
unfoldable pub lacks_metadata : Package → Bool
lacks_metadata p =
    eqb p.type pkg_type_flatcar
    && elim p.flatcar_action [ none ↦ true | some a ↦ a.event == "" || a.sha256 == "" ]

unfoldable pub update_package_row : Package → Option (List (String × String)) → World → ℕ × World
update_package_row p labels w = (
  count_where (λ r. r.id == p.id) w.packages,
  of_package p.id
      (λ r. record r {
        type = p.type;
        filename = p.filename;
        size = p.size;
        hash = p.hash;
        url = p.url;
        version = p.version;
        labels = elim labels [ none ↦ r.labels | some l ↦ l ];
      })
      w,
)

-- How many packages with the id are no floor of any channel.
unfoldable pub deletable : String → World → ℕ
deletable id w =
    if ltb 0 (count_where (λ f. f.package_id == id) w.floors)
    then 0
    else count_where (λ p. p.id == id) w.packages

-- With a package go its actions; channels lose it.
unfoldable pub without_package : String → World → World
without_package id w = record w {
  packages = select (λ p. not (p.id == id)) w.packages;
  flatcar_actions = select (λ a. not (a.package_id == id)) w.flatcar_actions;
  channels =
      update_where (λ c. text c.package_id == id) (λ c. record c { package_id = none }) w.channels;
}

unfoldable pub delete_package_rows : String → World → ℕ × World
unfolding deletable without_package
delete_package_rows id w =
    (deletable id w, if eqb (deletable id w) 0 then w else without_package id w)

-- Why no row was deleted.
unfoldable pub explain : Bool × Bool → Action Unit
explain (false, is_floor) = raise no_rows_affected
explain (true, true) = raise package_is_floor
explain (true, false) = raise no_rows_affected

unfoldable pub existence : String → World → Bool × Bool
existence id w = (
  ltb 0 (count_where (λ p. p.id == id) w.packages),
  ltb 0 (count_where (λ f. f.package_id == id) w.floors),
)

-- `DeletePackage`.
unfoldable pub delete_package : String → Action Unit
unfolding delete_package_rows explain existence
delete_package id = do
  n ← exec_rows (delete_package_rows id)
  if eqb n 0 then (do seen ← query (λ w. ok (existence id w)); explain seen) else pure tt

module _ (o : Outside) (gen : Generators) where
  -- `addPackage`: the new id.
  unfoldable pub add_package_in : Package → Action String
  unfolding check_matching_arch add_package_row insert_listings
  add_package_in p =
      if not (is_valid_semver o p.version)
      then raise invalid_semver
      else if not (is_valid p.arch)
      then raise invalid_arch
      else (do
        check_matching_arch p.channels_blacklist p.arch
        if validate p.labels then pure tt else raise invalid_labels
        id ← gets gen.row_id
        exec (λ w. some (add_package_row id p w))
        insert_listings id p.channels_blacklist
        update_package_files gen id p.extra_files []
        pure id)

  -- `AddPackage`.
  unfoldable pub add_package : Package → Action String
  unfolding add_package_in add_minimal_action flatcar_action_of
  add_package p =
      transaction
        (do id ← add_package_in p; add_minimal_action gen id (flatcar_action_of p); pure id)

  -- `AddPackageWithMetadata`.
  unfoldable pub add_package_with_metadata : Package → Action String
  unfolding add_package_in add_whole_action flatcar_action_of lacks_metadata
  add_package_with_metadata p =
      if lacks_metadata p
      then raise unnamed
      else transaction
          (do id ← add_package_in p; add_whole_action gen id (flatcar_action_of p); pure id)

  -- `UpdatePackage`; `labels` is none for a nil map. What it reads of the package after its first
  -- statement are the blacklist and the files, which that statement does not write.
  unfoldable pub update_package : Package → Option (List (String × String)) → Action Unit
  unfolding update_package_row update_package_blacklisted_channels update_action flatcar_action_of
  update_package p labels =
      if not (is_valid_semver o p.version)
      then raise invalid_semver
      else if elim labels [ none ↦ false | some l ↦ not (validate l) ]
      then raise invalid_labels
      else transaction (do
        exec_some (update_package_row p labels)
        old ← get_package (some p.id)
        update_package_blacklisted_channels p.id p.channels_blacklist old.channels_blacklist
        update_package_files gen p.id p.extra_files old.extra_files
        update_action gen p.id (flatcar_action_of p))
