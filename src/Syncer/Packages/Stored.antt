-- ===== src/Syncer/Packages/Stored.antt =====
-- The package of a manifest, found or created, has a row with its id and the manifest's version.
use nebraska.Base.{
  ℕ, String, ◌≡◌, refl, ◌∙◌, Bool, List, [], ◌∷◌, ◌++◌, In, inl, inr, not, eq_iff, if◌then◌else◌,
}
use nebraska.Base.Exec.{Result, ok, err, pure}
use nebraska.Types.{Error, Package, unnamed, invalid_semver, invalid_arch}
use nebraska.Types.Arch.{is_valid}
use nebraska.Db.{World, find}
use nebraska.Db.Finds.{find-In, find-holds}
use nebraska.Db.Keeps.{Keeps, keeps_rules}
use nebraska.Db.Runs.{
  Runs, Runs-pure, Runs-raise, Runs-gets, Runs-if, Runs-query, Runs-bind, Runs-exec,
  Runs-transaction, Runs-Keeps, Runs-any, Runs-try, Tried,
}
use nebraska.Reads.Outside.{Outside, is_valid_semver}
use nebraska.Reads.Groups.{get_flatcar_action, optional}
use nebraska.Omaha.Messages.{Manifest, ManifestPackage, UpdateResponse}
use nebraska.Admin.Rows.{Generators}
use nebraska.Admin.Blacklists.{check_matching_arch}
use nebraska.Admin.Actions.{flatcar_action_of}
use nebraska.Admin.Packages.{
  add_package_row, add_package_in, add_package_with_metadata, lacks_metadata,
}
use nebraska.Syncer.Packages.{
  Settings, get_package_by_version_and_arch, verify_package_integrity, process_extra_files,
  first_url, payload_name, create_first, create_package, found_or_created, get_or_create_package,
  new_package, several,
}
use nebraska.Syncer.Packages.Kept.{
  Grows, insert_listings-Keeps, files-Keeps, add_whole_action-Keeps,
}
use nebraska.Syncer.Packages.Versions.{IsOf, row_some, and_right}

-- A row for a package of a version.
abbrev pub HasRow : String → String → List Package → Type 0
HasRow i v l = (q : Package) × In q l × (q.id ≡ i) × (q.version ≡ v)

abbrev pub Stored : String → String → World → Type 0
Stored i v w = HasRow i v w.packages

pub grown-HasRow : (i v : String) (k l : List Package) → Grows k l → HasRow i v k → HasRow i v l
grown-HasRow i v k l g (q, j, e, d) = let (r, m, e', d') = g q j in (r, m, e' ∙ e, d' ∙ d)

In-last : (l : List Package) (p : Package) → In p (l ++ (p ∷ []))
In-last [] p = inl refl
In-last (q ∷ l) p = inr (In-last l p)

abbrev Anyhow : World → Type 0
Anyhow w = Unit

module _ (o : Outside) (gen : Generators) where
  add_package_in-Stored :
      (p : Package) → Runs Anyhow Anyhow (add_package_in o gen p) (λ i. Stored i p.version)
  unfolding add_package_in add_package_row
  add_package_in-Stored p =
      Runs-if (not (is_valid_semver o p.version)) (λ e. Runs-raise invalid_semver (λ w h. tt))
        λ version.
          Runs-if (not (is_valid p.arch)) (λ e. Runs-raise invalid_arch (λ w h. tt))
            λ arch. Runs-bind _ _ (Runs-any (check_matching_arch p.channels_blacklist p.arch)) λ a.
              Runs-bind _ _ (Runs-any _) λ b.
                Runs-bind {R = λ i. Anyhow} _ _ (Runs-gets gen.row_id (λ w h. tt)) λ i.
                  Runs-bind {R = λ c. Stored i p.version} _ _
                    (Runs-exec (add_package_row i p) (λ w h. (_, In-last w.packages _, refl, refl))
                      (λ w h. tt))
                    λ c.
                      Runs-bind _ _
                        (Runs-Keeps Anyhow (Stored i p.version)
                          (insert_listings-Keeps
                            (λ v w c f g. grown-HasRow i p.version v.packages w.packages g) i
                            p.channels_blacklist)
                          (λ w h. tt))
                        λ d.
                          Runs-bind _ _
                            (Runs-Keeps Anyhow (Stored i p.version)
                              (files-Keeps
                                (λ v w c f g. grown-HasRow i p.version v.packages w.packages g) gen
                                i p.extra_files [])
                              (λ w h. tt))
                            λ e. Runs-pure i (λ w h. h)

  add_with_metadata-Stored :
      (p : Package)
      → Runs Anyhow Anyhow (add_package_with_metadata o gen p) (λ i. Stored i p.version)
  unfolding add_package_with_metadata
  add_with_metadata-Stored p =
      Runs-if (lacks_metadata p) (λ e. Runs-raise unnamed (λ w h. tt))
        λ e.
          Runs-transaction
            (Runs-bind _ _ (add_package_in-Stored p) λ i.
              Runs-bind _ _
                (Runs-Keeps Anyhow (Stored i p.version)
                  (add_whole_action-Keeps
                    (λ v w c f g. grown-HasRow i p.version v.packages w.packages g) gen i
                    (flatcar_action_of p))
                  (λ w h. tt))
                λ a. Runs-pure i (λ w h. h))
            (λ w h. tt)

-- A package beside the tables: of the version, and stored.
abbrev pub IsStoredAs : String → Package → World → Type 0
IsStoredAs v p w = IsOf v p × Stored p.id v w

action-Keeps : {P : World → Type 0} (i : String) → Keeps P (optional (get_flatcar_action i))
unfolding get_flatcar_action
action-Keeps i = search keeps_rules

checked-Keeps :
    {P : World → Type 0} (b : Bool) (l : List ManifestPackage) (m : Manifest) (p : Package)
    → Keeps P (if b then verify_package_integrity p (record m { packages = l }) else pure tt)
unfolding verify_package_integrity
checked-Keeps b [] m p = search keeps_rules depth 12
checked-Keeps b (mp ∷ l) m p = search keeps_rules depth 12

module _ (set : Settings) (o : Outside) (gen : Generators) (m : Manifest) (u : UpdateResponse)
    (arch : ℕ) where
  known-Stored :
      (a v : String)
      → Runs Anyhow Anyhow (get_package_by_version_and_arch o a v arch) (IsStoredAs v)
  unfolding get_package_by_version_and_arch
  known-Stored a v =
      Runs-if (not (is_valid_semver o v)) (λ e. Runs-raise unnamed (λ w h. tt))
        λ version.
          Runs-bind {R = IsStoredAs v} _ _
            (Runs-query _
              (λ w p h e.
                let t = row_some (find _ w.packages) e in
                let same =
                  (eq_iff p.version v).0
                    (and_right _ _ (and_right _ _ (find-holds _ w.packages t))) in
                (same, (p, find-In _ w.packages t, refl, same)))
              (λ w h. tt))
            λ p.
              Runs-bind {R = λ x. IsStoredAs v p} _ _
                (Runs-Keeps Anyhow (IsStoredAs v p) (action-Keeps p.id) (λ w h. tt))
                λ x. Runs-pure _ (λ w h. h)

  create_first-Stored :
      (l : List ManifestPackage)
      → Runs Anyhow Anyhow (create_first set o gen m u arch l) (IsStoredAs m.version)
  unfolding create_first new_package
  create_first-Stored [] = Runs-raise unnamed (λ w h. tt)
  create_first-Stored (mp ∷ l) =
      Runs-bind _ _ (Runs-any (process_extra_files set l u arch m.version)) λ files.
        Runs-bind _ _ (Runs-any (first_url set u)) λ url.
          Runs-bind _ _ (Runs-any (payload_name set m u mp arch)) λ name.
            Runs-bind _ _ (add_with_metadata-Stored o gen _) λ id. Runs-pure _ (λ w h. (refl, h))

  found-Stored :
      (r : Result Error Package)
      → Runs Anyhow
          (Tried (IsStoredAs m.version) r)
          (found_or_created set o gen m u arch r)
          (IsStoredAs m.version)
  unfolding found_or_created create_package
  found-Stored (ok p) =
      Runs-bind _ _
        (Runs-Keeps Anyhow (IsStoredAs m.version p)
          (checked-Keeps (several set o gen u.manifests) m.packages m p) (λ w h. tt))
        λ z. Runs-pure p (λ w h. h)
  found-Stored (err e) = create_first-Stored m.packages

  pub get_or_create_package-Stored :
      Runs Anyhow Anyhow (get_or_create_package set o gen m u arch) (IsStoredAs m.version)
  unfolding get_or_create_package
  get_or_create_package-Stored =
      Runs-bind _ _ (Runs-try _ _ (known-Stored _ m.version)) found-Stored
