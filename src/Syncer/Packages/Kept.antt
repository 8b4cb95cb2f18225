-- ===== src/Syncer/Packages/Kept.antt =====
-- `getOrCreatePackage` and what it calls write neither channels nor floors.
use nebraska.Base.{ℕ, String, ◌≡◌, refl, Option, none, some, List, [], ◌∷◌}
use nebraska.Base.{eqb, not, In, inl, inr, Bool, Bool-cases, ◌++◌, sym, ap, ◌∙◌}
use nebraska.Base.Exec.{Result, ok, err}
use nebraska.Types.{Error, Package, File, FlatcarAction}
use nebraska.Db.{World, update_where, exec, find, select}
use nebraska.Db.Keeps.{quiet, Keeps, Keeps-exec-some, Keeps-bind, Keeps-if, Keeps-pure, keeps_rules}
use nebraska.Reads.Outside.{Outside}
use nebraska.Reads.Groups.{get_flatcar_action}
use nebraska.Omaha.Messages.{Manifest, ManifestPackage, UpdateResponse}
use nebraska.Admin.Rows.{Generators}
use nebraska.Admin.Files.{
  insert_file, update_file, delete_file, delete_files, put_file, update_package_files, equals,
}
use nebraska.Admin.Blacklists.{check_matching_arch, insert_listing, insert_listings}
use nebraska.Admin.Actions.{add_action, insert_action, add_whole_action}
use nebraska.Admin.Packages.{add_package_row, add_package_in, add_package_with_metadata}
use nebraska.Syncer.Packages.{
  Settings, get_package_by_version_and_arch, verify_package_integrity, process_extra_files,
  download_package_payload, first_url, payload_name, create_first, create_package, found_or_created,
  get_or_create_package,
}

-- Every package of one table has a row in another, with its id and its version.
abbrev pub Grows : List Package → List Package → Type 0
Grows k l =
    (q : Package) → In q k → (r : Package) × In r l × (r.id ≡ q.id) × (r.version ≡ q.version)

abbrev Faithful : (Package → Package) → Type 0
Faithful f = (p : Package) → ((f p).id ≡ p.id) × ((f p).version ≡ p.version)

updated-Grows :
    (t : Package → Bool) (f : Package → Package)
    → Faithful f
    → (l : List Package) → Grows l (update_where t f l)
unfolding update_where
updated-Grows t f m [] q i = absurd i
updated-Grows t f m (x ∷ l) q (inl e) = elim (Bool-cases (t x)) [
  | inl hit ↦ (
    f x,
    rw hit (inl refl),
    (m x).0 ∙ ap (λ (p : Package). p.id) (sym e),
    (m x).1 ∙ ap (λ (p : Package). p.version) (sym e),
  )
  | inr other ↦ (
    x,
    rw other (inl refl),
    ap (λ (p : Package). p.id) (sym e),
    ap (λ (p : Package). p.version) (sym e),
  )
]
updated-Grows t f m (x ∷ l) q (inr i) =
    let (r, j, e, d) = updated-Grows t f m l q i in (r, inr j, e, d)

appended-Grows : (l k : List Package) → Grows l (l ++ k)
appended-Grows [] k q i = absurd i
appended-Grows (x ∷ l) k q (inl e) = (q, inl e, refl, refl)
appended-Grows (x ∷ l) k q (inr i) = let (r, j, e, d) = appended-Grows l k q i in (r, inr j, e, d)

same-Grows : (l : List Package) → Grows l l
same-Grows l q i = (q, i, refl, refl)

-- Writes to other tables than channels and floors do not matter, nor do packages that are added.
module _ {P : World → Type 0}
    (frame : (v w : World)
      → w.channels ≡ v.channels
      → w.floors ≡ v.floors
      → Grows v.packages w.packages
      → P v
      → P w) where
  other_tables-Keeps :
      (f : World → World)
      → ((w : World) → (f w).channels ≡ w.channels)
      → ((w : World) → (f w).floors ≡ w.floors)
      → ((w : World) → Grows w.packages (f w).packages)
      → Keeps P (exec (λ w. some (f w)))
  other_tables-Keeps f c d g =
      Keeps-exec-some f (λ w h. frame (quiet w) (quiet (f w)) (c w) (d w) (g w) h)

  pub insert_listings-Keeps : (i : String) (l : List String) → Keeps P (insert_listings i l)
  unfolding insert_listings insert_listing
  insert_listings-Keeps i [] = search keeps_rules
  insert_listings-Keeps i (k ∷ ks) =
      Keeps-bind _ _
        (other_tables-Keeps (insert_listing i k) (λ w. refl) (λ w. refl)
          (λ w. updated-Grows _ _ (λ p. (refl, refl)) w.packages))
        (λ u. insert_listings-Keeps i ks)

  delete_files-Keeps : (i : String) (l : List File) → Keeps P (delete_files i l)
  unfolding delete_files delete_file
  delete_files-Keeps i [] = search keeps_rules
  delete_files-Keeps i (f ∷ l) =
      Keeps-bind _ _
        (other_tables-Keeps (delete_file i f.id) (λ w. refl) (λ w. refl)
          (λ w. updated-Grows _ _ (λ p. (refl, refl)) w.packages))
        (λ u. delete_files-Keeps i l)

  module _ (gen : Generators) where
    put_file-Keeps : (i : String) (f : File) (old : Option File) → Keeps P (put_file gen i f old)
    unfolding put_file insert_file update_file
    put_file-Keeps i f none =
        other_tables-Keeps (λ w. insert_file (gen.file_id w) i f w) (λ w. refl) (λ w. refl)
          (λ w. updated-Grows _ _ (λ p. (refl, refl)) w.packages)
    put_file-Keeps i f (some old) = Keeps-if (equals old f) _ _ (Keeps-pure tt) (
        other_tables-Keeps (update_file f) (λ w. refl) (λ w. refl)
          (λ w. updated-Grows _ _ (λ p. (refl, refl)) w.packages))

    pub files-Keeps : (i : String) (l old : List File) → Keeps P (update_package_files gen i l old)
    unfolding update_package_files
    files-Keeps i [] old = delete_files-Keeps i old
    files-Keeps i (f ∷ l) old =
        Keeps-bind _ _ (put_file-Keeps i f (find (λ g. eqb g.id f.id) old))
          (λ u. files-Keeps i l (select (λ g. not (eqb g.id f.id)) old))

    pub add_whole_action-Keeps :
        (i : String) (a : Option FlatcarAction) → Keeps P (add_whole_action gen i a)
    unfolding add_whole_action insert_action add_action
    add_whole_action-Keeps i none = search keeps_rules
    add_whole_action-Keeps i (some a) =
        other_tables-Keeps _ (λ w. refl) (λ w. refl) (λ w. same-Grows w.packages)

    check_matching_arch-Keeps : (l : List String) (a : ℕ) → Keeps P (check_matching_arch l a)
    unfolding check_matching_arch
    check_matching_arch-Keeps [] a = search keeps_rules
    check_matching_arch-Keeps (k ∷ ks) a = search keeps_rules

    module _ (o : Outside) where
      add_package_row-Keeps :
          (i : String) (p : Package) → Keeps P (exec (λ w. some (add_package_row i p w)))
      unfolding add_package_row
      add_package_row-Keeps i p =
          other_tables-Keeps (add_package_row i p) (λ w. refl) (λ w. refl)
            (λ w. appended-Grows w.packages _)

      add_package_in-Keeps : (p : Package) → Keeps P (add_package_in o gen p)
      unfolding add_package_in
      add_package_in-Keeps p =
          search
            (
              keeps_rules, check_matching_arch-Keeps, add_package_row-Keeps, insert_listings-Keeps,
              files-Keeps,
            )
            depth 14

      pub add_with_metadata-Keeps : (p : Package) → Keeps P (add_package_with_metadata o gen p)
      unfolding add_package_with_metadata
      add_with_metadata-Keeps p =
          search (keeps_rules, add_package_in-Keeps, add_whole_action-Keeps) depth 12

-- What a new package keeps, the package of a manifest keeps.
module _ {P : World → Type 0} (o : Outside) (gen : Generators)
    (add-Keeps : (p : Package) → Keeps P (add_package_with_metadata o gen p)) (set : Settings)
    (m : Manifest) (u : UpdateResponse) (arch : ℕ) where
  process_extra_files-Keeps :
      (l : List ManifestPackage) (v : String) → Keeps P (process_extra_files set l u arch v)
  unfolding process_extra_files
  process_extra_files-Keeps l v = search keeps_rules

  first_url-Keeps : (urls : List String) → Keeps P (first_url set (record u { urls = urls }))
  unfolding first_url
  first_url-Keeps [] = search keeps_rules
  first_url-Keeps (url ∷ l) = search keeps_rules

  payload_name-Keeps : (mp : ManifestPackage) → Keeps P (payload_name set m u mp arch)
  unfolding payload_name download_package_payload
  payload_name-Keeps mp = search keeps_rules depth 10

  create_first-Keeps : (l : List ManifestPackage) → Keeps P (create_first set o gen m u arch l)
  unfolding create_first
  create_first-Keeps [] = search keeps_rules
  create_first-Keeps (mp ∷ l) = Keeps-bind _ _ (process_extra_files-Keeps l m.version) λ files.
      Keeps-bind _ _ (first_url-Keeps u.urls) λ url.
        Keeps-bind _ _ (payload_name-Keeps mp)
          λ name. Keeps-bind _ _ (add-Keeps _) λ id. Keeps-pure _

  pub verify-Keeps :
      (l : List ManifestPackage) (p : Package)
      → Keeps P (verify_package_integrity p (record m { packages = l }))
  unfolding verify_package_integrity
  verify-Keeps [] p = search keeps_rules
  verify-Keeps (mp ∷ l) p = search keeps_rules depth 10

  found_or_created-Keeps :
      (r : Result Error Package) → Keeps P (found_or_created set o gen m u arch r)
  unfolding found_or_created create_package
  found_or_created-Keeps (ok p) = search (keeps_rules, verify-Keeps m.packages)
  found_or_created-Keeps (err e) = create_first-Keeps m.packages

  known-Keeps : (a v : String) → Keeps P (get_package_by_version_and_arch o a v arch)
  unfolding get_package_by_version_and_arch get_flatcar_action
  known-Keeps a v = search keeps_rules depth 10

  pub get_or_create_package-Keeps : Keeps P (get_or_create_package set o gen m u arch)
  unfolding get_or_create_package
  get_or_create_package-Keeps = search (keeps_rules, known-Keeps, found_or_created-Keeps)
