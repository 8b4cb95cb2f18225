-- ===== src/Admin/Consistent/Additions.antt =====
-- `AddPackage` and `AddPackageWithMetadata`: a new package is one that nothing refers to yet.
use mathlib.Core.Path.{subst}
use nebraska.Base.{ℕ, String, ◌≢◌, refl, sym, ap, ◌∙◌, Option, none, some, List, [], ◌∷◌, ◌++◌, In}
use nebraska.Base.{inl, inr, ◌==◌, eq_iff, not, if◌then◌else◌, Bool-cases}
use nebraska.Types.{Package, FlatcarAction, unnamed, invalid_semver, invalid_arch, invalid_labels}
use nebraska.Types.Arch.{is_valid}
use nebraska.Db.{World, ChannelRow, FloorRow}
use nebraska.Db.Keeps.{quiet, Keeps, keeps_rules}
use nebraska.Db.Runs.{
  Runs, Runs-pure, Runs-raise, Runs-gets, Runs-if, Runs-bind, Runs-from, Runs-exec,
  Runs-transaction, Runs-Keeps, Keeps-Runs,
}
use nebraska.Db.Finds.{find-In, find-append, find-update, find-key}
use nebraska.Reads.Outside.{Outside, is_valid_semver}
use nebraska.Admin.Rows.{Generators}
use nebraska.Admin.Labels.{validate}
use nebraska.Admin.Blacklists.{check_matching_arch, insert_listing, insert_listings}
use nebraska.Admin.Actions.{add_action, insert_action, add_whole_action, flatcar_action_of}
use nebraska.Admin.Packages.{
  add_package_row, add_package_in, add_package_with_metadata, lacks_metadata,
}
use nebraska.Admin.Consistent.{FitsFor, Consistent}
use nebraska.Admin.Consistent.Packages.{Inside, files-Runs}

-- No channel points to a package with the id, and no floor names one.
abbrev Unreferenced : String → World → Type 0
Unreferenced i w =
    ((c : ChannelRow) → In c w.channels → c.package_id ≢ some i)
    × ((f : FloorRow) → In f w.floors → f.package_id ≢ i)

-- A new id is unreferenced: it is a random uuid, and PostgreSQL lets a row refer only to rows that are there.
abbrev pub IsFresh : Generators → Type 0
IsFresh gen = (w : World) → Unreferenced (gen.row_id w) w

module _ (i : String) (w : World) (h : Consistent w) (u : Unreferenced i w) where
  add_package_row-Consistent : (p : Package) → Consistent (add_package_row i p w)
  unfolding add_package_row
  add_package_row-Consistent p = record {
    points = λ k j c q n here to there. elim (find-append (λ x. x.id == j) w.packages _ there) [
      | inl old ↦ h.points k j c q n here to old
      | inr (e, t) ↦
          absurd (u.0 c (find-In _ w.channels here) (to ∙ ap some (sym ((eq_iff i j).0 t))))
    ];
    floors = λ f c q m here there.
        elim (find-append (λ x. x.id == f.package_id) w.packages _ there) [
          | inl old ↦ h.floors f c q m here old
          | inr (e, t) ↦ absurd (u.1 f m (sym ((eq_iff i f.package_id).0 t)))
        ];
  }

  abbrev listed : String → Package → Package
  listed k q = record q { channels_blacklist = q.channels_blacklist ++ (k ∷ []) }

  other_fits :
      (c : ChannelRow) (q : Package) (f : Package → Package)
      → q.id ≢ i
      → FitsFor c q
      → FitsFor c (if q.id == i then f q else q)
  other_fits c q f apart fits = elim (Bool-cases (q.id == i)) [
    | inl same ↦ absurd (apart ((eq_iff q.id i).0 same))
    | inr other ↦ rw other fits
  ]

  new_listing-Consistent : (k : String) → Consistent (insert_listing i k w)
  unfolding insert_listing
  new_listing-Consistent k = record {
    points = λ r j c p n here to there.
        let (q, found, e) = find-update (λ x. x.id) j _ _ w.packages (λ x. refl) there in
        subst (FitsFor c) (sym e) (
          other_fits c q (listed k)
            (λ same.
              u.0 c (find-In _ w.channels here)
                (to ∙ ap some (sym (find-key (λ x. x.id) j w.packages found) ∙ same)))
            (h.points r j c q n here to found));
    floors = λ f c p m here there.
        let (q, found, e) = find-update (λ x. x.id) f.package_id _ _ w.packages (λ x. refl) there in
        subst (FitsFor c) (sym e) (
          other_fits c q (listed k)
            (λ same. u.1 f m (sym (find-key (λ x. x.id) f.package_id w.packages found) ∙ same))
            (h.floors f c q m here found));
  }

abbrev New : String → World → Type 0
New i w = Consistent w × Unreferenced i w

insert_listings-Runs :
    (i : String) (l : List String) → Runs (λ w. Unit) (New i) (insert_listings i l) (λ a. New i)
unfolding insert_listings insert_listing
insert_listings-Runs i [] = Runs-pure tt (λ w h. h)
insert_listings-Runs i (k ∷ ks) =
    Runs-bind {R = λ a. New i} _ _
      (Runs-exec (insert_listing i k) (λ w h. (new_listing-Consistent i (quiet w) h.0 h.1 k, h.1))
        (λ w h. tt))
      (λ a. insert_listings-Runs i ks)

check_matching_arch-Keeps :
    {P : World → Type 0} (l : List String) (a : ℕ) → Keeps P (check_matching_arch l a)
unfolding check_matching_arch
check_matching_arch-Keeps [] a = search keeps_rules
check_matching_arch-Keeps (k ∷ ks) a = search keeps_rules

module _ (o : Outside) (gen : Generators) (fresh : IsFresh gen) where
  add_package_in-Runs : (p : Package) → Inside (add_package_in o gen p)
  unfolding add_package_in add_package_row
  add_package_in-Runs p =
      Runs-if (not (is_valid_semver o p.version)) (λ e. Runs-raise invalid_semver (λ w h. tt))
        (λ version.
          Runs-if (not (is_valid p.arch)) (λ e. Runs-raise invalid_arch (λ w h. tt))
            (λ arch.
              Runs-bind _ _
                (Runs-Keeps (λ w. Unit) Consistent
                  (check_matching_arch-Keeps p.channels_blacklist p.arch) (λ w h. tt))
                (λ a.
                  Runs-bind {R = λ b. Consistent} _ _
                    (Runs-if (validate p.labels) (λ e. Runs-pure tt (λ w h. h))
                      (λ e. Runs-raise invalid_labels (λ w h. tt)))
                    (λ b. Runs-bind {R = New} _ _ (Runs-gets gen.row_id (λ w h. (h, fresh w))) (λ i.
                      Runs-bind {R = λ c. New i} _ _
                        (Runs-exec (add_package_row i p)
                          (λ w h. (add_package_row-Consistent i (quiet w) h.0 h.1 p, h.1))
                          (λ w h. tt))
                        (λ c. Runs-bind _ _ (insert_listings-Runs i p.channels_blacklist) (λ d.
                          Runs-bind _ _
                            (Runs-from (λ w h. h.0) (files-Runs o gen i p.extra_files []))
                            (λ e. Runs-pure i (λ w h. h)))))))))

  add_whole_action-Runs :
      (i : String) (a : Option FlatcarAction) → Inside (add_whole_action gen i a)
  unfolding add_whole_action insert_action add_action
  add_whole_action-Runs i none = Runs-pure tt (λ w h. h)
  add_whole_action-Runs i (some a) =
      Runs-exec _ (λ w h. record { points = h.points; floors = h.floors }) (λ w h. tt)

  pub add_with_metadata-Consistent :
      (p : Package) → Keeps Consistent (add_package_with_metadata o gen p)
  unfolding add_package_with_metadata
  add_with_metadata-Consistent p = Keeps-Runs Consistent _ (
      Runs-if (lacks_metadata p) (λ e. Runs-raise unnamed (λ w h. h))
        (λ e.
          Runs-transaction
            (Runs-bind _ _ (add_package_in-Runs p) (λ i.
              Runs-bind _ _ (add_whole_action-Runs i (flatcar_action_of p))
                (λ a. Runs-pure i (λ w h. h))))
            (λ w h. h)))
