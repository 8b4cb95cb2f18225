-- ===== src/Syncer/Packages/Versions.antt =====
-- The package of a manifest, found or created, is of its version.
use nebraska.Base.{ℕ, String, ◌≡◌, refl, Bool, true, false, Option, none, some, List, [], ◌∷◌}
use nebraska.Base.{eq_iff, not, ◌&&◌}
use nebraska.Base.Exec.{Result, ok, err}
use nebraska.Types.{Error, Package}
use nebraska.Db.{find}
use nebraska.Db.Finds.{find-holds}
use nebraska.Db.Settles.{
  Gives, IfOk, Gives-pure, Gives-raise, Gives-bind, Gives-after, Gives-if, Gives-query, Settles-try,
  Settles-Gives,
}
use nebraska.Reads.Outside.{Outside, is_valid_semver}
use nebraska.Reads.Groups.{row_or_none}
use nebraska.Omaha.Messages.{Manifest, ManifestPackage, UpdateResponse}
use nebraska.Admin.Rows.{Generators}
use nebraska.Syncer.Packages.{
  Settings, get_package_by_version_and_arch, create_first, create_package, found_or_created,
  get_or_create_package, new_package,
}

-- The packages of a version.
abbrev pub IsOf : String → Package → Type 0
IsOf v p = p.version ≡ v

pub row_some : (x : Option Package) {p : Package} → row_or_none x ≡ ok p → x ≡ some p
row_some none h = absurd (cc)
row_some (some q) h = cc

pub and_right : (x y : Bool) → (x && y) ≡ true → y ≡ true
and_right true y h = h
and_right false y h = absurd (cc)

row_holds :
    (q : Package → Bool) (l : List Package) (v : String)
    → ((p : Package) → q p ≡ true → IsOf v p)
    → (p : Package) → row_or_none (find q l) ≡ ok p
    → IsOf v p
row_holds q l v k p h = k p (find-holds q l (row_some (find q l) h))

module _ (set : Settings) (o : Outside) (gen : Generators) (m : Manifest) (u : UpdateResponse)
    (arch : ℕ) where
  known-Gives : (a v : String) → Gives (IsOf v) (get_package_by_version_and_arch o a v arch)
  unfolding get_package_by_version_and_arch
  known-Gives a v = Gives-if (not (is_valid_semver o v)) (Gives-raise _) (
      Gives-after {R = IsOf v} _ _
        (Gives-query _ λ w p h.
          row_holds _ w.packages v (λ q t. (eq_iff q.version v).0 (and_right _ _ (and_right _ _ t)))
            p h)
        λ p h. Gives-bind _ _ λ a. Gives-pure h)

  create_first-Gives :
      (l : List ManifestPackage) → Gives (IsOf m.version) (create_first set o gen m u arch l)
  unfolding create_first new_package
  create_first-Gives [] = Gives-raise _
  create_first-Gives (mp ∷ l) =
      Gives-bind _ _
        λ files. Gives-bind _ _ λ url. Gives-bind _ _ λ name. Gives-bind _ _ λ id. Gives-pure refl

  found-Gives :
      (r : Result Error Package)
      → IfOk (IsOf m.version) r
      → Gives (IsOf m.version) (found_or_created set o gen m u arch r)
  unfolding found_or_created create_package
  found-Gives (ok p) h = Gives-bind _ _ λ z. Gives-pure h
  found-Gives (err e) h = create_first-Gives m.packages

  pub get_or_create_package-Gives :
      Gives (IsOf m.version) (get_or_create_package set o gen m u arch)
  unfolding get_or_create_package
  get_or_create_package-Gives =
      Gives-after _ _ (Settles-Gives (Settles-try (known-Gives _ m.version))) found-Gives
