-- ===== src/Admin/Files.antt =====
-- admin/packages.go: `updatePackageFiles`. A Go map of files is a list, whose order stands for the
-- order in which Go visits it.
use nebraska.Base.{ℕ, String, Bool, true, Option, none, some, List, [], ◌∷◌, ◌++◌, ◌==◌}
use nebraska.Base.{eqb, not, ◌&&◌, if◌then◌else◌}
use nebraska.Base.Exec.{pure, ◌>>◌}
use nebraska.Types.{text, File, Package}
use nebraska.Db.{World, Action, exec, find, update_where, select}
use nebraska.Admin.Rows.{Generators}

-- `File.Equals`.
unfoldable pub equals : File → File → Bool
equals f g =
    text f.name == text g.name
    && (text f.size == text g.size
        && (text f.hash == text g.hash && text f.hash256 == text g.hash256))

-- The columns that a statement writes: texts, never NULL.
abbrev pub written : File → File
written f = record f {
  name = some (text f.name);
  size = some (text f.size);
  hash = some (text f.hash);
  hash256 = some (text f.hash256);
}

abbrev pub with_files : (List File → List File) → Package → Package
with_files f p = record p { extra_files = f p.extra_files }

abbrev every_package : (Package → Package) → World → World
every_package f w = record w { packages = update_where (λ p. true) f w.packages }

-- UPDATE package_file … WHERE id = …
unfoldable pub update_file : File → World → World
update_file f =
    every_package
      (with_files (update_where (λ g. eqb g.id f.id) (λ g. record (written f) { id = g.id })))

abbrev pub of_package : String → (Package → Package) → World → World
of_package id f w = record w { packages = update_where (λ p. p.id == id) f w.packages }

unfoldable pub insert_file : ℕ → String → File → World → World
insert_file new_id package_id f =
    of_package package_id (with_files (λ l. l ++ (record (written f) { id = new_id } ∷ [])))

unfoldable pub delete_file : String → ℕ → World → World
delete_file package_id file_id =
    of_package package_id (with_files (select (λ g. not (eqb g.id file_id))))

unfoldable pub delete_files : String → List File → Action Unit
unfolding delete_file
delete_files package_id [] = pure tt
delete_files package_id (f ∷ l) = do
  exec (λ w. some (delete_file package_id f.id w))
  delete_files package_id l

module _ (gen : Generators) where
  -- One new file, where an old one has its id or not.
  unfoldable pub put_file : String → File → Option File → Action Unit
  unfolding equals update_file insert_file
  put_file package_id f none = exec (λ w. some (insert_file (gen.file_id w) package_id f w))
  put_file package_id f (some old) =
      if equals old f then pure tt else exec (λ w. some (update_file f w))

  -- The loop over the new files; the old ones that none of them names are deleted after it.
  unfoldable pub update_package_files : String → List File → List File → Action Unit
  unfolding put_file delete_files
  update_package_files package_id [] old = delete_files package_id old
  update_package_files package_id (f ∷ l) old = do
    put_file package_id f (find (λ g. eqb g.id f.id) old)
    update_package_files package_id l (select (λ g. not (eqb g.id f.id)) old)
