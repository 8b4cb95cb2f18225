-- ===== src/Admin/Consistent/Packages.antt =====
-- Editing and deleting packages keeps channels and packages consistent.
use mathlib.Core.Option.{some-injective}
use nebraska.Base.{
  String, ◌≡◌, ◌≢◌, refl, sym, ap, ◌∙◌, Bool, true, false, Option, none, some, List, [], ◌∷◌,
}
use nebraska.Base.{arith, ◌==◌, eq_iff, not, eqb, if◌then◌else◌}
use nebraska.Base.Exec.{◌>>=◌, ◌>>◌}
use nebraska.Types.{
  text, Package, Channel, FlatcarAction, File, invalid_semver, invalid_labels, blacklisting_channel,
  blacklisting_floor, no_rows_affected, package_is_floor,
}
use nebraska.Db.{World, Action, ChannelRow, find, select}
use nebraska.Db.Keeps.{quiet}
use nebraska.Db.Runs.{
  Runs, Runs-pure, Runs-raise, Runs-if, Runs-query, Runs-bind, Runs-from, Runs-exec, Runs-exec_rows,
  Runs-transaction,
}
use nebraska.Reads.Outside.{Outside, is_valid_semver}
use nebraska.Runtime.Updates.{contains}
use nebraska.Admin.Rows.{Generators, exec_some}
use nebraska.Reads.Groups.{get_package}
use nebraska.Admin.Labels.{validate}
use nebraska.Admin.Blacklists.{
  insert_listing, delete_listing, check_listing, list_channel, list_channels, unlist_channels,
  update_package_blacklisted_channels,
}
use nebraska.Admin.Files.{
  with_files, update_file, insert_file, delete_file, delete_files, put_file, update_package_files,
  equals,
}
use nebraska.Admin.Actions.{add_action, put_where, put_action, update_action, flatcar_action_of}
use nebraska.Admin.Packages.{
  update_package, update_package_row, delete_package, delete_package_rows, deletable,
  without_package, explain,
}
use nebraska.Admin.Consistent.{channel_at, Consistent}
use nebraska.Admin.Consistent.Rows.{
  Milder, packages_changed, update_package_row-Consistent, delete_listing-Consistent,
  insert_listing-Consistent, without_package-Consistent,
}
use nebraska.Admin.Consistent.Reads.{ReadChannel, get_channel-Runs, get_package-Runs, is_floor-Runs}
use nebraska.Admin.Consistent.Edits.{Kept, some_row-Runs}

-- Inside a transaction, what a failure leaves behind is rolled back.
abbrev pub Inside : {A : Type 0} → Action A → Type 0
Inside m = Runs (λ w. Unit) Consistent m (λ a. Consistent)

-- The channel that was read does not point to the package.
abbrev Elsewhere : String → String → World → Type 0
Elsewhere i k w = (d : ChannelRow) → channel_at k w ≡ some d → text d.package_id ≢ i

elsewhere :
    (i k : String) (c : Channel) (w : World)
    → (text c.package_id == i) ≡ false
    → ReadChannel k c w
    → Elsewhere i k w
elsewhere i k c w n r d here to =
    let same : r.row ≡ d = some-injective _ _ (sym r.found ∙ here) in
    let e : text c.package_id ≡ i =
      ap text (r.points ∙ ap (λ (x : ChannelRow). x.package_id) same) ∙ to in
    absurd (ground (arith, n, e, eq_iff (text c.package_id) i))

check_listing-Runs :
    {P : World → Type 0} (i : String) (c : Channel) (b : Bool)
    → Runs
        (λ w. Unit)
        P
        (check_listing i c b)
        (λ u w. P w × ((text c.package_id == i) ≡ false) × (b ≡ false))
unfolding check_listing
check_listing-Runs i c b =
    Runs-if (text c.package_id == i) (λ e. Runs-raise blacklisting_channel (λ w h. tt))
      (λ away.
        Runs-if b (λ e. Runs-raise blacklisting_floor (λ w h. tt))
          (λ unfloored. Runs-pure tt (λ w h. (h, away, unfloored))))

list_channel-Runs : (i k : String) → Inside (list_channel i k)
unfolding list_channel insert_listing
list_channel-Runs i k = Runs-bind _ _ (get_channel-Runs (λ w h. tt) k) (λ c.
    Runs-bind _ _ (check_listing-Runs i c false) (λ u.
      Runs-bind _ _ (is_floor-Runs (λ w h. tt) i k) (λ b.
        Runs-bind _ _ (check_listing-Runs i c b) (λ v.
          Runs-exec (insert_listing i k)
            (λ w h.
              insert_listing-Consistent (quiet w) h.0.0.0.0 i k
                (elsewhere i k c (quiet w) h.1 h.0.0.0.1) (h.0.1 h.2))
            (λ w h. tt)))))

list_channels-Runs : (i : String) (done l : List String) → Inside (list_channels i done l)
unfolding list_channels
list_channels-Runs i done [] = Runs-pure tt (λ w h. h)
list_channels-Runs i done (k ∷ ks) =
    Runs-if (contains done k) (λ e. list_channels-Runs i done ks)
      (λ e.
        Runs-bind (list_channel i k) _ (list_channel-Runs i k)
          (λ u. list_channels-Runs i (k ∷ done) ks))

unlist_channels-Runs : (i : String) (kept l : List String) → Inside (unlist_channels i kept l)
unfolding unlist_channels delete_listing
unlist_channels-Runs i kept [] = Runs-pure tt (λ w h. h)
unlist_channels-Runs i kept (k ∷ ks) =
    Runs-if (contains kept k) (λ e. unlist_channels-Runs i kept ks)
      (λ e.
        Runs-bind {R = λ u. Consistent} _ _
          (Runs-exec (delete_listing i k) (λ w h. delete_listing-Consistent (quiet w) h i k)
            (λ w h. tt))
          (λ u. unlist_channels-Runs i kept ks))

-- Files are no concern of channels.
Milder-files : (f : List File → List File) → Milder (with_files f)
Milder-files f = record { id = λ p. refl; arch = λ p. refl; app = λ p. refl; listed = λ p k n. n }

delete_files-Runs : (i : String) (l : List File) → Inside (delete_files i l)
unfolding delete_files delete_file
delete_files-Runs i [] = Runs-pure tt (λ w h. h)
delete_files-Runs i (f ∷ l) =
    Runs-bind {R = λ u. Consistent} _ _
      (Runs-exec (delete_file i f.id) (λ w h. packages_changed (quiet w) h _ _ (Milder-files _))
        (λ w h. tt))
      (λ u. delete_files-Runs i l)

put_where-Consistent :
    (o : Option FlatcarAction) (id i sha : String) (w : World)
    → Consistent (quiet w)
    → Consistent (quiet (put_where o id i sha w))
unfolding put_where add_action
put_where-Consistent none id i sha w h = record { points = h.points; floors = h.floors }
put_where-Consistent (some a) id i sha w h = record { points = h.points; floors = h.floors }

put_action-Consistent :
    (id i sha : String) (w : World)
    → Consistent (quiet w)
    → Consistent (quiet (put_action id i sha w))
unfolding put_action
put_action-Consistent id i sha w h =
    put_where-Consistent (find (λ a. a.id == id) w.flatcar_actions) id i sha w h

module _ (o : Outside) (gen : Generators) where
  put_file-Runs : (i : String) (f : File) (old : Option File) → Inside (put_file gen i f old)
  unfolding put_file insert_file update_file
  put_file-Runs i f none =
      Runs-exec (λ w. insert_file (gen.file_id w) i f w)
        (λ w h. packages_changed (quiet w) h _ _ (Milder-files _)) (λ w h. tt)
  put_file-Runs i f (some old) =
      Runs-if (equals old f) (λ e. Runs-pure tt (λ w h. h))
        (λ e.
          Runs-exec (update_file f) (λ w h. packages_changed (quiet w) h _ _ (Milder-files _))
            (λ w h. tt))

  pub files-Runs : (i : String) (l old : List File) → Inside (update_package_files gen i l old)
  unfolding update_package_files
  files-Runs i [] old = delete_files-Runs i old
  files-Runs i (f ∷ l) old =
      Runs-bind _ _ (put_file-Runs i f (find (λ g. eqb g.id f.id) old))
        (λ u. files-Runs i l (select (λ g. not (eqb g.id f.id)) old))

  update_action-Runs : (i : String) (a : Option FlatcarAction) → Inside (update_action gen i a)
  unfolding update_action
  update_action-Runs i none = Runs-pure tt (λ w h. h)
  update_action-Runs i (some a) =
      Runs-exec (λ w. put_action (if a.id == "" then gen.new_uuid w else a.id) i a.sha256 w)
        (λ w h. put_action-Consistent (if a.id == "" then gen.new_uuid w else a.id) i a.sha256 w h)
        (λ w h. tt)

  body-Runs :
      (p : Package) (labels : Option (List (String × String)))
      → Inside (do
        exec_some (update_package_row p labels)
        old ← get_package (some p.id)
        update_package_blacklisted_channels p.id p.channels_blacklist old.channels_blacklist
        update_package_files gen p.id p.extra_files old.extra_files
        update_action gen p.id (flatcar_action_of p))
  unfolding update_package_row update_package_blacklisted_channels
  body-Runs p labels =
      Runs-bind _ _
        (some_row-Runs (update_package_row p labels)
          (λ w h. update_package_row-Consistent (quiet w) h p labels) (λ w h. tt) (λ w h. tt))
        (λ u. Runs-bind _ _ (get_package-Runs (λ w h. tt) p.id) (λ old.
          Runs-bind _ _
            (Runs-from (λ w h. h.0)
              (Runs-bind _ _ (list_channels-Runs p.id old.channels_blacklist p.channels_blacklist)
                (λ v. unlist_channels-Runs p.id p.channels_blacklist old.channels_blacklist)))
            (λ v.
              Runs-bind _ _ (files-Runs p.id p.extra_files old.extra_files)
                (λ x. update_action-Runs p.id (flatcar_action_of p)))))

  pub update_package-Runs :
      (p : Package) (labels : Option (List (String × String)))
      → Kept (update_package o gen p labels)
  unfolding update_package
  update_package-Runs p labels =
      Runs-if (not (is_valid_semver o p.version)) (λ e. Runs-raise invalid_semver (λ w h. h))
        (λ e.
          Runs-if (elim labels [ none ↦ false | some l ↦ not (validate l) ])
            (λ e. Runs-raise invalid_labels (λ w h. h))
            (λ e. Runs-transaction (body-Runs p labels) (λ w h. h)))

deleted-Consistent :
    (i : String) (kept : Bool) (w : World)
    → Consistent (quiet w)
    → Consistent (quiet (if kept then w else without_package i w))
unfolding without_package
deleted-Consistent i true w h = h
deleted-Consistent i false w h = without_package-Consistent (quiet w) h i

explain-Runs : (s : Bool × Bool) → Kept (explain s)
unfolding explain
explain-Runs (false, b) = Runs-raise no_rows_affected (λ w h. h)
explain-Runs (true, true) = Runs-raise package_is_floor (λ w h. h)
explain-Runs (true, false) = Runs-raise no_rows_affected (λ w h. h)

pub delete_package-Runs : (i : String) → Kept (delete_package i)
unfolding delete_package delete_package_rows
delete_package-Runs i =
    Runs-bind {R = λ n. Consistent} _ _
      (Runs-exec_rows (delete_package_rows i)
        (λ w h. deleted-Consistent i (eqb (deletable i w) 0) w h) (λ w h. h))
      (λ n.
        Runs-if (eqb n 0)
          (λ e.
            Runs-bind {R = λ s. Consistent} _ _ (Runs-query _ (λ w s h e. h) (λ w h. h))
              explain-Runs)
          (λ e. Runs-pure tt (λ w h. h)))
