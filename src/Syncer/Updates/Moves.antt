-- ===== src/Syncer/Updates/Moves.antt =====
-- The row of a channel that an update from upstream moves.
use mathlib.Core.Path.{subst}
use mathlib.Core.Option.{none-ne-some, some-injective}
use nebraska.Base.{
  ℕ, String, ◌≡◌, refl, sym, ◌∙◌, Option, none, some, List, [], ◌∷◌, inl, inr, ◌==◌, Bool-cases,
  not, ◌&&◌,
}
use nebraska.Base.Exec.{ok}
use nebraska.Types.{text, unnamed, Package, Channel}
use nebraska.Db.{World, Action}
use nebraska.Db.Finds.{find-In, find-key}
use nebraska.Db.Keeps.{Keeps, Keeps-if, Keeps-pure, Keeps-attempt, Keeps-exec-some}
use nebraska.Db.Runs.{
  Runs, Runs-pure, Runs-bind, Runs-from, Runs-to, Post, Runs-raise, Runs-Keeps, Runs-both,
}
use nebraska.Reads.Outside.{Outside}
use nebraska.Runtime.Sound.Handlers.{get_channel-Keeps}
use nebraska.Omaha.Messages.{Manifest, UpdateResponse}
use nebraska.Admin.Rows.{Generators}
use nebraska.Admin.Channels.{
  update_channel, update_channel_row, channel_moved, new_channel_activity_entry,
}
use nebraska.Admin.Consistent.Edits.{some_row-Runs}
use nebraska.Admin.Consistent.Reads.{get_channel-Runs}
use nebraska.Syncer.Packages.{Settings, get_or_create_package}
use nebraska.Syncer.Packages.Kept.{Grows, add_with_metadata-Keeps, get_or_create_package-Keeps}
use nebraska.Syncer.Packages.Stored.{HasRow, Stored, grown-HasRow, get_or_create_package-Stored}
use nebraska.Syncer.Updates.Points.{PointsTo, IsThere, updated-PointsTo}
use nebraska.Syncer.Updates.{
  update_channel_to_package, move_channel, process_manifests, tracked, process_manifests_of,
  process_update, process_multi_manifest_update, process_single_manifest_update,
}
use nebraska.Syncer.Updates.Floors.{validated-Keeps, mark-Keeps}

abbrev Anyhow : World → Type 0
Anyhow w = Unit

abbrev Moved : String → String → String → World → Type 0
Moved k i v w = PointsTo k i w.channels × Stored i v w

channel_moved-Moved :
    (k i v : String) (b c : Channel) (p : Option Package)
    → Keeps (Moved k i v) (channel_moved b c p)
unfolding channel_moved new_channel_activity_entry
channel_moved-Moved k i v b c none = Keeps-pure tt
channel_moved-Moved k i v b c (some p) =
    Keeps-if (text b.package_id == text c.package_id) _ _ (Keeps-pure tt)
      (Keeps-attempt _ (Keeps-exec-some _ (λ w h. h)))

abbrev Movable : String → String → String → World → Type 0
Movable k i v w = IsThere k w.channels × Stored i v w

update_channel-Moved :
    (k i v : String) (c : Channel)
    → Runs Anyhow
        (Movable k i v)
        (update_channel (record c { id = k; package_id = some i }))
        (λ u. Moved k i v)
unfolding update_channel update_channel_row
update_channel-Moved k i v c =
    Runs-bind _ _ (Runs-Keeps Anyhow (Movable k i v) (get_channel-Keeps k) (λ w h. tt)) λ before.
      Runs-bind _ _
        (Runs-Keeps Anyhow (Movable k i v)
          (validated-Keeps (some i) k before.application_id before.arch) (λ w h. tt))
        λ p.
          Runs-bind {R = λ u. Moved k i v} _ _
            (some_row-Runs (update_channel_row (record c { id = k; package_id = some i }))
              (λ w h. (updated-PointsTo k i c.name w.channels h.0, h.1)) (λ w h. tt) (λ w h. tt))
            λ u. Runs-Keeps Anyhow (Moved k i v) (channel_moved-Moved k i v before _ p) (λ w h. tt)

-- A fact about a value that was read.
given_fact :
    {P : World → Type 0} {F : Type 0} {A : Type 0} {m : Action A} {Q : A → World → Type 0}
    → (F → Runs Anyhow P m Q)
    → Runs Anyhow (λ w. P w × F) m Q
given_fact r = record { at = λ w h. (r h.1).at w h.0 }

-- What an update that moves its channel returns and leaves.
abbrev HasMoved : String → Package → String → World → Type 0
HasMoved k p v w = (p.version ≡ v) × Moved k p.id p.version w

update_channel_to_package-HasMoved :
    (k : String) (p : Package)
    → Runs Anyhow (Stored p.id p.version) (update_channel_to_package k p) (HasMoved k p)
unfolding update_channel_to_package
update_channel_to_package-HasMoved k p = Runs-bind _ _ (get_channel-Runs (λ w h. tt) k) λ c.
    Runs-bind {R = λ u. Moved k p.id p.version} _ _
      (Runs-from
        (λ w h.
          let r = h.1 in
          let same = find-key (λ x. x.id) k w.channels r.found in
          (((r.row, find-In _ w.channels r.found, same), h.0), r.id ∙ same))
        (given_fact (λ e.
          subst
            (λ x.
              Runs Anyhow (Movable k p.id p.version)
                (update_channel (record c { id = x; package_id = some p.id }))
                (λ u. Moved k p.id p.version))
            (sym e) (update_channel-Moved k p.id p.version c))))
      (λ u. Runs-pure _ (λ w h. (refl, h)))

-- An update that moves its channel points it to a stored package of the version that it returns.
abbrev pub PointsToVersion : String → String → World → Type 0
PointsToVersion k v w = (i : String) × PointsTo k i w.channels × Stored i v w

-- What an update leaves, where it returns a version.
abbrev pub Tracks : String → Option String → World → Type 0
Tracks k r w = (v : String) → r ≡ some v → PointsToVersion k v w

abbrev IsKept : Option Package → List Package → Type 0
IsKept t l = (p : Package) → t ≡ some p → HasRow p.id p.version l

move_channel-Tracks :
    (k : String) (t : Option Package)
    → Runs Anyhow (λ w. IsKept t w.packages) (move_channel k t) (Tracks k)
unfolding move_channel
move_channel-Tracks k none = Runs-pure none (λ w h v e. absurd (none-ne-some _ e))
move_channel-Tracks k (some p) =
    Runs-bind {R = HasMoved k p} _ _
      (Runs-from (λ w h. h p refl) (update_channel_to_package-HasMoved k p))
      λ v.
        Runs-pure (some v) (λ w h x e.
          (p.id, h.1.0, subst (λ y. Stored p.id y w) (h.0 ∙ some-injective _ _ e) h.1.1))

grown-IsKept : (t : Option Package) (k l : List Package) → Grows k l → IsKept t k → IsKept t l
grown-IsKept t k l g h p e = grown-HasRow p.id p.version k l g (h p e)

tracked-IsKept :
    (m : Manifest) (v : String) (p : Package) (t : Option Package) (l : List Package)
    → HasRow p.id p.version l
    → IsKept t l
    → IsKept (tracked m v p t) l
tracked-IsKept m v p t l h k = elim (Bool-cases (not (v == "") && m.version == v)) [
  | inl this ↦
      λ q e. subst (λ (x : Package). HasRow x.id x.version l) (some-injective _ _ (rw this at e)) h
  | inr other ↦ λ q e. k q (rw other at e)
]

module _ (set : Settings) (o : Outside) (gen : Generators) (u : UpdateResponse) (k : String)
    (arch : ℕ) where
  package-IsKept :
      (t : Option Package) (m : Manifest)
      → Runs Anyhow
          (λ w. IsKept t w.packages)
          (get_or_create_package set o gen m u arch)
          (λ p w. IsKept t w.packages × HasRow p.id p.version w.packages)
  package-IsKept t m =
      Runs-both (λ w. IsKept t w.packages) (λ p w. HasRow p.id p.version w.packages)
        (get_or_create_package set o gen m u arch)
        (get_or_create_package-Keeps o gen
          (add_with_metadata-Keeps (λ v w c f g. grown-IsKept t v.packages w.packages g) gen o) set
          m u arch)
        (Runs-to Anyhow (λ p w h. subst (λ x. HasRow p.id x w.packages) (sym h.0) h.1) _
          (get_or_create_package-Stored set o gen m u arch))

  process_manifests-IsKept :
      (v : String) (ms : List Manifest) (t : Option Package)
      → Runs Anyhow
          (λ w. IsKept t w.packages)
          (process_manifests set o gen k arch u v t ms)
          (λ r w. IsKept r w.packages)
  unfolding process_manifests
  process_manifests-IsKept v [] t = Runs-pure t (λ w h. h)
  process_manifests-IsKept v (m ∷ ms) t = Runs-bind _ _ (package-IsKept t m) λ p.
      Runs-bind _ _
        (Runs-Keeps Anyhow (λ w. IsKept t w.packages × HasRow p.id p.version w.packages)
          (mark-Keeps (λ v w c e h. subst (λ l. IsKept t l × HasRow p.id p.version l) (sym e) h) k p
            m)
          (λ w h. tt))
        λ z.
          Runs-from (λ w h. tracked-IsKept m v p t w.packages h.1 h.0)
            (process_manifests-IsKept v ms (tracked m v p t))

  manifests-Tracks :
      (l : List Manifest)
      → Runs Anyhow Anyhow (process_manifests_of set o gen k arch u l) (Tracks k)
  unfolding process_manifests_of process_multi_manifest_update process_single_manifest_update
  manifests-Tracks [] = Runs-raise unnamed (λ w h. tt)
  manifests-Tracks (m ∷ []) =
      Runs-bind _ _ (Runs-from (λ w h p e. absurd (none-ne-some _ e)) (package-IsKept none m)) λ p.
        Runs-from
          (λ w h q e.
            subst (λ (x : Package). HasRow x.id x.version w.packages) (some-injective _ _ e) h.1)
          (move_channel-Tracks k (some p))
  manifests-Tracks (m ∷ n ∷ l) =
      Runs-bind _ _
        (Runs-from (λ w h p e. absurd (none-ne-some _ e))
          (process_manifests-IsKept _ u.manifests none))
        (move_channel-Tracks k)

  -- Where an update returns a version, the channel points to a stored package of that version.
  pub process_update-Tracks :
      (w w' : World) (v : String)
      → process_update set o gen k arch u w ≡ (ok (some v), w')
      → PointsToVersion k v w'
  unfolding process_update
  process_update-Tracks w w' v e =
      subst (Post Anyhow (Tracks k)) e ((manifests-Tracks u.manifests).at w tt) v refl
