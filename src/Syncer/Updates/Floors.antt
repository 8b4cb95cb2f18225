-- ===== src/Syncer/Updates/Floors.antt =====
-- Floors and channels in an update from upstream.
use mathlib.Core.Path.{subst}
use nebraska.Base.{
  ℕ, String, ◌≡◌, sym, refl, ap, Bool, true, false, Option, none, some, List, [], ◌∷◌,
}
use nebraska.Base.{In, inl, inr, ◌==◌}
use nebraska.Base.Exec.{Result, ok, err, continue, ◌>>=◌}
use nebraska.Types.{Error, text, Package, Channel}
use nebraska.Db.{World, Action, ChannelRow, FloorRow}
use nebraska.Db.Keeps.{
  quiet, Keeps, Keeps-exec-some, Keeps-exec_rows, Keeps-bind, Keeps-if, Keeps-attempt, Keeps-pure,
  keeps_rules,
}
use nebraska.Db.Settles.{Gives, Gives-pure, Gives-bind}
use nebraska.Reads.Outside.{Outside}
use nebraska.Runtime.Sound.Handlers.{get_package-Keeps, get_channel-Keeps}
use nebraska.Omaha.Messages.{Manifest, UpdateResponse}
use nebraska.Admin.Rows.{Generators, exec_some, some_row}
use nebraska.Admin.Channels.{
  update_channel, update_channel_row, channel_moved, new_channel_activity_entry, validated,
  validate_package, check_package,
}
use nebraska.Admin.Floors.{
  add_channel_package_floor, check_floor, insert_floor, is_package_blacklisted_for_channel,
  put_floor,
}
use nebraska.Syncer.Packages.{Settings}
use nebraska.Syncer.Packages.Kept.{add_with_metadata-Keeps, get_or_create_package-Keeps}
use nebraska.Syncer.Updates.{
  move_channel, update_channel_to_package, mark_package_as_floor, process_manifests,
  process_multi_manifest_update, process_single_manifest_update, process_manifests_of,
  process_update, last_plain, marked_target, target_version,
}

abbrev HasFloors : List FloorRow → World → Type 0
HasFloors l w = w.floors ≡ l

abbrev HasChannels : List ChannelRow → World → Type 0
HasChannels l w = w.channels ≡ l

module _ {P : World → Type 0} where
  check_package-Keeps : (c a : String) (arch : ℕ) (p : Package) → Keeps P (check_package c a arch p)
  unfolding check_package
  check_package-Keeps c a arch p = search keeps_rules depth 10

  pub validated-Keeps :
      (p : Option String) (c a : String) (arch : ℕ) → Keeps P (validated p c a arch)
  unfolding validated validate_package
  validated-Keeps p c a arch = search (keeps_rules, get_package-Keeps, check_package-Keeps) depth 10

module _ (l : List FloorRow) where
  update_row-Keeps : (c : Channel) → Keeps (HasFloors l) (exec_some (update_channel_row c))
  unfolding exec_some some_row update_channel_row
  update_row-Keeps c =
      Keeps-bind _ _ (Keeps-exec_rows (update_channel_row c) (λ w h. h)) (λ n. search keeps_rules)

  channel_moved-Keeps :
      (b c : Channel) (p : Option Package) → Keeps (HasFloors l) (channel_moved b c p)
  unfolding channel_moved new_channel_activity_entry
  channel_moved-Keeps b c none = search keeps_rules
  channel_moved-Keeps b c (some p) =
      Keeps-if (text b.package_id == text c.package_id) _ _ (Keeps-pure tt)
        (Keeps-attempt _ (Keeps-exec-some _ (λ w h. h)))

  update_channel-Keeps : (c : Channel) → Keeps (HasFloors l) (update_channel c)
  unfolding update_channel
  update_channel-Keeps c =
      search
        (keeps_rules, get_channel-Keeps, validated-Keeps, update_row-Keeps, channel_moved-Keeps)
        depth 12

  move_channel-Keeps : (c : String) (p : Package) → Keeps (HasFloors l) (move_channel c (some p))
  unfolding move_channel update_channel_to_package
  move_channel-Keeps c p = search (keeps_rules, get_channel-Keeps, update_channel-Keeps) depth 12

  module _ (set : Settings) (o : Outside) (gen : Generators) where
    single-Keeps :
        (c : String) (arch : ℕ) (m : Manifest) (u : UpdateResponse)
        → Keeps (HasFloors l) (process_single_manifest_update set o gen c arch m u)
    unfolding process_single_manifest_update
    single-Keeps c arch m u = search (
      keeps_rules,
      move_channel-Keeps,
      get_or_create_package-Keeps o gen
          (add_with_metadata-Keeps {P = HasFloors l} (λ v w c f g h. cc) gen o) set m u arch,
    )

-- An update with one manifest leaves the floors as they were, also where the manifest is a floor,
-- whatever fails.
pub process_update-single :
    (set : Settings) (o : Outside) (gen : Generators) (c : String) (arch : ℕ) (m : Manifest)
    (u : UpdateResponse) (w : World)
    → u.manifests ≡ m ∷ []
    → (process_update set o gen c arch u w).1.floors ≡ w.floors
unfolding process_update process_manifests_of
process_update-single set o gen c arch m u w one =
    subst (λ ms. (process_manifests_of set o gen c arch u ms w).1.floors ≡ w.floors) (sym one)
      ((single-Keeps w.floors set o gen c arch m u).at w refl)

module _ {P : World → Type 0}
    (frame : (v w : World) → w.channels ≡ v.channels → w.packages ≡ v.packages → P v → P w) where
  insert_floor-Keeps :
      (c p : String) (r : Option String) (b : Bool) → Keeps P (insert_floor c p r b)
  unfolding insert_floor put_floor
  insert_floor-Keeps c p r true = search keeps_rules
  insert_floor-Keeps c p r false =
      Keeps-exec-some (put_floor c p r)
        (λ w h. frame (quiet w) (quiet (put_floor c p r w)) refl refl h)

  check_floor-Keeps : (f : Option (ChannelRow × Package)) → Keeps P (check_floor f)
  unfolding check_floor
  check_floor-Keeps none = search keeps_rules
  check_floor-Keeps (some (c, p)) = search keeps_rules depth 10

  pub mark-Keeps : (c : String) (p : Package) (m : Manifest) → Keeps P (mark_package_as_floor c p m)
  unfolding mark_package_as_floor add_channel_package_floor is_package_blacklisted_for_channel
  mark-Keeps c p m = search (keeps_rules, check_floor-Keeps, insert_floor-Keeps) depth 14

module _ (l : List ChannelRow) where
  module _ (set : Settings) (o : Outside) (gen : Generators) (u : UpdateResponse) where
    process_manifests-Keeps :
        (c : String) (arch : ℕ) (v : String) (ms : List Manifest) (t : Option Package)
        → Keeps (HasChannels l) (process_manifests set o gen c arch u v t ms)
    unfolding process_manifests
    process_manifests-Keeps c arch v [] t = search keeps_rules
    process_manifests-Keeps c arch v (m ∷ ms) t =
        Keeps-bind _ _
          (get_or_create_package-Keeps o gen
            (add_with_metadata-Keeps {P = HasChannels l} (λ v w c f g h. cc) gen o) set m u arch)
          λ p.
            Keeps-bind _ _ (mark-Keeps {P = HasChannels l} (λ v w c p h. cc) c p m)
              λ z. process_manifests-Keeps c arch v ms _

module _ (set : Settings) (o : Outside) (gen : Generators) (u : UpdateResponse) where
  -- Where no version is to be tracked, the loop finds no package to track.
  process_manifests-Gives :
      (c : String) (arch : ℕ) (ms : List Manifest)
      → Gives (λ t. t ≡ none) (process_manifests set o gen c arch u "" none ms)
  unfolding process_manifests
  process_manifests-Gives c arch [] = Gives-pure refl
  process_manifests-Gives c arch (m ∷ ms) =
      Gives-bind _ _ λ p. Gives-bind _ _ λ z. process_manifests-Gives c arch ms

-- Where every manifest is a floor and none the target.
abbrev pub OnlyFloors : List Manifest → Type 0
OnlyFloors l = (m : Manifest) → In m l → (m.is_floor ≡ true) × (m.is_target ≡ false)

last_plain-OnlyFloors : (l : List Manifest) → OnlyFloors l → last_plain l ≡ none
unfolding last_plain
last_plain-OnlyFloors [] h = refl
last_plain-OnlyFloors (m ∷ l) h =
    rw (last_plain-OnlyFloors l (λ n i. h n (inr i))) (rw ((h m (inl refl)).0) refl)

marked_target-OnlyFloors : (l : List Manifest) → OnlyFloors l → marked_target l ≡ none
unfolding marked_target
marked_target-OnlyFloors [] h = refl
marked_target-OnlyFloors (m ∷ l) h =
    rw ((h m (inl refl)).1) (marked_target-OnlyFloors l (λ n i. h n (inr i)))

target_version-OnlyFloors : (l : List Manifest) → OnlyFloors l → target_version l ≡ ""
unfolding target_version
target_version-OnlyFloors l h =
    simp (target_version, marked_target-OnlyFloors l h, last_plain-OnlyFloors l h)

module _ {P : World → Type 0} {A B : Type 0} where
  kept_after :
      (r : Result Error A) (f : A → Action B) (w : World)
      → P (quiet w)
      → ((a : A) → r ≡ ok a → Keeps P (f a))
      → P (quiet (continue r f w).1)
  kept_after (ok a) f w h k = (k a refl).at w h
  kept_after (err e) f w h k = h

  -- As `Keeps-bind`, where the rest keeps what it should for the results that the first part gives.
  Keeps-given :
      {Q : A → Type 0} (m : Action A) (f : A → Action B)
      → Keeps P m
      → Gives Q m
      → ((a : A) → Q a → Keeps P (f a))
      → Keeps P (m >>= f)
  unfolding ◌>>=◌
  Keeps-given m f km g k = record {
    at = λ w h.
        kept_after (m w).0 f (m w).1 (km.at w h)
          (λ a e. k a (g.at w (m w).1 (ap (λ r. (r, (m w).1)) e)));
  }

move_nothing :
    (l : List ChannelRow) (c : String) (t : Option Package)
    → t ≡ none
    → Keeps (HasChannels l) (move_channel c t)
unfolding move_channel
move_nothing l c t e = rw e (Keeps-pure none)

multi-Keeps :
    (l : List ChannelRow) (set : Settings) (o : Outside) (gen : Generators) (c : String) (arch : ℕ)
    (u : UpdateResponse)
    → OnlyFloors u.manifests
    → Keeps (HasChannels l) (process_multi_manifest_update set o gen c arch u)
unfolding process_multi_manifest_update
multi-Keeps l set o gen c arch u h = rw (target_version-OnlyFloors u.manifests h) (
    Keeps-given _ _ (process_manifests-Keeps l set o gen u c arch "" u.manifests none)
      (process_manifests-Gives set o gen u c arch u.manifests) (move_nothing l c))

-- An update with several manifests that are all floors, none of them marked as the target, changes
-- no channel, whatever fails.
pub process_update-OnlyFloors :
    (set : Settings) (o : Outside) (gen : Generators) (c : String) (arch : ℕ) (m n : Manifest)
    (l : List Manifest) (u : UpdateResponse) (w : World)
    → u.manifests ≡ m ∷ n ∷ l
    → OnlyFloors u.manifests
    → (process_update set o gen c arch u w).1.channels ≡ w.channels
unfolding process_update process_manifests_of
process_update-OnlyFloors set o gen c arch m n l u w several h =
    subst (λ ms. (process_manifests_of set o gen c arch u ms w).1.channels ≡ w.channels)
      (sym several) ((multi-Keeps w.channels set o gen c arch u h).at w refl)
