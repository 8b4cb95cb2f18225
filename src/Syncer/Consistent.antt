-- ===== src/Syncer/Consistent.antt =====
-- The syncer keeps channels and packages consistent.
use nebraska.Base.{ℕ, String, ◌&&◌, Option, none, some, List, [], ◌∷◌}
use nebraska.Base.Exec.{Result, ok, err}
use nebraska.Types.{Error, Package, Channel}
use nebraska.Db.{World, Action}
use nebraska.Db.Keeps.{
  quiet, Keeps, Keeps-bind, Keeps-if, Keeps-try, Keeps-pure, Keeps-raise, keeps_rules,
}
use nebraska.Db.Runs.{Keeps-Runs}
use nebraska.Reads.Outside.{Outside}
use nebraska.Runtime.Sound.Handlers.{get_channel-Keeps}
use nebraska.Omaha.Messages.{Manifest, UpdateResponse}
use nebraska.Admin.Rows.{Generators}
use nebraska.Admin.Channels.{update_channel}
use nebraska.Admin.Floors.{add_channel_package_floor}
use nebraska.Admin.Consistent.{Consistent}
use nebraska.Admin.Consistent.Edits.{update_channel-Runs}
use nebraska.Admin.Consistent.Floors.{add_floor-Runs}
use nebraska.Admin.Consistent.Additions.{IsFresh, add_with_metadata-Consistent}
use nebraska.Syncer.Packages.{Settings, get_or_create_package}
use nebraska.Syncer.Packages.Kept.{get_or_create_package-Keeps}
use nebraska.Syncer.Updates.{
  mark_package_as_floor, move_channel, update_channel_to_package, process_manifests,
  process_multi_manifest_update, process_single_manifest_update, process_manifests_of,
  process_update,
}
use nebraska.Syncer.Checks.{
  Followed, Outcome, is_ok, has_manifests, handle_answer, and_then, check_for_updates,
}

update_channel-Consistent : (c : Channel) → Keeps Consistent (update_channel c)
update_channel-Consistent c = Keeps-Runs Consistent _ (update_channel-Runs c)

add_floor-Consistent :
    (c p : String) (r : Option String) → Keeps Consistent (add_channel_package_floor c p r)
add_floor-Consistent c p r = Keeps-Runs Consistent _ (add_floor-Runs c p r)

mark-Consistent :
    (c : String) (p : Package) (m : Manifest) → Keeps Consistent (mark_package_as_floor c p m)
unfolding mark_package_as_floor
mark-Consistent c p m = search (keeps_rules, add_floor-Consistent)

move_channel-Consistent : (c : String) (t : Option Package) → Keeps Consistent (move_channel c t)
unfolding move_channel update_channel_to_package
move_channel-Consistent c none = search keeps_rules
move_channel-Consistent c (some p) =
    search (keeps_rules, get_channel-Keeps, update_channel-Consistent) depth 12

module _ (set : Settings) (o : Outside) (gen : Generators) (fresh : IsFresh gen) where
  package-Consistent :
      (m : Manifest) (u : UpdateResponse) (arch : ℕ)
      → Keeps Consistent (get_or_create_package set o gen m u arch)
  package-Consistent m u arch =
      get_or_create_package-Keeps o gen (add_with_metadata-Consistent o gen fresh) set m u arch

  module _ (c : String) (arch : ℕ) (u : UpdateResponse) where
    process_manifests-Consistent :
        (v : String) (ms : List Manifest) (t : Option Package)
        → Keeps Consistent (process_manifests set o gen c arch u v t ms)
    unfolding process_manifests
    process_manifests-Consistent v [] t = search keeps_rules
    process_manifests-Consistent v (m ∷ ms) t =
        Keeps-bind _ _ (package-Consistent m u arch)
          λ p. Keeps-bind _ _ (mark-Consistent c p m) λ z. process_manifests-Consistent v ms _

    manifests-Consistent :
        (ms : List Manifest) → Keeps Consistent (process_manifests_of set o gen c arch u ms)
    unfolding process_manifests_of process_multi_manifest_update process_single_manifest_update
    manifests-Consistent [] = Keeps-raise _
    manifests-Consistent (m ∷ []) =
        Keeps-bind _ _ (package-Consistent m u arch) λ p. move_channel-Consistent c (some p)
    manifests-Consistent (m ∷ n ∷ l) =
        Keeps-bind _ _ (process_manifests-Consistent _ u.manifests none) (move_channel-Consistent c)

  handle_answer-Consistent :
      (f : Followed) (a : Option (Option UpdateResponse))
      → Keeps Consistent (handle_answer set o gen f a)
  unfolding handle_answer process_update
  handle_answer-Consistent f none = Keeps-raise _
  handle_answer-Consistent f (some none) = Keeps-raise _
  handle_answer-Consistent f (some (some u)) =
      Keeps-if (is_ok u.status && has_manifests u) _ _
        (manifests-Consistent f.channel_id f.arch u u.manifests) (Keeps-pure none)

  and_then-Consistent :
      (f : Followed) (l : List Followed) (r : Result Error (Option String)) (rest : Action Outcome)
      → Keeps Consistent rest
      → Keeps Consistent (and_then set o gen f l r rest)
  unfolding and_then
  and_then-Consistent f l (err e) rest k = Keeps-pure _
  and_then-Consistent f l (ok v) rest k = Keeps-bind _ _ k λ more. Keeps-pure _

  round-Consistent :
      (request : Followed → Option (Option UpdateResponse)) (l : List Followed)
      → Keeps Consistent (check_for_updates set o gen request l)
  unfolding check_for_updates
  round-Consistent request [] = Keeps-pure _
  round-Consistent request (f ∷ l) =
      Keeps-bind _ _ (Keeps-try _ (handle_answer-Consistent f (request f)))
        λ r. and_then-Consistent f l r _ (round-Consistent request l)

-- If new ids are unreferenced, then a round of the syncer keeps channels and packages consistent,
-- whatever upstream answers and whatever fails: the package that a channel points to, and its floors,
-- have the channel's application and architecture and are not kept from it.
pub check_for_updates-Consistent :
    (set : Settings) (o : Outside) (gen : Generators)
    (request : Followed → Option (Option UpdateResponse)) (l : List Followed) (w : World)
    → IsFresh gen
    → Consistent w
    → Consistent (quiet (check_for_updates set o gen request l w).1)
check_for_updates-Consistent set o gen request l w fresh h =
    (round-Consistent set o gen fresh request l).at w
      (record { points = h.points; floors = h.floors })
