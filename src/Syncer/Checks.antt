-- ===== src/Syncer/Checks.antt =====
-- syncer.go: `initialize` and `checkForUpdates`. The maps of the syncer are one list of the channels
-- that it follows; its machine and boot ids only go into requests.
use nebraska.Base.{ℕ, String, Bool, true, false, Option, none, some, List, [], ◌∷◌}
use nebraska.Base.{◌==◌, eqb, ◌&&◌, ◌||◌, if◌then◌else◌}
use nebraska.Base.Exec.{Result, ok, err, pure, raise, ◌>>=◌}
use nebraska.Base.Texts.{starts_with_text}
use nebraska.Types.{Error, unnamed, go_panic, Channel}
use nebraska.Db.{Action, try}
use nebraska.Reads.Outside.{Outside}
use nebraska.Reads.Applications.{get_app}
use nebraska.Runtime.Events.{flatcar_app_id}
use nebraska.Omaha.Messages.{
  UpdateStatus, update_ok, no_update, update_internal_error, UpdateResponse,
}
use nebraska.Admin.Rows.{Generators}
use nebraska.Syncer.Packages.{Settings}
use nebraska.Syncer.Updates.{process_update}

pub record Followed : Type 0 where
  pub name : String
  pub arch : ℕ
  pub channel_id : String
  pub version : String

unfoldable pub is_followed : String → Bool
is_followed name =
    name == "stable"
    || name == "beta"
    || name == "alpha"
    || name == "edge"
    || starts_with_text "lts-" name

abbrev followed : Channel → Followed
followed c = record {
  name = c.name;
  arch = c.arch;
  channel_id = c.id;
  version = elim c.pkg [ none ↦ "766.0.0" | some p ↦ p.version ];
}

-- A descriptor is followed once; the last channel with it counts.
unfoldable pub put_followed : Followed → List Followed → List Followed
put_followed f [] = f ∷ []
put_followed f (g ∷ l) =
    let rest = g ∷ put_followed f l in if g.name == f.name && eqb g.arch f.arch then f ∷ l else rest

unfoldable pub follow : List Followed → List Channel → List Followed
unfolding is_followed put_followed
follow fs [] = fs
follow fs (c ∷ l) = follow (if is_followed c.name then put_followed (followed c) fs else fs) l

-- `initialize`.
unfoldable pub initialize : Action (List Followed)
unfolding follow
initialize = do app ← get_app flatcar_app_id; pure (follow [] app.channels)

abbrev pub is_ok : UpdateStatus → Bool
is_ok update_ok = true
is_ok no_update = false
is_ok update_internal_error = false

abbrev pub has_manifests : UpdateResponse → Bool
has_manifests u = elim u.manifests [ [] ↦ false | m ∷ l ↦ true ]

abbrev pub with_version : Followed → Option String → Followed
with_version f none = f
with_version f (some v) = record f { version = v }

-- The followed channels after a check, and the error that ended it.
abbrev pub Outcome : Type 0
Outcome = List Followed × Option Error

module _ (set : Settings) (o : Outside) (gen : Generators) where
  -- What upstream answers for a channel at a version: a failed request, or an update check that may
  -- be missing, at which Go panics.
  unfoldable pub handle_answer : Followed → Option (Option UpdateResponse) → Action (Option String)
  handle_answer f none = raise unnamed
  handle_answer f (some none) = raise go_panic
  handle_answer f (some (some u)) =
      if is_ok u.status && has_manifests u
      then process_update set o gen f.channel_id f.arch u
      else pure none

  unfoldable pub and_then :
      Followed → List Followed → Result Error (Option String) → Action Outcome → Action Outcome
  and_then f l (err e) rest = pure (f ∷ l, some e)
  and_then f l (ok v) rest = do more ← rest; pure (with_version f v ∷ more.0, more.1)

  -- `checkForUpdates`; the first error ends the round.
  unfoldable pub check_for_updates :
      (Followed → Option (Option UpdateResponse)) → List Followed → Action Outcome
  unfolding handle_answer and_then
  check_for_updates request [] = pure ([], none)
  check_for_updates request (f ∷ l) = do
    r ← try (handle_answer f (request f))
    and_then f l r (check_for_updates request l)
