-- ===== src/Syncer/Rounds.antt =====
-- What a round of the syncer makes of the channels that it follows.
use nebraska.Base.{String, ◌≡◌, Option, none, some, List, [], ◌∷◌, ◌⊎◌}
use nebraska.Base.{◌&&◌, false, In, ◌≢◌}
use nebraska.Reads.Outside.{Outside}
use nebraska.Omaha.Messages.{Manifest, UpdateResponse}
use nebraska.Syncer.Updates.Targets.{IsChosen}
use nebraska.Syncer.Updates.Floors.{OnlyFloors}
use nebraska.Syncer.Checks.{Followed, Outcome, is_ok, has_manifests}

abbrev pub Answer : Type 0
Answer = Option (Option UpdateResponse)

-- The version of an update that was answered.
abbrev IsOffered : Answer → String → Type 0
IsOffered a v = (u : UpdateResponse) × (a ≡ some (some u)) × IsChosen u.manifests v

-- An answer that moves no channel: it offers no update, or, if each of its manifests has a version,
-- floors only.
abbrev IsIdle : Answer → Type 0
IsIdle a =
    (u : UpdateResponse) × (a ≡ some (some u))
    × ((is_ok u.status && has_manifests u ≡ false)
        ⊎ (((m : Manifest) → In m u.manifests → m.version ≢ "") → OnlyFloors u.manifests))

-- The same channel, with the version that was offered or, if none was, with its old one.
abbrev IsAfter : Answer → Followed → Followed → Type 0
IsAfter a f g =
    (g.name ≡ f.name)
    × (g.arch ≡ f.arch)
    × (g.channel_id ≡ f.channel_id)
    × (IsOffered a g.version ⊎ (IsIdle a × (g.version ≡ f.version)))

abbrev pub AreAfter : (Followed → Answer) → List Followed → List Followed → Type 0
AreAfter request [] [] = Unit
AreAfter request [] (g ∷ k) = ⊥
AreAfter request (f ∷ l) [] = ⊥
AreAfter request (f ∷ l) (g ∷ k) = IsAfter (request f) f g × AreAfter request l k

-- What a round that ends without an error leads to.
abbrev Ended : (Followed → Answer) → List Followed → Outcome → Type 0
Ended request l out = out.1 ≡ none → AreAfter request l out.0
