-- ===== src/Admin/Tests.antt =====
-- Edits of the small database of the runtime service's tests, and the theorems at them.
use nebraska.Base.{refl, true, false, none, some, List, [], ◌∷◌, Bool, In, inl, inr}
use nebraska.Types.{Package}
use nebraska.Db.{ChannelRow}
use nebraska.Db.Finds.{find-In}
use nebraska.Admin.Rows.{Generators}
use nebraska.Admin.Consistent.{FitsFor, Consistent}
use nebraska.Admin.Consistent.Service.{
  Edit, channel_updated, floor_added, package_updated, package_deleted, perform_all,
  edits-Consistent,
}
use nebraska.Runtime.Tests.{outside, start, channel, floor}

abbrev pub generators : Generators
generators = record { row_id = λ w. "new"; new_uuid = λ w. "drawn"; file_id = λ w. 7 }

all_fit : (c : ChannelRow) (p : Package) → In c start.channels → In p start.packages → FitsFor c p
unfolding nebraska.Runtime.Updates.contains
all_fit c p (inl e) (inl f) = rw (e, f) (record { arch = refl; app = refl; allowed = refl })
all_fit c p (inl e) (inr (inl f)) = rw (e, f) (record { arch = refl; app = refl; allowed = refl })
all_fit c p (inl e) (inr (inr i)) = absurd i
all_fit c p (inr i) m = absurd i

start-Consistent : Consistent start
start-Consistent = record {
  points = λ k j c p n here to there.
      all_fit c p (find-In _ start.channels here) (find-In _ start.packages there);
  floors = λ f c p m here there.
      all_fit c p (find-In _ start.channels here) (find-In _ start.packages there);
}

-- The channel moves to the floor, which then cannot be kept from it.
abbrev edits : List (Edit × List Bool)
edits =
    (channel_updated (record channel { package_id = some "p2" }), [])
    ∷ (package_updated (record floor { channels_blacklist = "stable" ∷ [] }) none, [])
    ∷ (floor_added "stable" "p3" none, false ∷ true ∷ [])
    ∷ (package_deleted "p3", [])
    ∷ []

edits-Consistent_example : Consistent (perform_all outside generators start edits)
edits-Consistent_example = edits-Consistent outside generators start edits start-Consistent
