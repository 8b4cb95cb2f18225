-- ===== src/Syncer/Tests/Round.antt =====
-- A round of the syncer on the small database, with ids that are longer than every id in it.
use nebraska.Base.{
  ℕ, String, ◌≡◌, refl, ap, true, false, Option, some, List, [], ◌∷◌, map, In, inl, inr,
}
use nebraska.Base.{arith, ◌+◌}
use nebraska.Base.Texts.{text_length}
use nebraska.Types.{text}
use nebraska.Db.{World, ChannelRow, FloorRow}
use nebraska.Db.Finds.{find-In}
use nebraska.Db.Keeps.{quiet}
use nebraska.Admin.Rows.{Generators}
use nebraska.Admin.Consistent.{FitsFor, Consistent}
use nebraska.Admin.Consistent.Additions.{IsFresh}
use nebraska.Types.{Package}
use nebraska.Omaha.Messages.{UpdateResponse}
use nebraska.Runtime.Tests.{outside}
use nebraska.Syncer.Checks.{Followed, check_for_updates}
use nebraska.Syncer.Consistent.{check_for_updates-Consistent}
use nebraska.Syncer.Tests.{settings, manifest, update, flatcar}

abbrev join : String → String → String
join String.[] t = t
join (String.◌∷◌ c s) t = String.◌∷◌ c (join s t)

length-join : (s t : String) → text_length (join s t) ≡ text_length s + text_length t
unfolding text_length
length-join String.[] t = omega (arith)
length-join (String.◌∷◌ c s) t = omega (arith, length-join s t)

abbrev longer : List String → String
longer [] = "x"
longer (s ∷ l) = join s (longer l)

some_excess : (l : List String) → (k : ℕ) × (text_length (longer l) ≡ 1 + k)
unfolding text_length
some_excess [] = (0, refl)
some_excess (s ∷ l) =
    let (k, h) = some_excess l in (text_length s + k, omega (arith, length-join s (longer l), h))

-- How much longer it is.
excess :
    (s : String) (l : List String)
    → In s l
    → (k : ℕ) × (text_length (longer l) ≡ 1 + (text_length s + k))
excess s [] i = absurd i
excess s (r ∷ l) (inl e) =
    let (k, h) = some_excess l in (k, omega (arith, length-join r (longer l), h, ap text_length e))
excess s (r ∷ l) (inr i) =
    let (k, h) = excess s l i in (text_length r + k, omega (arith, length-join r (longer l), h))

In-map : {A : Type 0} (g : A → String) (l : List A) (a : A) → In a l → In (g a) (map g l)
In-map g [] a i = absurd i
In-map g (x ∷ l) a (inl e) = inl (ap g e)
In-map g (x ∷ l) a (inr i) = inr (In-map g l a i)

abbrev pointed : World → List String
pointed w = map (λ (c : ChannelRow). text c.package_id) w.channels

abbrev floored : World → List String
floored w = map (λ (f : FloorRow). f.package_id) w.floors

abbrev growing : Generators
growing = record {
  row_id = λ w. join (longer (pointed w)) (longer (floored w));
  new_uuid = λ w. "drawn";
  file_id = λ w. 7;
}

growing-IsFresh : IsFresh growing
growing-IsFresh w = (
  (λ c m e.
      let (k, h) = excess (text c.package_id) (pointed w) (In-map _ w.channels c m) in
      omega (
        arith,
        h,
        ap (λ p. text_length (text p)) e,
        length-join (longer (pointed w)) (longer (floored w)),
      )),
  (λ f m e.
      let (k, h) = excess f.package_id (floored w) (In-map _ w.floors f m) in
      omega (arith, h, ap text_length e, length-join (longer (pointed w)) (longer (floored w)))),
)

only_fits :
    (c : ChannelRow) (p : Package) → In c flatcar.channels → In p flatcar.packages → FitsFor c p
unfolding nebraska.Runtime.Updates.contains
only_fits c p (inl e) (inl f) = rw (e, f) (record { arch = refl; app = refl; allowed = refl })
only_fits c p (inl e) (inr (inl f)) = rw (e, f) (record { arch = refl; app = refl; allowed = refl })
only_fits c p (inl e) (inr (inr i)) = absurd i
only_fits c p (inr i) m = absurd i

flatcar-Consistent : Consistent flatcar
flatcar-Consistent = record {
  points = λ k j c p n here to there.
      only_fits c p (find-In _ flatcar.channels here) (find-In _ flatcar.packages there);
  floors = λ f c p m here there.
      only_fits c p (find-In _ flatcar.channels here) (find-In _ flatcar.packages there);
}

-- A floor that is there and a target that is new.
abbrev answered : Followed → Option (Option UpdateResponse)
answered f = some (some (update (manifest "2.0.0" true false ∷ manifest "4.0.0" false true ∷ [])))

abbrev followed_channels : List Followed
followed_channels =
    record { name = "stable"; arch = 1; channel_id = "stable"; version = "2.0.0" } ∷ []

check_for_updates-Consistent_example :
    Consistent
      (quiet (check_for_updates settings outside growing answered followed_channels flatcar).1)
check_for_updates-Consistent_example =
    check_for_updates-Consistent settings outside growing answered followed_channels flatcar
      growing-IsFresh flatcar-Consistent
