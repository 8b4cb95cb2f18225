-- ===== src/Syncer/Updates/Targets.antt =====
-- The version that a channel tracks after an update from upstream.
use mathlib.Core.Path.{subst}
use mathlib.Core.Option.{none-ne-some, some-injective}
use nebraska.Base.{
  ℕ, String, ◌≡◌, sym, refl, ◌∙◌, Bool, true, false, Option, none, some, List, [], ◌∷◌, ◌⊎◌, inl,
  inr,
}
use nebraska.Base.{In, eq_iff, ◌==◌, if◌then◌else◌, Bool-cases}
use nebraska.Base.Exec.{ok}
use nebraska.Types.{Package}
use nebraska.Db.{World}
use nebraska.Db.Settles.{Gives, Gives-pure, Gives-raise, Gives-bind, Gives-after}
use nebraska.Reads.Outside.{Outside}
use nebraska.Omaha.Messages.{Manifest, UpdateResponse}
use nebraska.Admin.Rows.{Generators}
use nebraska.Syncer.Packages.{Settings}
use nebraska.Syncer.Packages.Versions.{IsOf, get_or_create_package-Gives}
use nebraska.Syncer.Updates.Moves.{PointsToVersion, process_update-Tracks}
use nebraska.Syncer.Updates.{
  move_channel, update_channel_to_package, process_manifests, process_multi_manifest_update,
  process_single_manifest_update, process_manifests_of, process_update, last_plain, marked_target,
  target_version, tracked,
}

-- What the loop found to track, if anything: a package of the version that it is after.
abbrev IsTracked : String → Option Package → Type 0
IsTracked v t = (p : Package) → t ≡ some p → IsOf v p × ((v == "") ≡ false)

tracked-IsTracked :
    (m : Manifest) (v : String) (p : Package) (t : Option Package)
    → IsOf m.version p
    → IsTracked v t
    → IsTracked v (tracked m v p t)
tracked-IsTracked m v p t h k = elim (Bool-cases (v == "")) [
  | inl empty ↦ λ q e. k q (rw empty at e)
  | inr full ↦ elim (Bool-cases (m.version == v)) [
    | inl same ↦ λ q e. (
      subst (IsOf v) (some-injective _ _ (rw (full, same) at e)) (h ∙ (eq_iff m.version v).0 same),
      full,
    )
    | inr other ↦ λ q e. k q (rw (full, other) at e)
  ]
]

module _ (set : Settings) (o : Outside) (gen : Generators) (u : UpdateResponse) (c : String)
    (arch : ℕ) where
  process_manifests-Gives :
      (v : String) (ms : List Manifest) (t : Option Package)
      → IsTracked v t
      → Gives (IsTracked v) (process_manifests set o gen c arch u v t ms)
  unfolding process_manifests
  process_manifests-Gives v [] t k = Gives-pure k
  process_manifests-Gives v (m ∷ ms) t k =
      Gives-after _ _ (get_or_create_package-Gives set o gen m u arch)
        λ p h. Gives-bind _ _ λ z. process_manifests-Gives v ms _ (tracked-IsTracked m v p t h k)

  update_channel_to_package-Gives :
      (p : Package) → Gives (λ v. p.version ≡ v) (update_channel_to_package c p)
  unfolding update_channel_to_package
  update_channel_to_package-Gives p = Gives-bind _ _ λ r. Gives-bind _ _ λ z. Gives-pure refl

  move_channel-Gives :
      (Q : String → Type 0) (t : Option Package)
      → ((p : Package) → t ≡ some p → Q p.version)
      → Gives (λ r. (x : String) → r ≡ some x → Q x) (move_channel c t)
  unfolding move_channel
  move_channel-Gives Q none k = Gives-pure λ x e. absurd (none-ne-some _ e)
  move_channel-Gives Q (some p) k =
      Gives-after _ _ (update_channel_to_package-Gives p)
        λ v h. Gives-pure λ x e. subst Q (h ∙ some-injective _ _ e) (k p refl)

abbrev pub NoTarget : List Manifest → Type 0
NoTarget l = (n : Manifest) → In n l → n.is_target ≡ false

if_some :
    (b : Bool) {n m : Manifest} {r : Option Manifest}
    → (if b then some n else r) ≡ some m
    → ((b ≡ true) × (n ≡ m)) ⊎ (r ≡ some m)
if_some true h = inl (refl, some-injective _ _ h)
if_some false h = inr h

last_case :
    (r : Option Manifest) (b : Bool) {n m : Manifest}
    → elim r [ some x ↦ some x | none ↦ if b then none else some n ] ≡ some m
    → (r ≡ some m) ⊎ ((b ≡ false) × (n ≡ m))
last_case (some x) b h = inl h
last_case none true h = absurd (none-ne-some _ h)
last_case none false h = inr (refl, some-injective _ _ h)

pub marked_target-IsTarget :
    (l : List Manifest) {m : Manifest} → marked_target l ≡ some m → In m l × (m.is_target ≡ true)
unfolding marked_target
marked_target-IsTarget [] h = absurd (none-ne-some _ h)
marked_target-IsTarget (n ∷ l) h = elim (if_some n.is_target h) [
  | inl (t, e) ↦ (inl (sym e), subst (λ x. x.is_target ≡ true) e t)
  | inr r ↦ let (i, t) = marked_target-IsTarget l r in (inr i, t)
]

pub marked_target-NoTarget : (l : List Manifest) → marked_target l ≡ none → NoTarget l
unfolding marked_target
marked_target-NoTarget [] h n i = absurd i
marked_target-NoTarget (m ∷ l) h n i = elim (Bool-cases m.is_target) [
  | inl here ↦ absurd (none-ne-some _ (sym (rw here at h)))
  | inr there ↦ elim i [
    | inl e ↦ subst (λ x. x.is_target ≡ false) (sym e) there
    | inr j ↦ marked_target-NoTarget l (rw there at h) n j
  ]
]

pub last_plain-In :
    (l : List Manifest) {m : Manifest} → last_plain l ≡ some m → In m l × (m.is_floor ≡ false)
unfolding last_plain
last_plain-In [] h = absurd (none-ne-some _ h)
last_plain-In (n ∷ l) h = elim (last_case (last_plain l) n.is_floor h) [
  | inl r ↦ let (i, f) = last_plain-In l r in (inr i, f)
  | inr (f, e) ↦ (inl (sym e), subst (λ x. x.is_floor ≡ false) e f)
]

-- A manifest of the list that is marked as the target or, where none is, is no floor.
abbrev pub IsTarget : List Manifest → Manifest → Type 0
IsTarget l m = In m l × ((m.is_target ≡ true) ⊎ ((m.is_floor ≡ false) × NoTarget l))

named :
    (l : List Manifest) (a b : Option Manifest)
    → marked_target l ≡ a
    → last_plain l ≡ b
    → ((elim a [ some m ↦ m.version | none ↦ elim b [ some m ↦ m.version | none ↦ "" ] ]) == "")
      ≡ false
    → (m : Manifest) × (m.version
        ≡ elim a [ some m ↦ m.version | none ↦ elim b [ some m ↦ m.version | none ↦ "" ] ])
      × IsTarget l m
named l (some m) b e f h = let (i, t) = marked_target-IsTarget l e in (m, refl, (i, inl t))
named l none (some m) e f h =
    let (i, t) = last_plain-In l f in (m, refl, (i, inr (t, marked_target-NoTarget l e)))
named l none none e f h = absurd (cc)

target_version-IsTarget :
    (l : List Manifest)
    → (target_version l == "") ≡ false
    → (m : Manifest) × (m.version ≡ target_version l) × IsTarget l m
unfolding target_version
target_version-IsTarget l h = named l (marked_target l) (last_plain l) refl refl h

-- The version of the only manifest, or of a target.
abbrev pub IsChosen : List Manifest → String → Type 0
IsChosen l v = (m : Manifest) × (m.version ≡ v) × ((l ≡ m ∷ []) ⊎ IsTarget l m)

module _ (set : Settings) (o : Outside) (gen : Generators) (u : UpdateResponse) (c : String)
    (arch : ℕ) where
  single-Gives :
      (m : Manifest)
      → Gives
          (λ r. (x : String) → r ≡ some x → x ≡ m.version)
          (process_single_manifest_update set o gen c arch m u)
  unfolding process_single_manifest_update
  single-Gives m = Gives-after _ _ (get_or_create_package-Gives set o gen m u arch) λ p h.
      move_channel-Gives set o gen u c arch (λ x. x ≡ m.version) (some p)
        λ q e. subst (λ (p : Package). p.version ≡ m.version) (some-injective _ _ e) h

  multi-Gives :
      Gives
        (λ r. (x : String) → r ≡ some x → (m : Manifest) × (m.version ≡ x) × IsTarget u.manifests m)
        (process_multi_manifest_update set o gen c arch u)
  unfolding process_multi_manifest_update
  multi-Gives =
      Gives-after _ _
        (process_manifests-Gives set o gen u c arch _ u.manifests none
          (λ p e. absurd (none-ne-some _ e)))
        λ t k. move_channel-Gives set o gen u c arch _ t λ p e.
          let (v, full) = k p e in
          let (m, same, target) = target_version-IsTarget u.manifests full in
          (m, same ∙ sym v, target)

  manifests-Gives :
      (l : List Manifest)
      → u.manifests ≡ l
      → Gives
          (λ r. (x : String) → r ≡ some x → IsChosen l x)
          (process_manifests_of set o gen c arch u l)
  unfolding process_manifests_of
  manifests-Gives [] e = Gives-raise _
  manifests-Gives (m ∷ []) e = record {
    at = λ w w' h x r. (m, sym ((single-Gives m).at w w' h x r), inl refl);
  }
  manifests-Gives (m ∷ n ∷ l) e = record {
    at = λ w w' h x r.
        let (k, same, target) = multi-Gives.at w w' h x r in
        (k, same, inr (subst (λ ms. IsTarget ms k) e target));
  }

-- Where an update returns a version, it is that of its only manifest or, where there are several, of
-- one that is marked as the target or, where none is, of one that is no floor; and the channel is
-- there, and points to the id of a package in the tables that has this version.
pub process_update-IsChosen :
    (set : Settings) (o : Outside) (gen : Generators) (c : String) (arch : ℕ) (u : UpdateResponse)
    (w w' : World) (v : String)
    → process_update set o gen c arch u w ≡ (ok (some v), w')
    → IsChosen u.manifests v × PointsToVersion c v w'
unfolding process_update
process_update-IsChosen set o gen c arch u w w' v h = (
  (manifests-Gives set o gen u c arch u.manifests refl).at w w' h v refl,
  process_update-Tracks set o gen u c arch w w' v h,
)
