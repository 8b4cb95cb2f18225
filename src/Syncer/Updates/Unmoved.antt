-- ===== src/Syncer/Updates/Unmoved.antt =====
-- An update that is processed and moves no channel.
use mathlib.Core.Option.{none-ne-some}
use nebraska.Base.{
  ℕ, String, ◌≡◌, ◌≢◌, refl, sym, ap, ◌∙◌, Bool, true, false, Option, none, some, List, [], ◌∷◌,
  ◌⊎◌, inl, inr, In, arith,
}
use nebraska.Base.{◌==◌, Bool-cases, eq_iff, if◌then◌else◌}
use nebraska.Base.Exec.{ok}
use nebraska.Types.{Package}
use nebraska.Db.{World}
use nebraska.Db.Settles.{Gives, Gives-pure, Gives-bind, Gives-after}
use nebraska.Reads.Outside.{Outside}
use nebraska.Omaha.Messages.{Manifest, UpdateResponse}
use nebraska.Admin.Rows.{Generators}
use nebraska.Syncer.Packages.{Settings}
use nebraska.Syncer.Updates.{
  move_channel, process_manifests, process_multi_manifest_update, process_single_manifest_update,
  process_manifests_of, process_update, last_plain, marked_target, target_version, tracked,
}
use nebraska.Syncer.Updates.Floors.{OnlyFloors}
use nebraska.Syncer.Updates.Targets.{marked_target-NoTarget, marked_target-IsTarget, last_plain-In}

-- A manifest of the version is still to come, or a package is there.
abbrev Coming : String → List Manifest → Option Package → Type 0
Coming v l t = ((m : Manifest) × In m l × (m.version ≡ v)) ⊎ (t ≢ none)

some-there : {A : Type 0} {a : A} → some a ≢ none
some-there e = none-ne-some _ (sym e)

tracked-Coming :
    (m : Manifest) (v : String) (p : Package) (t : Option Package) (l : List Manifest)
    → (v == "") ≡ false
    → Coming v (m ∷ l) t
    → Coming v l (tracked m v p t)
tracked-Coming m v p t l full h = elim (Bool-cases (m.version == v)) [
  | inl same ↦ inr (rw (full, same) some-there)
  | inr other ↦ elim h [
    | inl c ↦
        let (n, i, e) = c in
        elim i [
          | inl this ↦
              absurd (
                ground (arith, other, eq_iff m.version v, e, ap (λ (x : Manifest). x.version) this))
          | inr j ↦ inl (n, j, e)
        ]
    | inr there ↦ inr (rw (full, other) there)
  ]
]

module _ (set : Settings) (o : Outside) (gen : Generators) (u : UpdateResponse) (c : String)
    (arch : ℕ) where
  process_manifests-Coming :
      (v : String) (ms : List Manifest) (t : Option Package)
      → (v == "") ≡ false
      → Coming v ms t
      → Gives (λ r. r ≢ none) (process_manifests set o gen c arch u v t ms)
  unfolding process_manifests
  process_manifests-Coming v [] t full (inl (m, i, e)) = absurd i
  process_manifests-Coming v [] t full (inr there) = Gives-pure there
  process_manifests-Coming v (m ∷ ms) t full h = Gives-bind _ _ λ p.
      Gives-bind _ _ λ z. process_manifests-Coming v ms _ full (tracked-Coming m v p t ms full h)

  moved_returns : (t : Option Package) → t ≢ none → Gives (λ r. r ≢ none) (move_channel c t)
  unfolding move_channel
  moved_returns none h = absurd (h refl)
  moved_returns (some p) h = Gives-bind _ _ λ v. Gives-pure some-there

last_none :
    (r : Option Manifest) (b : Bool) (n : Manifest)
    → elim r [ some x ↦ some x | none ↦ if b then none else some n ] ≡ none
    → (r ≡ none) × (b ≡ true)
last_none (some x) b n h = absurd (some-there h)
last_none none true n h = (refl, refl)
last_none none false n h = absurd (some-there h)

last_plain-none :
    (l : List Manifest) → last_plain l ≡ none → (m : Manifest) → In m l → m.is_floor ≡ true
unfolding last_plain
last_plain-none [] h m i = absurd i
last_plain-none (n ∷ l) h m (inl e) =
    ap (λ (x : Manifest). x.is_floor) e ∙ (last_none (last_plain l) n.is_floor n h).1
last_plain-none (n ∷ l) h m (inr i) =
    last_plain-none l (last_none (last_plain l) n.is_floor n h).0 m i

named_or_floors :
    (l : List Manifest) (a b : Option Manifest)
    → marked_target l ≡ a
    → last_plain l ≡ b
    → OnlyFloors l
      ⊎ ((m : Manifest) × In m l
          × (m.version
              ≡ elim a [ some m ↦ m.version | none ↦ elim b [ some m ↦ m.version | none ↦ "" ] ]))
named_or_floors l (some m) b e f = inr (m, (marked_target-IsTarget l e).0, refl)
named_or_floors l none (some m) e f = inr (m, (last_plain-In l f).0, refl)
named_or_floors l none none e f =
    inl λ m i. (last_plain-none l f m i, marked_target-NoTarget l e m i)

target_or_floors :
    (l : List Manifest) → OnlyFloors l ⊎ ((m : Manifest) × In m l × (m.version ≡ target_version l))
unfolding target_version
target_or_floors l = named_or_floors l (marked_target l) (last_plain l) refl refl

module _ (set : Settings) (o : Outside) (gen : Generators) (u : UpdateResponse) (c : String)
    (arch : ℕ) where
  multi_moves :
      (m : Manifest)
      → In m u.manifests
      → m.version ≢ ""
      → m.version ≡ target_version u.manifests
      → Gives (λ r. r ≢ none) (process_multi_manifest_update set o gen c arch u)
  unfolding process_multi_manifest_update
  multi_moves m i full e =
      Gives-after _ _
        (process_manifests-Coming set o gen u c arch (target_version u.manifests) u.manifests none
          (ground (arith, full, e, eq_iff (target_version u.manifests) "")) (inl (m, i, e)))
        λ t there. moved_returns set o gen u c arch t there

  unmoved_list :
      (l : List Manifest) (w w' : World)
      → u.manifests ≡ l
      → ((m : Manifest) → In m u.manifests → m.version ≢ "")
      → process_manifests_of set o gen c arch u l w ≡ (ok none, w')
      → OnlyFloors u.manifests
  unfolding process_manifests_of process_single_manifest_update
  unmoved_list [] w w' same full h = absurd (cc)
  unmoved_list (m ∷ []) w w' same full h =
      let moves : Gives (λ r. r ≢ none) (process_single_manifest_update set o gen c arch m u) =
        Gives-bind _ _ λ p. moved_returns set o gen u c arch (some p) some-there in
      absurd (moves.at w w' h refl)
  unmoved_list (m ∷ n ∷ l) w w' same full h = elim (target_or_floors u.manifests) [
    | inl floors ↦ floors
    | inr (k, i, e) ↦ absurd ((multi_moves k i (full k i) e).at w w' h refl)
  ]

  -- An update that returns no version, none of its manifests being without one, has only floors.
  pub process_update-unmoved :
      (w w' : World)
      → ((m : Manifest) → In m u.manifests → m.version ≢ "")
      → process_update set o gen c arch u w ≡ (ok none, w')
      → OnlyFloors u.manifests
  unfolding process_update
  process_update-unmoved w w' full h = unmoved_list u.manifests w w' refl full h
