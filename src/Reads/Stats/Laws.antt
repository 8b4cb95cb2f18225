-- ===== src/Reads/Stats/Laws.antt =====
-- How the numbers of `GetGroupUpdatesStats` relate to one another.
use nebraska.Base.{◌+◌, ◌≤◌, ◌≡◌, refl, Bool, List, [], ◌∷◌}
use nebraska.Base.{
  String, Bool-cases, In, inl, inr, ◌≢◌, some, true, false, sym, ap, ◌∙◌, eq_iff, eq_refl, ◌==◌,
  ◌&&◌, not, arith, if◌then◌else◌,
}
use nebraska.Types.{Group, Channel, Package, InstanceApplication, UpdatesStats}
use nebraska.Db.{World, select, count_where}
use nebraska.Reads.Outside.{Outside}
use nebraska.Db.Finds.{In-count}
use nebraska.Reads.Instances.{checked_lately}
use nebraska.Reads.Stats.{counted, current_version, updates_to, updates_stats}

module _ {A : Type 0} (p q r : A → Bool) where
  -- Two tests that split a third one count as many as it does.
  count_where-split :
      ((a : A) → (if p a then 1 else 0) + (if q a then 1 else 0) ≡ (if r a then 1 else 0))
      → (l : List A) → count_where p l + count_where q l ≡ count_where r l
  unfolding count_where
  count_where-split h [] = omega arith
  count_where-split h (a ∷ l) = omega (arith, h a, count_where-split h l)

module _ {A : Type 0} (p q : A → Bool) where
  count_where-le :
      ((a : A) → p a ≡ true → q a ≡ true) → (l : List A) → count_where p l ≤ count_where q l
  unfolding count_where
  count_where-le h [] = omega arith
  count_where-le h (a ∷ l) = ground (arith, h a, count_where-le h l)

module _ {A : Type 0} where
  kept_by : (p : A → Bool) (l : List A) {a : A} → In a l → p a ≡ true → In a (select p l)
  unfolding select
  kept_by p [] i h = absurd i
  kept_by p (x ∷ l) (inl e) h = let here : p x ≡ true = ap p (sym e) ∙ h in rw here (inl e)
  kept_by p (x ∷ l) (inr i) h = elim (Bool-cases (p x)) [
    | inl here ↦ rw here (inr (kept_by p l i h))
    | inr there ↦ rw there (kept_by p l i h)
  ]

-- A row that the statistics of a group count: of the group, checked lately, and of no fake instance.
pub record IsCounted (o : Outside) (g : Group) (w : World) (a : InstanceApplication) : Type 0 where
  pub row : In a w.instance_apps
  pub group : a.group_id ≡ some g.id
  pub lately : checked_lately w.now a ≡ true
  pub real : o.is_fake a.instance_id ≡ false

-- The last update of the instance, which has ended, was to this version.
abbrev pub HasEnded : String → InstanceApplication → Type 0
HasEnded v a = (a.update_in_progress ≡ false) × (a.last_update_version ≡ some v)

-- What the group's channel offers.
abbrev pub Offers : Group → String → Type 0
Offers g v =
    (c : Channel) × (p : Package) × (g.channel ≡ some c) × (c.pkg ≡ some p) × (p.version ≡ v)

module _ (o : Outside) (g : Group) (w : World) (v : String) (offers : Offers g v) where
  current_lem : current_version g ≡ v
  unfolding current_version
  current_lem = let (c, p, channel, pkg, same) = offers in rw channel (rw pkg same)

  counted_row :
      (a : InstanceApplication)
      → IsCounted o g w a
      → In a (select (counted o g w.now) w.instance_apps)
  unfolding counted
  counted_row a h =
      kept_by _ w.instance_apps h.row (rw (h.group, eq_refl g.id, h.lately, h.real) refl)

  updates_lem : (a : InstanceApplication) (u : String) → HasEnded v a → updates_to u a ≡ (v == u)
  updates_lem a u h = rw (h.1) refl

  none_failed :
      (a : InstanceApplication)
      → HasEnded v a
      → (not a.update_in_progress
          && (updates_to (current_version g) a && not (updates_to a.version a)))
        ≡ false
      → a.version ≡ v
  none_failed a h n = sym (
      (eq_iff v a.version).0 (
        ground (
          arith,
          n,
          h.0,
          updates_lem a (current_version g) h,
          updates_lem a a.version h,
          eq_refl v,
          ap (λ u. v == u) current_lem,
        )))

  none_succeeded :
      (a : InstanceApplication)
      → HasEnded v a
      → (not a.update_in_progress && (updates_to (current_version g) a && updates_to a.version a))
        ≡ false
      → a.version ≢ v
  none_succeeded a h n same = ground (
    arith,
    n,
    h.0,
    updates_lem a (current_version g) h,
    updates_lem a a.version h,
    eq_refl v,
    ap (λ u. v == u) current_lem,
    ap (λ u. v == u) same,
  )

-- The statistics of a group whose channel offers a version: of the counted instances whose update to
-- it has ended, each either succeeded or failed; no more have ended than were granted, and no more
-- were granted than there are instances. If none failed, then every one of the group that was checked
-- lately, is not fake and has ended an update to that version runs it; if none succeeded, then none
-- does.
pub stats_partition :
    (o : Outside) (g : Group) (w : World) (v : String)
    → Offers g v
    → let s : UpdatesStats = updates_stats o g w in
      (s.updates_to_current_version_succeeded + s.updates_to_current_version_failed
        ≡ s.updates_to_current_version_attempted)
      × (s.updates_to_current_version_attempted ≤ s.updates_to_current_version_granted)
      × (s.updates_to_current_version_granted ≤ s.total_instances)
      × (s.updates_to_current_version_failed ≡ 0
          → (a : InstanceApplication) → IsCounted o g w a
          → HasEnded v a
          → a.version ≡ v)
      × (s.updates_to_current_version_succeeded ≡ 0
          → (a : InstanceApplication) → IsCounted o g w a
          → HasEnded v a
          → a.version ≢ v)
unfolding updates_stats
stats_partition o g w v offers = (
  count_where-split _ _ _ (λ a. ground arith) (select (counted o g w.now) w.instance_apps),
  count_where-le _ _ (λ a h. ground arith) (select (counted o g w.now) w.instance_apps),
  count_where-le _ _ (λ a h. refl) (select (counted o g w.now) w.instance_apps),
  λ n a c h. none_failed o g w v offers a h (In-count _ _ n (counted_row o g w v offers a c)),
  λ n a c h. none_succeeded o g w v offers a h (In-count _ _ n (counted_row o g w v offers a c)),
)
