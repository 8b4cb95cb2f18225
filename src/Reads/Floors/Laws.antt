-- ===== src/Reads/Floors/Laws.antt =====
-- `GetRequiredChannelFloors`: which floors it returns, and which comes first.
use mathlib.Core.Path.{subst}
use mathlib.Core.Option.{some-injective, none-ne-some}
use nebraska.Base.{
  ℕ, zero, suc, ◌≤◌, String, ◌≡◌, refl, sym, ◌∙◌, true, false, Option, none, some, List, [], ◌∷◌,
  take, In,
}
use nebraska.Base.{arith, ◌&&◌, not, Bool-cases, Option-cases, inl, inr, ◌==◌, eq_refl}
use nebraska.Types.{Package}
use nebraska.Db.{World, FloorRow, find}
use nebraska.Reads.Outside.{Outside}
use nebraska.Reads.Floors.{
  array_lt, Keyed, insert_keyed, sort_keyed, between, packages_of, floor_package, add_floor,
  keyed_floors, required_floors, max_floors,
}
use nebraska.Reads.Floors.Order.{LeastHead, sort_least, between-In}

module _ (o : Outside) where
  -- Each package stands with the array of its version.
  abbrev pub AllKeyed : List Keyed → Type 0
  AllKeyed [] = Unit
  AllKeyed (a ∷ l) = (o.int_array a.1.version ≡ some a.0) × AllKeyed l

  between-AllKeyed :
      (above up_to : List ℕ) (l : List Keyed) → AllKeyed l → AllKeyed (between above up_to l)
  unfolding between
  between-AllKeyed above up_to [] h = tt
  between-AllKeyed above up_to (a ∷ l) h =
      elim (Bool-cases (array_lt above a.0 && not (array_lt up_to a.0))) [
        | inl inside ↦ rw inside (h.0, between-AllKeyed above up_to l h.1)
        | inr outside ↦ rw outside (between-AllKeyed above up_to l h.1)
      ]

  insert-AllKeyed :
      (a : Keyed) (l : List Keyed)
      → o.int_array a.1.version ≡ some a.0
      → AllKeyed l
      → AllKeyed (insert_keyed a l)
  unfolding insert_keyed
  insert-AllKeyed a [] k h = (k, tt)
  insert-AllKeyed a (b ∷ l) k h = elim (Bool-cases (array_lt b.0 a.0)) [
    | inl below ↦ rw below (h.0, insert-AllKeyed a l k h.1)
    | inr above ↦ rw above (k, h)
  ]

  sort-AllKeyed : (l : List Keyed) → AllKeyed l → AllKeyed (sort_keyed l)
  unfolding sort_keyed
  sort-AllKeyed [] h = tt
  sort-AllKeyed (a ∷ l) h = insert-AllKeyed a (sort_keyed l) h.0 (sort-AllKeyed l h.1)

  abbrev pub IfRead : (List Keyed → Type 0) → Option (List Keyed) → Type 0
  IfRead P none = Unit
  IfRead P (some l) = P l

  add-AllKeyed :
      (f : FloorRow) (p : Package) (k : Option (List ℕ)) (rest : Option (List Keyed))
      → o.int_array p.version ≡ k
      → IfRead AllKeyed rest
      → IfRead AllKeyed (add_floor f p k rest)
  add-AllKeyed f p none rest e h = tt
  add-AllKeyed f p (some key) none e h = tt
  add-AllKeyed f p (some key) (some l) e h = (e, h)

  add-In :
      (f : FloorRow) (p : Package) (k : Option (List ℕ)) (rest : Option (List Keyed)) (a : Keyed)
      → IfRead (In a) rest
      → IfRead (In a) (add_floor f p k rest)
  add-In f p none rest a h = tt
  add-In f p (some key) none a h = tt
  add-In f p (some key) (some l) a h = inr h

  add-head :
      (f : FloorRow) (p : Package) (key : List ℕ) (rest : Option (List Keyed))
      → IfRead (In (key, floor_package f p)) (add_floor f p (some key) rest)
  add-head f p key none = tt
  add-head f p key (some l) = inl refl

  module _ (c : String) (packages : List Package) where
    pub keyed-AllKeyed : (rows : List FloorRow) → IfRead AllKeyed (keyed_floors o c packages rows)
    unfolding keyed_floors
    keyed-AllKeyed [] = tt
    keyed-AllKeyed (f ∷ rows) = elim (Bool-cases (f.channel_id == c)) [
      | inr other ↦ rw other (keyed-AllKeyed rows)
      | inl ours ↦ rw ours (elim (Option-cases (find (λ p. p.id == f.package_id) packages)) [
        | inl gone ↦ rw gone (keyed-AllKeyed rows)
        | inr (p, there) ↦ rw there (
            add-AllKeyed f p (o.int_array p.version) (keyed_floors o c packages rows) refl
              (keyed-AllKeyed rows))
      ])
    ]

    keyed-head :
        (rows : List FloorRow) (f : FloorRow) (q : Package) (k : List ℕ)
        → f.channel_id ≡ c
        → find (λ p. p.id == f.package_id) packages ≡ some q
        → o.int_array q.version ≡ some k
        → IfRead (In (k, floor_package f q)) (keyed_floors o c packages (f ∷ rows))
    unfolding keyed_floors
    keyed-head rows f q k on there key =
        rw on (rw (eq_refl c) (rw there (rw key (add-head f q k (keyed_floors o c packages rows)))))

    keyed-In :
        (rows : List FloorRow) (f : FloorRow) (q : Package) (k : List ℕ)
        → In f rows
        → f.channel_id ≡ c
        → find (λ p. p.id == f.package_id) packages ≡ some q
        → o.int_array q.version ≡ some k
        → IfRead (In (k, floor_package f q)) (keyed_floors o c packages rows)
    unfolding keyed_floors
    keyed-In [] f q k i on there key = absurd i
    keyed-In (g ∷ rows) f q k (inl e) on there key =
        subst
          (λ (x : FloorRow).
            IfRead (In (k, floor_package f q)) (keyed_floors o c packages (x ∷ rows)))
          e (keyed-head rows f q k on there key)
    keyed-In (g ∷ rows) f q k (inr i) on there key = elim (Bool-cases (g.channel_id == c)) [
      | inr other ↦ rw other (keyed-In rows f q k i on there key)
      | inl ours ↦ rw ours (elim (Option-cases (find (λ p. p.id == g.package_id) packages)) [
        | inl gone ↦ rw gone (keyed-In rows f q k i on there key)
        | inr (p, found) ↦ rw found (
            add-In g p (o.int_array p.version) (keyed_floors o c packages rows) _
              (keyed-In rows f q k i on there key))
      ])
    ]

  -- A floor of the channel that lies between two versions, with the array of its version.
  pub record IsRequired (c iv tv : String) (w : World) (k : List ℕ) : Type 0 where
    pub floor : FloorRow
    pub pkg : Package
    pub above : List ℕ
    pub up_to : List ℕ
    pub member : In floor w.floors
    pub of_channel : floor.channel_id ≡ c
    pub found : find (λ p. p.id == floor.package_id) w.packages ≡ some pkg
    pub keyed : o.int_array pkg.version ≡ some k
    pub from : o.int_array iv ≡ some above
    pub to : o.int_array tv ≡ some up_to
    pub later : array_lt above k ≡ true
    pub within : array_lt up_to k ≡ false

  -- Where a floor is required, the floors that are returned begin with one that is no later.
  abbrev pub BeginsBy : List ℕ → List Package → Type 0
  BeginsBy k [] = ⊥
  BeginsBy k (p ∷ l) =
      (key : List ℕ) × (o.int_array p.version ≡ some key) × (array_lt k key ≡ false)

  begins :
      (l : List Keyed) (n : ℕ) (b : Keyed) (s : List Keyed)
      → LeastHead l s
      → AllKeyed s
      → In b l
      → 1 ≤ n
      → BeginsBy b.0 (packages_of (take n s))
  unfolding packages_of
  begins l zero b s least all i some_room = omega arith
  begins l (suc n) b [] least all i some_room = least b i
  begins l (suc n) b (m ∷ s) least all i some_room = (m.0, all.0, least b i)

  max_floors-pos : 1 ≤ max_floors o
  unfolding max_floors
  max_floors-pos = ground arith

  pub read_keys :
      (c iv tv : String) (w : World) (above up_to : List ℕ)
      → o.int_array iv ≡ some above
      → o.int_array tv ≡ some up_to
      → required_floors o c iv tv w ≡ elim (keyed_floors o c w.packages w.floors) [
        | none ↦ none
        | some l ↦ some (packages_of (take (max_floors o) (sort_keyed (between above up_to l))))
      ]
  unfolding required_floors
  read_keys c iv tv w above up_to from to = rw (required_floors, from, to) refl

  selected :
      (c iv tv : String) (w : World) (k above up_to : List ℕ) {l : List Package}
      (m : Option (List Keyed))
      → (elim m [
        | none ↦ none
        | some keyed ↦
            some (packages_of (take (max_floors o) (sort_keyed (between above up_to keyed))))
      ])
        ≡ some l
      → IfRead AllKeyed m
      → (q : Package) → IfRead (In (k, q)) m
      → array_lt above k ≡ true
      → array_lt up_to k ≡ false
      → BeginsBy k l
  selected c iv tv w k above up_to none e all q i after upto = absurd (none-ne-some _ e)
  selected c iv tv w k above up_to (some m) e all q i after upto =
      let inside = between above up_to m in
      subst (BeginsBy k) (some-injective _ _ e) (
        begins inside (max_floors o) (k, q) (sort_keyed inside) (sort_least inside)
          (sort-AllKeyed inside (between-AllKeyed above up_to m all))
          (between-In above up_to m (k, q) i after upto) max_floors-pos)

  -- Where the query succeeds and a floor of the channel lies above the instance's version and not above
  -- the target's, the query selects at least one package, and the first one is no later than that floor.
  pub no_floor_skipped :
      (c iv tv : String) (w : World) (k : List ℕ) {l : List Package}
      → required_floors o c iv tv w ≡ some l
      → IsRequired c iv tv w k
      → BeginsBy k l
  no_floor_skipped c iv tv w k e r =
      selected c iv tv w k r.above r.up_to (keyed_floors o c w.packages w.floors)
        (sym (read_keys c iv tv w r.above r.up_to r.from r.to) ∙ e)
        (keyed-AllKeyed c w.packages w.floors) (floor_package r.floor r.pkg)
        (keyed-In c w.packages w.floors r.floor r.pkg k r.member r.of_channel r.found r.keyed)
        r.later r.within
