-- ===== src/Syncer/Updates/Points.antt =====
-- The rows of a channel after it was pointed to a package.
use nebraska.Base.{
  String, ◌≡◌, refl, sym, ap, ◌∙◌, some, List, [], ◌∷◌, In, inl, inr, ◌==◌, Bool-cases, eq_iff,
  arith,
}
use nebraska.Db.{ChannelRow, update_where}
use nebraska.Db.Finds.{In-update}

-- The channel is there, and its rows name the package.
abbrev pub PointsTo : String → String → List ChannelRow → Type 0
PointsTo k i l =
    ((r : ChannelRow) × In r l × (r.id ≡ k))
    × ((r : ChannelRow) → In r l → r.id ≡ k → r.package_id ≡ some i)

-- The channel is there.
abbrev pub IsThere : String → List ChannelRow → Type 0
IsThere k l = (r : ChannelRow) × In r l × (r.id ≡ k)

module _ (k i name : String) where
  abbrev pub renamed : ChannelRow → ChannelRow
  renamed r = record r { name = name; package_id = some i }

  updated-IsThere :
      (l : List ChannelRow) → IsThere k l → IsThere k (update_where (λ r. r.id == k) renamed l)
  unfolding update_where
  updated-IsThere [] (r, j, e) = absurd j
  updated-IsThere (x ∷ l) (r, inl j, e) = elim (Bool-cases (x.id == k)) [
    | inl hit ↦ (renamed x, rw hit (inl refl), (eq_iff x.id k).0 hit)
    | inr other ↦ (x, rw other (inl refl), ap (λ (y : ChannelRow). y.id) (sym j) ∙ e)
  ]
  updated-IsThere (x ∷ l) (r, inr j, e) =
      let (s, m, f) = updated-IsThere l (r, j, e) in (s, inr m, f)

  updated_points :
      (l : List ChannelRow) (r : ChannelRow)
      → In r (update_where (λ r. r.id == k) renamed l)
      → r.id ≡ k
      → r.package_id ≡ some i
  updated_points l r j e =
      let (b, _, same) = In-update (λ r. r.id == k) renamed l j in
      elim (Bool-cases (b.id == k)) [
        | inl hit ↦
            let moved : r ≡ renamed b = rw hit at same in
            ap (λ (y : ChannelRow). y.package_id) moved
        | inr other ↦
            let kept : r ≡ b = rw other at same in
            absurd (ground (arith, other, eq_iff b.id k, e, ap (λ (y : ChannelRow). y.id) kept))
      ]

  pub updated-PointsTo :
      (l : List ChannelRow) → IsThere k l → PointsTo k i (update_where (λ r. r.id == k) renamed l)
  updated-PointsTo l there = (updated-IsThere l there, updated_points l)
