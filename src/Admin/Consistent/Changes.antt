-- ===== src/Admin/Consistent/Changes.antt =====
-- Changed channels, and floors after an upsert.
use mathlib.Core.Path.{subst}
use mathlib.Core.Option.{none-ne-some}
use nebraska.Base.{
  String, ◌≡◌, refl, sym, ap, ◌∙◌, Bool, Option, none, some, List, [], ◌∷◌, ◌++◌, In,
}
use nebraska.Base.{arith, ◌⊎◌, inl, inr, ◌==◌, eq_iff, if◌then◌else◌, Bool-cases}
use nebraska.Types.{text, Package, Channel}
use nebraska.Db.{ChannelRow, FloorRow, find, update_where}
use nebraska.Db.Finds.{In-update}
use nebraska.Runtime.Instances.{upsert}
use nebraska.Admin.Consistent.{FitsFor}

-- A channel that lost its package.
pub unpointed_fits :
    (i : String) (d c : ChannelRow) (p : Package)
    → c ≡ (if text d.package_id == i then record d { package_id = none } else d)
    → FitsFor d p
    → FitsFor c p
unpointed_fits i d c p e f = elim (Bool-cases (text d.package_id == i)) [
  | inl here ↦
      subst (λ (x : ChannelRow). FitsFor x p) (sym (rw here at e))
        (record { arch = f.arch; app = f.app; allowed = f.allowed })
  | inr there ↦ subst (λ (x : ChannelRow). FitsFor x p) (sym (rw there at e)) f
]

pub unpointed :
    (i : String) (d c : ChannelRow) (p : Package) {j : String}
    → c ≡ (if text d.package_id == i then record d { package_id = none } else d)
    → c.package_id ≡ some j
    → (d.package_id ≡ some j → FitsFor d p)
    → FitsFor c p
unpointed i d c p {j} e to k = elim (Bool-cases (text d.package_id == i)) [
  | inl here ↦
      let same : c ≡ record d { package_id = none } = rw here at e in
      absurd (none-ne-some _ (sym (ap (λ (x : ChannelRow). x.package_id) same) ∙ to))
  | inr there ↦
      let same : c ≡ d = rw there at e in
      subst (λ (x : ChannelRow). FitsFor x p) (sym same)
        (k (sym (ap (λ (x : ChannelRow). x.package_id) same) ∙ to))
]

-- A channel that was updated, or another one.
abbrev pub changed_channel : Channel → ChannelRow → ChannelRow
changed_channel c d =
    if d.id == c.id then record d { name = c.name; package_id = c.package_id } else d

pub renamed_fits :
    (c : Channel) (d e : ChannelRow) (p : Package)
    → e ≡ changed_channel c d
    → FitsFor d p
    → FitsFor e p
renamed_fits c d e p same f = elim (Bool-cases (d.id == c.id)) [
  | inl here ↦
      subst (λ (x : ChannelRow). FitsFor x p) (sym (rw here at same))
        (record { arch = f.arch; app = f.app; allowed = f.allowed })
  | inr there ↦ subst (λ (x : ChannelRow). FitsFor x p) (sym (rw there at same)) f
]

pub repointed :
    (c : Channel) (d e : ChannelRow) (p : Package) {j : String}
    → e ≡ changed_channel c d
    → (d.id ≡ c.id → c.package_id ≡ some j → FitsFor d p)
    → (d.package_id ≡ some j → FitsFor d p)
    → e.package_id ≡ some j
    → FitsFor e p
repointed c d e p {j} same k l to = elim (Bool-cases (d.id == c.id)) [
  | inl here ↦
      let changed : e ≡ record d { name = c.name; package_id = c.package_id } = rw here at same in
      let f =
        k (ground (arith, here, eq_iff d.id c.id))
          (sym (ap (λ (x : ChannelRow). x.package_id) changed) ∙ to) in
      subst (λ (x : ChannelRow). FitsFor x p) (sym changed)
        (record { arch = f.arch; app = f.app; allowed = f.allowed })
  | inr there ↦
      let kept : e ≡ d = rw there at same in
      subst (λ (x : ChannelRow). FitsFor x p) (sym kept)
        (l (sym (ap (λ (x : ChannelRow). x.package_id) kept) ∙ to))
]

In-append : {A : Type 0} (l : List A) (x : A) {a : A} → In a (l ++ (x ∷ [])) → In a l ⊎ (a ≡ x)
In-append [] x (inl e) = inr e
In-append [] x (inr i) = absurd i
In-append (y ∷ l) x (inl e) = inl (inl e)
In-append (y ∷ l) x (inr i) = elim (In-append l x i) [ inl j ↦ inl (inr j) | inr e ↦ inr e ]

-- A row after an upsert: a changed one, an old one, or the new one.
upserted :
    {A : Type 0} (t : A → Bool) (f : A → A) (new : A) (l : List A) (o : Option A) {a : A}
    → In a (elim o [ none ↦ l ++ (new ∷ []) | some x ↦ update_where t f l ])
    → ((b : A) × In b l × ((a ≡ f b) ⊎ (a ≡ b))) ⊎ (a ≡ new)
upserted t f new l none {a} m = elim (In-append l new m) [
  | inl i ↦ inl (a, i, inr refl)
  | inr e ↦ inr e
]
upserted t f new l (some x) m =
    let (b, i, e) = In-update t f l m in
    elim (Bool-cases (t b)) [
      | inl hit ↦ inl (b, i, inl (rw hit at e))
      | inr other ↦ inl (b, i, inr (rw other at e))
    ]

pub In-upsert :
    {A : Type 0} (t : A → Bool) (f : A → A) (new : A) (l : List A) {a : A}
    → In a (upsert t f new l)
    → ((b : A) × In b l × ((a ≡ f b) ⊎ (a ≡ b))) ⊎ (a ≡ new)
unfolding upsert
In-upsert t f new l m = upserted t f new l (find t l) m

pub kept_keys :
    (k i : String) (reason : Option String) (b r : FloorRow)
    → (r ≡ record b { floor_reason = reason }) ⊎ (r ≡ b)
    → (r.channel_id ≡ b.channel_id) × (r.package_id ≡ b.package_id)
kept_keys k i reason b r (inl e) =
    (ap (λ (x : FloorRow). x.channel_id) e, ap (λ (x : FloorRow). x.package_id) e)
kept_keys k i reason b r (inr e) =
    (ap (λ (x : FloorRow). x.channel_id) e, ap (λ (x : FloorRow). x.package_id) e)
