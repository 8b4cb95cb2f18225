-- ===== src/Db/Finds.antt =====
-- Rows found by their id after other rows were changed, added or taken away.
use mathlib.Core.Path.{subst}
use mathlib.Core.Option.{some-injective, none-ne-some}
use nebraska.Base.{String, ◌≡◌, refl, sym, ◌∙◌, ap, Bool, true, false, some}
use nebraska.Base.{
  List, [], ◌∷◌, ◌++◌, In, arith, ◌⊎◌, inl, inr, Bool-cases, if◌then◌else◌, not, ◌==◌, eq_iff,
}
use nebraska.Db.{find, update_where, select, count_where}

module _ {A : Type 0} where
  pub find-holds : (p : A → Bool) (l : List A) {a : A} → find p l ≡ some a → p a ≡ true
  unfolding find
  find-holds p [] h = absurd (none-ne-some _ h)
  find-holds p (x ∷ l) h = elim (Bool-cases (p x)) [
    | inl here ↦ subst (λ y. p y ≡ true) (some-injective _ _ (rw here at h)) here
    | inr there ↦ find-holds p l (rw there at h)
  ]

  pub find-In : (p : A → Bool) (l : List A) {a : A} → find p l ≡ some a → In a l
  unfolding find
  find-In p [] h = absurd (none-ne-some _ h)
  find-In p (x ∷ l) h = elim (Bool-cases (p x)) [
    | inl here ↦ inl (sym (some-injective _ _ (rw here at h)))
    | inr there ↦ inr (find-In p l (rw there at h))
  ]

  pub find-append :
      (p : A → Bool) (l : List A) (x : A) {a : A}
      → find p (l ++ (x ∷ [])) ≡ some a
      → (find p l ≡ some a) ⊎ ((a ≡ x) × (p x ≡ true))
  unfolding find
  find-append p [] x h = elim (Bool-cases (p x)) [
    | inl here ↦ inr (sym (some-injective _ _ (rw here at h)), here)
    | inr there ↦ absurd (none-ne-some _ (rw there at h))
  ]
  find-append p (y ∷ l) x h = elim (Bool-cases (p y)) [
    | inl here ↦ inl (rw here (rw here at h))
    | inr there ↦ rw there (find-append p l x (rw there at h))
  ]

  pub In-select : (p : A → Bool) (l : List A) {a : A} → In a (select p l) → In a l × (p a ≡ true)
  unfolding select
  In-select p [] h = absurd h
  In-select p (x ∷ l) {a} h = elim (Bool-cases (p x)) [
    | inl here ↦
        let i : (a ≡ x) ⊎ In a (select p l) = rw here at h in
        elim i [
          | inl e ↦ (inl e, subst (λ y. p y ≡ true) (sym e) here)
          | inr i ↦ let (j, k) = In-select p l i in (inr j, k)
        ]
    | inr there ↦ let (j, k) = In-select p l (rw there at h) in (inr j, k)
  ]

  pub In-count : (p : A → Bool) (l : List A) {a : A} → count_where p l ≡ 0 → In a l → p a ≡ false
  unfolding count_where
  In-count p [] n h = absurd h
  In-count p (x ∷ l) {a} n (inl e) = subst (λ y. p y ≡ false) (sym e) (ground (arith, n))
  In-count p (x ∷ l) n (inr i) = In-count p l (ground (arith, n)) i

  pub In-update :
      (p : A → Bool) (f : A → A) (l : List A) {a : A}
      → In a (update_where p f l)
      → (b : A) × In b l × (a ≡ (if p b then f b else b))
  unfolding update_where
  In-update p f [] h = absurd h
  In-update p f (x ∷ l) (inl e) = (x, inl refl, e)
  In-update p f (x ∷ l) (inr i) = let (b, j, e) = In-update p f l i in (b, inr j, e)

module _ {A : Type 0} (key : A → String) where
  key_kept :
      (p : A → Bool) (f : A → A) (x : A)
      → ((y : A) → key (f y) ≡ key y)
      → key (if p x then f x else x) ≡ key x
  key_kept p f x same = elim (Bool-cases (p x)) [
    | inl here ↦ rw here (same x)
    | inr there ↦ rw there refl
  ]

  -- A row whose id a change leaves alone.
  pub find-update :
      (k : String) (p : A → Bool) (f : A → A) (l : List A) {a : A}
      → ((x : A) → key (f x) ≡ key x)
      → find (λ x. key x == k) (update_where p f l) ≡ some a
      → (b : A) × (find (λ x. key x == k) l ≡ some b) × (a ≡ (if p b then f b else b))
  unfolding find update_where
  find-update k p f [] same h = absurd (none-ne-some _ h)
  find-update k p f (x ∷ l) same h =
      let e = ap (λ y. y == k) (key_kept p f x same) in
      elim (Bool-cases (key x == k)) [
        | inl here ↦ (x, rw here refl, sym (some-injective _ _ (rw (e ∙ here) at h)))
        | inr there ↦ rw there (find-update k p f l same (rw (e ∙ there) at h))
      ]

  pub find-select :
      (k j : String) (l : List A) {a : A}
      → find (λ x. key x == k) (select (λ x. not (key x == j)) l) ≡ some a
      → find (λ x. key x == k) l ≡ some a
  unfolding find select
  find-select k j [] h = h
  find-select k j (x ∷ l) {a} h = elim (Bool-cases (key x == j)) [
    | inl gone ↦
        let rest : find (λ y. key y == k) (select (λ y. not (key y == j)) l) ≡ some a =
          rw gone at h in
        elim (Bool-cases (key x == k)) [
          | inl here ↦
              let q = find-holds (λ y. key y == k) (select (λ y. not (key y == j)) l) rest in
              let (i, n) =
                In-select (λ y. not (key y == j)) l
                  (find-In (λ y. key y == k) (select (λ y. not (key y == j)) l) rest) in
              absurd (
                ground (
                  arith,
                  gone,
                  here,
                  q,
                  n,
                  eq_iff (key x) j,
                  eq_iff (key x) k,
                  eq_iff (key a) k,
                  eq_iff (key a) j,
                ))
          | inr there ↦ rw there (find-select k j l rest)
        ]
    | inr kept ↦ elim (Bool-cases (key x == k)) [
      | inl here ↦ rw here (rw (kept, here) at h)
      | inr there ↦ rw there (find-select k j l (rw (kept, there) at h))
    ]
  ]

  -- A row that is found by an id has it.
  pub find-key : (k : String) (l : List A) {a : A} → find (λ x. key x == k) l ≡ some a → key a ≡ k
  find-key k l {a} h =
      let e = find-holds (λ x. key x == k) l h in ground (arith, e, eq_iff (key a) k)
