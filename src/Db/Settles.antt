-- ===== src/Db/Settles.antt =====
-- What an action returns: `Settles` says that it returns, and what; `Gives` what it returns where
-- it does. Statements may fail as they like.
use mathlib.Core.Path.{subst}
use nebraska.Base.{◌≡◌, sym, ap, Bool, true, false, refl, if◌then◌else◌, ◌∙◌}
use nebraska.Base.Exec.{Result, ok, err, pure, raise, ◌>>=◌, bind_ok, >>=-eq-ok, result_ok}
use nebraska.Types.{Error}
use nebraska.Db.{World, Action, try, attempt, query, query_result, fails}

pub record Settles {A : Type 0} (Q : A → Type 0) (m : Action A) : Type 0 where
  pub at : (w : World) → (a : A) × (w' : World) × (m w ≡ (ok a, w')) × Q a

pub record Gives {A : Type 0} (Q : A → Type 0) (m : Action A) : Type 0 where
  pub at : (w w' : World) {a : A} → m w ≡ (ok a, w') → Q a

abbrev pub Any : {A : Type 0} → A → Type 0
Any a = Unit

-- A fact about a value, where there is one.
abbrev pub IfOk : {A : Type 0} → (A → Type 0) → Result Error A → Type 0
IfOk Q (ok a) = Q a
IfOk Q (err e) = Unit

module _ {A : Type 0} {Q : A → Type 0} where
  pub Settles-pure : {a : A} → Q a → Settles Q (pure a)
  Settles-pure {a} q = record { at = λ w. (a, w, refl, q) }

  pub Settles-if :
      (b : Bool) {m n : Action A}
      → (b ≡ true → Settles Q m)
      → (b ≡ false → Settles Q n)
      → Settles Q (if b then m else n)
  Settles-if true km kn = km refl
  Settles-if false km kn = kn refl

  pub Gives-pure : {a : A} → Q a → Gives Q (pure a)
  Gives-pure {a} q = record { at = λ w w' e. subst Q (result_ok e).0 q }

  pub Gives-raise : (e : Error) → Gives Q (raise e)
  Gives-raise e = record { at = λ w w' h. absurd (cc) }

  pub Gives-if : (b : Bool) {m n : Action A} → Gives Q m → Gives Q n → Gives Q (if b then m else n)
  Gives-if true km kn = km
  Gives-if false km kn = kn

  -- What settles gives what it settles on.
  pub Settles-Gives : {m : Action A} → Settles Q m → Gives Q m
  Settles-Gives s = record {
    at = λ w w' e. let (a, u, h, q) = s.at w in subst Q (result_ok (sym h ∙ e)).0 q;
  }

  settles_try : (r : Result Error A) → ((a : A) → r ≡ ok a → Q a) → IfOk Q r
  settles_try (ok a) h = h a refl
  settles_try (err e) h = tt

  pub Settles-try : {m : Action A} → Gives Q m → Settles (IfOk Q) (try m)
  unfolding try
  Settles-try {m} g = record {
    at = λ w. (
      (m w).0,
      (m w).1,
      refl,
      settles_try (m w).0 (λ a e. g.at w (m w).1 (ap (λ x. (x, (m w).1)) e)),
    );
  }

module _ {A B : Type 0} {R : A → Type 0} {Q : B → Type 0} (m : Action A) (f : A → Action B) where
  pub Settles-bind : Settles R m → ((a : A) → R a → Settles Q (f a)) → Settles Q (m >>= f)
  Settles-bind s k = record {
    at = λ w.
        let (a, u, h, r) = s.at w in
        let (b, v, h', q) = (k a r).at u in (b, v, bind_ok m f h ∙ h', q);
  }

module _ {A B : Type 0} {Q : B → Type 0} (m : Action A) (f : A → Action B) where
  pub Gives-bind : ((a : A) → Gives Q (f a)) → Gives Q (m >>= f)
  Gives-bind k = record {
    at = λ w w' e. let (a, u, h, rest) = >>=-eq-ok m f w e in (k a).at u w' rest;
  }

module _ {A B : Type 0} {R : A → Type 0} {Q : B → Type 0} where
  pub Gives-after :
      (m : Action A) (f : A → Action B)
      → Gives R m
      → ((a : A) → R a → Gives Q (f a))
      → Gives Q (m >>= f)
  Gives-after m f g k = record {
    at = λ w w' e. let (a, u, h, rest) = >>=-eq-ok m f w e in (k a (g.at w u h)).at u w' rest;
  }

pub Gives-Any : {A : Type 0} (m : Action A) → Gives Any m
Gives-Any m = record { at = λ w w' e. tt }

pub Settles-attempt : (m : Action Unit) → Settles Any (attempt m)
unfolding attempt
Settles-attempt m = record { at = λ w. (tt, (m w).1, refl, tt) }

query_gives :
    {A : Type 0} (Q : A → Type 0) (b : Bool) (r : Result Error A) {a : A} {w w' : World}
    → ((x : A) → r ≡ ok x → Q x)
    → ◌≡◌ {A = Result Error A × World} (query_result b r, w) (ok a, w')
    → Q a
query_gives Q true r k e = absurd (cc)
query_gives Q false r k e = k _ (ap (λ (x : Result Error _ × World). x.0) e)

pub Gives-query :
    {A : Type 0} {Q : A → Type 0} (f : World → Result Error A)
    → ((w : World) (a : A) → f w ≡ ok a → Q a)
    → Gives Q (query f)
unfolding query
Gives-query {Q = Q} f k = record {
  at = λ w w' e. query_gives Q (fails w.faults) (f w) (λ x h. k w x h) e;
}
