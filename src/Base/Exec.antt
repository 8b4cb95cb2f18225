-- ===== src/Base/Exec.antt =====
-- Go functions that change shared state and may fail. What was written before a failure stays
-- written, so the state comes back beside the error too.
use mathlib.Core.Path.{◌≡◌, refl, ap, ◌∙◌}
use mathlib.Core.Logic.{◌⊎◌, inl, inr}

pub data Result {ℓ} (E A : Type ℓ) : Type ℓ where
  ok : A → Result E A
  err : E → Result E A

abbrev pub Exec {ℓ} : Type ℓ → Type ℓ → Type ℓ → Type ℓ
Exec E S A = S → Result E A × S

module _ {ℓ} {E S A : Type ℓ} where
  abbrev pub pure : A → Exec E S A
  pure a s = (ok a, s)

  abbrev pub raise : E → Exec E S A
  raise e s = (err e, s)

  abbrev pub gets : (S → A) → Exec E S A
  gets f s = (ok (f s), s)

  -- Equal results return the same, in the same state.
  pub result_ok :
      {a b : A} {s t : S} → ◌≡◌ {A = Result E A × S} (ok a, s) (ok b, t) → (a ≡ b) × (s ≡ t)
  result_ok h = (cc, cc)

module _ {ℓ} {E S A B : Type ℓ} where
  abbrev pub continue : Result E A → (A → Exec E S B) → Exec E S B
  continue (ok a) f s = f a s
  continue (err e) f s = (err e, s)

  infixl 10 ◌>>=◌ ◌>>◌
  unfoldable pub ◌>>=◌ : Exec E S A → (A → Exec E S B) → Exec E S B
  ◌>>=◌ m f s = let (r, s') = m s in continue r f s'

  abbrev pub ◌>>◌ : Exec E S A → Exec E S B → Exec E S B
  m >> n = m >>= λ _. n

  result_err :
      {x e : E} {s t : S}
      → ◌≡◌ {A = Result E B × S} (err x, s) (err e, t)
      → ◌≡◌ {A = Result E A × S} (err x, s) (err e, t)
  result_err h = cc

  result_cases :
      (m : Exec E S A) (f : A → Exec E S B) (s : S) (r : Result E A) (s' : S) {b : B} {t : S}
      → m s ≡ (r, s')
      → continue r f s' ≡ (ok b, t)
      → (a : A) × (u : S) × (m s ≡ (ok a, u)) × (f a u ≡ (ok b, t))
  result_cases m f s (ok a) s' e h = (a, s', e, h)
  result_cases m f s (err x) s' e h = cc

  -- A chain that returned went through its first part.
  pub >>=-eq-ok :
      (m : Exec E S A) (f : A → Exec E S B) (s : S) {b : B} {t : S}
      → (m >>= f) s ≡ (ok b, t)
      → (a : A) × (u : S) × (m s ≡ (ok a, u)) × (f a u ≡ (ok b, t))
  unfolding ◌>>=◌
  >>=-eq-ok m f s h = let (r, s') = m s in result_cases m f s r s' refl h

  err_cases :
      (m : Exec E S A) (f : A → Exec E S B) (s : S) (r : Result E A) (s' : S) {e : E} {t : S}
      → m s ≡ (r, s')
      → continue r f s' ≡ (err e, t)
      → (m s ≡ (err e, t)) ⊎ ((a : A) × (u : S) × (m s ≡ (ok a, u)) × (f a u ≡ (err e, t)))
  err_cases m f s (ok a) s' e h = inr (a, s', e, h)
  err_cases m f s (err x) s' e h = inl (e ∙ result_err h)

  -- A chain that failed did so in its first part or after it.
  pub >>=-eq-err :
      (m : Exec E S A) (f : A → Exec E S B) (s : S) {e : E} {t : S}
      → (m >>= f) s ≡ (err e, t)
      → (m s ≡ (err e, t)) ⊎ ((a : A) × (u : S) × (m s ≡ (ok a, u)) × (f a u ≡ (err e, t)))
  unfolding ◌>>=◌
  >>=-eq-err m f s h = let (r, s') = m s in err_cases m f s r s' refl h

  -- A chain whose first part returned, or failed.
  module _ (m : Exec E S A) (f : A → Exec E S B) {s t : S} where
    pub bind_ok : {a : A} → m s ≡ (ok a, t) → (m >>= f) s ≡ f a t
    unfolding ◌>>=◌
    bind_ok e = ap (λ (p : Result E A × S). continue p.0 f p.1) e

    pub bind_err : {e : E} → m s ≡ (err e, t) → (m >>= f) s ≡ (err e, t)
    unfolding ◌>>=◌
    bind_err h = ap (λ (p : Result E A × S). continue p.0 f p.1) h
