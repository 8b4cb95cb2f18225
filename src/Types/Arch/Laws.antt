-- ===== src/Types/Arch/Laws.antt =====
-- The spellings of the architectures, read back.
use mathlib.Core.Option.{none-ne-some, some-injective}
use nebraska.Base.{
  ℕ, List, [], ◌∷◌, ◌+◌, Bool-cases, inl, inr, zero, suc, String, ◌≡◌, ◌≢◌, refl, sym, ap, ◌∙◌,
  true, Option, none, some, arith, eq_iff, ◌==◌,
}
use nebraska.Types.Arch.{
  Kind, ours, omaha, coreos, to_string, is_valid, arch_from_string, Spellings, find_from, row, pick,
  arch_string_data,
}

-- A supported architecture is read back from its text in any of the three spellings, where that
-- spelling has a text for it.
pub arch_from_string-to_string :
    (k : Kind) (bogus : ℕ → String) (a : ℕ)
    → is_valid a ≡ true
    → to_string k bogus a ≢ ""
    → arch_from_string k (to_string k bogus a) ≡ some a
unfolding to_string is_valid arch_from_string
arch_from_string-to_string ours bogus zero v n = refl
arch_from_string-to_string omaha bogus zero v n = absurd (n refl)
arch_from_string-to_string coreos bogus zero v n = absurd (n refl)
arch_from_string-to_string ours bogus (suc zero) v n = refl
arch_from_string-to_string omaha bogus (suc zero) v n = refl
arch_from_string-to_string coreos bogus (suc zero) v n = refl
arch_from_string-to_string ours bogus (suc (suc zero)) v n = refl
arch_from_string-to_string omaha bogus (suc (suc zero)) v n = refl
arch_from_string-to_string coreos bogus (suc (suc zero)) v n = refl
arch_from_string-to_string ours bogus (suc (suc (suc zero))) v n = refl
arch_from_string-to_string omaha bogus (suc (suc (suc zero))) v n = refl
arch_from_string-to_string coreos bogus (suc (suc (suc zero))) v n = absurd (n refl)
arch_from_string-to_string k bogus (suc (suc (suc (suc a)))) v n = ground (arith, v)

-- What is found stands in the table, at its index.
find_from-row :
    (i : ℕ) (s : String) (k : Kind) (rows : List Spellings) {a : ℕ}
    → find_from i s k rows ≡ some a
    → (j : ℕ) × (r : Spellings) × (a ≡ i + j) × (row rows j ≡ some r) × (pick k r ≡ s)
unfolding find_from row
find_from-row i s k [] e = absurd (none-ne-some _ e)
find_from-row i s k (r ∷ rows) {a} e = elim (Bool-cases (s == pick k r)) [
  | inl here ↦
      let found : some i ≡ some a = rw here at e in
      (0, r, omega (arith, some-injective _ _ found), refl, sym ((eq_iff s (pick k r)).0 here))
  | inr other ↦
      let (j, q, index, at_j, spelled) = find_from-row (i + 1) s k rows (rw other at e) in
      (suc j, q, omega (arith, index), at_j, spelled)
]

row-IsValid : (j : ℕ) {r : Spellings} → row arch_string_data j ≡ some r → is_valid j ≡ true
unfolding row is_valid
row-IsValid zero e = refl
row-IsValid (suc zero) e = refl
row-IsValid (suc (suc zero)) e = refl
row-IsValid (suc (suc (suc zero))) e = refl
row-IsValid (suc (suc (suc (suc j)))) e = absurd (none-ne-some _ e)

spelled_at :
    (k : Kind) (bogus : ℕ → String) (j : ℕ) {r : Spellings}
    → row arch_string_data j ≡ some r
    → to_string k bogus j ≡ pick k r
unfolding to_string
spelled_at k bogus j e =
    ap (λ (o : Option Spellings). elim o [ some s ↦ pick k s | none ↦ bogus j ]) e

not_empty :
    (k : Kind) (s : String) {a : ℕ}
    → arch_from_string k s ≡ some a
    → find_from 0 s k arch_string_data ≡ some a
unfolding arch_from_string
not_empty k s e = elim (Bool-cases (s == "")) [
  | inl empty ↦ absurd (none-ne-some _ (rw empty at e))
  | inr full ↦ rw full at e
]

-- A text that is read as an architecture is its spelling, and the architecture is supported.
pub to_string-arch_from_string :
    (k : Kind) (bogus : ℕ → String) (s : String) (a : ℕ)
    → arch_from_string k s ≡ some a
    → (to_string k bogus a ≡ s) × (is_valid a ≡ true)
to_string-arch_from_string k bogus s a e =
    let (j, r, index, at_j, spelled) = find_from-row 0 s k arch_string_data (not_empty k s e) in
    let same : a ≡ j = omega (arith, index) in
    (
      ap (to_string k bogus) same ∙ spelled_at k bogus j at_j ∙ spelled,
      ap is_valid same ∙ row-IsValid j at_j,
    )
