-- ===== src/Types/Arch.antt =====
-- types/arch.go: the architectures and their three spellings.
pub mod Laws
use nebraska.Base.{
  ℕ, zero, suc, ◌+◌, ◌<◌, ◌≤◌, String, ◌≡◌, ◌≢◌, refl, Bool, true, false, Option, none, some,
}
use nebraska.Base.{List, [], ◌∷◌, length, ◌==◌, eq_iff, arith, ltb, if◌then◌else◌}

abbrev pub arch_all : ℕ
arch_all = 0

abbrev pub arch_amd64 : ℕ
arch_amd64 = 1

-- Which spelling: ours, Omaha's or CoreOS's.
pub data Kind : Type 0 where
  ours omaha coreos : Kind

pub record Spellings : Type 0 where
  pub our_name : String
  pub omaha_name : String
  pub coreos_name : String

pick : Kind → Spellings → String
pick ours s = s.our_name
pick omaha s = s.omaha_name
pick coreos s = s.coreos_name

-- `archStringData`; an architecture is its index.
abbrev pub arch_string_data : List Spellings
arch_string_data =
    record { our_name = "all"; omaha_name = ""; coreos_name = "" }
    ∷ record { our_name = "amd64"; omaha_name = "x64"; coreos_name = "amd64-usr" }
    ∷ record { our_name = "aarch64"; omaha_name = "arm"; coreos_name = "arm64-usr" }
    ∷ record { our_name = "x86"; omaha_name = "x86"; coreos_name = "" }
    ∷ []

-- The row of an architecture, if it has one.
row : List Spellings → ℕ → Option Spellings
row [] a = none
row (s ∷ rows) zero = some s
row (s ∷ rows) (suc a) = row rows a

-- `toString`; `bogus` is the text for an architecture outside the table.
unfoldable pub to_string : Kind → (ℕ → String) → ℕ → String
unfolding row pick
to_string k bogus a = elim (row arch_string_data a) [ some s ↦ pick k s | none ↦ bogus a ]

-- `IsValid`: the four constants are the keys of `allSupportedArches`.
unfoldable pub is_valid : ℕ → Bool
is_valid a = ltb a 4

find_from : ℕ → String → Kind → List Spellings → Option ℕ
find_from i s k [] = none
find_from i s k (r ∷ rows) = if s == pick k r then some i else find_from (i + 1) s k rows

-- `pkgArchFromIdxString`; `none` is ErrInvalidArch.
unfoldable pub arch_from_string : Kind → String → Option ℕ
unfolding find_from pick
arch_from_string k s = if s == "" then none else find_from 0 s k arch_string_data
