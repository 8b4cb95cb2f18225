-- ===== src/Types/Tests.antt =====
-- The architectures' texts, and the theorems at them.
use nebraska.Base.{ℕ, String, ◌≡◌, ◌≢◌, refl, true, some, arith, eq_iff}
use nebraska.Types.Arch.{omaha, coreos, to_string, is_valid, arch_from_string}
use nebraska.Types.Arch.Laws.{arch_from_string-to_string, to_string-arch_from_string}

abbrev bogus : ℕ → String
bogus n = "unsupported"

x64_named : to_string omaha bogus 1 ≢ ""
unfolding to_string
x64_named e = ground (arith, (eq_iff "x64" "").1 e)

amd64_valid : is_valid 1 ≡ true
unfolding is_valid
amd64_valid = refl

arch_from_string-to_string_example : arch_from_string omaha (to_string omaha bogus 1) ≡ some 1
arch_from_string-to_string_example = arch_from_string-to_string omaha bogus 1 amd64_valid x64_named

arm64_read : arch_from_string coreos "arm64-usr" ≡ some 2
unfolding arch_from_string
arm64_read = refl

to_string-arch_from_string_example : (to_string coreos bogus 2 ≡ "arm64-usr") × (is_valid 2 ≡ true)
to_string-arch_from_string_example =
    to_string-arch_from_string coreos bogus "arm64-usr" 2 arm64_read
