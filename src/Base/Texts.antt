-- ===== src/Base/Texts.antt =====
-- What the code uses of Go's strings and strconv packages, over the characters of a text.
use Prim.Native.Char.{code}
use Prim.Native.String
use Prim.Native.Nat.{ℕ, zero, suc, ◌/◌, ◌%◌, ◌+◌, ◌-◌, ◌*◌, ◌^◌}
use Prim.Native.String.{String, [], ◌∷◌}
use mathlib.Core.Bool.{Bool, true, false, ◌&&◌, ◌||◌}
use mathlib.Core.Option.{Option, none, some}
use text.Mathlib.Text.{◌==◌}
use nebraska.Base.Tests.{ltb, leb, eqb, if◌then◌else◌}

-- `unicode.IsSpace`.
abbrev pub is_space : ℕ → Bool
is_space c =
    eqb c 32
    || leb 9 c && leb c 13
    || eqb c 133
    || eqb c 160
    || eqb c 5760
    || leb 8192 c && leb c 8202
    || eqb c 8232
    || eqb c 8233
    || eqb c 8239
    || eqb c 8287
    || eqb c 12288

trim_left : String → String
trim_left [] = []
trim_left (c ∷ s) = let rest = trim_left s in if is_space (code c) then rest else c ∷ s

trim_right : String → String
trim_right [] = []
trim_right (c ∷ s) =
    let rest = trim_right s in if is_space (code c) && rest == "" then "" else c ∷ rest

-- `strings.TrimSpace`.
unfoldable pub trim_space : String → String
unfolding trim_left trim_right
trim_space s = trim_right (trim_left s)

unfoldable pub starts_with : ℕ → String → Bool
starts_with k [] = false
starts_with k (c ∷ s) = eqb (code c) k

unfoldable pub ends_with : ℕ → String → Bool
ends_with k [] = false
ends_with k (c ∷ s) = let rest = ends_with k s in if s == "" then eqb (code c) k else rest

unfoldable pub drop_first : String → String
drop_first [] = []
drop_first (c ∷ s) = s

unfoldable pub drop_last : String → String
drop_last [] = []
drop_last (c ∷ s) = let rest = drop_last s in if s == "" then "" else c ∷ rest

-- How many characters there are.
unfoldable pub text_length : String → ℕ
text_length [] = 0
text_length (c ∷ s) = 1 + text_length s

-- Go compares texts byte by byte, which for UTF-8 is character by character.
unfoldable pub text_leb : String → String → Bool
text_leb [] t = true
text_leb (c ∷ s) [] = false
text_leb (c ∷ s) (d ∷ t) =
    let rest = text_leb s t in if ltb (code c) (code d) then true else eqb (code c) (code d) && rest

-- The digits after a number that has been read, none where the result needs more than 64 bits.
parse_digits : ℕ → String → Option ℕ
parse_digits n [] = some n
parse_digits n (c ∷ s) =
    let rest = parse_digits (n * 10 + (code c - 48)) s in
    if leb 48 (code c) && leb (code c) 57 && ltb (n * 10 + (code c - 48)) (2 ^ 64)
    then rest
    else none

-- `strconv.ParseUint(s, 10, 64)`, none for an error.
unfoldable pub parse_uint : String → Option ℕ
unfolding parse_digits
parse_uint s = if s == "" then none else parse_digits 0 s

unfoldable pub starts_with_text : String → String → Bool
starts_with_text [] s = true
starts_with_text (p ∷ ps) [] = false
starts_with_text (p ∷ ps) (c ∷ s) =
    let rest = starts_with_text ps s in eqb (code p) (code c) && rest

-- `strings.TrimSuffix`.
unfoldable pub trim_suffix : String → String → String
trim_suffix suffix [] = []
trim_suffix suffix (c ∷ s) =
    let rest = c ∷ trim_suffix suffix s in if c ∷ s == suffix then "" else rest

-- Replaced text is passed over, by the number of characters that are left of it.
replace_from : ℕ → String → String → String → String
unfolding starts_with_text text_length
replace_from skip old new [] = []
replace_from zero old new (c ∷ s) =
    let found = String.◌++◌ new (replace_from (text_length old - 1) old new s) in
    let rest = c ∷ replace_from 0 old new s in if starts_with_text old (c ∷ s) then found else rest
replace_from (suc skip) old new (c ∷ s) = replace_from skip old new s

-- `strings.ReplaceAll`, for an old text that is not empty.
unfoldable pub replace_all : String → String → String → String
unfolding replace_from
replace_all s old new = replace_from 0 old new s

digit : ℕ → String
digit d =
    if eqb d 0
    then "0"
    else if eqb d 1
    then "1"
    else if eqb d 2
    then "2"
    else if eqb d 3
    then "3"
    else if eqb d 4
    then "4"
    else if eqb d 5
    then "5"
    else if eqb d 6
    then "6"
    else if eqb d 7
    then "7"
    else if eqb d 8
    then "8"
    else "9"

-- The last digits of a number, before the text that follows.
format_digits : ℕ → ℕ → String → String
unfolding digit
format_digits zero n rest = rest
format_digits (suc fuel) n rest =
    let more = format_digits fuel (n / 10) (String.◌++◌ (digit (n % 10)) rest) in
    if ltb n 10 then String.◌++◌ (digit n) rest else more

-- `strconv.FormatUint(n, 10)`: 64 bits have at most twenty digits.
unfoldable pub format_uint : ℕ → String
unfolding format_digits
format_uint n = format_digits 20 n ""
