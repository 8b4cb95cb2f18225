-- ===== src/Admin/ProductIds.antt =====
-- admin/applications.go: `validateProductID`.
use Prim.Native.Char.{code}
use nebraska.Base.{ℕ, String, Bool, true, false, Option, none, some}
use nebraska.Base.{ltb, leb, eqb, not, ◌&&◌, ◌||◌, if◌then◌else◌}
use nebraska.Base.Texts.{text_length}

abbrev pub max_product_id_length : ℕ
max_product_id_length = 155

abbrev is_letter : ℕ → Bool
is_letter c = leb 65 c && leb c 90 || leb 97 c && leb c 122

abbrev is_alphanumeric : ℕ → Bool
is_alphanumeric c = is_letter c || leb 48 c && leb c 57

-- Where the regular expression of `validateProductID` stands: at the start of a segment, after a
-- letter or digit, or after a dash.
pub data Place : Type 0 where
  at_start after_word after_dash : Place

-- '.' and '-'
step_place : Place → Bool → ℕ → Option (Place × Bool)
step_place at_start dotted c = if is_letter c then some (after_word, dotted) else none
step_place after_word dotted c =
    if is_alphanumeric c
    then some (after_word, dotted)
    else if eqb c 45
    then some (after_dash, dotted)
    else if eqb c 46
    then some (at_start, true)
    else none
step_place after_dash dotted c =
    if is_alphanumeric c
    then some (after_word, dotted)
    else if eqb c 45
    then some (after_dash, dotted)
    else none

-- Segments that are parted by dots, at least two.
segments : Place → Bool → String → Bool
unfolding step_place
segments after_word dotted String.[] = dotted
segments at_start dotted String.[] = false
segments after_dash dotted String.[] = false
segments p dotted (String.◌∷◌ c s) = elim (step_place p dotted (code c)) [
  | none ↦ false
  | some q ↦ segments q.0 q.1 s
]

-- `validateProductID`.
unfoldable pub validate_product_id : Option String → Bool
unfolding segments
validate_product_id none = true
validate_product_id (some s) =
    not (ltb max_product_id_length (text_length s)) && segments at_start false s
