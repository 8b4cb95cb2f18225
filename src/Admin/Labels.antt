-- ===== src/Admin/Labels.antt =====
-- types/labels.go: `Validate`. The texts are of valid UTF-8.
use Prim.Native.Char.{code}
use Prim.Native.String.{String, [], ◌∷◌}
use nebraska.Base.{ℕ, Bool, true, false, List, length}
use nebraska.Base.{◌==◌, eqb, leb, ltb, not, ◌&&◌, ◌||◌, if◌then◌else◌}
use nebraska.Base.Texts.{text_length}

abbrev pub max_labels : ℕ
max_labels = 16

abbrev pub max_label_key_length : ℕ
max_label_key_length = 255

abbrev pub max_label_value_length : ℕ
max_label_value_length = 1024

-- A letter, a digit, '.', '_' or '-'.
unfoldable pub is_key_char : ℕ → Bool
is_key_char c =
    leb 65 c && leb c 90
    || leb 97 c && leb c 122
    || leb 48 c && leb c 57
    || eqb c 46
    || eqb c 95
    || eqb c 45

unfoldable pub all_key_chars : String → Bool
unfolding is_key_char
all_key_chars [] = true
all_key_chars (c ∷ s) = is_key_char (code c) && all_key_chars s

-- `isNotXMLChar`.
unfoldable pub is_not_xml_char : ℕ → Bool
is_not_xml_char r =
    if eqb r 9 || eqb r 10 || eqb r 13 then false else ltb r 32 || eqb r 65534 || eqb r 65535

unfoldable pub has_not_xml_char : String → Bool
unfolding is_not_xml_char
has_not_xml_char [] = false
has_not_xml_char (c ∷ s) = is_not_xml_char (code c) || has_not_xml_char s

-- A key is long at the same bytes as characters, as those that pass are of one byte each.
unfoldable pub label_valid : String → String → Bool
unfolding all_key_chars has_not_xml_char
label_valid k v =
    not (ltb max_label_key_length (text_length k))
    && not (k == "")
    && all_key_chars k
    && not (has_not_xml_char v)
    && not (ltb max_label_value_length (text_length v))

unfoldable pub all_labels_valid : List (String × String) → Bool
unfolding label_valid
all_labels_valid List.[] = true
all_labels_valid (List.◌∷◌ a l) = label_valid a.0 a.1 && all_labels_valid l

-- `Validate`.
unfoldable pub validate : List (String × String) → Bool
unfolding all_labels_valid
validate l = not (ltb max_labels (length l)) && all_labels_valid l
