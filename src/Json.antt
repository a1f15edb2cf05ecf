-- ===== src/Json.antt =====
-- `JSON.stringify` of the values that the services hash: strings and natural numbers in arrays and
-- objects. A string is escaped as the language does, but for lone surrogates, which are kept.
pub mod Reading
use tarea_integracion_sistem.Prelude.{
  ℕ, ◌+◌, ◌/◌, ◌%◌, ◌||◌, List, [], ◌∷◌, ◌++◌, ltb, ◌==◌, if◌then◌else◌,
}
use tarea_integracion_sistem.Text.{Text, text}

abbrev hex_digit : ℕ → ℕ
hex_digit d = if ltb d 10 then d + 48 else d + 87

-- The escape of a control character that has no letter of its own: \u00xx.
abbrev unicode_escape : ℕ → Text
unicode_escape c = text "\\u00" ++ (hex_digit (c / 16) ∷ hex_digit (c % 16) ∷ [])

escape_unit : ℕ → Text
escape_unit c =
    if c == 34 || c == 92
    then 92 ∷ c ∷ []
    else if c == 8
    then text "\\b"
    else if c == 9
    then text "\\t"
    else if c == 10
    then text "\\n"
    else if c == 12
    then text "\\f"
    else if c == 13
    then text "\\r"
    else if ltb c 32
    then unicode_escape c
    else c ∷ []

escape : Text → Text
unfolding escape_unit
escape [] = []
escape (c ∷ cs) = escape_unit c ++ escape cs

pub json_string : Text → Text
unfolding escape
json_string s = 34 ∷ (escape s ++ 34 ∷ [])

pub join_elements : List Text → Text
join_elements [] = []
join_elements (e ∷ []) = e
join_elements (e ∷ next ∷ es) = e ++ (44 ∷ join_elements (next ∷ es))

unfoldable pub json_array : List Text → Text
unfolding join_elements
json_array es = 91 ∷ (join_elements es ++ 93 ∷ [])

named_values : List (Text × Text) → List Text
named_values [] = []
named_values ((name, value) ∷ fields) = (json_string name ++ (58 ∷ value)) ∷ named_values fields

-- An object from its names and the texts of its values, in their order.
unfoldable pub json_fields : List (Text × Text) → Text
unfolding named_values join_elements
json_fields fields = 123 ∷ (join_elements (named_values fields) ++ 125 ∷ [])
