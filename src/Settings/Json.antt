-- ===== src/Settings/Json.antt =====
-- The JSON values of the file, and what the code reads of them.
use node_shell.Base.{
  ℕ, ltb, String, Bool, true, false, Option, none, some, List, [], ◌∷◌, ◌==◌, ◌||◌, if◌then◌else◌,
}
use node_shell.Std.Strings.{trim_space, byte_length}
use node_shell.Settings.Floats.{Float, nan, infinity, of_int}

-- A value as `encoding/json` decodes it. Of an object that is a row of the provider list, the fields
-- id, name, baseUrl and models are told; `number nan` is a literal outside float64, which
-- `json.Unmarshal` refuses.
mutual
  pub data Json : Type 0 where
    null : Json
    boolean : Bool → Json
    number : Float → Json
    text : String → Json
    array : Items → Json
    object : Field → Field → Field → Field → Json

  pub data Items : Type 0 where
    nil : Items
    cons : Json → Items → Items

  pub data Field : Type 0 where
    absent : Field
    present : Json → Field

-- `strconv.ParseFloat` of a trimmed text, and the value of a whole number's digits in a base, by
-- `big.Int.SetString` and `big.Float`: `none` is an error.
pub record Numbers : Type 0 where
  pub parse_float : String → Option Float
  pub big_int : String → ℕ → Option Float

abbrev or_nan : Option Float → Float
or_nan none = nan
or_nan (some f) = f

-- The text behind a prefix of two ASCII characters.
abbrev drop_two : String → String
drop_two (String.◌∷◌ c (String.◌∷◌ d s)) = s
drop_two s = ""

abbrev first_two : String → String
first_two (String.◌∷◌ c (String.◌∷◌ d s)) = String.◌∷◌ c (String.◌∷◌ d "")
first_two s = s

abbrev has_digits : String → String → String → Bool
has_digits lower upper s =
    if ltb 2 (byte_length s) then first_two s == lower || first_two s == upper else false

unfoldable pub js_string_to_number : Numbers → String → Float
unfolding trim_space byte_length
js_string_to_number numbers value =
    let s = trim_space value in
    if s == ""
    then of_int 0
    else if s == "Infinity" || s == "+Infinity"
    then infinity false
    else if s == "-Infinity"
    then infinity true
    else if has_digits "0x" "0X" s
    then or_nan (numbers.big_int (drop_two s) 16)
    else if has_digits "0b" "0B" s
    then or_nan (numbers.big_int (drop_two s) 2)
    else if has_digits "0o" "0O" s
    then or_nan (numbers.big_int (drop_two s) 8)
    else or_nan (numbers.parse_float s)

unfoldable pub coerce_json : Numbers → Json → Float
unfolding js_string_to_number
coerce_json numbers null = of_int 0
coerce_json numbers (boolean true) = of_int 1
coerce_json numbers (boolean false) = of_int 0
coerce_json numbers (number f) = f
coerce_json numbers (text s) = js_string_to_number numbers s
coerce_json numbers (array nil) = of_int 0
coerce_json numbers (array (cons j nil)) = coerce_json numbers j
coerce_json numbers (array (cons i (cons j js))) = nan
coerce_json numbers (object a b c d) = nan

unfoldable pub coerce_number : Numbers → Field → Float
unfolding coerce_json
coerce_number numbers absent = nan
coerce_number numbers (present j) = coerce_json numbers j

unfoldable pub coerce_string : Field → String
coerce_string (present (text s)) = s
coerce_string _ = ""

unfoldable pub texts_of : Items → List String
unfolding coerce_string
texts_of nil = []
texts_of (cons j js) =
    let rest = texts_of js in
    if coerce_string (present j) == "" then rest else coerce_string (present j) ∷ rest

unfoldable pub coerce_string_slice : Field → List String
unfolding texts_of
coerce_string_slice (present (array js)) = texts_of js
coerce_string_slice _ = []
