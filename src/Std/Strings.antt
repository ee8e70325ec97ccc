-- ===== src/Std/Strings.antt =====
-- `TrimSpace` and `ToLower` of Go's package strings.
pub mod Trims
use Prim.Native.Char.{code}
use node_shell.Base.{
  ℕ, zero, suc, ltb, ◌+◌, String, Bool, ◌&&◌, ◌||◌, List, [], ◌∷◌, eqb, leb, ◌==◌, if◌then◌else◌,
  ◌≡◌, refl,
}

-- Unicode's white space.
abbrev pub is_space_code : ℕ → Bool
is_space_code c =
    (leb 9 c && leb c 13)
    || eqb c 32
    || eqb c 0x85
    || eqb c 0xa0
    || eqb c 0x1680
    || (leb 0x2000 c && leb c 0x200a)
    || eqb c 0x2028
    || eqb c 0x2029
    || eqb c 0x202f
    || eqb c 0x205f
    || eqb c 0x3000

trim_left : String → String
trim_left String.[] = ""
trim_left (String.◌∷◌ c s) =
    let rest = trim_left s in if is_space_code (code c) then rest else String.◌∷◌ c s

-- The text without the codes of a set at its end.
unfoldable pub trim_right : (ℕ → Bool) → String → String
trim_right cut String.[] = ""
trim_right cut (String.◌∷◌ c s) =
    let rest = trim_right cut s in if rest == "" && cut (code c) then "" else String.◌∷◌ c rest

unfoldable pub trim_space : String → String
unfolding trim_left trim_right
trim_space s = trim_right is_space_code (trim_left s)

-- The code points of the lower case letters: exact for ASCII, for the Kelvin sign and for the dotted
-- capital I, which are the only others with an ASCII lower case. Further letters are left alone, so
-- that a comparison with an ASCII text has Go's answer.
abbrev lower_code : ℕ → ℕ
lower_code c =
    if leb b'A' c && leb c b'Z'
    then c + 32
    else if eqb c 0x212a
    then b'k'
    else if eqb c 0x130
    then b'i'
    else c

unfoldable pub lower_codes : String → List ℕ
lower_codes String.[] = []
lower_codes (String.◌∷◌ c s) = lower_code (code c) ∷ lower_codes s

abbrev same_codes : List ℕ → List ℕ → Bool
same_codes [] [] = Bool.true
same_codes (c ∷ cs) (d ∷ ds) = eqb c d && same_codes cs ds
same_codes _ _ = Bool.false

-- The test `strings.ToLower(s) == t`, for an ASCII text t in lower case.
unfoldable pub lower_is : String → String → Bool
unfolding lower_codes
lower_is s t = same_codes (lower_codes s) (lower_codes t)

abbrev utf8_width : ℕ → ℕ
utf8_width c = if ltb c 0x80 then 1 else if ltb c 0x800 then 2 else if ltb c 0x10000 then 3 else 4

-- Go's `len` of a text, which counts the bytes of UTF-8, and the length and the front of its runes.
unfoldable pub byte_length : String → ℕ
byte_length String.[] = 0
byte_length (String.◌∷◌ c s) = utf8_width (code c) + byte_length s

unfoldable pub rune_length : String → ℕ
rune_length String.[] = 0
rune_length (String.◌∷◌ c s) = suc (rune_length s)

unfoldable pub take_runes : ℕ → String → String
take_runes zero s = ""
take_runes (suc n) String.[] = ""
take_runes (suc n) (String.◌∷◌ c s) = String.◌∷◌ c (take_runes n s)

trim_space_example : trim_space " \t a b\n" ≡ "a b"
unfolding trim_space
trim_space_example = refl
