-- ===== src/Tunnel/Address.antt =====
-- internal/tunnel/parse.go: addresses, and what they take of Go's packages net, strconv and strings.
use Prim.Native.String.{◌++◌ as ◌+++◌}
use Prim.Native.Char.{code}
use Prim.Native.Char.{Char}
use node_shell.Base.{
  ℕ, zero, suc, ◌+◌, ◌-◌, ◌*◌, ℤ, pos, negsuc, String, Bool, not, ◌&&◌, ◌||◌, Option, none, some,
  leb, eqb, ◌==◌, if◌then◌else◌,
}
use node_shell.Std.Format.{decimal}
use node_shell.Std.Strings.{trim_space}

-- Whether a text has a character.
unfoldable pub has_code : ℕ → String → Bool
has_code c String.[] = Bool.false
has_code c (String.◌∷◌ x s) = eqb (code x) c || has_code c s

abbrev after_rest : String → Bool → Option (String × String) → Option (String × String)
after_rest s at none = if at then some ("", s) else none
after_rest s at (some p) = some p

abbrev put_front : Char → Option (String × String) → Option (String × String)
put_front c none = none
put_front c (some (front, back)) = some (String.◌∷◌ c front, back)

-- A text before and behind its last, and its first, character of a code.
unfoldable pub split_last : ℕ → String → Option (String × String)
split_last c String.[] = none
split_last c (String.◌∷◌ x s) =
    let later = split_last c s in after_rest s (eqb (code x) c) (put_front x later)

unfoldable pub split_first : ℕ → String → Option (String × String)
split_first c String.[] = none
split_first c (String.◌∷◌ x s) =
    let later = split_first c s in if eqb (code x) c then some ("", s) else put_front x later

abbrev colon : ℕ
colon = b':'

abbrev inside_of : String → String → Option (String × String) → Option (String × String)
inside_of before port none = none
inside_of before port (some (inside, rest)) =
    if before == ("[" +++ (inside +++ "]"))
      && not (has_code b'[' (inside +++ ("]:" +++ port)))
      && not (has_code b']' port)
    then some (inside, port)
    else none

abbrev opened_by : String → Bool
opened_by String.[] = Bool.false
opened_by (String.◌∷◌ x s) = eqb (code x) b'['

abbrev tail_of : String → String
tail_of String.[] = ""
tail_of (String.◌∷◌ x s) = s

abbrev host_port_of : String → Option (String × String) → Option (String × String)
host_port_of s none = none
host_port_of s (some (before, port)) =
    if opened_by s
    then inside_of before port (split_first b']' (tail_of s))
    else if has_code colon before || has_code b'[' s || has_code b']' s
    then none
    else some (before, port)

-- `net.SplitHostPort`, where an error is none.
unfoldable pub split_host_port : String → Option (String × String)
unfolding split_last split_first has_code
split_host_port s = host_port_of s (split_last colon s)

-- `strconv.Atoi`, where an error is none: an int has 64 bits.
abbrev is_digit : ℕ → Bool
is_digit c = leb b'0' c && leb c b'9'

digits_value : ℕ → String → Option ℕ
digits_value n String.[] = some n
digits_value n (String.◌∷◌ x s) =
    let rest = digits_value (n * 10 + (code x - b'0')) s in if is_digit (code x) then rest else none

abbrev positive_of : Option ℕ → Option ℤ
positive_of none = none
positive_of (some n) = if leb n 9223372036854775807 then some (pos n) else none

abbrev negative_of : Option ℕ → Option ℤ
negative_of none = none
negative_of (some zero) = some (pos zero)
negative_of (some (suc n)) = if leb n 9223372036854775807 then some (negsuc n) else none

abbrev unsigned : String → Option ℕ
unfolding digits_value
unsigned s = if s == "" then none else digits_value 0 s

unfoldable pub atoi : String → Option ℤ
unfolding digits_value unsigned
atoi String.[] = none
atoi (String.◌∷◌ x s) =
    if eqb (code x) b'-'
    then negative_of (unsigned s)
    else if eqb (code x) b'+'
    then positive_of (unsigned s)
    else positive_of (unsigned (String.◌∷◌ x s))

-- The split at the last colon, with a front and a back.
abbrev fallback : Option (String × String) → Option (String × String)
fallback none = none
fallback (some (front, back)) = if front == "" || back == "" then none else some (front, back)

abbrev or_else : Option (String × String) → Option (String × String) → Option (String × String)
or_else none o = o
or_else (some p) o = some p

abbrev numbered : Option (String × String) → Option (String × ℤ)
numbered none = none
numbered (some (host, port)) = with_number (atoi port)
  where
    with_number : Option ℤ → Option (String × ℤ)
    with_number none = none
    with_number (some n) = some (host, n)

-- `splitListenAddr`.
unfoldable pub split_listen_addr : String → Option (String × ℤ)
unfolding trim_space split_host_port split_last atoi
split_listen_addr text =
    let s = trim_space text in
    if s == "" then none else numbered (or_else (split_host_port s) (fallback (split_last colon s)))

-- `strings.Trim` of brackets.
abbrev bracket : ℕ → Bool
bracket c = eqb c b'[' || eqb c b']'

trim_front : String → String
trim_front String.[] = ""
trim_front (String.◌∷◌ x s) =
    let rest = trim_front s in if bracket (code x) then rest else String.◌∷◌ x s

trim_back : String → String
trim_back String.[] = ""
trim_back (String.◌∷◌ x s) =
    let rest = trim_back s in if rest == "" && bracket (code x) then "" else String.◌∷◌ x rest

unfoldable pub normalize_bind : String → String
unfolding trim_front trim_back
normalize_bind bind = let b = trim_back (trim_front bind) in if b == "" then "*" else b

-- `net.JoinHostPort`.
unfoldable pub join_host_port : String → String → String
unfolding has_code
join_host_port host port =
    if has_code colon host || has_code b'%' host
    then "[" +++ (host +++ ("]:" +++ port))
    else host +++ (":" +++ port)

-- `DialAddr`.
unfoldable pub dial_addr : String → ℤ → String
unfolding normalize_bind join_host_port decimal
dial_addr bind port =
    let host = normalize_bind bind in
    let to =
      (if host == "0.0.0.0" || host == "*" || host == "::" || host == "::0"
        then "127.0.0.1"
        else host) in
    join_host_port to (decimal port)
