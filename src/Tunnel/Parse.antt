-- ===== src/Tunnel/Parse.antt =====
-- internal/tunnel/parse.go: `ParseListeners`.
use Prim.Native.Char.{code, Char}
use node_shell.Base.{
  ℕ, ℤ, pos, negsuc, String, Bool, not, ◌&&◌, ◌||◌, Option, none, some, List, [], ◌∷◌, ltb, leb,
  eqb, ◌==◌, if◌then◌else◌, contains,
}
use node_shell.Std.Strings.{trim_space, is_space_code}
use node_shell.Tunnel.Address.{split_listen_addr, normalize_bind}

pub record Listener : Type 0 where
  pub bind : String
  pub port : ℕ

abbrev push : Char → List String → List String
push c [] = String.◌∷◌ c "" ∷ []
push c (piece ∷ pieces) = String.◌∷◌ c piece ∷ pieces

-- `strings.Split` at new lines.
unfoldable pub lines : String → List String
lines String.[] = "" ∷ []
lines (String.◌∷◌ c s) = let rest = lines s in if eqb (code c) b'\n' then "" ∷ rest else push c rest

drop_empty : List String → List String
drop_empty [] = []
drop_empty (piece ∷ pieces) =
    let rest = drop_empty pieces in if piece == "" then rest else piece ∷ rest

pieces : String → List String
pieces String.[] = "" ∷ []
pieces (String.◌∷◌ c s) =
    let rest = pieces s in if is_space_code (code c) then "" ∷ rest else push c rest

-- `strings.Fields`.
unfoldable pub fields : String → List String
unfolding drop_empty pieces
fields s = drop_empty (pieces s)

unfoldable pub is_listen_line : List String → Bool
unfolding contains
is_listen_line fs = contains "LISTEN" fs

abbrev is_address : String → Bool
unfolding split_listen_addr
is_address s = elim (split_listen_addr s) [ none ↦ Bool.false | some p ↦ Bool.true ]

abbrev is_word : String → Bool
is_word f = f == "LISTEN" || f == "tcp" || f == "tcp6" || f == "tcp4"

unfoldable pub first_address : List String → String
unfolding split_listen_addr is_address
first_address [] = ""
first_address (f ∷ fs) =
    let rest = first_address fs in if is_word f then rest else if is_address f then f else rest

abbrev pub fourth : List String → Option String
fourth (a ∷ b ∷ c ∷ d ∷ fs) = some d
fourth _ = none

abbrev field_of : List String → Option String → String
unfolding split_listen_addr is_address first_address
field_of fs none = first_address fs
field_of fs (some f) = if is_address f then f else first_address fs

unfoldable pub local_address_field : List String → String
unfolding field_of
local_address_field fs = field_of fs (fourth fs)

abbrev member : ℕ → List ℕ → Bool
member n [] = Bool.false
member n (m ∷ ms) = eqb m n || member n ms

abbrev system_ports : List ℕ
system_ports =
    22 ∷ 23 ∷ 25 ∷ 37 ∷ 53 ∷ 67 ∷ 68 ∷ 69 ∷ 88 ∷ 110 ∷ 111 ∷ 113 ∷ 123 ∷ 135 ∷ 137 ∷ 138 ∷ 139 ∷ 143
    ∷ 161 ∷ 162 ∷ 177 ∷ 389 ∷ 427 ∷ 445 ∷ 464 ∷ 465 ∷ 512 ∷ 513 ∷ 514 ∷ 515 ∷ 530 ∷ 543 ∷ 544 ∷ 548
    ∷ 587 ∷ 631 ∷ 636 ∷ 993 ∷ 995 ∷ 2049 ∷ 3268 ∷ 3269 ∷ 5353 ∷ 5355 ∷ 9100 ∷ []

unfoldable pub is_system_port : ℕ → Bool
is_system_port port = member port system_ports || (leb 6000 port && leb port 6063)

-- A port that is in range and that discovery shows.
abbrev pub shown : ℤ → Option ℕ
shown (pos n) = if leb n 0 || ltb 65535 n || is_system_port n then none else some n
shown (negsuc n) = none

abbrev pub listener_at : String → Option ℕ → Option Listener
listener_at bind none = none
listener_at bind (some n) = some (record { bind = bind; port = n })

abbrev pub listener_of : Option (String × ℤ) → Option Listener
listener_of none = none
listener_of (some (bind, port)) = listener_at (normalize_bind bind) (shown port)

-- The listener of one line, if it has one.
unfoldable pub parse_line : String → Option Listener
unfolding trim_space fields is_listen_line local_address_field split_listen_addr normalize_bind
    is_system_port
parse_line text =
    let line = trim_space text in
    if line == ""
    then none
    else if not (is_listen_line (fields line))
    then none
    else listener_of (split_listen_addr (local_address_field (fields line)))

-- Go's `<` on texts, whose bytes are ordered as their code points are.
unfoldable pub text_before : String → String → Bool
text_before String.[] String.[] = Bool.false
text_before String.[] (String.◌∷◌ d t) = Bool.true
text_before (String.◌∷◌ c s) String.[] = Bool.false
text_before (String.◌∷◌ c s) (String.◌∷◌ d t) =
    let rest = text_before s t in
    if ltb (code c) (code d) then Bool.true else if ltb (code d) (code c) then Bool.false else rest

-- The order of the list, by port and then by address.
unfoldable pub before : Listener → Listener → Bool
unfolding text_before
before a b = if eqb a.port b.port then text_before a.bind b.bind else ltb a.port b.port

abbrev pub same_listener : Listener → Listener → Bool
same_listener a b = a.bind == b.bind && eqb a.port b.port

unfoldable pub listed : Listener → List Listener → Bool
listed l [] = Bool.false
listed l (x ∷ xs) = same_listener x l || listed l xs

abbrev pub add_new : Option Listener → List Listener → List Listener
add_new none found = found
add_new (some l) found = if listed l found then found else l ∷ found

-- The loop over the lines, which keeps the first of each listener. The list is the reverse of the code's,
-- which is sorted behind the loop.
unfoldable pub collect : List String → List Listener → List Listener
unfolding parse_line listed
collect [] found = found
collect (line ∷ rest) found = collect rest (add_new (parse_line line) found)

unfoldable pub place : Listener → List Listener → List Listener
unfolding before
place l [] = l ∷ []
place l (x ∷ xs) = let rest = place l xs in if before l x then l ∷ x ∷ xs else x ∷ rest

unfoldable pub sort : List Listener → List Listener
unfolding place
sort [] = []
sort (l ∷ ls) = place l (sort ls)

unfoldable pub parse_listeners : String → List Listener
unfolding lines collect sort
parse_listeners out = sort (collect (lines out) [])
