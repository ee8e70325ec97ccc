-- ===== src/Std/Paths.antt =====
-- `Clean`, `Join` and `Base` of Go's package path, on the texts of slash-separated paths.
use Prim.Native.Char.{Char, code}
use Prim.Native.String.{◌++◌ as ◌+++◌}
use node_shell.Base.{String, Bool, false, List, [], ◌∷◌, eqb, ◌==◌, if◌then◌else◌, ◌≡◌, refl}

-- Puts a character in front of the first part.
abbrev extend : Char → List String → List String
extend c [] = String.◌∷◌ c "" ∷ []
extend c (p ∷ ps) = String.◌∷◌ c p ∷ ps

-- The parts between the slashes, `strings.Split(p, "/")`.
parts : String → List String
parts String.[] = "" ∷ []
parts (String.◌∷◌ c s) =
    let rest = parts s in if eqb (code c) b'/' then "" ∷ rest else extend c rest

-- Drops empty parts and ".", and lets ".." take the part before it; the stack is in reverse.
reduce : Bool → List String → List String → List String
reduce rooted stack [] = stack
reduce rooted stack (p ∷ ps) = reduce rooted (push stack) ps
  where
    dotdot : List String → List String
    dotdot [] = if rooted then [] else ".." ∷ []
    dotdot (q ∷ qs) = if q == ".." then ".." ∷ q ∷ qs else qs

    push : List String → List String
    push st =
        if p == "" then st else if p == "." then st else if p == ".." then dotdot st else p ∷ st

-- The parts of a reversed stack, joined by slashes in front of a tail.
join_reversed : List String → String → String
join_reversed [] tail = tail
join_reversed (p ∷ []) tail = p +++ tail
join_reversed (p ∷ q ∷ ps) tail = join_reversed (q ∷ ps) ("/" +++ (p +++ tail))

abbrev starts_with_slash : String → Bool
starts_with_slash String.[] = false
starts_with_slash (String.◌∷◌ c s) = eqb (code c) b'/'

unfoldable pub clean : String → String
unfolding parts reduce join_reversed
clean p =
    let rooted = starts_with_slash p in
    let body = join_reversed (reduce rooted [] (parts p)) "" in
    if rooted then "/" +++ body else if body == "" then "." else body

-- `path.Join` of two elements: empty elements are dropped, and no element gives the empty path.
unfoldable pub join : String → String → String
unfolding clean
join a b =
    if a == ""
    then (if b == "" then "" else clean b)
    else if b == ""
    then clean a
    else clean (a +++ ("/" +++ b))

-- The last part that is not empty.
last_part : String → List String → String
last_part found [] = found
last_part found (p ∷ ps) = last_part (if p == "" then found else p) ps

-- `path.Base`: "." of the empty path, "/" of a path of slashes alone.
unfoldable pub base : String → String
unfolding parts last_part
base p = if p == "" then "." else let b = last_part "" (parts p) in if b == "" then "/" else b

join_examples :
    (join "/a/b" "c" ≡ "/a/b/c")
    × (join "/a/" "../x" ≡ "/x")
    × (join "" "f" ≡ "f")
    × (join "/" "" ≡ "/")
unfolding join
join_examples = (refl, refl, refl, refl)

base_examples :
    (base "/a/b.txt" ≡ "b.txt") × (base "/a/b/" ≡ "b") × (base "//" ≡ "/") × (base "" ≡ ".")
unfolding base
base_examples = (refl, refl, refl, refl)
