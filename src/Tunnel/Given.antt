-- ===== src/Tunnel/Given.antt =====
-- What discovery lists, as a set.
use Prim.Native.Char.{code}
use text.Mathlib.TextEquality.{Char-path}
use node_shell.Base.{
  ◌<◌, ◌≡◌, refl, ap, ◌∙◌, ◌⊎◌, inl, inr, String, Bool, ◌&&◌, ◌||◌, Option, none, some, List, [],
  ◌∷◌, arith, eq_iff,
}
use node_shell.Tunnel.Parse.{
  Listener, lines, parse_line, text_before, before, same_listener, listed, collect, add_new, place,
  sort, parse_listeners,
}

pub text_total :
    (s t : String) → (text_before s t ≡ Bool.true) ⊎ (s ≡ t) ⊎ (text_before t s ≡ Bool.true)
unfolding text_before
text_total String.[] String.[] = inr (inl refl)
text_total String.[] (String.◌∷◌ d t) = inl refl
text_total (String.◌∷◌ c s) String.[] = inr (inr refl)
text_total (String.◌∷◌ c s) (String.◌∷◌ d t) = elim (text_total s t) [
  | inl p ↦ elim (order) [
    | inl lt ↦ inl (ground arith)
    | inr (inl eq) ↦ inl (ground arith)
    | inr (inr gt) ↦ inr (inr (ground arith))
  ]
  | inr (inl e) ↦ elim (order) [
    | inl lt ↦ inl (ground arith)
    | inr (inl eq) ↦
        inr (inl (ap (λ k. String.◌∷◌ k s) (Char-path c d eq) ∙ ap (λ r. String.◌∷◌ d r) e))
    | inr (inr gt) ↦ inr (inr (ground arith))
  ]
  | inr (inr p) ↦ elim (order) [
    | inl lt ↦ inl (ground arith)
    | inr (inl eq) ↦ inr (inr (ground arith))
    | inr (inr gt) ↦ inr (inr (ground arith))
  ]
]
  where
    order : (code c < code d) ⊎ (code c ≡ code d) ⊎ (code d < code c)
    order = omega arith

pub before_total :
    (a b : Listener)
    → same_listener a b ≡ Bool.false
    → before a b ≡ Bool.false
    → before b a ≡ Bool.true
unfolding before
before_total a b n p = elim (text_total a.bind b.bind) [
  | inl q ↦ ground arith
  | inr (inl e) ↦ ground (arith, eq_iff a.bind b.bind)
  | inr (inr q) ↦ ground arith
]

-- Each listener stands before the next.
unfoldable pub ascending : List Listener → Bool
unfolding before
ascending [] = Bool.true
ascending (l ∷ []) = Bool.true
ascending (l ∷ x ∷ xs) = before l x && ascending (x ∷ xs)

pub place-listed :
    (l x : Listener) (xs : List Listener)
    → listed l (place x xs) ≡ (same_listener x l || listed l xs)
unfolding place listed
place-listed l x [] = refl
place-listed l x (y ∷ xs) = ground (arith, place-listed l x xs)

pub sort-listed : (l : Listener) (xs : List Listener) → listed l (sort xs) ≡ listed l xs
unfolding sort listed
sort-listed l [] = refl
sort-listed l (x ∷ xs) =
    place-listed l x (sort xs) ∙ ap (λ b. same_listener x l || b) (sort-listed l xs)

-- What a line gives.
abbrev pub gives : Listener → Option Listener → Bool
gives l none = Bool.false
gives l (some x) = same_listener x l

unfoldable pub given : Listener → List String → Bool
unfolding parse_line
given l [] = Bool.false
given l (line ∷ rest) = gives l (parse_line line) || given l rest

pub listed-same :
    (l x : Listener) (xs : List Listener)
    → same_listener x l ≡ Bool.true
    → listed x xs ≡ listed l xs
unfolding listed
listed-same l x [] e = refl
listed-same l x (y ∷ ys) e =
    ground (
      arith,
      listed-same l x ys e,
      eq_iff x.bind l.bind,
      eq_iff y.bind x.bind,
      eq_iff y.bind l.bind,
    )

pub added-listed :
    (l : Listener) (o : Option Listener) (found : List Listener)
    → listed l (add_new o found) ≡ (gives l o || listed l found)
unfolding listed
added-listed l none found = refl
added-listed l (some x) found = ground (arith, listed-same l x found)

pub collect-listed :
    (l : Listener) (rest : List String) (found : List Listener)
    → listed l (collect rest found) ≡ (given l rest || listed l found)
unfolding collect given
collect-listed l [] found = refl
collect-listed l (line ∷ rest) found =
    collect-listed l rest (add_new (parse_line line) found)
    ∙ (ap (λ b. given l rest || b) (added-listed l (parse_line line) found)
        ∙ swapped (given l rest) (gives l (parse_line line)) (listed l found))
  where
    swapped : (a b c : Bool) → (a || (b || c)) ≡ ((b || a) || c)
    swapped a b c = ground arith

-- Discovery lists exactly the listeners that the lines of the output give.
pub parse_listeners-given :
    (l : Listener) (out : String) → listed l (parse_listeners out) ≡ given l (lines out)
unfolding parse_listeners listed
parse_listeners-given l out =
    sort-listed l (collect (lines out) []) ∙ (collect-listed l (lines out) [] ∙ ground arith)
