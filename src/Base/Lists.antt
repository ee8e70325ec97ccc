-- ===== src/Base/Lists.antt =====
-- Lists measured by native numbers, and Boolean membership of texts.
use Prim.Native.Nat.{ℕ, zero, suc, ◌+◌, ◌-◌}
use Prim.Native.String.{String}
use mathlib.Core.Path.{◌≡◌, refl, ap}
use mathlib.Core.Bool.{Bool, true, false, not, ◌&&◌, ◌||◌}
use mathlib.Core.List.{List, [], ◌∷◌, ◌++◌}
use native.Mathlib.Omega.{arith}
use text.Mathlib.Text.{◌==◌}
use text.Mathlib.TextEquality.{eq_iff}
use node_shell.Base.Tests.{if◌then◌else◌}

module _ {ℓ} {A : Type ℓ} where
  abbrev pub length : List A → ℕ
  length [] = 0
  length (x ∷ xs) = suc (length xs)

  abbrev pub take : ℕ → List A → List A
  take zero xs = []
  take (suc n) [] = []
  take (suc n) (x ∷ xs) = x ∷ take n xs

  abbrev pub drop : ℕ → List A → List A
  drop zero xs = xs
  drop (suc n) [] = []
  drop (suc n) (x ∷ xs) = drop n xs

  pub length-append : (xs ys : List A) → length (xs ++ ys) ≡ length xs + length ys
  length-append [] ys = omega arith
  length-append (x ∷ xs) ys = omega (arith, length-append xs ys)

  pub length-drop : (n : ℕ) (xs : List A) → length (drop n xs) ≡ length xs - n
  length-drop zero xs = omega arith
  length-drop (suc n) [] = omega arith
  length-drop (suc n) (x ∷ xs) = omega (arith, length-drop n xs)

  pub take-append-drop : (n : ℕ) (xs : List A) → take n xs ++ drop n xs ≡ xs
  take-append-drop zero xs = refl
  take-append-drop (suc n) [] = refl
  take-append-drop (suc n) (x ∷ xs) = ap (λ l. x ∷ l) (take-append-drop n xs)

unfoldable pub contains : String → List String → Bool
contains k [] = false
contains k (j ∷ js) = j == k || contains k js

unfoldable pub distinct : List String → Bool
unfolding contains
distinct [] = true
distinct (j ∷ js) = not (contains j js) && distinct js

-- The list without the first element that equals the key.
unfoldable pub remove_first : String → List String → List String
remove_first k [] = []
remove_first k (j ∷ js) = if j == k then js else j ∷ remove_first k js

pub contains-append :
    (k : String) (xs ys : List String) → contains k (xs ++ ys) ≡ (contains k xs || contains k ys)
unfolding contains
contains-append k [] ys = refl
contains-append k (x ∷ xs) ys = ground (arith, contains-append k xs ys)

pub contains-remove_first :
    (k j : String) (js : List String)
    → distinct js ≡ true
    → contains j (remove_first k js) ≡ (if k == j then false else contains j js)
unfolding contains distinct remove_first
contains-remove_first k j [] d = ground arith
contains-remove_first k j (i ∷ js) d =
    ground (arith, contains-remove_first k j js, eq_iff k j, eq_iff i k, eq_iff i j)

pub distinct-remove_first :
    (k : String) (js : List String) → distinct js ≡ true → distinct (remove_first k js) ≡ true
unfolding distinct remove_first
distinct-remove_first k [] d = refl
distinct-remove_first k (i ∷ js) d =
    ground (arith, distinct-remove_first k js, contains-remove_first k i js, eq_iff i k, eq_iff k i)

pub distinct-append_one :
    (k : String) (js : List String)
    → distinct js ≡ true
    → contains k js ≡ false
    → distinct (js ++ k ∷ []) ≡ true
unfolding distinct contains
distinct-append_one k [] d c = refl
distinct-append_one k (i ∷ js) d c =
    ground (arith, distinct-append_one k js, contains-append i js (k ∷ []), eq_iff i k, eq_iff k i)

-- A property of every element.
abbrev pub All {ℓ κ} : {A : Type ℓ} → (A → Type κ) → List A → Type κ
All P [] = Unit
All P (x ∷ xs) = P x × All P xs

module _ {ℓ κ} {A : Type ℓ} (P : A → Type κ) where
  pub All-drop : (n : ℕ) (xs : List A) → All P xs → All P (drop n xs)
  All-drop zero xs h = h
  All-drop (suc n) [] h = h
  All-drop (suc n) (x ∷ xs) h = All-drop n xs h.1

  pub All-take : (n : ℕ) (xs : List A) → All P xs → All P (take n xs)
  All-take zero xs h = tt
  All-take (suc n) [] h = tt
  All-take (suc n) (x ∷ xs) h = (h.0, All-take n xs h.1)

pub All-map {ℓ κ κ'} :
    {A : Type ℓ} {P : A → Type κ} {Q : A → Type κ'} (f : (x : A) → P x → Q x) (xs : List A)
    → All P xs
    → All Q xs
All-map f [] h = tt
All-map f (x ∷ xs) h = (f x h.0, All-map f xs h.1)
