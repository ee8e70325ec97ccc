-- ===== src/Std/Strings/Trims.antt =====
-- `TrimSpace` of a trimmed text.
use Prim.Native.Char.{Char, code}
use mathlib.Core.Path.{subst}
use node_shell.Base.{
  ℕ, String, Bool, true, false, ◌&&◌, ◌==◌, if◌then◌else◌, if_cases, ◌≡◌, refl, ap, sym, ◌∙◌, inl,
  inr, Bool-cases,
}
use node_shell.Std.Strings.{is_space_code, trim_left, trim_right, trim_space}

-- The text is empty or starts with no space.
abbrev starts_full : String → Bool
starts_full String.[] = true
starts_full (String.◌∷◌ c s) = if is_space_code (code c) then false else true

trim_left-full : (s : String) → starts_full (trim_left s) ≡ true
unfolding trim_left
trim_left-full String.[] = refl
trim_left-full (String.◌∷◌ c s) =
    if_cases (λ t. starts_full t ≡ true) (is_space_code (code c)) (trim_left s) (String.◌∷◌ c s)
      (λ e. trim_left-full s) (λ e. rw e refl)

full-trim_left : (s : String) → starts_full s ≡ true → trim_left s ≡ s
full-trim_left String.[] h = unfold trim_left in refl
full-trim_left (String.◌∷◌ c s) h = elim (Bool-cases (is_space_code (code c))) [
  | inl e ↦ cc
  | inr e ↦ unfold trim_left in rw e refl
]

module _ (cut : ℕ → Bool) where
  -- A turn of `trim_right`, behind what it makes of the rest.
  abbrev keep : Char → String → String
  keep c rest = if rest == "" && cut (code c) then "" else String.◌∷◌ c rest

  keep-full :
      (c : Char) (rest : String)
      → starts_full (String.◌∷◌ c "") ≡ true
      → starts_full (keep c rest) ≡ true
  keep-full c rest h =
      if_cases (λ t. starts_full t ≡ true) (rest == "" && cut (code c)) "" (String.◌∷◌ c rest)
        (λ e. refl) (λ e. h)

  trim_right-full : (s : String) → starts_full s ≡ true → starts_full (trim_right cut s) ≡ true
  trim_right-full String.[] h = unfold trim_right in refl
  trim_right-full (String.◌∷◌ c s) h = unfold trim_right in keep-full c (trim_right cut s) h

  keep_twice :
      (c : Char) (rest : String)
      → trim_right cut rest ≡ rest
      → trim_right cut (keep c rest) ≡ keep c rest
  keep_twice c rest h = elim (Bool-cases (rest == "" && cut (code c))) [
    | inl e ↦ rw e (unfold trim_right in refl)
    | inr e ↦ rw e (again e)
  ]
    where
      again :
          (rest == "" && cut (code c)) ≡ false
          → trim_right cut (String.◌∷◌ c rest) ≡ String.◌∷◌ c rest
      again e = unfold trim_right in rw (h, e) refl

  turn_lem : (c : Char) (s : String) → trim_right cut (String.◌∷◌ c s) ≡ keep c (trim_right cut s)
  unfolding trim_right
  turn_lem c s = refl

  -- A text trimmed at its end is trimmed to itself there.
  pub trim_right_twice : (s : String) → trim_right cut (trim_right cut s) ≡ trim_right cut s
  trim_right_twice String.[] = unfold trim_right in refl
  trim_right_twice (String.◌∷◌ c s) = turn c s (trim_right_twice s)
    where
      turn :
          (d : Char) (t : String)
          → trim_right cut (trim_right cut t) ≡ trim_right cut t
          → trim_right cut (trim_right cut (String.◌∷◌ d t)) ≡ trim_right cut (String.◌∷◌ d t)
      turn d t h =
          subst (λ (x : String). trim_right cut x ≡ x) (sym (turn_lem d t))
            (keep_twice d (trim_right cut t) h)

-- A trimmed text is trimmed to itself.
pub trim_space_twice : (s : String) → trim_space (trim_space s) ≡ trim_space s
unfolding trim_space
trim_space_twice s =
    ap (trim_right is_space_code) (
      full-trim_left (trim_right is_space_code (trim_left s))
        (trim_right-full is_space_code (trim_left s) (trim_left-full s)))
    ∙ trim_right_twice is_space_code (trim_left s)
