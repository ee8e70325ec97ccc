-- ===== src/Settings/Bounds.antt =====
-- `clampRound` and the normalizers of the numbers: their bounds, and what they leave alone.
use node_shell.Base.{
  ℕ, zero, suc, ◌≤◌, true, false, ltb, eqb, if◌then◌else◌, not, arith, ◌≡◌, refl, inl, inr, ◌⊎◌,
  Bool-cases,
}
use node_shell.Settings.Floats.{
  Float, nan, infinity, dyadic, of_int, finite, scale, shift, nearest, round, at_least, at_most,
  to_int, is_zero, clamp_round, nearest-bounds,
}
use node_shell.Settings.Texts.{
  normalize_terminal_font_size, normalize_mcp_idle_timeout_minutes, normalize_mcp_max_sessions,
  normalize_agent_context_window,
}

abbrev pub IsBetween : ℕ → ℕ → ℕ → Type 0
IsBetween low high n = (low ≤ n) × (n ≤ high)

scale_mono : (a b k : ℕ) → a ≤ b → scale a k ≤ scale b k
unfolding scale
scale_mono a b zero h = h
scale_mono a b (suc k) h = omega (arith, scale_mono a b k h)

-- A whole number is not rounded.
capped_int :
    (low high n : ℕ)
    → low ≤ n
    → low ≤ high
    → IsBetween low high (to_int (round (at_most high (of_int n))))
unfolding at_most round nearest to_int shift scale
capped_int low high n l h = elim (Bool-cases (ltb high n)) [
  | inl x ↦ rw x (h, omega arith)
  | inr x ↦ rw x (l, ground arith)
]

-- A rounding of a number between two whole numbers stays between them.
capped_dyadic :
    (low high m k : ℕ)
    → scale low k ≤ m
    → low ≤ high
    → IsBetween low high (to_int (round (at_most high (dyadic false m k))))
unfolding at_most round to_int shift
capped_dyadic low high m k l h = elim (Bool-cases (ltb (scale high k) m)) [
  | inl x ↦ rw x (unfold nearest in h, unfold nearest in omega arith)
  | inr x ↦ rw x (nearest-bounds low high m k l (ground arith))
]

pub clamp_round-bounds :
    (low high : ℕ) (v : Float)
    → low ≤ high
    → finite v ≡ true
    → IsBetween low high (clamp_round low high v)
unfolding clamp_round at_least finite
clamp_round-bounds low high nan h f = absurd (ground (arith, f))
clamp_round-bounds low high (infinity n) h f = absurd (ground (arith, f))
clamp_round-bounds low high (dyadic true m k) h f = capped_int low high low (omega arith) h
clamp_round-bounds low high (dyadic false m k) h f = elim (Bool-cases (ltb m (scale low k))) [
  | inl x ↦ rw x (capped_int low high low (omega arith) h)
  | inr x ↦ rw x (capped_dyadic low high m k (ground arith) h)
]

pub clamp_round-of_int :
    (low high n : ℕ) → IsBetween low high n → clamp_round low high (of_int n) ≡ n
unfolding clamp_round at_least at_most round nearest to_int shift scale
clamp_round-of_int low high n h = rw (lower, upper) refl
  where
    lower : ltb n low ≡ false
    lower = ground (arith, h)

    upper : ltb high n ≡ false
    upper = ground (arith, h)

-- A normalizer with a default within its bounds.
defaulted :
    (low high default : ℕ) (v : Float)
    → IsBetween low high default
    → low ≤ high
    → IsBetween low high (if not (finite v) then default else clamp_round low high v)
defaulted low high default v d h = elim (Bool-cases (finite v)) [
  | inl x ↦ rw x (clamp_round-bounds low high v h x)
  | inr x ↦ rw x d
]

pub normalize_terminal_font_size-bounds :
    (v : Float) → IsBetween 10 24 (normalize_terminal_font_size v)
unfolding normalize_terminal_font_size
normalize_terminal_font_size-bounds v =
    defaulted 10 24 14 v (omega arith, omega arith) (omega arith)

pub normalize_mcp_idle_timeout_minutes-bounds :
    (v : Float) → IsBetween 1 120 (normalize_mcp_idle_timeout_minutes v)
unfolding normalize_mcp_idle_timeout_minutes
normalize_mcp_idle_timeout_minutes-bounds v =
    defaulted 1 120 10 v (omega arith, omega arith) (omega arith)

pub normalize_mcp_max_sessions-bounds : (v : Float) → IsBetween 1 32 (normalize_mcp_max_sessions v)
unfolding normalize_mcp_max_sessions
normalize_mcp_max_sessions-bounds v = defaulted 1 32 8 v (omega arith, omega arith) (omega arith)

round-finite : (v : Float) → finite (round v) ≡ finite v
unfolding finite round
round-finite nan = refl
round-finite (infinity n) = refl
round-finite (dyadic n m k) = refl

abbrev pub IsWindow : ℕ → Type 0
IsWindow n = (n ≡ 0) ⊎ IsBetween 4096 1048576 n

pub normalize_agent_context_window-bounds :
    (v : Float) → IsWindow (normalize_agent_context_window v)
unfolding normalize_agent_context_window
normalize_agent_context_window-bounds v = elim (Bool-cases (finite v)) [
  | inr x ↦ rw x (inl refl)
  | inl x ↦ elim (Bool-cases (is_zero (round v))) [
    | inl y ↦ rw (x, y) (inl refl)
    | inr y ↦
        rw (x, y)
          (inr (clamp_round-bounds 4096 1048576 (round v) (omega arith) (rw (round-finite v) x)))
  ]
]

pub normalize_agent_context_window-of_int :
    (n : ℕ) → IsWindow n → normalize_agent_context_window (of_int n) ≡ n
unfolding normalize_agent_context_window finite round nearest is_zero
normalize_agent_context_window-of_int n (inl e) = rw e refl
normalize_agent_context_window-of_int n (inr b) =
    rw (nonzero, clamp_round-of_int 4096 1048576 n b) refl
  where
    nonzero : eqb n 0 ≡ false
    nonzero = ground (arith, b)
