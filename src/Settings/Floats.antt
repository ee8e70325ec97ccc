-- ===== src/Settings/Floats.antt =====
-- The numbers of the settings: float64 as Go has it, and `clampRound`.
use node_shell.Base.{
  ℕ, zero, suc, ◌+◌, ◌*◌, ◌/◌, ◌≤◌, Bool, true, false, ltb, eqb, if◌then◌else◌, arith,
}

-- Every finite float64 is a whole number over a power of two: `dyadic true m k` is -m / 2 ^ k.
pub data Float : Type 0 where
  nan : Float
  infinity : Bool → Float
  dyadic : Bool → ℕ → ℕ → Float

abbrev pub of_int : ℕ → Float
of_int n = dyadic false n 0

unfoldable pub finite : Float → Bool
finite nan = false
finite (infinity negative) = false
finite (dyadic negative m k) = true

-- n * 2 ^ k, and m / 2 ^ k rounded down.
unfoldable pub scale : ℕ → ℕ → ℕ
scale n zero = n
scale n (suc k) = 2 * scale n k

unfoldable pub shift : ℕ → ℕ → ℕ
shift m zero = m
shift m (suc k) = shift (m / 2) k

-- `math.Max(float64(n), v)` and `math.Min(float64(n), v)`, for a whole number n above zero.
unfoldable pub at_least : ℕ → Float → Float
unfolding scale
at_least n nan = nan
at_least n (infinity true) = of_int n
at_least n (infinity false) = infinity false
at_least n (dyadic true m k) = of_int n
at_least n (dyadic false m k) = if ltb m (scale n k) then of_int n else dyadic false m k

unfoldable pub at_most : ℕ → Float → Float
unfolding scale
at_most n nan = nan
at_most n (infinity true) = infinity true
at_most n (infinity false) = of_int n
at_most n (dyadic true m k) = dyadic true m k
at_most n (dyadic false m k) = if ltb (scale n k) m then of_int n else dyadic false m k

-- The whole number next to m / 2 ^ k, a half away from zero.
unfoldable pub nearest : ℕ → ℕ → ℕ
unfolding shift
nearest m zero = m
nearest m (suc k) = (shift m k + 1) / 2

-- `math.Round`.
unfoldable pub round : Float → Float
unfolding nearest
round nan = nan
round (infinity negative) = infinity negative
round (dyadic negative m k) = dyadic negative (nearest m k) 0

-- The conversion to int. It is only applied to whole numbers from zero on.
unfoldable pub to_int : Float → ℕ
unfolding shift
to_int (dyadic false m k) = shift m k
to_int _ = 0

unfoldable pub is_zero : Float → Bool
is_zero (dyadic negative m k) = eqb m 0
is_zero _ = false

unfoldable pub clamp_round : ℕ → ℕ → Float → ℕ
unfolding round at_most at_least to_int
clamp_round low high v = to_int (round (at_most high (at_least low v)))

shift-low : (n m k : ℕ) → scale n k ≤ m → n ≤ shift m k
unfolding scale shift
shift-low n m zero h = omega (arith, h)
shift-low n m (suc k) h = shift-low n (m / 2) k (omega (arith, h))

shift-high : (n m k : ℕ) → m ≤ scale n (suc k) → shift m k ≤ 2 * n
unfolding scale shift
shift-high n m zero h = omega (arith, h)
shift-high n m (suc k) h = shift-high n (m / 2) k (omega (arith, h))

shift-low_twice : (n m k : ℕ) → scale n (suc k) ≤ m → 2 * n ≤ shift m k
unfolding scale shift
shift-low_twice n m zero h = omega (arith, h)
shift-low_twice n m (suc k) h = shift-low_twice n (m / 2) k (omega (arith, h))

pub nearest-bounds :
    (low high m k : ℕ)
    → scale low k ≤ m
    → m ≤ scale high k
    → (low ≤ nearest m k) × (nearest m k ≤ high)
unfolding nearest
nearest-bounds low high m zero l h = unfold scale in (omega (arith, l), omega (arith, h))
nearest-bounds low high m (suc k) l h =
    (omega (arith, shift-low_twice low m k l), omega (arith, shift-high high m k h))
