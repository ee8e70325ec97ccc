-- ===== src/Batcher/Take.antt =====
-- What a take of pending bytes gives.
use node_shell.Base.{
  ℕ, zero, suc, ◌-◌, ◌≤◌, ◌<◌, ◌≡◌, refl, Bool, true, false, List, [], ◌∷◌, ◌++◌, length, take, eqb,
  if◌then◌else◌, arith, take-append-drop,
}
use node_shell.Batcher.Utf8.{rune_floor, utf8_prefix_len, trailing_partial_len}
use node_shell.Batcher.State.{max_flush_bytes, take_len, take_locked}

pub rune_floor-le : (bs : List ℕ) (n : ℕ) → rune_floor bs n ≤ n
unfolding rune_floor
rune_floor-le bs zero = omega arith
rune_floor-le bs (suc n) = ground (arith, rune_floor-le bs n)

utf8_prefix_len-le :
    (bs : List ℕ) (limit : ℕ)
    → (utf8_prefix_len bs limit ≤ limit) × (utf8_prefix_len bs limit ≤ length bs)
unfolding utf8_prefix_len
utf8_prefix_len-le bs limit = ground (arith, rune_floor-le bs limit)

trailing_partial_len-le : (bs : List ℕ) → trailing_partial_len bs ≤ length bs
unfolding trailing_partial_len
trailing_partial_len-le bs = ground (arith, rune_floor-le bs (length bs - 1))

take_len-le :
    (limit : ℕ) (final : Bool) (bs : List ℕ)
    → (take_len limit final bs ≤ limit) × (take_len limit final bs ≤ length bs)
unfolding take_len
take_len-le limit true bs = ground (arith, utf8_prefix_len-le bs limit)
take_len-le limit false bs = ground (arith, utf8_prefix_len-le bs limit)

pub length-take : (n : ℕ) (bs : List ℕ) → n ≤ length bs → length (take n bs) ≡ n
length-take zero bs h = refl
length-take (suc n) [] h = absurd (omega arith)
length-take (suc n) (b ∷ bs) h = omega (arith, length-take n bs (omega arith))

-- A take loses nothing.
pub take_locked-whole :
    (max : ℕ) (final : Bool) (bs : List ℕ)
    → (take_locked max final bs).0 ++ (take_locked max final bs).1 ≡ bs
unfolding take_locked
take_locked-whole max final [] = refl
take_locked-whole max final (b ∷ bs) =
    take-append-drop (take_len (if eqb max 0 then max_flush_bytes else max) final (b ∷ bs)) (b ∷ bs)

-- And stays within the limit.
pub take_locked-le :
    (max : ℕ) (final : Bool) (bs : List ℕ) → 0 < max → length (take_locked max final bs).0 ≤ max
unfolding take_locked
take_locked-le max final [] h = omega arith
take_locked-le max final (b ∷ bs) h =
    let z : eqb max 0 ≡ false = ground arith in
    let (below, within) = take_len-le max final (b ∷ bs) in
    rw z (omega (arith, below, within, length-take (take_len max final (b ∷ bs)) (b ∷ bs) within))

-- The last takes always take something.
pub take_locked-final :
    (max : ℕ) (bs : List ℕ) → 0 < max → 0 < length bs → 0 < length (take_locked max true bs).0
unfolding take_locked take_len
take_locked-final max [] h l = absurd (omega arith)
take_locked-final max (b ∷ bs) h l =
    let z : eqb max 0 ≡ false = ground arith in
    let (below, within) = take_len-le max true (b ∷ bs) in
    rw z (ground (arith, length-take (take_len max true (b ∷ bs)) (b ∷ bs) within))
