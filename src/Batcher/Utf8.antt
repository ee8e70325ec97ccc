-- ===== src/Batcher/Utf8.antt =====
-- internal/sessions/batcher.go: where a buffer may be cut. A byte is a number below 256.
use node_shell.Base.{
  ℕ, zero, suc, ◌-◌, Bool, not, ◌&&◌, List, [], ◌∷◌, length, ltb, leb, eqb, if◌then◌else◌,
}

-- The byte of an index, which the code keeps within the buffer.
unfoldable pub byte_at : List ℕ → ℕ → ℕ
byte_at [] i = 0
byte_at (b ∷ bs) zero = b
byte_at (b ∷ bs) (suc i) = byte_at bs i

-- `utf8.RuneStart`: no continuation byte.
unfoldable pub rune_start : ℕ → Bool
rune_start b = not (leb 128 b && ltb b 192)

-- The loops of `utf8PrefixLen` and `trailingPartialLen` that walk back over continuation bytes.
unfoldable pub rune_floor : List ℕ → ℕ → ℕ
unfolding byte_at rune_start
rune_floor bs zero = zero
rune_floor bs (suc n) =
    let below = rune_floor bs n in if rune_start (byte_at bs (suc n)) then suc n else below

unfoldable pub utf8_prefix_len : List ℕ → ℕ → ℕ
unfolding rune_floor
utf8_prefix_len bs limit = if leb (length bs) limit then length bs else rune_floor bs limit

-- `utf8Len`, of a lead byte.
unfoldable pub utf8_len : ℕ → ℕ
utf8_len lead = if ltb lead 224 then 2 else if ltb lead 240 then 3 else 4

unfoldable pub trailing_partial_len : List ℕ → ℕ
unfolding byte_at rune_floor utf8_len
trailing_partial_len bs =
    let n = length bs in
    let i = rune_floor bs (n - 1) in
    let lead = byte_at bs i in
    if eqb n 0
    then 0
    else if ltb (byte_at bs (n - 1)) 128
    then 0
    else if leb 192 lead && ltb lead 248
    then (if ltb (n - 1 - i) (utf8_len lead - 1) then n - i else 0)
    else 0
