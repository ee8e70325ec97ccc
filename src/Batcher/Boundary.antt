-- ===== src/Batcher/Boundary.antt =====
-- Where takes cut the bytes, and when a take may give nothing.
use node_shell.Base.{
  ℕ, zero, suc, ◌+◌, ◌-◌, ◌≤◌, ◌<◌, ◌≡◌, refl, true, false, ◌&&◌, List, [], ◌∷◌, length, take, drop,
  ltb, leb, eqb, arith, if_cases, Bool-cases, inl, inr, ◌⊎◌, ◌∙◌, sym, ap,
}
use node_shell.Batcher.Utf8.{
  byte_at, rune_start, rune_floor, utf8_prefix_len, utf8_len, trailing_partial_len,
}
use node_shell.Batcher.State.{take_len, take_locked}
use node_shell.Batcher.Take.{rune_floor-le, length-take}

rune_floor-start :
    (bs : List ℕ) (n : ℕ) → 0 < rune_floor bs n → rune_start (byte_at bs (rune_floor bs n)) ≡ true
unfolding rune_floor
rune_floor-start bs zero h = absurd (omega (arith, h))
rune_floor-start bs (suc n) h = ground (arith, rune_floor-start bs n)

rune_floor-ge :
    (bs : List ℕ) (n k : ℕ) → k ≤ n → rune_start (byte_at bs k) ≡ true → k ≤ rune_floor bs n
unfolding rune_floor
rune_floor-ge bs zero k l s = omega (arith, l)
rune_floor-ge bs (suc n) k l s = elim (Bool-cases (ltb n k)) [
  | inl x ↦
      (let e : k ≡ suc n = ground arith in
        let t : rune_start (byte_at bs (suc n)) ≡ true = rw e at s in ground arith)
  | inr x ↦ ground (arith, rune_floor-ge bs n k)
]

rune_floor-zero :
    (bs : List ℕ) (n : ℕ)
    → ((i : ℕ) → 0 < i → i ≤ n → rune_start (byte_at bs i) ≡ false)
    → rune_floor bs n ≡ 0
unfolding rune_floor
rune_floor-zero bs zero h = refl
rune_floor-zero bs (suc n) h =
    rw (h (suc n) (omega arith) (omega arith))
      (rune_floor-zero bs n (λ i a b. h i a (omega (arith, b))))

trailing_partial_len-lt : (bs : List ℕ) → trailing_partial_len bs < 4
unfolding trailing_partial_len utf8_len
trailing_partial_len-lt bs = ground arith

-- What is held back begins with the lead byte of a rune.
abbrev HeldBack : List ℕ → ℕ → Type 0
HeldBack bs t =
    (t ≡ 0) ⊎ ((i : ℕ) × (t + i ≡ length bs) × (0 < t) × (rune_start (byte_at bs i) ≡ true))

trailing_partial_len-HeldBack : (bs : List ℕ) → HeldBack bs (trailing_partial_len bs)
unfolding trailing_partial_len rune_start
trailing_partial_len-HeldBack bs =
    let n = length bs in
    let i = rune_floor bs (n - 1) in
    let lead = byte_at bs i in
    if_cases (HeldBack bs) (eqb n 0) _ _ (λ a. inl refl)
      (λ a.
        if_cases (HeldBack bs) (ltb (byte_at bs (n - 1)) 128) _ _ (λ b. inl refl)
          (λ b.
            if_cases (HeldBack bs) (leb 192 lead && ltb lead 248) _ _
              (λ c.
                if_cases (HeldBack bs) (ltb (n - 1 - i) (utf8_len lead - 1)) _ _
                  (λ d. inr (
                    i,
                    ground (arith, rune_floor-le bs (n - 1)),
                    ground (arith, rune_floor-le bs (n - 1)),
                    ground arith,
                  ))
                  (λ d. inl refl))
              (λ c. inl refl)))

byte_at-take : (n i : ℕ) (bs : List ℕ) → i < n → byte_at (take n bs) i ≡ byte_at bs i
unfolding byte_at
byte_at-take zero i bs h = absurd (omega (arith, h))
byte_at-take (suc n) i [] h = refl
byte_at-take (suc n) zero (b ∷ bs) h = refl
byte_at-take (suc n) (suc i) (b ∷ bs) h = byte_at-take n i bs (omega (arith, h))

cut_at_start :
    (bs : List ℕ) (n t : ℕ)
    → n ≤ length bs
    → (n < length bs → rune_start (byte_at bs n) ≡ true)
    → HeldBack (take n bs) t
    → n - t < length bs
    → rune_start (byte_at bs (n - t)) ≡ true
cut_at_start bs n t within start (inl e) l =
    let e' : n - t ≡ n = omega (arith, e) in rw e' (start (omega (arith, e, l)))
cut_at_start bs n t within start (inr (i, e, p, s)) l =
    let e' : n - t ≡ i = omega (arith, e, length-take n bs within) in
    rw e'
      (sym (ap rune_start (byte_at-take n i bs (omega (arith, e, p, length-take n bs within)))) ∙ s)

prefix-start :
    (bs : List ℕ) (limit : ℕ)
    → 0 < utf8_prefix_len bs limit
    → utf8_prefix_len bs limit < length bs
    → rune_start (byte_at bs (utf8_prefix_len bs limit)) ≡ true
unfolding utf8_prefix_len
prefix-start bs limit =
    if_cases (λ (n : ℕ). 0 < n → n < length bs → rune_start (byte_at bs n) ≡ true)
      (leb (length bs) limit) _ _ (λ x p l. absurd (omega (arith, l)))
      (λ x p l. rune_floor-start bs limit p)

prefix-le : (bs : List ℕ) (limit : ℕ) → utf8_prefix_len bs limit ≤ length bs
unfolding utf8_prefix_len
prefix-le bs limit = ground (arith, rune_floor-le bs limit)

take_len-start :
    (limit : ℕ) (bs : List ℕ)
    → 0 < take_len limit false bs
    → take_len limit false bs < length bs
    → rune_start (byte_at bs (take_len limit false bs)) ≡ true
unfolding take_len
take_len-start limit bs =
    let n = utf8_prefix_len bs limit in
    if_cases (λ (k : ℕ). 0 < k → k < length bs → rune_start (byte_at bs k) ≡ true) (eqb n 0) _ _
      (λ x p l. absurd (omega (arith, p)))
      (λ x p l.
        cut_at_start bs n (trailing_partial_len (take n bs)) (prefix-le bs limit)
          (λ k. prefix-start bs limit (ground arith) k) (trailing_partial_len-HeldBack (take n bs))
          l)

byte_at-drop : (n : ℕ) (bs : List ℕ) → byte_at (drop n bs) 0 ≡ byte_at bs n
unfolding byte_at
byte_at-drop zero [] = refl
byte_at-drop zero (b ∷ bs) = refl
byte_at-drop (suc n) [] = refl
byte_at-drop (suc n) (b ∷ bs) = byte_at-drop n bs

length-drop_pos : (n : ℕ) (bs : List ℕ) → 0 < length (drop n bs) → n < length bs
length-drop_pos zero bs h = h
length-drop_pos (suc n) [] h = absurd (omega (arith, h))
length-drop_pos (suc n) (b ∷ bs) h = omega (arith, length-drop_pos n bs h)

-- Where a take that is not the last takes some bytes and leaves some, the rest begins with a byte that
-- starts a rune: no rune is cut.
pub take_locked-start :
    (max : ℕ) (bs : List ℕ)
    → 0 < max
    → 0 < length (take_locked max false bs).0
    → 0 < length (take_locked max false bs).1
    → rune_start (byte_at (take_locked max false bs).1 0) ≡ true
unfolding take_locked
take_locked-start max [] h = λ p q. absurd (omega (arith, p))
take_locked-start max (b ∷ bs) h =
    let z : eqb max 0 ≡ false = ground arith in
    let n = take_len max false (b ∷ bs) in
    rw z (λ p q.
      ap rune_start (byte_at-drop n (b ∷ bs))
      ∙ take_len-start max (b ∷ bs) (some_of n (b ∷ bs) p) (length-drop_pos n (b ∷ bs) q))
  where
    some_of : (n : ℕ) (cs : List ℕ) → 0 < length (take n cs) → 0 < n
    some_of zero cs p = p
    some_of (suc n) cs p = omega arith

-- A buffer above the cap gives a batch if a rune starts among its bytes from the fifth up to the one
-- behind the cap.
pub take_locked-moves :
    (max : ℕ) (bs : List ℕ) (k : ℕ)
    → max < length bs
    → 4 ≤ k
    → k ≤ max
    → rune_start (byte_at bs k) ≡ true
    → 0 < length (take_locked max false bs).0
unfolding take_locked take_len utf8_prefix_len
take_locked-moves max [] k l f h s = absurd (omega (arith, l))
take_locked-moves max (b ∷ bs) k l f h s =
    let z : eqb max 0 ≡ false = ground arith in
    let w : leb (length (b ∷ bs)) max ≡ false = ground arith in
    let n = rune_floor (b ∷ bs) max in
    let t : eqb n 0 ≡ false = ground (arith, rune_floor-ge (b ∷ bs) max k h s) in
    let below = rune_floor-le (b ∷ bs) max in
    rw (z, w, t)
      (omega (
        arith,
        f,
        below,
        l,
        rune_floor-ge (b ∷ bs) max k h s,
        trailing_partial_len-lt (take n (b ∷ bs)),
        length-take (n - trailing_partial_len (take n (b ∷ bs))) (b ∷ bs) (omega (arith, below, l)),
      ))

-- Where a buffer above the cap has nothing but continuation bytes from its second byte up to the one
-- behind the cap, a take that is not the last takes nothing.
pub take_locked-stalls :
    (max : ℕ) (bs : List ℕ)
    → 0 < max
    → max < length bs
    → ((i : ℕ) → 0 < i → i ≤ max → rune_start (byte_at bs i) ≡ false)
    → take_locked max false bs ≡ ([], bs)
unfolding take_locked take_len utf8_prefix_len
take_locked-stalls max [] h l c = absurd (omega (arith, l))
take_locked-stalls max (b ∷ bs) h l c =
    let z : eqb max 0 ≡ false = ground arith in
    let w : leb (length (b ∷ bs)) max ≡ false = ground arith in
    rw (z, w, rune_floor-zero (b ∷ bs) max c) refl
