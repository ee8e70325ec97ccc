-- ===== src/Batcher/Sections.antt =====
-- The sections of the batcher under its lock, in any order: what each keeps.
use node_shell.Base.{
  ℕ, ◌<◌, ◌≡◌, refl, true, false, not, ◌&&◌, List, [], ◌∷◌, ◌++◌, length, ltb, eqb, arith, if_cases,
  Bool-cases, inl, inr, ◌∙◌, sym, ap,
}
use mathlib.Core.List.{append_assoc, append-nil}
use node_shell.Batcher.State.{Batcher, batch_cap, is_full}
use node_shell.Batcher.Flush.{
  torn_down, arm_pending, taken, flush_one, append, close_one, discard, run, run_queued, Iteration,
}
use node_shell.Batcher.Take.{take_locked-whole}

-- One section of some goroutine, with the bytes that it accepts.
pub data Step (b : Batcher) : List ℕ → Batcher → Type 0 where
  appends : (p : List ℕ) → torn_down b ≡ false → Step b p (append p b)
  flushes : torn_down b ≡ false → is_full b ≡ false → Step b [] (flush_one b)
  arms : Step b [] (arm_pending b)
  fires : Step b [] (record b { timer_set = false })
  closes : Step b [] (record b { closed = true; timer_set = false })
  flushes_last :
      b.discarded ≡ false → is_full b ≡ false → 0 < length b.pending → Step b [] (close_one b)
  discards : Step b [] (discard b)
  runs : Step b [] (run b).0

pub data Reach (b : Batcher) : List ℕ → Batcher → Type 0 where
  here : Reach b [] b
  next : {ps p : List ℕ} {m m' : Batcher} → Reach b ps m → Step m p m' → Reach b (ps ++ p) m'

unfoldable pub concat : List (List ℕ) → List ℕ
concat [] = []
concat (chunk ∷ chunks) = chunk ++ concat chunks

-- All bytes that the batcher has not lost, in the order of their arrival.
abbrev pub bytes : Batcher → List ℕ
bytes b = concat b.delivered ++ (concat b.queue ++ b.pending)

concat-append : (xs ys : List (List ℕ)) → concat (xs ++ ys) ≡ concat xs ++ concat ys
unfolding concat
concat-append [] ys = refl
concat-append (x ∷ xs) ys =
    ap (λ l. x ++ l) (concat-append xs ys) ∙ sym (append_assoc x (concat xs) (concat ys))

concat-append_one : (xs : List (List ℕ)) (y : List ℕ) → concat (xs ++ y ∷ []) ≡ concat xs ++ y
unfolding concat
concat-append_one xs y = concat-append xs (y ∷ []) ∙ ap (λ l. concat xs ++ l) (append-nil y)

-- A batch moves from the front of the pending bytes to the end of the queue.
moved :
    (queue : List (List ℕ)) (out rest pending : List ℕ)
    → out ++ rest ≡ pending
    → concat (queue ++ out ∷ []) ++ rest ≡ concat queue ++ pending
moved queue out rest pending whole =
    ap (λ l. l ++ rest) (concat-append_one queue out)
    ∙ append_assoc (concat queue) out rest
    ∙ ap (λ l. concat queue ++ l) whole

flush_one-bytes : (b : Batcher) → bytes (flush_one b) ≡ bytes b
unfolding flush_one batch_cap
flush_one-bytes b =
    let whole = take_locked-whole (batch_cap b) false b.pending in
    if_cases (λ (c : Batcher). bytes c ≡ bytes b) (eqb (length (taken false b).0) 0) _ _
      (λ none'. refl)
      (λ some'.
        ap (λ l. concat b.delivered ++ l)
          (moved b.queue (taken false b).0 (taken false b).1 b.pending whole))

close_one-bytes : (b : Batcher) → bytes (close_one b) ≡ bytes b
unfolding close_one batch_cap
close_one-bytes b =
    let whole = take_locked-whole (batch_cap b) true b.pending in
    if_cases (λ (c : Batcher). bytes c ≡ bytes b) (eqb (length (taken true b).0) 0) _ _
      (λ none'.
        ap (λ l. concat b.delivered ++ l)
          (moved b.queue b.pending [] b.pending (append-nil b.pending)))
      (λ some'.
        ap (λ l. concat b.delivered ++ l)
          (moved b.queue (taken true b).0 (taken true b).1 b.pending whole))

run_queued-bytes :
    (b : Batcher) (queue : List (List ℕ)) → b.queue ≡ queue → bytes (run_queued b queue).0 ≡ bytes b
unfolding concat
run_queued-bytes b [] e = refl
run_queued-bytes b (chunk ∷ queue) e =
    ap (λ l. l ++ (concat queue ++ b.pending)) (concat-append_one b.delivered chunk)
    ∙ append_assoc (concat b.delivered) chunk (concat queue ++ b.pending)
    ∙ ap (λ l. concat b.delivered ++ l) (sym (append_assoc chunk (concat queue) b.pending))
    ∙ ap (λ q. concat b.delivered ++ (concat q ++ b.pending)) (sym e)

-- A section changes no byte and loses none, and takes in what it accepts, unless the batcher is
-- discarded.
Step-bytes :
    {b b' : Batcher} {p : List ℕ} → Step b p b' → b'.discarded ≡ false → bytes b' ≡ bytes b ++ p
unfolding arm_pending discard run
Step-bytes {b} (appends p open') d =
    ap (λ l. concat b.delivered ++ l) (sym (append_assoc (concat b.queue) b.pending p))
    ∙ sym (append_assoc (concat b.delivered) (concat b.queue ++ b.pending) p)
Step-bytes {b} (flushes open' room) d = flush_one-bytes b ∙ sym (append-nil (bytes b))
Step-bytes {b} arms d =
    if_cases (λ (c : Batcher). bytes c ≡ bytes b ++ [])
      (ltb 0 (length b.pending) && not (torn_down b)) _ _ (λ x. sym (append-nil (bytes b)))
      (λ x. sym (append-nil (bytes b)))
Step-bytes {b} fires d = sym (append-nil (bytes b))
Step-bytes {b} closes d = sym (append-nil (bytes b))
Step-bytes {b} (flushes_last open' room some') d = close_one-bytes b ∙ sym (append-nil (bytes b))
Step-bytes {b} discards d = cc
Step-bytes {b} runs d =
    if_cases (λ (r : Batcher × Iteration). r.0.discarded ≡ false → bytes r.0 ≡ bytes b ++ [])
      b.discarded _ _ (λ x y. cc)
      (λ x y. run_queued-bytes b b.queue refl ∙ sym (append-nil (bytes b))) d

pub discarded_lasts :
    {b b' : Batcher} {p : List ℕ} → Step b p b' → b.discarded ≡ true → b'.discarded ≡ true
unfolding flush_one arm_pending close_one discard run
discarded_lasts {b} (appends p open') d = d
discarded_lasts {b} (flushes open' room) d = ground arith
discarded_lasts {b} arms d = ground arith
discarded_lasts {b} fires d = d
discarded_lasts {b} closes d = d
discarded_lasts {b} (flushes_last open' room some') d = cc
discarded_lasts {b} discards d = refl
discarded_lasts {b} runs d = ground arith

-- Whatever the order of the sections: the chunks delivered, the queue and the pending bytes together
-- are the bytes before and all bytes that were accepted since, in order, unless the batcher is
-- discarded.
pub Reach-bytes :
    {b b' : Batcher} {ps : List ℕ} → Reach b ps b' → b'.discarded ≡ false → bytes b' ≡ bytes b ++ ps
Reach-bytes {b} here d = sym (append-nil (bytes b))
Reach-bytes {b} {b'} (next {ps} {p} {m} r s) d = elim (Bool-cases m.discarded) [
  | inl x ↦ (let y = discarded_lasts s x in cc)
  | inr x ↦ Step-bytes s d ∙ ap (λ l. l ++ p) (Reach-bytes r x) ∙ append_assoc (bytes b) ps p
]
