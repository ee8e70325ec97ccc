-- ===== src/Batcher/Ends.antt =====
-- Teardown of the batcher: what a close delivers, and the silence behind a discard.
use node_shell.Base.{
  ℕ, zero, suc, ◌<◌, ◌≡◌, refl, true, false, ◌||◌, List, [], ◌∷◌, ◌++◌, length, eqb, arith,
  if_cases, Bool-cases, inl, inr, ◌∙◌, sym, ap, length-append,
}
use mathlib.Core.List.{append-nil}
use node_shell.Batcher.State.{Batcher, batch_cap, is_full}
use node_shell.Batcher.Flush.{
  Outcome, returns, waits, arm_pending, taken, flush_one, close_one, close_loop, discard, run,
  run_queued, Iteration, stops,
}
use node_shell.Batcher.Take.{take_locked-whole}
use node_shell.Batcher.Sections.{
  Step, appends, flushes, arms, fires, closes, flushes_last, discards, runs, Reach, here, next,
  discarded_lasts, concat, bytes, Reach-bytes,
}

-- Where the loop of a close stops: nothing is pending, or the batcher was discarded; or it waits for room.
pub data Closed (b : Batcher) : Outcome → Type 0 where
  emptied : b.pending ≡ [] → Closed b returns
  thrown_away : b.discarded ≡ true → Closed b returns
  room_wanted : is_full b ≡ true → 0 < length b.pending → Closed b waits

length-zero : (bs : List ℕ) → length bs ≡ 0 → bs ≡ []
length-zero [] e = refl
length-zero (b ∷ bs) e = absurd (omega (arith, e))

close_one-shorter :
    (b : Batcher) → 0 < length b.pending → length (close_one b).pending < length b.pending
unfolding close_one batch_cap
close_one-shorter b l =
    let whole : length ((taken true b).0 ++ (taken true b).1) ≡ length b.pending =
      ap (λ (l : List ℕ). length l) (take_locked-whole (batch_cap b) true b.pending) in
    if_cases (λ (c : Batcher). length c.pending < length b.pending)
      (eqb (length (taken true b).0) 0) _ _ (λ x. l)
      (λ x. ground (arith, whole, length-append (taken true b).0 (taken true b).1))

empty_or_discarded :
    (b : Batcher) → (eqb (length b.pending) 0 || b.discarded) ≡ true → Closed b returns
empty_or_discarded b x = elim (Bool-cases b.discarded) [
  | inl d ↦ thrown_away d
  | inr d ↦ emptied (length-zero b.pending (ground arith))
]

-- The loop of a close ends, with a fuel of one more than the bytes pending: with nothing pending, with
-- the batcher discarded, or at a full queue.
pub close_loop-Closed :
    (fuel : ℕ) (b : Batcher)
    → length b.pending < fuel
    → Closed (close_loop fuel b).0 (close_loop fuel b).1
unfolding close_loop
close_loop-Closed zero b l = absurd (omega (arith, l))
close_loop-Closed (suc fuel) b l =
    if_cases P (eqb (length b.pending) 0 || b.discarded) _ _ (empty_or_discarded b) (λ x.
      if_cases P (is_full b) _ _ (λ z. room_wanted z (ground arith))
        (λ z.
          close_loop-Closed fuel (close_one b)
            (omega (arith, l, close_one-shorter b (ground arith)))))
  where
    P : Batcher × Outcome → Type 0
    P r = Closed r.0 r.1

run_queued-stops :
    (b : Batcher) (queue : List (List ℕ))
    → b.queue ≡ queue
    → (run_queued b queue).1 ≡ stops
    → b.queue ≡ []
run_queued-stops b [] e s = e
run_queued-stops b (chunk ∷ queue) e s = cc

run-stops : (b : Batcher) → b.discarded ≡ false → (run b).1 ≡ stops → b.queue ≡ []
unfolding run
run-stops b d =
    if_cases (λ (r : Batcher × Iteration). r.1 ≡ stops → b.queue ≡ []) b.discarded _ _ (λ x. cc)
      (λ x. run_queued-stops b b.queue refl)

-- When the worker of a batcher that was never discarded stops and nothing is pending, it has delivered
-- all bytes that were accepted, in order.
pub Reach-delivers :
    {b b' : Batcher} {ps : List ℕ}
    → Reach b ps b'
    → bytes b ≡ []
    → b'.discarded ≡ false
    → (run b').1 ≡ stops
    → b'.pending ≡ []
    → concat b'.delivered ≡ ps
unfolding concat
Reach-delivers {b} {b'} {ps} r e d s p =
    let q : b'.queue ≡ [] = run-stops b' d s in
    let whole : concat b'.delivered ++ (concat b'.queue ++ b'.pending) ≡ bytes b ++ ps =
      Reach-bytes r d in
    let empty : concat b'.queue ++ b'.pending ≡ [] = rw (q, p) refl in
    sym (append-nil (concat b'.delivered))
    ∙ ap (λ l. concat b'.delivered ++ l) (sym empty)
    ∙ whole
    ∙ ap (λ l. l ++ ps) e

Step-silent :
    {b b' : Batcher} {p : List ℕ} → Step b p b' → b.discarded ≡ true → b'.delivered ≡ b.delivered
unfolding flush_one arm_pending close_one discard run
Step-silent {b} (appends p open') d = refl
Step-silent {b} (flushes open' room) d = ground arith
Step-silent {b} arms d = ground arith
Step-silent {b} fires d = refl
Step-silent {b} closes d = refl
Step-silent {b} (flushes_last open' room some') d = cc
Step-silent {b} discards d = refl
Step-silent {b} runs d = rw d refl

-- Nothing is delivered behind a discard, whatever the order of the sections.
pub Reach-silent :
    {b b' : Batcher} {ps : List ℕ} → Reach b ps b' → b.discarded ≡ true → b'.delivered ≡ b.delivered
Reach-silent r d = (both r d).0
  where
    both :
        {b b' : Batcher} {ps : List ℕ}
        → Reach b ps b'
        → b.discarded ≡ true
        → (b'.delivered ≡ b.delivered) × (b'.discarded ≡ true)
    both here d = (refl, d)
    both (next r s) d =
        let (same, still) = both r d in (Step-silent s still ∙ same, discarded_lasts s still)
