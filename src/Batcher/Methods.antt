-- ===== src/Batcher/Methods.antt =====
-- The methods of the batcher, by their sections; and where the loops of `Add` and of the timer stop.
use node_shell.Base.{
  ℕ, zero, suc, ◌<◌, ◌≡◌, refl, true, false, ◌&&◌, ◌||◌, List, [], ◌∷◌, ◌++◌, length, ltb, eqb,
  if◌then◌else◌, arith, if_cases, ap, length-append,
}
use node_shell.Base.{◌⊎◌, inl, inr}
use mathlib.Core.List.{append-nil}
use node_shell.Batcher.State.{Batcher, batch_cap, flush_threshold, is_full}
use node_shell.Batcher.Flush.{
  Outcome, returns, waits, out_of_fuel, torn_down, taken, flush_one, flush_ready, resume_ready,
  arm_after, append, add, timer_loop, on_timer, close_one, close_loop, close, discard, run,
}
use node_shell.Batcher.Take.{take_locked-whole}
use node_shell.Batcher.Sections.{
  Step, appends, flushes, arms, fires, closes, flushes_last, discards, runs, Reach, here, next,
}

-- Where the flush loop stops: the methods' goroutine waits for room in a full queue, or the batcher is
-- torn down, or what is pending is below the threshold, or nothing of it may be taken yet.
pub data Flushed (b : Batcher) : Outcome → Type 0 where
  room_wanted : is_full b ≡ true → torn_down b ≡ false → Flushed b waits
  no_more : torn_down b ≡ true → Flushed b returns
  below : length b.pending < flush_threshold b → Flushed b returns
  held_back : (taken false b).0 ≡ [] → Flushed b returns

length-zero : (bs : List ℕ) → length bs ≡ 0 → bs ≡ []
length-zero [] e = refl
length-zero (b ∷ bs) e = absurd (omega (arith, e))

flush_one-shorter :
    (b : Batcher)
    → eqb (length (taken false b).0) 0 ≡ false
    → length (flush_one b).pending < length b.pending
unfolding flush_one batch_cap
flush_one-shorter b t =
    let whole : length ((taken false b).0 ++ (taken false b).1) ≡ length b.pending =
      ap (λ (l : List ℕ). length l) (take_locked-whole (batch_cap b) false b.pending) in
    rw t (ground (arith, whole, length-append (taken false b).0 (taken false b).1))

-- The flush loop ends: a fuel of one more than the bytes pending is enough, and the loop stops only
-- where the code does.
pub flush_ready-Flushed :
    (fuel : ℕ) (b : Batcher)
    → length b.pending < fuel
    → Flushed (flush_ready fuel b).0 (flush_ready fuel b).1
unfolding flush_ready
flush_ready-Flushed zero b l = absurd (omega (arith, l))
flush_ready-Flushed (suc fuel) b l =
    if_cases P (ltb (length b.pending) (flush_threshold b)) _ _ (λ x. below (ground arith))
      (λ x.
        if_cases P (torn_down b) _ _ (λ y. no_more y)
          (λ y.
            if_cases P (is_full b) _ _ (λ z. room_wanted z y)
              (λ z.
                if_cases P (eqb (length (taken false b).0) 0) _ _
                  (λ w. held_back (length-zero (taken false b).0 (ground arith)))
                  (λ w.
                    flush_ready-Flushed fuel (flush_one b)
                      (omega (arith, l, flush_one-shorter b w))))))
  where
    P : Batcher × Outcome → Type 0
    P r = Flushed r.0 r.1

-- The loop of the timer ends, with a fuel of one more than the bytes pending: it returns or waits.
pub timer_loop-returns :
    (fuel : ℕ) (b : Batcher)
    → length b.pending < fuel
    → ((timer_loop fuel b).1 ≡ returns) ⊎ ((timer_loop fuel b).1 ≡ waits)
unfolding timer_loop
timer_loop-returns zero b l = absurd (omega (arith, l))
timer_loop-returns (suc fuel) b l =
    if_cases P (torn_down b) _ _ (λ y. inl refl)
      (λ y.
        if_cases P (is_full b) _ _ (λ z. inr refl)
          (λ z.
            if_cases P (eqb (length (flush_one b).pending) 0 || eqb (length (taken false b).0) 0) _
              _ (λ w. inl refl)
              (λ w.
                if_cases P
                  (ltb (length (flush_one b).pending) (batch_cap (flush_one b))
                    && ltb (length (flush_one b).pending) (flush_threshold (flush_one b)))
                  _ _ (λ v. inl refl)
                  (λ v.
                    timer_loop-returns fuel (flush_one b)
                      (omega (arith, l, flush_one-shorter b (ground arith)))))))
  where
    P : Batcher × Outcome → Type 0
    P r = (r.1 ≡ returns) ⊎ (r.1 ≡ waits)

module _ {b₀ : Batcher} {ps : List ℕ} where
  step : {b b' : Batcher} → Reach b₀ ps b → Step b [] b' → Reach b₀ ps b'
  step {b} {b'} r s = rw (append-nil ps) at (next r s)

  flush_ready-Reach : (fuel : ℕ) (b : Batcher) → Reach b₀ ps b → Reach b₀ ps (flush_ready fuel b).0
  unfolding flush_ready
  flush_ready-Reach zero b r = r
  flush_ready-Reach (suc fuel) b r =
      if_cases P (ltb (length b.pending) (flush_threshold b)) _ _ (λ x. r)
        (λ x.
          if_cases P (torn_down b) _ _ (λ y. r)
            (λ y.
              if_cases P (is_full b) _ _ (λ z. r)
                (λ z.
                  if_cases P (eqb (length (taken false b).0) 0) _ _ (λ w. r)
                    (λ w. flush_ready-Reach fuel (flush_one b) (step r (flushes y z))))))
    where
      P : Batcher × Outcome → Type 0
      P c = Reach b₀ ps c.0

  timer_loop-Reach : (fuel : ℕ) (b : Batcher) → Reach b₀ ps b → Reach b₀ ps (timer_loop fuel b).0
  unfolding timer_loop
  timer_loop-Reach zero b r = r
  timer_loop-Reach (suc fuel) b r =
      if_cases P (torn_down b) _ _ (λ y. r)
        (λ y.
          if_cases P (is_full b) _ _ (λ z. r)
            (λ z.
              let r' = step r (flushes y z) in
              if_cases P (eqb (length (flush_one b).pending) 0 || eqb (length (taken false b).0) 0)
                _ _ (λ w. r')
                (λ w.
                  if_cases P
                    (ltb (length (flush_one b).pending) (batch_cap (flush_one b))
                      && ltb (length (flush_one b).pending) (flush_threshold (flush_one b)))
                    _ _ (λ v. r') (λ v. timer_loop-Reach fuel (flush_one b) r'))))
    where
      P : Batcher × Outcome → Type 0
      P c = Reach b₀ ps c.0

  close_loop-Reach : (fuel : ℕ) (b : Batcher) → Reach b₀ ps b → Reach b₀ ps (close_loop fuel b).0
  unfolding close_loop
  close_loop-Reach zero b r = r
  close_loop-Reach (suc fuel) b r =
      if_cases P (eqb (length b.pending) 0 || b.discarded) _ _ (λ x. r)
        (λ x.
          if_cases P (is_full b) _ _ (λ z. r)
            (λ z.
              close_loop-Reach fuel (close_one b)
                (step r (flushes_last (ground arith) z (ground arith)))))
    where
      P : Batcher × Outcome → Type 0
      P c = Reach b₀ ps c.0

  arm_after-Reach : (r : Batcher × Outcome) → Reach b₀ ps r.0 → Reach b₀ ps (arm_after r).0
  arm_after-Reach (b, returns) r = step r arms
  arm_after-Reach (b, waits) r = r
  arm_after-Reach (b, out_of_fuel) r = r

-- The calls, with the rests of calls that waited.
pub data Call : Type 0 where
  adds : List ℕ → Call
  adds_on ticks ticks_on closes_all closes_on throws_away works : Call

abbrev pub perform : Call → Batcher → Batcher
perform (adds p) b = (add p b).0
perform adds_on b = (arm_after (resume_ready b)).0
perform ticks b = (on_timer b).0
perform ticks_on b = (arm_after (timer_loop (suc (length b.pending)) b)).0
perform closes_all b = (close b).0
perform closes_on b = (close_loop (suc (length b.pending)) b).0
perform throws_away b = discard b
perform works b = (run b).0

-- The bytes that a call takes in.
abbrev pub accepts : Call → Batcher → List ℕ
accepts (adds p) b = if torn_down b then [] else p
accepts _ b = []

add-torn_down : (p : List ℕ) (b : Batcher) → torn_down b ≡ true → Reach b [] (add p b).0
unfolding add
add-torn_down p b x =
    if_cases (λ (r : Batcher × Outcome). Reach b [] r.0) (torn_down b || eqb (length p) 0) _ _
      (λ y. here) (λ y. absurd (ground arith))

add-open : (p : List ℕ) (b : Batcher) → torn_down b ≡ false → Reach b p (add p b).0
unfolding add
add-open p b x =
    if_cases (λ (r : Batcher × Outcome). Reach b p r.0) (torn_down b || eqb (length p) 0) _ _
      (λ y. rw (length-zero p (ground arith)) here)
      (λ y. arm_after-Reach (flush_ready (suc (length (append p b).pending)) (append p b)) (
        flush_ready-Reach (suc (length (append p b).pending)) (append p b)
          (next here (appends p x))))

resume_ready-Reach : (b : Batcher) → Reach b [] (resume_ready b).0
unfolding resume_ready
resume_ready-Reach b =
    if_cases P (torn_down b) _ _ (λ y. here)
      (λ y.
        if_cases P (is_full b) _ _ (λ z. here)
          (λ z.
            if_cases P (eqb (length (taken false b).0) 0) _ _ (λ w. here)
              (λ w.
                flush_ready-Reach (suc (length (flush_one b).pending)) (flush_one b)
                  (step here (flushes y z)))))
  where
    P : Batcher × Outcome → Type 0
    P c = Reach b [] c.0

on_timer-Reach : (b : Batcher) → Reach b [] (on_timer b).0
unfolding on_timer
on_timer-Reach b =
    let b' = record b { timer_set = false } in
    if_cases (λ (c : Batcher × Outcome). Reach b [] c.0) (torn_down b') _ _ (λ x. step here fires)
      (λ x.
        arm_after-Reach (timer_loop (suc (length b'.pending)) b')
          (timer_loop-Reach (suc (length b'.pending)) b' (step here fires)))

close-Reach : (b : Batcher) → Reach b [] (close b).0
unfolding close
close-Reach b =
    if_cases (λ (c : Batcher × Outcome). Reach b [] c.0) b.closed _ _ (λ x. here)
      (λ x.
        close_loop-Reach (suc (length b.pending)) (record b { closed = true; timer_set = false })
          (step here closes))

-- Every call, and every rest of a call that waited, is a sequence of sections, which accept the
-- call's bytes unless the batcher is torn down.
pub call-Reach : (c : Call) (b : Batcher) → Reach b (accepts c b) (perform c b)
call-Reach (adds p) b =
    if_cases (λ (l : List ℕ). Reach b l (add p b).0) (torn_down b) _ _ (add-torn_down p b)
      (add-open p b)
call-Reach adds_on b = arm_after-Reach (resume_ready b) (resume_ready-Reach b)
call-Reach ticks b = on_timer-Reach b
call-Reach ticks_on b =
    arm_after-Reach (timer_loop (suc (length b.pending)) b)
      (timer_loop-Reach (suc (length b.pending)) b here)
call-Reach closes_all b = close-Reach b
call-Reach closes_on b = close_loop-Reach (suc (length b.pending)) b here
call-Reach throws_away b = step here discards
call-Reach works b = step here runs
