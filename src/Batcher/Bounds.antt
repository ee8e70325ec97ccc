-- ===== src/Batcher/Bounds.antt =====
-- The bounds on the batches and on the queue.
use node_shell.Base.{
  ℕ, ◌≤◌, ◌<◌, ◌≡◌, refl, true, false, not, ◌&&◌, List, [], ◌∷◌, ◌++◌, length, ltb, eqb, arith,
  if_cases, All, length-append,
}
use node_shell.Batcher.State.{Batcher, capped, batch_cap, enqueue, is_full, max_flush_bytes}
use node_shell.Batcher.Flush.{
  torn_down, arm_pending, taken, flush_one, close_one, discard, run, run_queued, Iteration,
}
use node_shell.Batcher.Take.{take_locked-le, take_locked-final}
use node_shell.Batcher.Sections.{
  Step, appends, flushes, arms, fires, closes, flushes_last, discards, runs, Reach, here, next,
}

pub batch_cap-positive : (b : Batcher) → (0 < batch_cap b) × (batch_cap b ≤ max_flush_bytes)
unfolding batch_cap
batch_cap-positive b = ground arith

abbrev pub IsBatch : ℕ → List ℕ → Type 0
IsBatch cap out = (0 < length out) × (length out ≤ cap)

-- Every batch in the queue has a byte and keeps to the cap, and the queue keeps to its own.
pub record Bounded (b : Batcher) : Type 0 where
  pub batches : All (IsBatch (batch_cap b)) b.queue
  pub queue_length : length b.queue ≤ b.max_batches

All-append_one :
    (P : List ℕ → Type 0) (xs : List (List ℕ)) (y : List ℕ) → All P xs → P y → All P (xs ++ y ∷ [])
All-append_one P [] y h k = (k, tt)
All-append_one P (x ∷ xs) y h k = (h.0, All-append_one P xs y h.1 k)

enqueue-Bounded :
    (b : Batcher) (out pending : List ℕ)
    → Bounded b
    → is_full b ≡ false
    → IsBatch (batch_cap b) out
    → Bounded (enqueue out (record b { pending = pending }))
unfolding batch_cap
enqueue-Bounded b out pending h room k = record {
  batches = All-append_one (IsBatch (capped b.max_batch)) b.queue out h.batches k;
  queue_length = ground (arith, length-append b.queue (out ∷ []), h.queue_length);
}

run_queued-Bounded :
    (b : Batcher) (queue : List (List ℕ))
    → b.queue ≡ queue
    → Bounded b
    → Bounded (run_queued b queue).0
unfolding batch_cap
run_queued-Bounded b [] e h = h
run_queued-Bounded b (chunk ∷ queue) e h = record {
  batches = (rw e at (h.batches)).1;
  queue_length =
      (let l : length (chunk ∷ queue) ≤ b.max_batches = rw e at (h.queue_length) in
        omega (arith, l));
}

Step-Bounded : {b b' : Batcher} {p : List ℕ} → Step b p b' → Bounded b → Bounded b'
unfolding flush_one arm_pending close_one discard run batch_cap
Step-Bounded {b} (appends p open') h = record { batches = h.batches; queue_length = h.queue_length }
Step-Bounded {b} (flushes open' room) h =
    if_cases Bounded (eqb (length (taken false b).0) 0) _ _ (λ none'. h)
      (λ some'. enqueue-Bounded b (taken false b).0 (taken false b).1 h room (
        unfold batch_cap in
        (ground arith, take_locked-le (batch_cap b) false b.pending (batch_cap-positive b).0)))
Step-Bounded {b} arms h =
    if_cases Bounded (ltb 0 (length b.pending) && not (torn_down b)) _ _
      (λ x. record { batches = h.batches; queue_length = h.queue_length }) (λ x. h)
Step-Bounded {b} fires h = record { batches = h.batches; queue_length = h.queue_length }
Step-Bounded {b} closes h = record { batches = h.batches; queue_length = h.queue_length }
Step-Bounded {b} (flushes_last open' room some') h =
    let some_taken = take_locked-final (batch_cap b) b.pending (batch_cap-positive b).0 some' in
    if_cases Bounded (eqb (length (taken true b).0) 0) _ _ (λ none'. absurd (ground arith))
      (λ some''.
        enqueue-Bounded b (taken true b).0 (taken true b).1 h room
          (some_taken, take_locked-le (batch_cap b) true b.pending (batch_cap-positive b).0))
Step-Bounded {b} discards h = record { batches = tt; queue_length = omega arith }
Step-Bounded {b} runs h =
    if_cases (λ (r : Batcher × Iteration). Bounded r.0) b.discarded _ _
      (λ x. record { batches = tt; queue_length = omega arith })
      (λ x. run_queued-Bounded b b.queue refl h)

-- Whatever the order of the sections: where every batch in the queue has at least one byte and at most
-- the batch cap, and the queue keeps to its own cap, that stays so.
pub Reach-Bounded : {b b' : Batcher} {ps : List ℕ} → Reach b ps b' → Bounded b → Bounded b'
Reach-Bounded here h = h
Reach-Bounded (next r s) h = Step-Bounded s (Reach-Bounded r h)
