-- ===== src/Batcher/Flush.antt =====
-- internal/sessions/batcher.go: the methods of the batcher. A wait for room in the queue releases the
-- lock, so that a method that has to wait ends here with `waits`; it goes on, when it is woken, with
-- `resume_ready`, or at the loop of the timer or of `Close`, which begin with the wait.
use node_shell.Base.{
  ℕ, zero, suc, Bool, true, false, not, ◌&&◌, ◌||◌, List, [], ◌∷◌, ◌++◌, length, ltb, eqb,
  if◌then◌else◌,
}
use node_shell.Batcher.State.{Batcher, batch_cap, flush_threshold, take_locked, enqueue, is_full}

pub data Outcome : Type 0 where
  returns waits out_of_fuel : Outcome

abbrev pub torn_down : Batcher → Bool
torn_down b = b.closed || b.discarded

-- `armTimerLocked`, at the end of `Add` and of `onTimer`.
unfoldable pub arm_pending : Batcher → Batcher
arm_pending b =
    if ltb 0 (length b.pending) && not (torn_down b) then record b { timer_set = true } else b

abbrev pub taken : Bool → Batcher → List ℕ × List ℕ
taken final b = take_locked (batch_cap b) final b.pending

-- A take with its batch, if it takes something.
unfoldable pub flush_one : Batcher → Batcher
unfolding batch_cap take_locked
flush_one b =
    if eqb (length (taken false b).0) 0
    then b
    else enqueue (taken false b).0 (record b { pending = (taken false b).1 })

-- `flushReadyLocked`, at the loop's test.
unfoldable pub flush_ready : ℕ → Batcher → Batcher × Outcome
unfolding flush_threshold flush_one batch_cap take_locked
flush_ready zero b = (b, out_of_fuel)
flush_ready (suc fuel) b =
    let rest = flush_ready fuel (flush_one b) in
    if ltb (length b.pending) (flush_threshold b)
    then (b, returns)
    else if torn_down b
    then (b, returns)
    else if is_full b
    then (b, waits)
    else if eqb (length (taken false b).0) 0
    then (b, returns)
    else rest

-- The rest of `flushReadyLocked`, behind the wait.
unfoldable pub resume_ready : Batcher → Batcher × Outcome
unfolding flush_ready flush_one batch_cap take_locked
resume_ready b =
    if torn_down b
    then (b, returns)
    else if is_full b
    then (b, waits)
    else if eqb (length (taken false b).0) 0
    then (b, returns)
    else flush_ready (suc (length (flush_one b).pending)) (flush_one b)

-- The end of `Add` and of `onTimer`, unless they wait.
abbrev pub arm_after : Batcher × Outcome → Batcher × Outcome
arm_after (b, returns) = (arm_pending b, returns)
arm_after (b, waits) = (b, waits)
arm_after (b, out_of_fuel) = (b, out_of_fuel)

abbrev pub append : List ℕ → Batcher → Batcher
append p b = record b { pending = b.pending ++ p }

-- `Add`, up to its first wait.
unfoldable pub add : List ℕ → Batcher → Batcher × Outcome
unfolding flush_ready arm_pending
add p b =
    if torn_down b || eqb (length p) 0
    then (b, returns)
    else arm_after (flush_ready (suc (length (append p b).pending)) (append p b))

-- The loop of `onTimer`.
unfoldable pub timer_loop : ℕ → Batcher → Batcher × Outcome
unfolding flush_threshold flush_one batch_cap take_locked
timer_loop zero b = (b, out_of_fuel)
timer_loop (suc fuel) b =
    let rest = timer_loop fuel (flush_one b) in
    if torn_down b
    then (b, returns)
    else if is_full b
    then (b, waits)
    else if eqb (length (flush_one b).pending) 0 || eqb (length (taken false b).0) 0
    then (flush_one b, returns)
    else if ltb (length (flush_one b).pending) (batch_cap (flush_one b))
        && ltb (length (flush_one b).pending) (flush_threshold (flush_one b))
    then (flush_one b, returns)
    else rest

unfoldable pub on_timer : Batcher → Batcher × Outcome
unfolding timer_loop arm_pending
on_timer b =
    let b' = record b { timer_set = false } in
    if torn_down b' then (b', returns) else arm_after (timer_loop (suc (length b'.pending)) b')

-- One round of the loop of `Close`: a last take, or all that is pending.
unfoldable pub close_one : Batcher → Batcher
unfolding batch_cap take_locked
close_one b =
    if eqb (length (taken true b).0) 0
    then enqueue b.pending (record b { pending = [] })
    else enqueue (taken true b).0 (record b { pending = (taken true b).1 })

unfoldable pub close_loop : ℕ → Batcher → Batcher × Outcome
unfolding close_one
close_loop zero b = (b, out_of_fuel)
close_loop (suc fuel) b =
    let rest = close_loop fuel (close_one b) in
    if eqb (length b.pending) 0 || b.discarded
    then (b, returns)
    else if is_full b
    then (b, waits)
    else rest

-- `Close`, up to its first wait; the wait for the worker is left to it.
unfoldable pub close : Batcher → Batcher × Outcome
unfolding close_loop
close b =
    if b.closed
    then (b, returns)
    else close_loop (suc (length b.pending)) (record b { closed = true; timer_set = false })

unfoldable pub discard : Batcher → Batcher
discard b = record b {
  discarded = true;
  closed = true;
  timer_set = false;
  pending = [];
  queue = [];
}

-- An iteration of `run`: whether it stops, waits, or hands a chunk to the sink.
pub data Iteration : Type 0 where
  stops sleeps hands_over : Iteration

abbrev pub run_queued : Batcher → List (List ℕ) → Batcher × Iteration
run_queued b [] = (b, if b.closed then stops else sleeps)
run_queued b (chunk ∷ queue) =
    (record b { queue = queue; delivered = b.delivered ++ chunk ∷ [] }, hands_over)

unfoldable pub run : Batcher → Batcher × Iteration
run b = if b.discarded then (record b { queue = [] }, stops) else run_queued b b.queue
