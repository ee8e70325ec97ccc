-- ===== src/Batcher/State.antt =====
-- internal/sessions/batcher.go: the batcher's state, and the thresholds.
use node_shell.Base.{
  ℕ, ◌+◌, ◌-◌, ◌*◌, ◌/◌, Bool, true, false, not, ◌||◌, List, [], ◌∷◌, ◌++◌, length, take, drop, ltb,
  leb, eqb, if◌then◌else◌,
}
use node_shell.Batcher.Utf8.{utf8_prefix_len, trailing_partial_len}

abbrev pub flush_bytes : ℕ
flush_bytes = 49152

abbrev pub max_flush_bytes : ℕ
max_flush_bytes = 98304

abbrev pub max_queue_batches : ℕ
max_queue_batches = 64

abbrev pub adaptive_queue_high : ℕ
adaptive_queue_high = 8

-- `delivered` are the chunks that the worker has taken off the queue, in order.
pub record Batcher : Type 0 where
  pub pending : List ℕ
  pub queue : List (List ℕ)
  pub timer_set : Bool
  pub closed : Bool
  pub discarded : Bool
  pub threshold : ℕ
  pub threshold_cap : ℕ
  pub max_batch : ℕ
  pub max_batches : ℕ
  pub adaptive : Bool
  pub delivered : List (List ℕ)

unfoldable pub new_output_batcher : ℕ → Batcher
new_output_batcher threshold = record {
  pending = [];
  queue = [];
  timer_set = false;
  closed = false;
  discarded = false;
  threshold = threshold;
  threshold_cap = 0;
  max_batch = 0;
  max_batches = max_queue_batches;
  adaptive = false;
  delivered = [];
}

unfoldable pub new_session_batcher : Batcher
new_session_batcher = record {
  pending = [];
  queue = [];
  timer_set = false;
  closed = false;
  discarded = false;
  threshold = flush_bytes;
  threshold_cap = max_flush_bytes;
  max_batch = max_flush_bytes;
  max_batches = max_queue_batches;
  adaptive = true;
  delivered = [];
}

-- A limit that is not set, or too large, is the maximum.
abbrev pub capped : ℕ → ℕ
capped limit = if eqb limit 0 || ltb max_flush_bytes limit then max_flush_bytes else limit

-- `batchCapLocked`.
unfoldable pub batch_cap : Batcher → ℕ
batch_cap b = capped b.max_batch

-- The part of `flushThresholdLocked` for a queue of at least `adaptive_queue_high` batches.
unfoldable pub raised_threshold : Batcher → ℕ
raised_threshold b =
    let room = b.max_batches - adaptive_queue_high in
    let span = if ltb room 1 then 1 else room in
    let t = b.threshold + b.threshold * (length b.queue - adaptive_queue_high + 1) / span in
    let t' = if ltb (capped b.threshold_cap) t then capped b.threshold_cap else t in
    if ltb t' b.threshold then b.threshold else t'

-- `flushThresholdLocked`.
unfoldable pub flush_threshold : Batcher → ℕ
unfolding raised_threshold
flush_threshold b =
    if not b.adaptive
    then b.threshold
    else if ltb (length b.queue) adaptive_queue_high
    then b.threshold
    else raised_threshold b

-- How many bytes `takeLocked` takes off a buffer that is not empty.
unfoldable pub take_len : ℕ → Bool → List ℕ → ℕ
unfolding utf8_prefix_len trailing_partial_len
take_len limit true bs =
    let n = utf8_prefix_len bs limit in
    if eqb n 0 then (if ltb (length bs) limit then length bs else limit) else n
take_len limit false bs =
    let n = utf8_prefix_len bs limit in if eqb n 0 then 0 else n - trailing_partial_len (take n bs)

-- `takeLocked`: what is taken, and what stays pending.
unfoldable pub take_locked : ℕ → Bool → List ℕ → List ℕ × List ℕ
unfolding take_len
take_locked max final [] = ([], [])
take_locked max final (b ∷ bs) =
    let limit = if eqb max 0 then max_flush_bytes else max in
    let n = take_len limit final (b ∷ bs) in (take n (b ∷ bs), drop n (b ∷ bs))

abbrev pub enqueue : List ℕ → Batcher → Batcher
enqueue out b = record b { queue = b.queue ++ out ∷ [] }

abbrev pub is_full : Batcher → Bool
is_full b = leb b.max_batches (length b.queue)
