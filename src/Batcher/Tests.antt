-- ===== src/Batcher/Tests.antt =====
-- The theorems about the batcher at small buffers.
use node_shell.Base.{ℕ, zero, suc, ◌≡◌, ◌≤◌, ◌<◌, refl, true, false, List, [], ◌∷◌, ◌++◌, arith}
use node_shell.Batcher.Utf8.{
  byte_at, rune_start, rune_floor, utf8_prefix_len, utf8_len, trailing_partial_len,
}
use node_shell.Batcher.State.{Batcher, take_len, take_locked, batch_cap, flush_threshold}
use node_shell.Batcher.Flush.{flush_one, flush_ready, add, arm_pending, close_one, run, append}
use node_shell.Batcher.Sections.{
  Step, appends, closes, runs, Reach, here, next, concat, bytes, Reach-bytes,
}
use node_shell.Batcher.Methods.{Flushed, flush_ready-Flushed, adds, call-Reach}
use node_shell.Batcher.Boundary.{take_locked-stalls}
use node_shell.Batcher.Ends.{Reach-delivers}

-- A batcher of two bytes' threshold, with the euro sign's first two bytes behind two letters.
abbrev small : Batcher
small = record {
  pending = [];
  queue = [];
  timer_set = false;
  closed = false;
  discarded = false;
  threshold = 2;
  threshold_cap = 0;
  max_batch = 6;
  max_batches = 2;
  adaptive = false;
  delivered = [];
}

abbrev input : List ℕ
input = 97 ∷ 98 ∷ 226 ∷ 130 ∷ []

held_back_bytes : (add input small).0.pending ≡ 226 ∷ 130 ∷ []
unfolding add flush_ready flush_one arm_pending flush_threshold batch_cap take_locked take_len
    utf8_prefix_len trailing_partial_len rune_floor rune_start byte_at utf8_len
held_back_bytes = refl

-- An addition, a close, its last batches, and the worker.
small_run : Reach small input (add input small).0
small_run = call-Reach (adds input) small

Reach-bytes_example : bytes (add input small).0 ≡ bytes small ++ input
unfolding concat
Reach-bytes_example = Reach-bytes small_run (
    unfold add flush_ready flush_one arm_pending flush_threshold batch_cap take_locked take_len
      utf8_prefix_len trailing_partial_len rune_floor rune_start byte_at utf8_len in
    refl)

call-Reach_example : Reach small input (add input small).0
call-Reach_example = call-Reach (adds input) small

flush_ready-Flushed_example :
    Flushed (flush_ready 5 (append input small)).0 (flush_ready 5 (append input small)).1
flush_ready-Flushed_example = flush_ready-Flushed 5 (append input small) (omega arith)

abbrev delivering : Batcher
delivering = record small { closed = true; delivered = input ∷ [] }

abbrev run_out : Batcher
run_out = record small { queue = input ∷ [] }

delivered_all : Reach small input delivering
unfolding flush_one close_one run batch_cap take_locked take_len utf8_prefix_len rune_floor
    trailing_partial_len rune_start byte_at utf8_len
delivered_all =
    next
      (next (next (next here (appends input refl)) closes)
        (Step.flushes_last refl refl (omega arith)))
      runs

Reach-delivers_example : concat delivering.delivered ≡ input
unfolding concat
Reach-delivers_example = Reach-delivers delivered_all refl refl (unfold run in refl) refl

abbrev noise : List ℕ
noise = 97 ∷ 130 ∷ 130 ∷ []

noise_continues : (i : ℕ) → 0 < i → i ≤ 2 → rune_start (byte_at noise i) ≡ false
unfolding rune_start byte_at
noise_continues zero p l = absurd (omega (arith, p))
noise_continues (suc zero) p l = refl
noise_continues (suc (suc zero)) p l = refl
noise_continues (suc (suc (suc i))) p l = absurd (omega (arith, l))

take_locked-stalls_example : take_locked 2 false noise ≡ ([], noise)
take_locked-stalls_example = take_locked-stalls 2 noise (omega arith) (omega arith) noise_continues
