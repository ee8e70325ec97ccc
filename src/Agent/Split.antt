-- ===== src/Agent/Split.antt =====
-- Accepted transcripts and internal/agent/context.go: `splitForCompression`.
use node_shell.Base.{
  ℕ, zero, suc, ◌-◌, ◌≤◌, ◌≡◌, refl, true, false, List, [], ◌∷◌, ◌++◌, length, take, drop, ltb,
  arith, if_cases, All, All-map, All-drop, take-append-drop,
}
use node_shell.Agent.Message.{ChatMessage}
use node_shell.Agent.Compaction.{
  ToolRound, rounds_from, tool_rounds, tool_at, back_up, keep_rounds_from, cut_index,
  split_for_compression,
}
use node_shell.Agent.Accepted.{accepted_after, accepted, drop-accepted}
use node_shell.Agent.Rounds.{RoundAt, tool_rounds-RoundAt}

pub accepted-head : (msgs : List ChatMessage) → accepted msgs ≡ true → tool_at msgs 0 ≡ false
unfolding accepted_after tool_at
accepted-head [] a = refl
accepted-head (m ∷ ms) a = ground arith

back_up-turn :
    (msgs : List ChatMessage) (from : ℕ)
    → accepted msgs ≡ true
    → tool_at msgs (back_up msgs from) ≡ false
unfolding back_up
back_up-turn msgs zero a = accepted-head msgs a
back_up-turn msgs (suc from) a = ground (arith, back_up-turn msgs from a)

back_up-le : (msgs : List ChatMessage) (from : ℕ) → back_up msgs from ≤ from
unfolding back_up
back_up-le msgs zero = omega arith
back_up-le msgs (suc from) = ground (arith, back_up-le msgs from)

-- The cut lies at or before the given one and the start of each round.
keep_rounds_from-le :
    (rs : List ToolRound) (from : ℕ)
    → (keep_rounds_from rs from ≤ from) × All (λ r. keep_rounds_from rs from ≤ r.start) rs
unfolding keep_rounds_from
keep_rounds_from-le [] from = (omega arith, tt)
keep_rounds_from-le (r ∷ rs) from =
    let (a, b) = keep_rounds_from-le rs from in
    if_cases (λ k. (k ≤ from) × All (λ q. k ≤ q.start) (r ∷ rs))
      (ltb r.start (keep_rounds_from rs from)) _ _
      (λ x. (
        ground arith,
        (
          omega arith,
          All-map (λ (q : ToolRound) (h : keep_rounds_from rs from ≤ q.start). ground arith) rs b,
        ),
      ))
      (λ x. (a, (ground arith, b)))

keep_rounds_from-turn :
    (msgs : List ChatMessage) (rs : List ToolRound) (from : ℕ)
    → All (RoundAt 0 msgs) rs
    → tool_at msgs from ≡ false
    → tool_at msgs (keep_rounds_from rs from) ≡ false
unfolding keep_rounds_from
keep_rounds_from-turn msgs [] from h t = t
keep_rounds_from-turn msgs (r ∷ rs) from h t =
    if_cases (λ k. tool_at msgs k ≡ false) (ltb r.start (keep_rounds_from rs from)) _ _
      (λ x. let z : r.start - 0 ≡ r.start = omega arith in rw z at (h.0.starts_turn))
      (λ x. keep_rounds_from-turn msgs rs from h.1 t)

-- What a split promises: nothing is lost, the tail is accepted, it holds the last messages, and the
-- last rounds lie in it whole.
pub record IsSplit (msgs prefix keep : List ChatMessage) (keep_messages keep_rounds : ℕ)
    : Type 0 where
  pub whole : prefix ++ keep ≡ msgs
  pub tail_accepted : accepted keep ≡ true
  pub recent : length prefix ≤ length msgs - keep_messages
  pub rounds :
      All
        (λ r. length prefix ≤ r.start)
        (drop (length (tool_rounds msgs) - keep_rounds) (tool_rounds msgs))

length-take_le : (n : ℕ) (msgs : List ChatMessage) → length (take n msgs) ≤ n
length-take_le zero msgs = omega arith
length-take_le (suc n) [] = omega arith
length-take_le (suc n) (m ∷ ms) = omega (arith, length-take_le n ms)

-- An accepted transcript is split without loss: the tail is accepted too, so that it begins with no
-- orphaned tool result; it holds the recent messages, and the recent complete rounds whole.
pub split_for_compression-IsSplit :
    (msgs : List ChatMessage) (keep_messages keep_rounds : ℕ)
    → accepted msgs ≡ true
    → let parts = split_for_compression msgs keep_messages keep_rounds in
      IsSplit msgs parts.0 parts.1 keep_messages keep_rounds
unfolding split_for_compression cut_index
split_for_compression-IsSplit [] km kr a = record {
  whole = refl;
  tail_accepted = a;
  recent = omega arith;
  rounds =
      All-drop (λ (r : ToolRound). 0 ≤ r.start) (length (tool_rounds []) - kr) (tool_rounds [])
        (unfold tool_rounds rounds_from in tt);
}
split_for_compression-IsSplit (m ∷ ms) km kr a =
    let msgs = m ∷ ms in
    let rs = drop (length (tool_rounds msgs) - kr) (tool_rounds msgs) in
    let start = back_up msgs (length msgs - km) in
    let (below, each) = keep_rounds_from-le rs start in
    record {
      whole = take-append-drop (keep_rounds_from rs start) msgs;
      tail_accepted = drop-accepted (keep_rounds_from rs start) 0 msgs a (
          keep_rounds_from-turn msgs rs start
            (All-drop (RoundAt 0 msgs) (length (tool_rounds msgs) - kr) (tool_rounds msgs)
              (tool_rounds-RoundAt msgs))
            (back_up-turn msgs (length msgs - km) a));
      recent = omega (
        arith,
        below,
        back_up-le msgs (length msgs - km),
        length-take_le (keep_rounds_from rs start) msgs,
      );
      rounds =
          All-map
            (λ (r : ToolRound) (h : keep_rounds_from rs start ≤ r.start).
              omega (arith, length-take_le (keep_rounds_from rs start) msgs))
            rs each;
    }
