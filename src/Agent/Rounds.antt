-- ===== src/Agent/Rounds.antt =====
-- internal/agent/context.go: what the rounds that `toolRounds` finds are.
use node_shell.Base.{
  ℕ, zero, suc, ◌+◌, ◌-◌, ◌≤◌, ◌<◌, ◌≡◌, refl, true, false, ◌&&◌, List, [], ◌∷◌, length, take, eqb,
  arith, if_cases, Bool-cases, inl, inr, All, All-map,
}
use node_shell.Agent.Message.{ChatMessage, is_tool, calls_tools}
use node_shell.Agent.Compaction.{
  ToolRound, leading_tools, rounds_from, tool_rounds, tool_at, calls_at,
}

-- A round of the messages that begin at index `i` of the transcript.
pub record RoundAt (i : ℕ) (msgs : List ChatMessage) (r : ToolRound) : Type 0 where
  pub after : i ≤ r.start
  pub calls : r.end - r.start ≡ suc (length (calls_at msgs (r.start - i)))
  pub some_call : 0 < length (calls_at msgs (r.start - i))
  pub starts_turn : tool_at msgs (r.start - i) ≡ false
  pub within : r.end - i ≤ length msgs
  pub results : (j : ℕ) → r.start < j → j < r.end → tool_at msgs (j - i) ≡ true
  pub ends_turn : tool_at msgs (r.end - i) ≡ false
  pub nonempty : r.start < r.end

leading_tools-le : (ms : List ChatMessage) → leading_tools ms ≤ length ms
unfolding leading_tools
leading_tools-le [] = omega arith
leading_tools-le (m ∷ ms) = ground (arith, leading_tools-le ms)

leading_tools-end : (ms : List ChatMessage) → tool_at ms (leading_tools ms) ≡ false
unfolding leading_tools tool_at
leading_tools-end [] = refl
leading_tools-end (m ∷ ms) = ground (arith, leading_tools-end ms)

leading_tools-inside : (j : ℕ) (ms : List ChatMessage) → j < leading_tools ms → tool_at ms j ≡ true
unfolding leading_tools tool_at
leading_tools-inside j [] h = absurd (omega arith)
leading_tools-inside zero (m ∷ ms) h = ground arith
leading_tools-inside (suc j) (m ∷ ms) h = ground (arith, leading_tools-inside j ms)

RoundAt-head :
    (i : ℕ) (m : ChatMessage) (ms : List ChatMessage)
    → calls_tools m ≡ true
    → leading_tools ms ≡ length m.tool_calls
    → RoundAt i (m ∷ ms) (record { start = i; end = suc (i + leading_tools ms) })
unfolding tool_at calls_at
RoundAt-head i m ms c e =
    let z : i - i ≡ 0 = omega arith in
    let s : suc (i + leading_tools ms) - i ≡ suc (leading_tools ms) = omega arith in
    record {
      after = omega arith;
      calls = rw z (omega (arith, e));
      some_call = rw z (ground arith);
      starts_turn = rw z (ground arith);
      within = omega (arith, leading_tools-le ms);
      results = λ j lo hi.
          let p : j - i ≡ suc (j - i - 1) = omega arith in
          rw p (leading_tools-inside (j - i - 1) ms (omega arith));
      ends_turn = rw s (leading_tools-end ms);
      nonempty = omega arith;
    }

RoundAt-tail :
    (i : ℕ) (m : ChatMessage) (ms : List ChatMessage) (r : ToolRound)
    → RoundAt (suc i) ms r
    → RoundAt i (m ∷ ms) r
unfolding tool_at calls_at
RoundAt-tail i m ms r h =
    let s : r.start - i ≡ suc (r.start - suc i) = omega (arith, h.after) in
    let e : r.end - i ≡ suc (r.end - suc i) = omega (arith, h.after, h.nonempty) in
    record {
      after = omega (arith, h.after);
      calls = rw s h.calls;
      some_call = rw s h.some_call;
      starts_turn = rw s h.starts_turn;
      within = omega (arith, h.within);
      results = λ j lo hi.
          let p : j - i ≡ suc (j - suc i) = omega (arith, h.after) in rw p (h.results j lo hi);
      ends_turn = rw e h.ends_turn;
      nonempty = h.nonempty;
    }

rounds_from-RoundAt : (i : ℕ) (msgs : List ChatMessage) → All (RoundAt i msgs) (rounds_from i msgs)
unfolding rounds_from
rounds_from-RoundAt i [] = tt
rounds_from-RoundAt i (m ∷ ms) =
    let rest =
      All-map (RoundAt-tail i m ms) (rounds_from (suc i) ms) (rounds_from-RoundAt (suc i) ms) in
    if_cases (All (RoundAt i (m ∷ ms)))
      (calls_tools m && eqb (leading_tools ms) (length m.tool_calls)) _ _
      (λ b. (RoundAt-head i m ms (ground arith) (ground arith), rest)) (λ b. rest)

-- Every round found is complete: it starts at an assistant turn with calls, holds exactly one result
-- for each of them, and ends where the results end.
pub tool_rounds-RoundAt : (msgs : List ChatMessage) → All (RoundAt 0 msgs) (tool_rounds msgs)
unfolding tool_rounds
tool_rounds-RoundAt msgs = rounds_from-RoundAt 0 msgs

-- The rounds stand in order and do not overlap.
abbrev pub Ordered : ℕ → List ToolRound → Type 0
Ordered lo [] = Unit
Ordered lo (r ∷ rs) = (lo ≤ r.start) × Ordered r.end rs

Ordered-mono : {a b : ℕ} (rs : List ToolRound) → a ≤ b → Ordered b rs → Ordered a rs
Ordered-mono [] h o = tt
Ordered-mono (r ∷ rs) h o = (omega arith, o.1)

rounds_from-Ordered :
    (i : ℕ) (msgs : List ChatMessage) → Ordered (i + leading_tools msgs) (rounds_from i msgs)
unfolding rounds_from leading_tools
rounds_from-Ordered i [] = tt
rounds_from-Ordered i (m ∷ ms) =
    let rest = rounds_from-Ordered (suc i) ms in
    elim (Bool-cases (calls_tools m && eqb (leading_tools ms) (length m.tool_calls))) [
      | inl b ↦
          let t : is_tool m.role ≡ false = ground arith in
          rw (b, t) (omega arith, Ordered-mono (rounds_from (suc i) ms) (omega arith) rest)
      | inr b ↦ rw b (Ordered-mono (rounds_from (suc i) ms) (ground arith) rest)
    ]

pub tool_rounds-Ordered : (msgs : List ChatMessage) → Ordered 0 (tool_rounds msgs)
unfolding tool_rounds
tool_rounds-Ordered msgs =
    Ordered-mono (rounds_from 0 msgs) (omega arith) (rounds_from-Ordered 0 msgs)

pub Ordered-take : (n lo : ℕ) (rs : List ToolRound) → Ordered lo rs → Ordered lo (take n rs)
Ordered-take zero lo rs o = tt
Ordered-take (suc n) lo [] o = tt
Ordered-take (suc n) lo (r ∷ rs) o = (o.0, Ordered-take n r.end rs o.1)
