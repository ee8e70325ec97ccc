-- ===== src/Agent/Dropped.antt =====
-- Accepted transcripts and internal/agent/context.go: `dropOldToolResults` and `compress`.
use node_shell.Base.{
  ℕ, zero, suc, ◌+◌, ◌-◌, ◌≤◌, ◌<◌, ◌≡◌, refl, sym, ◌∙◌, String, true, false, ◌||◌, List, [], ◌∷◌,
  ◌++◌, ℤ, length, take, drop, ltb, leb, eqb, arith, if_cases, Bool-cases, inl, inr, All, All-take,
}
use node_shell.Agent.Message.{ChatMessage, message, system}
use node_shell.Agent.Budget.{over_budget}
use node_shell.Agent.History.{trim_history}
use node_shell.Agent.Compaction.{
  ToolRound, tool_rounds, tool_at, split_for_compression, note, calls_at, call_names,
  drop_tool_round, drop_rounds, drop_old_tool_results, shrink, summarised, compress_again, compress,
}
use node_shell.Agent.Accepted.{
  accepted_after, accepted, drop-accepted, take-accepted, trim_history-accepted,
}
use node_shell.Agent.Rounds.{
  RoundAt, Ordered, tool_rounds-RoundAt, tool_rounds-Ordered, Ordered-take,
}
use node_shell.Agent.Split.{split_for_compression-IsSplit}

-- What dropping newer rounds keeps: the transcript is accepted, and the same up to an index.
pub record Kept (lo : ℕ) (msgs out : List ChatMessage) : Type 0 where
  pub still : accepted out ≡ true
  pub same : (i : ℕ) → i ≤ lo → tool_at out i ≡ tool_at msgs i
  pub long : lo ≤ length out

tool_at-take :
    (n i : ℕ) (msgs rest : List ChatMessage)
    → i < n
    → n ≤ length msgs
    → tool_at (take n msgs ++ rest) i ≡ tool_at msgs i
unfolding tool_at
tool_at-take zero i msgs rest h l = absurd (omega arith)
tool_at-take (suc n) i [] rest h l = absurd (omega arith)
tool_at-take (suc n) zero (m ∷ ms) rest h l = refl
tool_at-take (suc n) (suc i) (m ∷ ms) rest h l =
    tool_at-take n i ms rest (omega arith) (omega arith)

tool_at-take_end :
    (n : ℕ) (msgs rest : List ChatMessage)
    → n ≤ length msgs
    → tool_at (take n msgs ++ rest) n ≡ tool_at rest 0
unfolding tool_at
tool_at-take_end zero msgs rest l = refl
tool_at-take_end (suc n) [] rest l = absurd (omega arith)
tool_at-take_end (suc n) (m ∷ ms) rest l = tool_at-take_end n ms rest (omega arith)

length-take_append :
    (n : ℕ) (msgs rest : List ChatMessage)
    → n ≤ length msgs
    → length (take n msgs ++ rest) ≡ n + length rest
length-take_append zero msgs rest l = omega arith
length-take_append (suc n) [] rest l = absurd (omega arith)
length-take_append (suc n) (m ∷ ms) rest l = omega (arith, length-take_append n ms rest)

note-accepted :
    (names : String) (rest : List ChatMessage)
    → accepted rest ≡ true
    → accepted (note names ∷ rest) ≡ true
unfolding accepted_after
note-accepted names rest a = a

note_turn : (names : String) (rest : List ChatMessage) → tool_at (note names ∷ rest) 0 ≡ false
unfolding tool_at
note_turn names rest = refl

drop_tool_round-Kept :
    (lo : ℕ) (msgs out : List ChatMessage) (r : ToolRound)
    → RoundAt 0 msgs r
    → lo ≤ r.start
    → Kept r.end msgs out
    → Kept lo msgs (drop_tool_round out r)
unfolding drop_tool_round
drop_tool_round-Kept lo msgs out r h l k =
    let names = call_names (calls_at out r.start) in
    let rest = note names ∷ drop r.end out in
    let starts : tool_at msgs r.start ≡ false =
      (let z : r.start - 0 ≡ r.start = omega arith in rw z at (h.starts_turn)) in
    let ends : tool_at msgs r.end ≡ false =
      (let z : r.end - 0 ≡ r.end = omega arith in rw z at (h.ends_turn)) in
    if_cases (Kept lo msgs) (ltb (length out) r.end || leb r.end r.start) _ _
      (λ bad. absurd (ground (arith, k.long, h.nonempty)))
      (λ fine. record {
        still =
            take-accepted r.start 0 out rest k.still
              (k.same r.start (omega (arith, h.nonempty)) ∙ starts)
              (omega (arith, k.long, h.nonempty))
              (note-accepted names (drop r.end out)
                (drop-accepted r.end 0 out k.still (k.same r.end (omega arith) ∙ ends)));
        same = λ i below. elim (Bool-cases (ltb i r.start)) [
          | inl x ↦
              tool_at-take r.start i out rest (ground arith) (omega (arith, k.long, h.nonempty))
              ∙ k.same i (omega (arith, h.nonempty))
          | inr x ↦
              let e : i ≡ r.start = ground arith in
              rw e (
                tool_at-take_end r.start out rest (omega (arith, k.long, h.nonempty))
                ∙ note_turn names (drop r.end out)
                ∙ sym starts)
        ];
        long = omega (arith, length-take_append r.start out rest, k.long, h.nonempty);
      })

pub drop_rounds-Kept :
    (lo : ℕ) (rs : List ToolRound) (msgs : List ChatMessage)
    → All (RoundAt 0 msgs) rs
    → Ordered lo rs
    → lo ≤ length msgs
    → accepted msgs ≡ true
    → Kept lo msgs (drop_rounds rs msgs)
unfolding drop_rounds
drop_rounds-Kept lo [] msgs h o l a = record { still = a; same = λ i b. refl; long = l }
drop_rounds-Kept lo (r ∷ rs) msgs h o l a =
    drop_tool_round-Kept lo msgs (drop_rounds rs msgs) r h.0 o.0
      (drop_rounds-Kept r.end rs msgs h.1 o.1 (omega (arith, h.0.within)) a)

-- Dropping the results of the older rounds keeps a transcript accepted: each call goes with its
-- results, and the indices of the rounds that are still to be dropped stay right.
pub drop_old_tool_results-accepted :
    (msgs : List ChatMessage) (keep_rounds : ℕ)
    → accepted msgs ≡ true
    → accepted (drop_old_tool_results msgs keep_rounds) ≡ true
unfolding drop_old_tool_results
drop_old_tool_results-accepted msgs kr a =
    let n = length (tool_rounds msgs) - kr in
    if_cases (λ ms. accepted ms ≡ true) (leb (length (tool_rounds msgs)) kr) _ _ (λ few. a)
      (λ many.
        (drop_rounds-Kept 0 (take n (tool_rounds msgs)) msgs
          (All-take (RoundAt 0 msgs) n (tool_rounds msgs) (tool_rounds-RoundAt msgs))
          (Ordered-take n 0 (tool_rounds msgs) (tool_rounds-Ordered msgs)) (omega arith) a).still)

-- A property of transcripts that each stage of a compaction keeps, the compaction keeps.
module _ (P : List ChatMessage → Type 0)
    (trims : (msgs : List ChatMessage) → P msgs → P (trim_history msgs))
    (cuts : (msgs : List ChatMessage) (keep_messages keep_rounds : ℕ)
      → P msgs
      → P (split_for_compression msgs keep_messages keep_rounds).1)
    (heads : (text : String) (keep : List ChatMessage) → P keep → P (message system text ∷ keep))
    (drops : (msgs : List ChatMessage) (kept : ℕ) → P msgs → P (drop_old_tool_results msgs kept))
    (summary_of : List ChatMessage → String) (instruction : String) (window : ℤ) where
  shrink-keeps : (msgs : List ChatMessage) → P msgs → P (shrink instruction window msgs)
  unfolding shrink
  shrink-keeps msgs a =
      if_cases P (over_budget instruction (drop_old_tool_results msgs 1) window) _ _
        (λ over. trims (drop_old_tool_results msgs 1) (drops msgs 1 a)) (λ fits. drops msgs 1 a)

  summarised-keeps :
      (parts : List ChatMessage × List ChatMessage) → P parts.1 → P (summarised summary_of parts)
  summarised-keeps (prefix, keep) a = heads (summary_of prefix) keep a

  compress_again-keeps :
      (msgs : List ChatMessage) → P msgs → P (compress_again summary_of instruction window msgs)
  unfolding compress_again
  compress_again-keeps msgs a =
      let parts = split_for_compression msgs 4 1 in
      let b = summarised-keeps parts (cuts msgs 4 1 a) in
      if_cases P (eqb (length parts.0) 0) _ _ (λ x. shrink-keeps msgs a)
        (λ x.
          if_cases P (over_budget instruction (summarised summary_of parts) window) _ _
            (λ y. shrink-keeps (summarised summary_of parts) b) (λ y. b))

  pub compress-keeps :
      (msgs : List ChatMessage) → P msgs → P (compress summary_of instruction window msgs)
  unfolding compress
  compress-keeps msgs a =
      let parts = split_for_compression msgs 8 2 in
      let b = summarised-keeps parts (cuts msgs 8 2 a) in
      if_cases P (eqb (length parts.0) 0) _ _ (λ x. trims msgs a)
        (λ x.
          if_cases P (over_budget instruction (summarised summary_of parts) window) _ _
            (λ y. compress_again-keeps (summarised summary_of parts) b) (λ y. b))

pub headed-accepted :
    (text : String) (keep : List ChatMessage)
    → accepted keep ≡ true
    → accepted (message system text ∷ keep) ≡ true
unfolding accepted_after
headed-accepted text keep a = a

-- Compaction keeps a transcript that a provider accepts, whatever the summaries say and on every
-- way through its stages.
pub compress-accepted :
    (summary_of : List ChatMessage → String) (instruction : String) (window : ℤ)
    (history : List ChatMessage)
    → accepted history ≡ true
    → accepted (compress summary_of instruction window history) ≡ true
compress-accepted =
    compress-keeps (λ ms. accepted ms ≡ true) trim_history-accepted
      (λ msgs km kr a. (split_for_compression-IsSplit msgs km kr a).tail_accepted) headed-accepted
      drop_old_tool_results-accepted
