-- ===== src/Agent/Accepted.antt =====
-- Transcripts that a provider accepts: every tool result answers a call of the assistant turn in front
-- of it, and every call is answered before the next turn.
use node_shell.Base.{
  ℕ, zero, suc, ◌-◌, ◌<◌, ◌≡◌, refl, Bool, true, false, ◌&&◌, List, [], ◌∷◌, ◌++◌, length, take,
  drop, ltb, eqb, if◌then◌else◌, arith, if_cases,
}
use node_shell.Agent.Message.{ChatMessage, is_tool, is_assistant}
use node_shell.Agent.History.{max_history_messages, drop_tools, trim_history}
use node_shell.Agent.Compaction.{tool_at}

-- The results that a message calls for.
abbrev pub expects : ChatMessage → ℕ
expects m = if is_assistant m.role then length m.tool_calls else 0

-- With `open` results to come first.
unfoldable pub accepted_after : ℕ → List ChatMessage → Bool
accepted_after open' [] = eqb open' 0
accepted_after open' (m ∷ ms) =
    let rest = accepted_after (if is_tool m.role then open' - 1 else expects m) ms in
    if is_tool m.role then ltb 0 open' && rest else eqb open' 0 && rest

abbrev pub accepted : List ChatMessage → Bool
accepted msgs = accepted_after 0 msgs

-- A cut at a message that is no tool result leaves a transcript that is accepted.
pub drop-accepted :
    (n open' : ℕ) (msgs : List ChatMessage)
    → accepted_after open' msgs ≡ true
    → tool_at msgs n ≡ false
    → accepted (drop n msgs) ≡ true
unfolding accepted_after tool_at
drop-accepted zero open' [] a t = refl
drop-accepted zero open' (m ∷ ms) a t = ground arith
drop-accepted (suc n) open' [] a t = refl
drop-accepted (suc n) open' (m ∷ ms) a t =
    drop-accepted n (if is_tool m.role then open' - 1 else expects m) ms (ground arith) t

pub drop_tools-accepted :
    (open' : ℕ) (msgs : List ChatMessage)
    → accepted_after open' msgs ≡ true
    → accepted (drop_tools msgs) ≡ true
unfolding accepted_after drop_tools
drop_tools-accepted open' [] a = refl
drop_tools-accepted open' (m ∷ ms) a = ground (arith, drop_tools-accepted (open' - 1) ms)

-- Any suffix is accepted after some number of results.
drop-accepted_after :
    (n open' : ℕ) (msgs : List ChatMessage)
    → accepted_after open' msgs ≡ true
    → (k : ℕ) × (accepted_after k (drop n msgs) ≡ true)
unfolding accepted_after
drop-accepted_after zero open' msgs a = (open', a)
drop-accepted_after (suc n) open' [] a = (0, refl)
drop-accepted_after (suc n) open' (m ∷ ms) a =
    drop-accepted_after n (if is_tool m.role then open' - 1 else expects m) ms (ground arith)

-- The cap keeps a transcript that is accepted.
pub trim_history-accepted :
    (msgs : List ChatMessage) → accepted msgs ≡ true → accepted (trim_history msgs) ≡ true
unfolding trim_history
trim_history-accepted msgs a =
    let (k, b) = drop-accepted_after (length msgs - max_history_messages) 0 msgs a in
    if_cases (λ ms. accepted (drop_tools ms) ≡ true) (ltb max_history_messages (length msgs)) _ _
      (λ over. drop_tools-accepted k (drop (length msgs - max_history_messages) msgs) b)
      (λ fits. drop_tools-accepted 0 msgs a)

-- The front up to a message that is no tool result, with an accepted rest that starts a turn.
pub take-accepted :
    (n open' : ℕ) (msgs rest : List ChatMessage)
    → accepted_after open' msgs ≡ true
    → tool_at msgs n ≡ false
    → n < length msgs
    → accepted rest ≡ true
    → accepted_after open' (take n msgs ++ rest) ≡ true
unfolding accepted_after tool_at
take-accepted zero open' [] rest a t l r = absurd (omega arith)
take-accepted (suc n) open' [] rest a t l r = absurd (omega arith)
take-accepted zero open' (m ∷ ms) rest a t l r = ground arith
take-accepted (suc n) open' (m ∷ ms) rest a t l r =
    ground (arith, take-accepted n (if is_tool m.role then open' - 1 else expects m) ms rest)
