-- ===== src/Agent/Compaction.antt =====
-- internal/agent/context.go: tool rounds, and the compaction of a transcript.
use Prim.Native.String.{◌++◌ as ◌+++◌}
use node_shell.Base.{
  ℕ, zero, suc, ◌+◌, ◌-◌, ◌/◌, String, Bool, false, ◌&&◌, ◌||◌, List, [], ◌∷◌, ◌++◌, ℤ, length,
  take, drop, ltb, leb, eqb, if◌then◌else◌,
}
use node_shell.Agent.Message.{
  ToolCall, ChatMessage, system, assistant, message, is_tool, calls_tools,
}
use node_shell.Agent.History.{trim_history}
use node_shell.Agent.Budget.{over_budget}

pub record ToolRound : Type 0 where
  pub start : ℕ
  pub end : ℕ

-- How many tool results stand at the front.
unfoldable pub leading_tools : List ChatMessage → ℕ
leading_tools [] = 0
leading_tools (m ∷ ms) = let rest = leading_tools ms in if is_tool m.role then suc rest else 0

-- The loop of `toolRounds` at index `i`. The indices that the code skips behind a round hold tool
-- results, and those start no round, so that the walk may visit them.
unfoldable pub rounds_from : ℕ → List ChatMessage → List ToolRound
unfolding leading_tools
rounds_from i [] = []
rounds_from i (m ∷ ms) =
    let rest = rounds_from (suc i) ms in
    if calls_tools m && eqb (leading_tools ms) (length m.tool_calls)
    then record { start = i; end = suc (i + leading_tools ms) } ∷ rest
    else rest

unfoldable pub tool_rounds : List ChatMessage → List ToolRound
unfolding rounds_from
tool_rounds msgs = rounds_from 0 msgs

-- Whether the message of an index is a tool result.
unfoldable pub tool_at : List ChatMessage → ℕ → Bool
tool_at [] i = false
tool_at (m ∷ ms) zero = is_tool m.role
tool_at (m ∷ ms) (suc i) = tool_at ms i

-- The cut moves back to the message that called. An index behind the end, where the source panics, is
-- no cut of the callers, which keep at least one message.
unfoldable pub back_up : List ChatMessage → ℕ → ℕ
unfolding tool_at
back_up msgs zero = zero
back_up msgs (suc from) =
    let earlier = back_up msgs from in if tool_at msgs (suc from) then earlier else suc from

-- The loop over the last rounds, from the last one on.
unfoldable pub keep_rounds_from : List ToolRound → ℕ → ℕ
keep_rounds_from [] from = from
keep_rounds_from (r ∷ rs) from =
    let later = keep_rounds_from rs from in if ltb r.start later then r.start else later

unfoldable pub cut_index : List ChatMessage → ℕ → ℕ → ℕ
unfolding back_up keep_rounds_from tool_rounds
cut_index msgs keep_messages keep_rounds =
    keep_rounds_from (drop (length (tool_rounds msgs) - keep_rounds) (tool_rounds msgs))
      (back_up msgs (length msgs - keep_messages))

unfoldable pub split_for_compression :
    List ChatMessage → ℕ → ℕ → List ChatMessage × List ChatMessage
unfolding cut_index
split_for_compression [] keep_messages keep_rounds = ([], [])
split_for_compression (m ∷ ms) keep_messages keep_rounds =
    let from = cut_index (m ∷ ms) keep_messages keep_rounds in
    (take from (m ∷ ms), drop from (m ∷ ms))

-- The names of a round's calls, joined by commas.
unfoldable pub call_names : List ToolCall → String
call_names [] = ""
call_names (call ∷ []) = call.function.name
call_names (call ∷ next ∷ calls) = call.function.name +++ (", " +++ call_names (next ∷ calls))

abbrev pub note : String → ChatMessage
note names =
    message assistant
      ("(earlier tool call: " +++ (names +++ "; its output was dropped to fit the context window)"))

unfoldable pub calls_at : List ChatMessage → ℕ → List ToolCall
calls_at [] i = []
calls_at (m ∷ ms) zero = m.tool_calls
calls_at (m ∷ ms) (suc i) = calls_at ms i

unfoldable pub drop_tool_round : List ChatMessage → ToolRound → List ChatMessage
unfolding call_names calls_at
drop_tool_round msgs r =
    if ltb (length msgs) r.end || leb r.end r.start
    then msgs
    else take r.start msgs ++ note (call_names (calls_at msgs r.start)) ∷ drop r.end msgs

-- The loop that drops the rounds, from the newest to the oldest.
unfoldable pub drop_rounds : List ToolRound → List ChatMessage → List ChatMessage
unfolding drop_tool_round
drop_rounds [] msgs = msgs
drop_rounds (r ∷ rs) msgs = drop_tool_round (drop_rounds rs msgs) r

unfoldable pub drop_old_tool_results : List ChatMessage → ℕ → List ChatMessage
unfolding drop_rounds tool_rounds
drop_old_tool_results msgs keep_rounds =
    if leb (length (tool_rounds msgs)) keep_rounds
    then msgs
    else drop_rounds (take (length (tool_rounds msgs) - keep_rounds) (tool_rounds msgs)) msgs

abbrev pub keep_recent_messages : ℕ
keep_recent_messages = 8

abbrev pub keep_tool_rounds : ℕ
keep_tool_rounds = 2

-- The last resorts of `compress`.
unfoldable pub shrink : String → ℤ → List ChatMessage → List ChatMessage
unfolding drop_old_tool_results over_budget trim_history
shrink instruction window msgs =
    let shorter = drop_old_tool_results msgs 1 in
    if over_budget instruction shorter window then trim_history shorter else shorter

-- A summary in front of what is kept; `summary_of` asks the provider, or falls back on a list.
abbrev pub summarised :
    (List ChatMessage → String) → List ChatMessage × List ChatMessage → List ChatMessage
summarised summary_of (prefix, keep) = message system (summary_of prefix) ∷ keep

unfoldable pub compress_again :
    (List ChatMessage → String) → String → ℤ → List ChatMessage → List ChatMessage
unfolding split_for_compression shrink over_budget
compress_again summary_of instruction window msgs =
    let parts = split_for_compression msgs (keep_recent_messages / 2) 1 in
    if eqb (length parts.0) 0
    then shrink instruction window msgs
    else if over_budget instruction (summarised summary_of parts) window
    then shrink instruction window (summarised summary_of parts)
    else summarised summary_of parts

unfoldable pub compress :
    (List ChatMessage → String) → String → ℤ → List ChatMessage → List ChatMessage
unfolding split_for_compression trim_history compress_again over_budget
compress summary_of instruction window history =
    let parts = split_for_compression history keep_recent_messages keep_tool_rounds in
    if eqb (length parts.0) 0
    then trim_history history
    else if over_budget instruction (summarised summary_of parts) window
    then compress_again summary_of instruction window (summarised summary_of parts)
    else summarised summary_of parts
