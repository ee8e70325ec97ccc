-- ===== src/Agent/History.antt =====
-- internal/agent/agent.go: the cap on the transcript, and the reconciliation after a run.
use node_shell.Base.{
  ℕ, ◌-◌, String, Option, none, some, List, [], ◌∷◌, ◌++◌, length, drop, ltb, contains,
  if◌then◌else◌,
}
use node_shell.Agent.Message.{ToolCall, ChatMessage, tool, message, is_tool, calls_tools}

abbrev pub max_history_messages : ℕ
max_history_messages = 40

-- The loop that drops leading tool results.
unfoldable pub drop_tools : List ChatMessage → List ChatMessage
drop_tools [] = []
drop_tools (m ∷ ms) = let rest = drop_tools ms in if is_tool m.role then rest else m ∷ ms

unfoldable pub trim_history : List ChatMessage → List ChatMessage
unfolding drop_tools
trim_history msgs = drop_tools (
    if ltb max_history_messages (length msgs)
    then drop (length msgs - max_history_messages) msgs
    else msgs)

-- The last assistant turn with tool calls, with the messages behind it.
abbrev pub Open : Type 0
Open = ChatMessage × List ChatMessage

unfoldable pub last_call : List ChatMessage → Option Open
last_call [] = none
last_call (m ∷ ms) = elim (last_call ms) [
  | some found ↦ some found
  | none ↦ if calls_tools m then some (m, ms) else none
]

unfoldable pub answered_ids : List ChatMessage → List String
answered_ids [] = []
answered_ids (m ∷ ms) =
    let rest = answered_ids ms in if is_tool m.role then m.tool_call_id ∷ rest else rest

abbrev pub stopped_result : String → ChatMessage
stopped_result id = record (message tool "error: the run stopped before this call finished") {
  tool_call_id = id;
}

unfoldable pub stopped_results : List String → List ToolCall → List ChatMessage
unfolding contains
stopped_results answered [] = []
stopped_results answered (call ∷ calls) =
    let rest = stopped_results answered calls in
    if contains call.id answered then rest else stopped_result call.id ∷ rest

unfoldable pub reconcile : List ChatMessage → List ChatMessage
unfolding last_call answered_ids stopped_results trim_history
reconcile msgs = elim (last_call msgs) [
  | none ↦ msgs
  | some (call, behind) ↦
      trim_history (msgs ++ stopped_results (answered_ids behind) call.tool_calls)
]

-- `appendAll`, of the messages that a run produced.
unfoldable pub append_all : List ChatMessage → List ChatMessage → List ChatMessage
unfolding trim_history
append_all msgs [] = msgs
append_all msgs (m ∷ ms) = trim_history (msgs ++ m ∷ ms)
