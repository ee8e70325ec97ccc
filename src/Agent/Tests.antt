-- ===== src/Agent/Tests.antt =====
-- The theorems about transcripts at a small conversation.
use node_shell.Base.{◌≡◌, refl, String, true, List, [], ◌∷◌, pos, length}
use node_shell.Agent.Message.{ToolCall, ChatMessage, user, assistant, tool, message}
use node_shell.Agent.History.{
  trim_history, drop_tools, reconcile, last_call, answered_ids, stopped_results,
}
use node_shell.Agent.Compaction.{
  leading_tools, rounds_from, tool_rounds, tool_at, back_up, keep_rounds_from, cut_index,
  split_for_compression, compress,
}
use node_shell.Agent.Accepted.{accepted_after, accepted}
use node_shell.Base.{contains, arith, eq_iff}
use node_shell.Agent.Reconciled.{Within}
use node_shell.Agent.Split.{IsSplit, split_for_compression-IsSplit}
use node_shell.Agent.Dropped.{compress-accepted}

abbrev call : String → ToolCall
call id = record {
  id = id;
  type = "function";
  function = record { name = "bash"; arguments = "{}" };
}

abbrev calling : List ToolCall → ChatMessage
calling calls = record (message assistant "") { tool_calls = calls }

abbrev result : String → ChatMessage
result id = record (message tool "done") { tool_call_id = id }

-- Two rounds, the first with two calls.
abbrev dialogue : List ChatMessage
dialogue =
    message user "list"
    ∷ calling (call "a" ∷ call "b" ∷ [])
    ∷ result "a"
    ∷ result "b"
    ∷ message assistant "listed"
    ∷ message user "again"
    ∷ calling (call "c" ∷ [])
    ∷ result "c"
    ∷ []

dialogue-accepted : accepted dialogue ≡ true
unfolding accepted_after
dialogue-accepted = refl

dialogue_rounds :
    tool_rounds dialogue ≡ (record { start = 1; end = 4 } ∷ record { start = 6; end = 8 } ∷ [])
unfolding tool_rounds rounds_from leading_tools
dialogue_rounds = refl

-- The cut would fall on a tool result, and moves back to the call.
dialogue_cut : cut_index dialogue 1 0 ≡ 6
unfolding cut_index back_up keep_rounds_from tool_rounds rounds_from leading_tools tool_at
dialogue_cut = refl

open_call_closed :
    length (reconcile (message user "list" ∷ calling (call "a" ∷ call "b" ∷ []) ∷ result "b" ∷ []))
    ≡ 4
unfolding reconcile last_call answered_ids stopped_results trim_history drop_tools
open_call_closed = refl

Within-calls : Within ("b" ∷ []) ("a" ∷ "b" ∷ [])
unfolding contains
Within-calls id c = ground (arith, eq_iff "b" id)

split_for_compression-IsSplit_example :
    IsSplit dialogue
      (split_for_compression dialogue 3 1).0
      (split_for_compression dialogue 3 1).1
      3
      1
split_for_compression-IsSplit_example = split_for_compression-IsSplit dialogue 3 1 dialogue-accepted

compress-accepted_example : accepted (compress (λ msgs. "earlier") "host" (pos 1) dialogue) ≡ true
compress-accepted_example =
    compress-accepted (λ msgs. "earlier") "host" (pos 1) dialogue dialogue-accepted
