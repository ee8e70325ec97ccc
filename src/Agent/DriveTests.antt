-- ===== src/Agent/DriveTests.antt =====
-- Prompts and their runs at a service without conversations.
use node_shell.Base.{
  ◌≡◌, ◌<◌, refl, String, Bool, none, some, [], ◌∷◌, pos, lookup, insert, arith, contains, distinct,
}
use node_shell.Agent.Message.{ToolCall, ChatMessage, assistant, tool, message}
use node_shell.Agent.Accepted.{accepted_after}
use node_shell.Agent.Answered.{answered}
use node_shell.Agent.Reconciled.{Within, call_ids, all_tools}
use node_shell.Agent.History.{answered_ids}
use node_shell.Agent.Conversations.{Config, Service, new_service, accept, delta, driving}
use node_shell.Agent.Runs.{Reach}
use node_shell.Agent.Eino.{Reply, Attempt, Failures, failed, output, run_eino}
use node_shell.Agent.Drive.{run}
use node_shell.Agent.Replies.{IsReply, stopped}
use node_shell.Agent.Exchanges.{Idle, Exchanged, accept-Exchanged}
use node_shell.Agent.Performs.{run-Reach}

abbrev settings : Config
settings = record {
  base_url = "https://x";
  model = "m";
  api_key = "k";
  context_window = pos 5000;
  thinking_strength = "high";
  context_compression = "auto";
}

-- Texts as errors: the provider refuses the parameter, or the request runs out of time.
abbrev failures : Failures String
failures = record {
  rejected = contains_reasoning;
  mapped = λ cfg e. record { code = "TIMEOUT"; message = e };
}
  where
    contains_reasoning : String → Bool
    contains_reasoning e = contains e ("reasoning" ∷ [])

abbrev call : String → ToolCall
call id = record {
  id = id;
  type = "function";
  function = record { name = "bash"; arguments = "{}" };
}

abbrev calling : ChatMessage
calling = record (message assistant "") { tool_calls = call "a" ∷ call "b" ∷ [] }

abbrev result : ChatMessage
result = record (message tool "done") { tool_call_id = "a" }

-- The first attempt is refused; the second one makes two calls, and ends after the first result.
abbrev refused : Attempt String
refused = record { refused = some "reasoning"; events = []; shown = [] }

abbrev cut_short : Attempt String
cut_short = record {
  refused = none;
  events = output (some calling) none ∷ output (some result) none ∷ failed "timed out" ∷ [];
  shown = delta "d" ∷ [];
}

abbrev reply : Reply
reply = record {
  produced = calling ∷ result ∷ [];
  failure = some (record { code = "TIMEOUT"; message = "timed out" });
  shown = delta "d" ∷ [];
}

run_eino_test : run_eino failures settings refused cut_short ≡ reply
unfolding run_eino contains
run_eino_test = refl

result_known : Within (answered_ids (result ∷ [])) (call_ids calling.tool_calls)
unfolding answered_ids call_ids contains
result_known id c = ground (arith, c)

stopped-IsReply : IsReply reply.produced
stopped-IsReply =
    stopped [] calling (result ∷ [])
      (record { accept = unfold accepted_after in refl; answer = unfold answered in refl })
      (record {
        calls = refl;
        tools = unfold all_tools in refl;
        distinct_calls = unfold distinct call_ids contains in refl;
        distinct_results = unfold distinct answered_ids contains in refl;
        known = result_known;
      })

new_service-Idle : Idle "s1" new_service
unfolding new_service lookup
new_service-Idle = record { open' = refl; waits = λ p e. absurd (ground (arith, e)) }

accept-Exchanged_example : Exchanged "s1" reply new_service (accept "s1" "hello" new_service).1 (
    run
      (λ msgs. "earlier")
      "host"
      settings
      reply
      new_service.next_run
      (accept "s1" "hello" new_service).0)
accept-Exchanged_example =
    accept-Exchanged "s1" "hello" (λ msgs. "earlier") "host" settings reply new_service
      stopped-IsReply new_service-Idle

abbrev asked : Service
asked = (accept "s1" "hello" new_service).0

asked_runs : (0 < asked.next_run) × ((asked.runs 0).phase ≡ driving)
unfolding accept new_service lookup insert
asked_runs = (omega arith, refl)

run-Reach_example : Reach asked (run (λ msgs. "earlier") "host" settings reply 0 asked)
run-Reach_example =
    run-Reach 0 (λ msgs. "earlier") "host" settings reply asked asked_runs.0 asked_runs.1
