-- ===== src/Agent/Budget.antt =====
-- internal/agent/context.go: the estimate of a request's size, and the budget.
use Prim.Native.String.{len}
use node_shell.Base.{
  ℕ, ◌+◌, ◌-◌, ◌*◌, ◌/◌, String, Bool, true, false, List, [], ◌∷◌, ltb, eqb, ◌==◌, if◌then◌else◌, ℤ,
  pos, negsuc,
}
use node_shell.Agent.Message.{ToolCall, ChatMessage}

abbrev pub chars_per_token : ℕ
chars_per_token = 4

abbrev pub tool_schema_reserve_tokens : ℕ
tool_schema_reserve_tokens = 1000

-- The code calls it with sums of lengths.
unfoldable pub estimate_tokens : ℕ → ℕ
estimate_tokens chars = (chars + chars_per_token - 1) / chars_per_token

unfoldable pub call_chars : List ToolCall → ℕ
call_chars [] = 0
call_chars (call ∷ calls) = len call.function.name + len call.function.arguments + call_chars calls

unfoldable pub transcript_chars : List ChatMessage → ℕ
unfolding call_chars
transcript_chars [] = 0
transcript_chars (m ∷ ms) =
    len m.content + len m.reasoning_content + call_chars m.tool_calls + transcript_chars ms

unfoldable pub estimate_context_tokens : String → List ChatMessage → ℕ
unfolding estimate_tokens transcript_chars
estimate_context_tokens instruction msgs =
    estimate_tokens (len instruction + transcript_chars msgs) + tool_schema_reserve_tokens

-- A window is an `int`; 0 and below are no limit.
unfoldable pub context_limit : ℤ → ℕ
context_limit (pos window) = window
context_limit (negsuc n) = 0

-- `compressionEnabled`, of the window and the mode.
unfoldable pub compression_enabled : ℤ → String → Bool
unfolding context_limit
compression_enabled window mode =
    if eqb (context_limit window) 0 then false else if mode == "auto" then true else false

-- The comparison with 0.8 of the limit in floating point, which is exact below 2 ^ 50.
unfoldable pub over_budget : String → List ChatMessage → ℤ → Bool
unfolding context_limit estimate_context_tokens
over_budget instruction msgs window =
    if eqb (context_limit window) 0
    then false
    else ltb (4 * context_limit window) (5 * estimate_context_tokens instruction msgs)

-- The part 0.2 of the limit, rounded down: exact below 2 ^ 50 too.
unfoldable pub summary_budget : ℤ → ℕ
unfolding context_limit
summary_budget window = context_limit window / 5
