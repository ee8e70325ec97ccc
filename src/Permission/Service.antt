-- ===== src/Permission/Service.antt =====
-- internal/permission/permission.go: `Service`, its allowlist and `Authorize`.
use Prim.Native.String.{◌++◌ as ◌+++◌}
use text.Mathlib.Text.{starts_with}
use node_shell.Base.{
  String, Bool, not, ◌&&◌, Option, none, some, List, [], ◌∷◌, ◌++◌, ◌==◌, if◌then◌else◌, Error,
  contains,
}
use node_shell.Permission.Policy.{
  Policy, ask, allow, deny, McpMode, external, local, Decision, deny_call, allow_once,
  allow_session, other_decision, Request, err_denied, sensitive, parse_policy,
}

-- The gate answers a request with a decision, or fails (none). `policy` is what the policy function
-- returns now; `allowed` are the keys of the allowlist; `prompts` is what the gate was asked.
pub record Service : Type 0 where
  pub gate : Option (Request → Option Decision)
  pub policy : Option String
  pub allowed : List String
  pub prompts : List Request

unfoldable pub allow_key : String → String → String
allow_key session tool = (session +++ "\0") +++ tool

unfoldable pub remembered : String → String → Service → Bool
unfolding contains allow_key
remembered session tool s = contains (allow_key session tool) s.allowed

unfoldable pub remember : String → String → Service → Service
unfolding allow_key
remember session tool s = record s { allowed = allow_key session tool ∷ s.allowed }

abbrev pub current_policy : Option String → Policy
current_policy none = ask
current_policy (some value) = parse_policy value

-- Nil is a granted call.
abbrev Verdict : Type 0
Verdict = Option Error

-- The last switch of `Authorize`, on the gate's answer.
abbrev pub answer : Request → Option Decision → Service → Service × Verdict
answer req none s = (s, some err_denied)
answer req (some allow_once) s = (s, none)
answer req (some allow_session) s =
    (if req.session_id == "" then s else remember req.session_id req.tool s, none)
answer req (some deny_call) s = (s, some err_denied)
answer req (some (other_decision d)) s = (s, some err_denied)

abbrev pub ask_gate : Request → Option (Request → Option Decision) → Service → Service × Verdict
ask_gate req none s = (s, none)
ask_gate req (some gate) s = answer req (gate req) (record s { prompts = s.prompts ++ req ∷ [] })

abbrev pub by_policy : Policy → Request → Service → Service × Verdict
by_policy allow req s = (s, none)
by_policy deny req s = (s, some err_denied)
by_policy ask req s =
    if not (req.session_id == "") && remembered req.session_id req.tool s
    then (s, none)
    else ask_gate req s.gate s

-- `Authorize` of a service that is not nil; `done` says that the call's context is over.
unfoldable pub authorize : Bool → Request → Service → Service × Verdict
authorize done req s =
    if not (sensitive req.tool)
    then (s, none)
    else if done
    then (s, some err_denied)
    else by_policy (current_policy s.policy) req s

-- The loop that deletes by prefix.
unfoldable pub without_prefix : String → List String → List String
without_prefix prefix [] = []
without_prefix prefix (k ∷ ks) =
    let rest = without_prefix prefix ks in if starts_with k prefix then rest else k ∷ rest

unfoldable pub forget_session : String → Service → Service
unfolding without_prefix
forget_session session s =
    if session == "" then s else record s { allowed = without_prefix (session +++ "\0") s.allowed }

unfoldable pub dispose_all : Service → Service
dispose_all s = record s { allowed = [] }

-- `NewService`, and the consent of the `--mcp` process: nil unless the mode is local, and then a
-- service of its own with the policy ask; a nil gate stands for the native dialogue.
unfoldable pub new_service : Option (Request → Option Decision) → Option String → Service
new_service gate policy = record { gate = gate; policy = policy; allowed = []; prompts = [] }

abbrev or_native :
    (Request → Option Decision) → Option (Request → Option Decision) → Request → Option Decision
or_native native none = native
or_native native (some gate) = gate

unfoldable pub new_mcp_authorizer :
    (Request → Option Decision) → McpMode → Option (Request → Option Decision) → Option Service
unfolding new_service
new_mcp_authorizer native external gate = none
new_mcp_authorizer native local gate =
    some (new_service (some (or_native native gate)) (some "ask"))
