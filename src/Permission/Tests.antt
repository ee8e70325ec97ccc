-- ===== src/Permission/Tests.antt =====
-- The theorems about consent at small services and gates.
use node_shell.Base.{◌≡◌, ◌↔◌, ◌⊎◌, refl, Bool, true, false, Option, none, some, [], ◌∷◌}
use node_shell.Permission.Policy.{
  Decision, allow_session, Request, sensitive, parse_policy, parse_mcp_mode, external, local, ask,
  allow,
}
use node_shell.Permission.Service.{Service, authorize}
use node_shell.Permission.Channel.{Gate}
use node_shell.Permission.Consent.{HasConsent, authorize-HasConsent}

abbrev bash : Request
bash = record {
  id = "";
  source = "agent";
  tool = "bash";
  session_id = "s1";
  title = "";
  summary = "ls";
  detail = "";
}

abbrev generous : Request → Option Decision
generous req = some allow_session

abbrev asking : Service
asking = record { gate = some generous; policy = some " ASK "; allowed = []; prompts = [] }

policies :
    (parse_policy " Allow" ≡ allow)
    × (parse_policy "?" ≡ ask)
    × (parse_mcp_mode "" ≡ external)
    × (parse_mcp_mode "x" ≡ local)
unfolding parse_policy parse_mcp_mode
policies = (refl, refl, refl, refl)

authorize-HasConsent_example :
    ((authorize false bash asking).1 ≡ none)
    ↔ ((sensitive "bash" ≡ false) ⊎ ((◌≡◌ {A = Bool} false false) × HasConsent bash asking))
authorize-HasConsent_example = authorize-HasConsent bash asking false

abbrev waiting : Gate
waiting = record {
  has_emitter = true;
  pending =
      ("1", record { session_id = "s1"; answer = none })
      ∷ ("2", record { session_id = "s2"; answer = none })
      ∷ [];
  events = [];
}
