-- ===== src/Settings/Tests.antt =====
-- The theorems about the settings at small files, and the normalizers at single values.
use node_shell.Base.{true, false, none, some, [], ◌∷◌, ◌≡◌, refl, ok, arith}
use node_shell.Stores.AtomicFile.{holds, Folder, System, write_json}
use node_shell.Settings.Floats.{nan, dyadic, infinity, of_int, clamp_round}
use node_shell.Settings.State.{AgentProvider, AppSettings, Defaults, Patch}
use node_shell.Settings.Json.{
  Numbers, null, number, text, array, object, nil, cons, present, coerce_json, coerce_string,
  coerce_number,
}
use node_shell.Settings.Json
use node_shell.Settings.Texts.{
  normalize_language, normalize_terminal_font_family, normalize_terminal_font_size,
  normalize_mcp_idle_timeout_minutes, normalize_theme_preference, normalize_agent_model,
  normalize_agent_context_window, normalize_agent_thinking_strength,
  normalize_agent_context_compression, normalize_mcp_permission_mode, normalize_agent_base_url,
  normalize_permission_policy, normalize_mcp_max_sessions,
}
use node_shell.Settings.Providers.{normalize_agent_default, normalize_agent_providers_raw}
use node_shell.Settings.File.{Document, object_document, no_fields, encode}
use node_shell.Settings.Store.{normalize_settings, read, get, merge, set}
use node_shell.Settings.Valid.{Read, Written, get-Read, set-Written}
use node_shell.Settings.Persists.{ReadsBack, set-ReadsBack}
use node_shell.Settings.Settled.{IsSettled, set-get}
use node_shell.Std.Strings.{trim_space}

-- A parser of numbers that reads nothing.
abbrev numbers : Numbers
numbers = record { parse_float = λ s. none; big_int = λ s base. none }

abbrev system : System
system = record {
  make_dir = none;
  create_temp = none;
  write = none;
  sync = none;
  close = none;
  rename = λ k. none;
  remove = none;
}

-- A file with a font size as a text, one provider twice, and nothing else.
abbrev row : Json.Json
row =
    object (present (text " a ")) (present (text "A")) (present (text "https://x/"))
      (present (array (cons (text "m") (cons (text "m") nil))))

abbrev document : Document
document = object_document record no_fields {
  terminal_font_size = present (text "");
  agent_providers = present (array (cons row (cons row nil)));
}

abbrev folder : Folder Document
folder = record { target = holds (some document); temp = none; leftover = [] }

abbrev nothing : Patch
nothing = record {
  language = none;
  terminal_font_family = none;
  terminal_font_size = none;
  mcp_idle_timeout_minutes = none;
  mcp_max_sessions = none;
  theme_preference = none;
  agent_base_url = none;
  agent_model = none;
  agent_providers = none;
  agent_default_provider_id = none;
  agent_default_model = none;
  agent_context_window = none;
  agent_thinking_strength = none;
  agent_context_compression = none;
  permission_policy = none;
  mcp_permission_mode = none;
}

abbrev patch : Patch
patch = record nothing {
  terminal_font_family = some " Hack ";
  mcp_max_sessions = some (dyadic false 129 1);
  permission_policy = some " ALLOW ";
}

abbrev a_provider : AgentProvider
a_provider = record { id = "a"; name = "A"; base_url = "https://x"; models = "m" ∷ [] }

abbrev b_provider : AgentProvider
b_provider = record { id = "b"; name = "B"; base_url = "https://y"; models = [] }

get-Read_example : Read (get numbers folder)
get-Read_example = get-Read numbers folder

set-Written_example : Written (get numbers folder) patch folder (set numbers system patch folder)
set-Written_example = set-Written numbers system patch folder refl

set-ReadsBack_example : ReadsBack numbers (set numbers system patch folder)
set-ReadsBack_example = set-ReadsBack numbers system patch folder refl

-- What the patch makes of the file.
abbrev next : AppSettings
next = record Defaults {
  terminal_font_size = 10;
  mcp_max_sessions = 32;
  agent_providers = record { id = "a"; name = "A"; base_url = "https://x"; models = "m" ∷ [] } ∷ [];
  agent_default_provider_id = "a";
  agent_default_model = "m";
  agent_providers_present = true;
  permission_policy = "allow";
}

next-IsSettled : IsSettled next
unfolding trim_space
next-IsSettled = record {
  base_url = refl;
  urls = (refl, tt);
  picked = λ e. absurd (ground (arith, e));
}

next_test :
    set numbers system patch folder
    ≡ (record { target = holds (some (encode next)); temp = none; leftover = [] }, ok next)
unfolding set read write_json merge normalize_settings normalize_language
    normalize_terminal_font_family normalize_terminal_font_size normalize_mcp_idle_timeout_minutes
    normalize_mcp_max_sessions normalize_theme_preference normalize_agent_base_url
    normalize_agent_model normalize_agent_context_window normalize_agent_thinking_strength
    normalize_agent_context_compression normalize_permission_policy normalize_mcp_permission_mode
    normalize_agent_providers_raw normalize_agent_default coerce_string coerce_number coerce_json
next_test = refl

set-get_example :
    get numbers record { target = holds (some (encode next)); temp = none; leftover = [] } ≡ ok next
set-get_example =
    set-get numbers system patch folder
      record { target = holds (some (encode next)); temp = none; leftover = [] } next refl next_test
      next-IsSettled

rounds_test :
    (clamp_round 10 24 (dyadic false 29 1) ≡ 15)
    × (clamp_round 10 24 (dyadic true 3 0) ≡ 10)
    × (clamp_round 1 32 (infinity false) ≡ 32)
    × (normalize_mcp_max_sessions nan ≡ 8)
unfolding clamp_round normalize_mcp_max_sessions
rounds_test = (refl, refl, refl, refl)

coerces_test :
    (coerce_json numbers (array (cons null nil)) ≡ of_int 0)
    × (coerce_json numbers (array (cons null (cons null nil))) ≡ nan)
unfolding coerce_json
coerces_test = (refl, refl)

policy_test : normalize_permission_policy " Allow " ≡ "allow"
unfolding normalize_permission_policy
policy_test = refl

-- A blank before the last slash stays, until the value is normalized again.
slash_test :
    (normalize_agent_base_url "https://x /" ≡ "https://x ")
    × (normalize_agent_base_url "https://x " ≡ "https://x")
unfolding normalize_agent_base_url
slash_test = (refl, refl)

-- No default, where the provider asked for has no model; the first provider's, when that is normalized
-- again.
default_test :
    (normalize_agent_default "b" "" (a_provider ∷ b_provider ∷ []) ≡ ("", ""))
    × (normalize_agent_default "" "" (a_provider ∷ b_provider ∷ []) ≡ ("a", "m"))
unfolding normalize_agent_default
default_test = (refl, refl)
