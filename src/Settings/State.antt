-- ===== src/Settings/State.antt =====
-- The data of internal/settings/settings.go.
use node_shell.Base.{ℕ, String, Bool, Option, List, []}
use node_shell.Settings.Floats.{Float}

pub record AgentProvider : Type 0 where
  pub id : String
  pub name : String
  pub base_url : String
  pub models : List String

-- The counts are non-negative whole numbers, as each normalizer yields them.
pub record AppSettings : Type 0 where
  pub language : String
  pub terminal_font_family : String
  pub terminal_font_size : ℕ
  pub mcp_idle_timeout_minutes : ℕ
  pub mcp_max_sessions : ℕ
  pub theme_preference : String
  pub agent_base_url : String
  pub agent_model : String
  pub agent_providers : List AgentProvider
  pub agent_default_provider_id : String
  pub agent_default_model : String
  pub agent_context_window : ℕ
  pub agent_thinking_strength : String
  pub agent_context_compression : String
  pub agent_providers_present : Bool
  pub permission_policy : String
  pub mcp_permission_mode : String

abbrev pub Defaults : AppSettings
Defaults = record {
  language = "zh";
  terminal_font_family = "Hack";
  terminal_font_size = 14;
  mcp_idle_timeout_minutes = 10;
  mcp_max_sessions = 8;
  theme_preference = "system";
  agent_base_url = "https://api.openai.com/v1";
  agent_model = "gpt-4o-mini";
  agent_providers = [];
  agent_default_provider_id = "";
  agent_default_model = "";
  agent_context_window = 0;
  agent_thinking_strength = "auto";
  agent_context_compression = "off";
  agent_providers_present = Bool.false;
  permission_policy = "ask";
  mcp_permission_mode = "external";
}

-- A field that is `none` is left unchanged.
pub record Patch : Type 0 where
  pub language : Option String
  pub terminal_font_family : Option String
  pub terminal_font_size : Option Float
  pub mcp_idle_timeout_minutes : Option Float
  pub mcp_max_sessions : Option Float
  pub theme_preference : Option String
  pub agent_base_url : Option String
  pub agent_model : Option String
  pub agent_providers : Option (List AgentProvider)
  pub agent_default_provider_id : Option String
  pub agent_default_model : Option String
  pub agent_context_window : Option Float
  pub agent_thinking_strength : Option String
  pub agent_context_compression : Option String
  pub permission_policy : Option String
  pub mcp_permission_mode : Option String
