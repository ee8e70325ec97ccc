-- ===== src/Settings/File.antt =====
-- The document that the file of settings holds.
use node_shell.Base.{ℕ, String, Bool, false, List, [], ◌∷◌}
use node_shell.Settings.Floats.{of_int}
use node_shell.Settings.State.{AgentProvider, AppSettings}
use node_shell.Settings.Json
use node_shell.Settings.Json.{Json, Items, Field, text, number, array, object, nil, cons, present}

-- `fileSettings`: each field as it stands in the file.
pub record FileSettings : Type 0 where
  pub language : Field
  pub terminal_font_family : Field
  pub terminal_font_size : Field
  pub mcp_idle_timeout_minutes : Field
  pub mcp_max_sessions : Field
  pub theme_preference : Field
  pub agent_base_url : Field
  pub agent_model : Field
  pub agent_providers : Field
  pub agent_default_provider_id : Field
  pub agent_default_model : Field
  pub agent_context_window : Field
  pub agent_thinking_strength : Field
  pub agent_context_compression : Field
  pub permission_policy : Field
  pub mcp_permission_mode : Field
  pub raw_was_object : Bool

abbrev pub no_fields : FileSettings
no_fields = record {
  language = Json.absent;
  terminal_font_family = Json.absent;
  terminal_font_size = Json.absent;
  mcp_idle_timeout_minutes = Json.absent;
  mcp_max_sessions = Json.absent;
  theme_preference = Json.absent;
  agent_base_url = Json.absent;
  agent_model = Json.absent;
  agent_providers = Json.absent;
  agent_default_provider_id = Json.absent;
  agent_default_model = Json.absent;
  agent_context_window = Json.absent;
  agent_thinking_strength = Json.absent;
  agent_context_compression = Json.absent;
  permission_policy = Json.absent;
  mcp_permission_mode = Json.absent;
  raw_was_object = false;
}

-- The file's text: one that begins as an array, which is read no further, or an object with its fields.
pub data Document : Type 0 where
  array_document : Document
  object_document : FileSettings → Document

-- The JSON object that `WriteJSON` makes of the settings.
abbrev pub model_items : List String → Items
model_items [] = nil
model_items (m ∷ ms) = cons (text m) (model_items ms)

abbrev pub provider_row : AgentProvider → Json
provider_row p =
    object (present (text p.id)) (present (text p.name)) (present (text p.base_url))
      (present (array (model_items p.models)))

abbrev pub provider_items : List AgentProvider → Items
provider_items [] = nil
provider_items (p ∷ ps) = cons (provider_row p) (provider_items ps)

abbrev text_field : String → Field
text_field s = present (text s)

abbrev number_field : ℕ → Field
number_field n = present (number (of_int n))

abbrev pub encode : AppSettings → Document
encode s = object_document record {
  language = text_field s.language;
  terminal_font_family = text_field s.terminal_font_family;
  terminal_font_size = number_field s.terminal_font_size;
  mcp_idle_timeout_minutes = number_field s.mcp_idle_timeout_minutes;
  mcp_max_sessions = number_field s.mcp_max_sessions;
  theme_preference = text_field s.theme_preference;
  agent_base_url = text_field s.agent_base_url;
  agent_model = text_field s.agent_model;
  agent_providers = present (array (provider_items s.agent_providers));
  agent_default_provider_id = text_field s.agent_default_provider_id;
  agent_default_model = text_field s.agent_default_model;
  agent_context_window = number_field s.agent_context_window;
  agent_thinking_strength = text_field s.agent_thinking_strength;
  agent_context_compression = text_field s.agent_context_compression;
  permission_policy = text_field s.permission_policy;
  mcp_permission_mode = text_field s.mcp_permission_mode;
  raw_was_object = false;
}
