-- ===== src/Settings/Store.antt =====
-- `Get` and `Set` of the settings, over the file.
use node_shell.Base.{
  String, Bool, true, not, ◌&&◌, Option, none, some, List, [], ◌∷◌, if◌then◌else◌, Error, Result,
  ok, err,
}
use node_shell.Apperror.{config_read_failed, config_write_failed}
use node_shell.Stores.AtomicFile.{
  Content, absent, corrupt, unreadable, holds, Folder, System, write_json,
}
use node_shell.Settings.Floats.{of_int}
use node_shell.Settings.State.{AgentProvider, AppSettings, Defaults, Patch}
use node_shell.Settings.Json.{Numbers, coerce_string, coerce_number}
use node_shell.Settings.Texts.{
  normalize_language, normalize_terminal_font_family, normalize_terminal_font_size,
  normalize_mcp_idle_timeout_minutes, normalize_mcp_max_sessions, normalize_theme_preference,
  normalize_agent_base_url, normalize_agent_model, normalize_agent_context_window,
  normalize_agent_thinking_strength, normalize_agent_context_compression,
  normalize_permission_policy, normalize_mcp_permission_mode,
}
use node_shell.Settings.File.{
  FileSettings, Document, array_document, object_document, no_fields, encode,
}
use node_shell.Settings.Providers.{
  normalize_agent_providers_raw, normalize_provider_list, normalize_agent_default,
  synthesise_legacy_provider,
}

abbrev pub corrupt_error : Error
corrupt_error = record { code = config_read_failed; message = "Settings file is corrupt" }

-- `parseFile`, of a text that JSON makes a value of, or not.
abbrev pub parse_file : Document → FileSettings
parse_file array_document = no_fields
parse_file (object_document file) = record file { raw_was_object = true }

abbrev pub file_providers :
    FileSettings → String → String → List AgentProvider × Bool → List AgentProvider
file_providers raw url model (providers, listed) =
    if not listed && raw.raw_was_object
    then synthesise_legacy_provider url model ∷ []
    else providers

module _ (numbers : Numbers) where
  abbrev pub settings_from :
      FileSettings → List AgentProvider → Bool → String × String → AppSettings
  settings_from raw providers listed (default_id, default_model) = record {
    language = normalize_language (coerce_string raw.language);
    terminal_font_family = normalize_terminal_font_family (coerce_string raw.terminal_font_family);
    terminal_font_size =
        normalize_terminal_font_size (coerce_number numbers raw.terminal_font_size);
    mcp_idle_timeout_minutes =
        normalize_mcp_idle_timeout_minutes (coerce_number numbers raw.mcp_idle_timeout_minutes);
    mcp_max_sessions = normalize_mcp_max_sessions (coerce_number numbers raw.mcp_max_sessions);
    theme_preference = normalize_theme_preference (coerce_string raw.theme_preference);
    agent_base_url = normalize_agent_base_url (coerce_string raw.agent_base_url);
    agent_model = normalize_agent_model (coerce_string raw.agent_model);
    agent_providers = providers;
    agent_default_provider_id = default_id;
    agent_default_model = default_model;
    agent_context_window =
        normalize_agent_context_window (coerce_number numbers raw.agent_context_window);
    agent_thinking_strength =
        normalize_agent_thinking_strength (coerce_string raw.agent_thinking_strength);
    agent_context_compression =
        normalize_agent_context_compression (coerce_string raw.agent_context_compression);
    agent_providers_present = listed;
    permission_policy = normalize_permission_policy (coerce_string raw.permission_policy);
    mcp_permission_mode = normalize_mcp_permission_mode (coerce_string raw.mcp_permission_mode);
  }

  abbrev pub providers_of : FileSettings → List AgentProvider
  providers_of raw =
      file_providers raw (normalize_agent_base_url (coerce_string raw.agent_base_url))
        (normalize_agent_model (coerce_string raw.agent_model))
        (normalize_agent_providers_raw raw.agent_providers)

  unfoldable pub normalize_settings : FileSettings → AppSettings
  normalize_settings raw =
      settings_from raw (providers_of raw) (normalize_agent_providers_raw raw.agent_providers).1 (
        normalize_agent_default (coerce_string raw.agent_default_provider_id)
          (coerce_string raw.agent_default_model) (providers_of raw))

  unfoldable pub read : Content Document → Result AppSettings
  unfolding normalize_settings
  read absent = ok Defaults
  read (unreadable error) = err record { code = config_read_failed; message = error }
  read corrupt = err corrupt_error
  read (holds none) = err corrupt_error
  read (holds (some document)) = ok (normalize_settings (parse_file document))

  abbrev pub get : Folder Document → Result AppSettings
  get folder = read folder.target

-- The value of a patch's field, or the one that is there.
abbrev pub chosen {ℓ} : {A : Type ℓ} → Option A → A → A
chosen none current = current
chosen (some new) current = new

abbrev pub chosen_providers : Option (List AgentProvider) → List AgentProvider → List AgentProvider
chosen_providers none current = current
chosen_providers (some new) current = normalize_provider_list new

abbrev pub merged : Patch → AppSettings → List AgentProvider → String × String → AppSettings
merged p c providers (default_id, default_model) = record {
  language = normalize_language (chosen p.language c.language);
  terminal_font_family =
      normalize_terminal_font_family (chosen p.terminal_font_family c.terminal_font_family);
  terminal_font_size =
      normalize_terminal_font_size (chosen p.terminal_font_size (of_int c.terminal_font_size));
  mcp_idle_timeout_minutes =
      normalize_mcp_idle_timeout_minutes
        (chosen p.mcp_idle_timeout_minutes (of_int c.mcp_idle_timeout_minutes));
  mcp_max_sessions =
      normalize_mcp_max_sessions (chosen p.mcp_max_sessions (of_int c.mcp_max_sessions));
  theme_preference = normalize_theme_preference (chosen p.theme_preference c.theme_preference);
  agent_base_url = normalize_agent_base_url (chosen p.agent_base_url c.agent_base_url);
  agent_model = normalize_agent_model (chosen p.agent_model c.agent_model);
  agent_providers = providers;
  agent_default_provider_id = default_id;
  agent_default_model = default_model;
  agent_context_window =
      normalize_agent_context_window
        (chosen p.agent_context_window (of_int c.agent_context_window));
  agent_thinking_strength =
      normalize_agent_thinking_strength
        (chosen p.agent_thinking_strength c.agent_thinking_strength);
  agent_context_compression =
      normalize_agent_context_compression
        (chosen p.agent_context_compression c.agent_context_compression);
  agent_providers_present = true;
  permission_policy = normalize_permission_policy (chosen p.permission_policy c.permission_policy);
  mcp_permission_mode =
      normalize_mcp_permission_mode (chosen p.mcp_permission_mode c.mcp_permission_mode);
}

-- What `Set` makes of the patch and of the settings that it has read.
unfoldable pub merge : Patch → AppSettings → AppSettings
merge p c = merged p c (chosen_providers p.agent_providers c.agent_providers) (
    normalize_agent_default (chosen p.agent_default_provider_id c.agent_default_provider_id)
      (chosen p.agent_default_model c.agent_default_model)
      (chosen_providers p.agent_providers c.agent_providers))

abbrev pub persisted :
    AppSettings → Folder Document × Option String → Folder Document × Result AppSettings
persisted next (folder, none) = (folder, ok next)
persisted next (folder, some error) =
    (folder, err record { code = config_write_failed; message = error })

abbrev pub set_from :
    System → Patch → Folder Document → Result AppSettings → Folder Document × Result AppSettings
set_from os p folder (err e) = (folder, err e)
set_from os p folder (ok current) =
    persisted (merge p current) (write_json os (encode (merge p current)) folder)

unfoldable pub set :
    Numbers → System → Patch → Folder Document → Folder Document × Result AppSettings
set numbers os p folder = set_from os p folder (get numbers folder)
