-- ===== src/Settings/Valid.antt =====
-- Which settings `Get` and `Set` return, and what `Set` leaves in the file.
use node_shell.Base.{
  contains, String, Bool, false, not, ◌&&◌, ◌==◌, Option, none, some, List, [], ◌∷◌, if_cases,
  Error, Result, ok, err, ◌≡◌, refl, arith, ◌⊎◌, inl, inr,
}
use node_shell.Apperror.{config_read_failed, config_write_failed}
use node_shell.Stores.AtomicFile.{
  Content, absent, corrupt, unreadable, holds, Folder, System, IsAtomic, written, failed,
  write_json-IsAtomic,
}
use node_shell.Std.Strings.{trim_space, byte_length}
use node_shell.Settings.State.{AgentProvider, AppSettings, Defaults, Patch}
use node_shell.Settings.Floats.{of_int}
use node_shell.Settings.Json.{Numbers, coerce_string, coerce_number}
use node_shell.Settings.Texts.{normalize_agent_base_url, normalize_agent_model}
use node_shell.Settings.Providers.{normalize_agent_providers_raw, synthesise_legacy_provider}
use node_shell.Settings.File.{FileSettings, Document, encode}
use node_shell.Settings.Store.{
  parse_file, file_providers, providers_of, normalize_settings, read, get, chosen, chosen_providers,
  merge, persisted, set_from, set,
}
use node_shell.Settings.Values.{
  IsOneOf, languages, themes, strengths, compressions, policies, modes, normalize_language-IsOneOf,
  normalize_theme_preference-IsOneOf, normalize_agent_thinking_strength-IsOneOf,
  normalize_agent_context_compression-IsOneOf, normalize_permission_policy-IsOneOf,
  normalize_mcp_permission_mode-IsOneOf, normalize_terminal_font_family-full,
  normalize_terminal_font_family-trim_space, normalize_agent_model-trim_space,
}
use node_shell.Settings.Listed.{IsShort}
use node_shell.Settings.Provided.{IsUrl, IsProviders, normalize_provider_list-IsProviders}
use node_shell.Settings.Fallback.{
  normalize_agent_base_url-IsUrl, normalize_agent_model-IsShort, legacy-IsProviders,
  none-IsProviders, standard-IsUrl, normalize_agent_providers_raw-IsProviders,
}
use node_shell.Settings.Defaulted.{IsDefault, unset, normalize_agent_default-IsDefault}
use node_shell.Settings.Bounds.{
  IsBetween, IsWindow, normalize_terminal_font_size-bounds,
  normalize_mcp_idle_timeout_minutes-bounds, normalize_mcp_max_sessions-bounds,
  normalize_agent_context_window-bounds,
}

-- Settings that the frontend and the agent may rely on.
pub record IsValid (s : AppSettings) : Type 0 where
  pub language : IsOneOf languages s.language
  pub font_family : (s.terminal_font_family == "") ≡ false
  pub font_trimmed : trim_space s.terminal_font_family ≡ s.terminal_font_family
  pub font_size : IsBetween 10 24 s.terminal_font_size
  pub idle_timeout : IsBetween 1 120 s.mcp_idle_timeout_minutes
  pub max_sessions : IsBetween 1 32 s.mcp_max_sessions
  pub theme : IsOneOf themes s.theme_preference
  pub base_url : IsUrl s.agent_base_url
  pub model : IsShort 512 s.agent_model
  pub model_trimmed : trim_space s.agent_model ≡ s.agent_model
  pub providers : IsProviders s.agent_providers
  pub picked : IsDefault s.agent_providers (s.agent_default_provider_id, s.agent_default_model)
  pub window : IsWindow s.agent_context_window
  pub strength : IsOneOf strengths s.agent_thinking_strength
  pub compression : IsOneOf compressions s.agent_context_compression
  pub policy : IsOneOf policies s.permission_policy
  pub mode : IsOneOf modes s.mcp_permission_mode

Defaults-IsValid : IsValid Defaults
unfolding contains
Defaults-IsValid = record {
  language = refl;
  font_family = refl;
  font_trimmed = unfold trim_space in refl;
  font_size = (omega arith, omega arith);
  idle_timeout = (omega arith, omega arith);
  max_sessions = (omega arith, omega arith);
  theme = refl;
  base_url = standard-IsUrl;
  model = (unfold byte_length in omega arith, refl);
  model_trimmed = unfold trim_space in refl;
  providers = none-IsProviders;
  picked = unset;
  window = inl refl;
  strength = refl;
  compression = refl;
  policy = refl;
  mode = refl;
}

-- The providers of a file, from its list or from the old endpoint.
providers_of-IsProviders :
    (numbers : Numbers) (raw : FileSettings) → IsProviders (providers_of numbers raw)
providers_of-IsProviders numbers raw =
    from_list (normalize_agent_providers_raw raw.agent_providers)
      (normalize_agent_providers_raw-IsProviders raw.agent_providers)
  where
    url : String
    url = normalize_agent_base_url (coerce_string raw.agent_base_url)

    model : String
    model = normalize_agent_model (coerce_string raw.agent_model)

    from_list :
        (l : List AgentProvider × Bool)
        → IsProviders l.0
        → IsProviders (file_providers raw url model l)
    from_list (ps, listed) h =
        if_cases IsProviders (not listed && raw.raw_was_object)
          (synthesise_legacy_provider url model ∷ []) ps (λ e. legacy-IsProviders url model)
          (λ e. h)

normalize_settings-IsValid :
    (numbers : Numbers) (raw : FileSettings) → IsValid (normalize_settings numbers raw)
unfolding normalize_settings
normalize_settings-IsValid numbers raw = record {
  language = normalize_language-IsOneOf (coerce_string raw.language);
  font_family = normalize_terminal_font_family-full (coerce_string raw.terminal_font_family);
  font_trimmed = normalize_terminal_font_family-trim_space (coerce_string raw.terminal_font_family);
  font_size = normalize_terminal_font_size-bounds (coerce_number numbers raw.terminal_font_size);
  idle_timeout =
      normalize_mcp_idle_timeout_minutes-bounds
        (coerce_number numbers raw.mcp_idle_timeout_minutes);
  max_sessions = normalize_mcp_max_sessions-bounds (coerce_number numbers raw.mcp_max_sessions);
  theme = normalize_theme_preference-IsOneOf (coerce_string raw.theme_preference);
  base_url = normalize_agent_base_url-IsUrl (coerce_string raw.agent_base_url);
  model = normalize_agent_model-IsShort (coerce_string raw.agent_model);
  model_trimmed = normalize_agent_model-trim_space (coerce_string raw.agent_model);
  providers = providers_of-IsProviders numbers raw;
  picked =
      normalize_agent_default-IsDefault (coerce_string raw.agent_default_provider_id)
        (coerce_string raw.agent_default_model) (providers_of numbers raw);
  window = normalize_agent_context_window-bounds (coerce_number numbers raw.agent_context_window);
  strength = normalize_agent_thinking_strength-IsOneOf (coerce_string raw.agent_thinking_strength);
  compression =
      normalize_agent_context_compression-IsOneOf (coerce_string raw.agent_context_compression);
  policy = normalize_permission_policy-IsOneOf (coerce_string raw.permission_policy);
  mode = normalize_mcp_permission_mode-IsOneOf (coerce_string raw.mcp_permission_mode);
}

chosen_providers-IsProviders :
    (new : Option (List AgentProvider)) (current : List AgentProvider)
    → IsProviders current
    → IsProviders (chosen_providers new current)
chosen_providers-IsProviders none current h = h
chosen_providers-IsProviders (some new) current h = normalize_provider_list-IsProviders new

merge-IsValid : (p : Patch) (c : AppSettings) → IsProviders c.agent_providers → IsValid (merge p c)
unfolding merge
merge-IsValid p c h = record {
  language = normalize_language-IsOneOf (chosen p.language c.language);
  font_family =
      normalize_terminal_font_family-full (chosen p.terminal_font_family c.terminal_font_family);
  font_trimmed =
      normalize_terminal_font_family-trim_space
        (chosen p.terminal_font_family c.terminal_font_family);
  font_size =
      normalize_terminal_font_size-bounds
        (chosen p.terminal_font_size (of_int c.terminal_font_size));
  idle_timeout =
      normalize_mcp_idle_timeout_minutes-bounds
        (chosen p.mcp_idle_timeout_minutes (of_int c.mcp_idle_timeout_minutes));
  max_sessions =
      normalize_mcp_max_sessions-bounds (chosen p.mcp_max_sessions (of_int c.mcp_max_sessions));
  theme = normalize_theme_preference-IsOneOf (chosen p.theme_preference c.theme_preference);
  base_url = normalize_agent_base_url-IsUrl (chosen p.agent_base_url c.agent_base_url);
  model = normalize_agent_model-IsShort (chosen p.agent_model c.agent_model);
  model_trimmed = normalize_agent_model-trim_space (chosen p.agent_model c.agent_model);
  providers = chosen_providers-IsProviders p.agent_providers c.agent_providers h;
  picked =
      normalize_agent_default-IsDefault
        (chosen p.agent_default_provider_id c.agent_default_provider_id)
        (chosen p.agent_default_model c.agent_default_model)
        (chosen_providers p.agent_providers c.agent_providers);
  window =
      normalize_agent_context_window-bounds
        (chosen p.agent_context_window (of_int c.agent_context_window));
  strength =
      normalize_agent_thinking_strength-IsOneOf
        (chosen p.agent_thinking_strength c.agent_thinking_strength);
  compression =
      normalize_agent_context_compression-IsOneOf
        (chosen p.agent_context_compression c.agent_context_compression);
  policy = normalize_permission_policy-IsOneOf (chosen p.permission_policy c.permission_policy);
  mode = normalize_mcp_permission_mode-IsOneOf (chosen p.mcp_permission_mode c.mcp_permission_mode);
}

-- What a read ends with: valid settings, or an error with the code of a failed read.
pub data Read : Result AppSettings → Type 0 where
  valid : {s : AppSettings} → IsValid s → Read (ok s)
  unread : (message : String) → Read (err record { code = config_read_failed; message = message })

-- Whatever the file holds, Get reports a failed read or returns valid settings: every number
-- within its bounds, every choice one of those known, an http or https endpoint of at most 512
-- bytes, at most 16 providers of different ids, each valid with at most 32 different models, and a
-- default that is empty or offered by one of them.
pub get-Read : (numbers : Numbers) (folder : Folder Document) → Read (get numbers folder)
get-Read numbers folder = by_content folder.target
  where
    by_content : (c : Content Document) → Read (read numbers c)
    by_content absent = unfold read in valid Defaults-IsValid
    by_content (unreadable error) = unfold read in unread error
    by_content corrupt = unfold read in unread "Settings file is corrupt"
    by_content (holds none) = unfold read in unread "Settings file is corrupt"
    by_content (holds (some d)) =
        unfold read in valid (normalize_settings-IsValid numbers (parse_file d))

-- What a call of `Set` ends with: the settings that the patch makes of those read are valid and are in
-- the file, or the call fails and the file is as it was.
pub data Written (current : Result AppSettings) (p : Patch) (folder : Folder Document)
    : Folder Document × Result AppSettings → Type 0 where
  saved :
      {c : AppSettings} (folder' : Folder Document)
      → current ≡ ok c
      → IsValid (merge p c)
      → folder'.target ≡ holds (some (encode (merge p c)))
      → Written current p folder (folder', ok (merge p c))
  kept :
      (folder' : Folder Document) (e : Error)
      → folder'.target ≡ folder.target
      → (e.code ≡ config_read_failed) ⊎ (e.code ≡ config_write_failed)
      → Written current p folder (folder', err e)

-- Where no write is under way, Set returns what the patch makes of the settings that Get reads,
-- which is valid and is then in the file; or it reports a failed read or write, and the file is as
-- it was.
pub set-Written :
    (numbers : Numbers) (os : System) (p : Patch) (folder : Folder Document)
    → folder.temp ≡ none
    → Written (get numbers folder) p folder (set numbers os p folder)
unfolding set
set-Written numbers os p folder clean = by_read (get numbers folder) (get-Read numbers folder)
  where
    by_write :
        (c : AppSettings) {r : Folder Document × Option String}
        → IsValid (merge p c)
        → IsAtomic os.remove (encode (merge p c)) folder r
        → Written (ok c) p folder (persisted (merge p c) r)
    by_write c v written = saved _ refl v refl
    by_write c v (failed error same none_left left) =
        kept _ record { code = config_write_failed; message = error } same (inr refl)

    by_read : (r : Result AppSettings) → Read r → Written r p folder (set_from os p folder r)
    by_read (err e) (unread m) = kept folder e refl (inl refl)
    by_read (ok c) (valid v) =
        by_write c (merge-IsValid p c v.providers)
          (write_json-IsAtomic os (encode (merge p c)) folder clean)
