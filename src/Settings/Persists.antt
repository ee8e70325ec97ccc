-- ===== src/Settings/Persists.antt =====
-- What `Get` finds behind `Set`: each valid value is normalized to itself.
use mathlib.Core.Path.{subst}
use node_shell.Base.{
  ℕ, contains, ltb, String, true, false, not, ◌==◌, none, some, List, [], ◌∷◌, All, if◌then◌else◌,
  Result, ok, err, ◌≡◌, refl, ap, ◌∙◌, arith, eq_iff, inl, inr, Bool-cases,
}
use node_shell.Std.Strings.{trim_space, byte_length}
use node_shell.Stores.AtomicFile.{holds, Folder, System}
use node_shell.Settings.Floats.{of_int, finite, clamp_round}
use node_shell.Settings.State.{AppSettings, Patch}
use node_shell.Settings.Json.{Numbers, coerce_string, coerce_number, coerce_json}
use node_shell.Settings.Texts.{
  normalize_language, normalize_terminal_font_family, normalize_terminal_font_size,
  normalize_mcp_idle_timeout_minutes, normalize_mcp_max_sessions, normalize_theme_preference,
  normalize_agent_model, normalize_agent_thinking_strength, normalize_agent_context_compression,
  normalize_permission_policy, normalize_mcp_permission_mode,
}
use node_shell.Settings.File.{Document, encode}
use node_shell.Settings.Store.{parse_file, normalize_settings, read, get, merge, set}
use node_shell.Settings.Providers.{normalize_agent_providers_raw}
use node_shell.Settings.Values.{
  IsOneOf, languages, themes, strengths, compressions, policies, modes,
}
use node_shell.Settings.Listed.{IsShort}
use node_shell.Settings.Bounds.{
  IsBetween, clamp_round-of_int, normalize_agent_context_window-of_int,
}
use node_shell.Settings.Valid.{IsValid, Written, saved, kept, set-Written}

-- The fields on which the settings that are read back agree with those that were set.
pub record Agrees (a b : AppSettings) : Type 0 where
  pub language : b.language ≡ a.language
  pub font_family : b.terminal_font_family ≡ a.terminal_font_family
  pub font_size : b.terminal_font_size ≡ a.terminal_font_size
  pub idle_timeout : b.mcp_idle_timeout_minutes ≡ a.mcp_idle_timeout_minutes
  pub max_sessions : b.mcp_max_sessions ≡ a.mcp_max_sessions
  pub theme : b.theme_preference ≡ a.theme_preference
  pub model : b.agent_model ≡ a.agent_model
  pub window : b.agent_context_window ≡ a.agent_context_window
  pub strength : b.agent_thinking_strength ≡ a.agent_thinking_strength
  pub compression : b.agent_context_compression ≡ a.agent_context_compression
  pub policy : b.permission_policy ≡ a.permission_policy
  pub mode : b.mcp_permission_mode ≡ a.mcp_permission_mode
  pub listed : b.agent_providers_present ≡ true

-- What each of the texts has, one of them has.
pub contains-All {κ} :
    (P : String → Type κ) (ts : List String) (s : String) → contains s ts ≡ true → All P ts → P s
contains-All P [] s h a = absurd (unfold contains in ground (arith, h))
contains-All P (t ∷ ts) s h a = elim (Bool-cases (t == s)) [
  | inl e ↦ subst P ((eq_iff t s).0 e) a.0
  | inr e ↦ contains-All P ts s (unfold contains in ground (arith, h, e)) a.1
]

normalize_language-same : (s : String) → IsOneOf languages s → normalize_language s ≡ s
unfolding normalize_language
normalize_language-same s h =
    contains-All (λ t. normalize_language t ≡ t) languages s h (refl, (refl, tt))

normalize_theme_preference-same : (s : String) → IsOneOf themes s → normalize_theme_preference s ≡ s
unfolding normalize_theme_preference
normalize_theme_preference-same s h =
    contains-All (λ t. normalize_theme_preference t ≡ t) themes s h (refl, (refl, (refl, tt)))

normalize_agent_thinking_strength-same :
    (s : String) → IsOneOf strengths s → normalize_agent_thinking_strength s ≡ s
unfolding normalize_agent_thinking_strength
normalize_agent_thinking_strength-same s h =
    contains-All (λ t. normalize_agent_thinking_strength t ≡ t) strengths s h
      (refl, (refl, (refl, (refl, tt))))

normalize_agent_context_compression-same :
    (s : String) → IsOneOf compressions s → normalize_agent_context_compression s ≡ s
unfolding normalize_agent_context_compression
normalize_agent_context_compression-same s h =
    contains-All (λ t. normalize_agent_context_compression t ≡ t) compressions s h
      (refl, (refl, tt))

normalize_permission_policy-same :
    (s : String) → IsOneOf policies s → normalize_permission_policy s ≡ s
unfolding normalize_permission_policy
normalize_permission_policy-same s h =
    contains-All (λ t. normalize_permission_policy t ≡ t) policies s h (refl, (refl, (refl, tt)))

normalize_mcp_permission_mode-same :
    (s : String) → IsOneOf modes s → normalize_mcp_permission_mode s ≡ s
unfolding normalize_mcp_permission_mode
normalize_mcp_permission_mode-same s h =
    contains-All (λ t. normalize_mcp_permission_mode t ≡ t) modes s h (refl, (refl, tt))

normalize_terminal_font_family-same :
    (s : String) → trim_space s ≡ s → (s == "") ≡ false → normalize_terminal_font_family s ≡ s
normalize_terminal_font_family-same s h e = unfold normalize_terminal_font_family in rw (h, e) refl

normalize_agent_model-same :
    (s : String) → trim_space s ≡ s → IsShort 512 s → normalize_agent_model s ≡ s
normalize_agent_model-same s h (l, e) =
    let fits : ltb 512 (byte_length s) ≡ false = ground (arith, l) in
    unfold normalize_agent_model in rw (h, e, fits) refl

clamped_same :
    (low high default n : ℕ)
    → IsBetween low high n
    → (if not (finite (of_int n)) then default else clamp_round low high (of_int n)) ≡ n
clamped_same low high default n h = unfold finite in clamp_round-of_int low high n h

module _ (numbers : Numbers) where
  -- Valid settings that are written and read again.
  pub encoded-Agrees :
      (s : AppSettings) → IsValid s → Agrees s (normalize_settings numbers (parse_file (encode s)))
  unfolding normalize_settings coerce_string coerce_number coerce_json
  encoded-Agrees s v = record {
    language = normalize_language-same s.language v.language;
    font_family =
        normalize_terminal_font_family-same s.terminal_font_family v.font_trimmed v.font_family;
    font_size =
        unfold normalize_terminal_font_size in
        clamped_same 10 24 14 s.terminal_font_size v.font_size;
    idle_timeout =
        unfold normalize_mcp_idle_timeout_minutes in
        clamped_same 1 120 10 s.mcp_idle_timeout_minutes v.idle_timeout;
    max_sessions =
        unfold normalize_mcp_max_sessions in clamped_same 1 32 8 s.mcp_max_sessions v.max_sessions;
    theme = normalize_theme_preference-same s.theme_preference v.theme;
    model = normalize_agent_model-same s.agent_model v.model_trimmed v.model;
    window = normalize_agent_context_window-of_int s.agent_context_window v.window;
    strength = normalize_agent_thinking_strength-same s.agent_thinking_strength v.strength;
    compression =
        normalize_agent_context_compression-same s.agent_context_compression v.compression;
    policy = normalize_permission_policy-same s.permission_policy v.policy;
    mode = normalize_mcp_permission_mode-same s.mcp_permission_mode v.mode;
    listed = unfold normalize_agent_providers_raw in refl;
  }

  pub read_saved :
      (d : Document)
      → read numbers (holds (some d)) ≡ ok (normalize_settings numbers (parse_file d))
  unfolding read
  read_saved d = refl

  -- Behind a call that succeeds, a read succeeds and agrees with what the call returned.
  abbrev pub ReadsBack : Folder Document × Result AppSettings → Type 0
  ReadsBack (folder, err e) = Unit
  ReadsBack (folder, ok next) = (s : AppSettings) × (get numbers folder ≡ ok s) × Agrees next s

  Written-ReadsBack :
      {current : Result AppSettings} (p : Patch) {folder : Folder Document}
      {r : Folder Document × Result AppSettings}
      → Written current p folder r
      → ReadsBack r
  Written-ReadsBack p (kept folder e same code) = tt
  Written-ReadsBack p (saved {c} folder same v on_disk) = (
    normalize_settings numbers (parse_file (encode (merge p c))),
    ap (read numbers) on_disk ∙ read_saved (encode (merge p c)),
    encoded-Agrees (merge p c) v,
  )

  -- Where no write is under way: behind a Set that succeeds, Get succeeds and returns the
  -- language, the font, the sizes and limits, the theme, the model, the context window, the
  -- reasoning effort, the compression, the policy and the mode that Set returned, and tells that
  -- the file has a list of providers.
  pub set-ReadsBack :
      (os : System) (p : Patch) (folder : Folder Document)
      → folder.temp ≡ none
      → ReadsBack (set numbers os p folder)
  set-ReadsBack os p folder clean = Written-ReadsBack p (set-Written numbers os p folder clean)
