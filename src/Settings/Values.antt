-- ===== src/Settings/Values.antt =====
-- What the normalizers of a text yield.
use node_shell.Base.{
  eqb, contains, String, not, ◌||◌, ◌==◌, List, [], ◌∷◌, All, if_cases, ◌≡◌, refl, arith, eq_iff,
  true, false, ltb,
}
use node_shell.Std.Strings.{trim_space}
use node_shell.Std.Strings.Trims.{trim_space_twice, trim_right_twice}
use node_shell.Permission.Policy.{McpMode, external, local, parse_mcp_mode}
use node_shell.Settings.State.{Defaults}
use node_shell.Settings.Texts.{
  one_of, normalize_language, normalize_terminal_font_family, normalize_theme_preference,
  normalize_agent_thinking_strength, normalize_agent_context_compression,
  normalize_permission_policy, normalize_mcp_permission_mode, mode_text, normalize_agent_model,
  trim_slashes,
}
use node_shell.Std.Strings.{byte_length}

abbrev pub IsOneOf : List String → String → Type 0
IsOneOf ts s = contains s ts ≡ true

abbrev pub languages : List String
languages = "en" ∷ "zh" ∷ []

abbrev pub themes : List String
themes = "system" ∷ "light" ∷ "dark" ∷ []

abbrev pub strengths : List String
strengths = "low" ∷ "medium" ∷ "high" ∷ "auto" ∷ []

abbrev pub compressions : List String
compressions = "auto" ∷ "off" ∷ []

abbrev pub policies : List String
policies = "ask" ∷ "allow" ∷ "deny" ∷ []

abbrev pub modes : List String
modes = "external" ∷ "local" ∷ []

-- What all of the texts and the fallback have, the choice has.
pub one_of-All {κ} :
    (P : String → Type κ) (ts : List String) (fallback value : String)
    → All P ts
    → P fallback
    → P (one_of ts fallback value)
unfolding one_of
one_of-All P [] fallback value h f = f
one_of-All P (t ∷ ts) fallback value h f =
    if_cases P _ t (one_of ts fallback value) (λ e. h.0) (λ e. one_of-All P ts fallback value h.1 f)

pub normalize_language-IsOneOf : (s : String) → IsOneOf languages (normalize_language s)
unfolding normalize_language
normalize_language-IsOneOf s =
    if_cases (IsOneOf languages) (s == "en" || s == "zh") s "zh" known
      (λ e. unfold contains in refl)
  where
    known : (s == "en" || s == "zh") ≡ true → IsOneOf languages s
    known e =
        unfold contains in
        ground (arith, e, eq_iff s "en", eq_iff s "zh", eq_iff "en" s, eq_iff "zh" s)

pub normalize_theme_preference-IsOneOf :
    (s : String) → IsOneOf themes (normalize_theme_preference s)
unfolding normalize_theme_preference
normalize_theme_preference-IsOneOf s =
    if_cases (IsOneOf themes) (s == "system" || s == "light" || s == "dark") s "system" known
      (λ e. unfold contains in refl)
  where
    known : (s == "system" || s == "light" || s == "dark") ≡ true → IsOneOf themes s
    known e =
        unfold contains in
        ground (
          arith,
          e,
          eq_iff s "system",
          eq_iff s "light",
          eq_iff s "dark",
          eq_iff "system" s,
          eq_iff "light" s,
          eq_iff "dark" s,
        )

pub normalize_agent_thinking_strength-IsOneOf :
    (s : String) → IsOneOf strengths (normalize_agent_thinking_strength s)
unfolding normalize_agent_thinking_strength contains
normalize_agent_thinking_strength-IsOneOf s =
    one_of-All (IsOneOf strengths) strengths "auto" s (refl, (refl, (refl, (refl, tt)))) refl

pub normalize_agent_context_compression-IsOneOf :
    (s : String) → IsOneOf compressions (normalize_agent_context_compression s)
unfolding normalize_agent_context_compression contains
normalize_agent_context_compression-IsOneOf s =
    one_of-All (IsOneOf compressions) ("auto" ∷ []) "off" s (refl, tt) refl

pub normalize_permission_policy-IsOneOf :
    (s : String) → IsOneOf policies (normalize_permission_policy s)
unfolding normalize_permission_policy contains
normalize_permission_policy-IsOneOf s =
    one_of-All (IsOneOf policies) policies "ask" s (refl, (refl, (refl, tt))) refl

pub normalize_mcp_permission_mode-IsOneOf :
    (s : String) → IsOneOf modes (normalize_mcp_permission_mode s)
unfolding normalize_mcp_permission_mode
normalize_mcp_permission_mode-IsOneOf s = of_mode (parse_mcp_mode s)
  where
    of_mode : (m : McpMode) → IsOneOf modes (mode_text m)
    of_mode external = unfold contains in refl
    of_mode local = unfold contains in refl

pub normalize_terminal_font_family-full :
    (s : String) → (normalize_terminal_font_family s == "") ≡ false
unfolding normalize_terminal_font_family
normalize_terminal_font_family-full s =
    if_cases (λ t. (t == "") ≡ false) (not (trim_space s == "")) (trim_space s) "Hack"
      (λ e. ground (arith, e)) (λ e. refl)

pub normalize_terminal_font_family-trim_space :
    (s : String) → trim_space (normalize_terminal_font_family s) ≡ normalize_terminal_font_family s
unfolding normalize_terminal_font_family
normalize_terminal_font_family-trim_space s =
    if_cases (λ t. trim_space t ≡ t) (not (trim_space s == "")) (trim_space s) "Hack"
      (λ e. trim_space_twice s) (λ e. unfold trim_space in refl)

pub normalize_agent_model-trim_space :
    (s : String) → trim_space (normalize_agent_model s) ≡ normalize_agent_model s
unfolding normalize_agent_model
normalize_agent_model-trim_space s =
    if_cases (λ t. trim_space t ≡ t) (trim_space s == "" || ltb 512 (byte_length (trim_space s)))
      Defaults.agent_model (trim_space s) (λ e. unfold trim_space in refl) (λ e. trim_space_twice s)

pub trim_slashes_twice : (s : String) → trim_slashes (trim_slashes s) ≡ trim_slashes s
unfolding trim_slashes
trim_slashes_twice = trim_right_twice (λ c. eqb c b'/')
