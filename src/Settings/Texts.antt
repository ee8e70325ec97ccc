-- ===== src/Settings/Texts.antt =====
-- The normalizers of one text or one number.

use node_shell.Base.{
  ℕ, ltb, eqb, String, Bool, true, false, not, ◌&&◌, ◌||◌, List, [], ◌∷◌, ◌==◌, Option, none, some,
  if◌then◌else◌,
}
use node_shell.Std.Strings.{trim_space, trim_right, lower_is, lower_codes, byte_length}
use node_shell.Permission.Policy.{McpMode, external, local, parse_mcp_mode}
use node_shell.Settings.Floats.{Float, finite, clamp_round, round, is_zero}
use node_shell.Settings.State.{Defaults}

-- The first of the texts, in lower case ASCII, that the trimmed value spells in any case.
unfoldable pub one_of : List String → String → String → String
unfolding trim_space lower_is
one_of [] fallback value = fallback
one_of (t ∷ ts) fallback value =
    let rest = one_of ts fallback value in if lower_is (trim_space value) t then t else rest

unfoldable pub normalize_language : String → String
normalize_language value = if value == "en" || value == "zh" then value else "zh"

unfoldable pub normalize_terminal_font_family : String → String
unfolding trim_space
normalize_terminal_font_family value =
    let trimmed = trim_space value in if not (trimmed == "") then trimmed else "Hack"

unfoldable pub normalize_terminal_font_size : Float → ℕ
unfolding finite clamp_round
normalize_terminal_font_size value = if not (finite value) then 14 else clamp_round 10 24 value

unfoldable pub normalize_mcp_idle_timeout_minutes : Float → ℕ
unfolding finite clamp_round
normalize_mcp_idle_timeout_minutes value =
    if not (finite value) then 10 else clamp_round 1 120 value

unfoldable pub normalize_mcp_max_sessions : Float → ℕ
unfolding finite clamp_round
normalize_mcp_max_sessions value = if not (finite value) then 8 else clamp_round 1 32 value

unfoldable pub normalize_agent_context_window : Float → ℕ
unfolding finite clamp_round round is_zero
normalize_agent_context_window value =
    if not (finite value)
    then 0
    else if is_zero (round value)
    then 0
    else clamp_round 4096 1048576 (round value)

unfoldable pub normalize_theme_preference : String → String
normalize_theme_preference value =
    if value == "system" || value == "light" || value == "dark" then value else "system"

unfoldable pub normalize_agent_thinking_strength : String → String
unfolding one_of
normalize_agent_thinking_strength = one_of ("low" ∷ "medium" ∷ "high" ∷ "auto" ∷ []) "auto"

unfoldable pub normalize_agent_context_compression : String → String
unfolding one_of
normalize_agent_context_compression = one_of ("auto" ∷ []) "off"

unfoldable pub normalize_permission_policy : String → String
unfolding one_of
normalize_permission_policy = one_of ("ask" ∷ "allow" ∷ "deny" ∷ []) "ask"

abbrev pub mode_text : McpMode → String
mode_text external = "external"
mode_text local = "local"

unfoldable pub normalize_mcp_permission_mode : String → String
unfolding parse_mcp_mode
normalize_mcp_permission_mode value = mode_text (parse_mcp_mode value)

-- `strings.TrimRight(s, "/")`.
unfoldable pub trim_slashes : String → String
unfolding trim_right
trim_slashes = trim_right (λ c. eqb c b'/')

-- The test `strings.HasPrefix(strings.ToLower(s), t)`, for an ASCII text t in lower case.
unfoldable pub starts_with : List ℕ → List ℕ → Bool
starts_with (c ∷ cs) (d ∷ ds) = eqb c d && starts_with cs ds
starts_with [] (d ∷ ds) = false
starts_with cs [] = true

unfoldable pub is_http : String → Bool
unfolding starts_with lower_codes
is_http url =
    starts_with (lower_codes url) (lower_codes "http://")
    || starts_with (lower_codes url) (lower_codes "https://")

unfoldable pub parse_agent_base_url : String → Option String
unfolding trim_space trim_slashes byte_length is_http
parse_agent_base_url value =
    let trimmed = trim_slashes (trim_space value) in
    if trimmed == "" || ltb 512 (byte_length trimmed)
    then none
    else if not (is_http trimmed)
    then none
    else some trimmed

unfoldable pub normalize_agent_base_url : String → String
unfolding trim_space trim_slashes byte_length is_http
normalize_agent_base_url value =
    let trimmed = trim_slashes (trim_space value) in
    if trimmed == "" || ltb 512 (byte_length trimmed)
    then Defaults.agent_base_url
    else if not (is_http trimmed)
    then Defaults.agent_base_url
    else trimmed

unfoldable pub normalize_agent_model : String → String
unfolding trim_space byte_length
normalize_agent_model value =
    let trimmed = trim_space value in
    if trimmed == "" || ltb 512 (byte_length trimmed) then Defaults.agent_model else trimmed
