-- ===== src/Settings/Providers.antt =====
-- The list of the named providers, and the default of the conversation picker.
use Prim.Native.Char.{code}
use node_shell.Base.{
  ltb, leb, eqb, length, contains, String, Bool, true, false, not, ◌&&◌, ◌||◌, List, [], ◌∷◌, ◌==◌,
  Option, none, some, if◌then◌else◌,
}
use node_shell.Std.Strings.{trim_space, byte_length}
use node_shell.Settings.State.{AgentProvider}
use node_shell.Settings.Texts.{
  parse_agent_base_url, normalize_agent_base_url, normalize_agent_model,
}
use node_shell.Settings.Json.{
  Json, Items, Field, array, object, nil, cons, absent, present, coerce_string, coerce_string_slice,
}

-- `strings.Contains(s, "::")`.
unfoldable pub has_colons : String → Bool
has_colons (String.◌∷◌ c (String.◌∷◌ d s)) =
    (eqb (code c) b':' && eqb (code d) b':') || has_colons (String.◌∷◌ d s)
has_colons _ = false

-- Some rune is a blank or a control character.
unfoldable pub has_control : String → Bool
has_control String.[] = false
has_control (String.◌∷◌ c s) = leb (code c) 32 || eqb (code c) 127 || has_control s

unfoldable pub valid_provider_id : String → Bool
unfolding byte_length has_colons has_control
valid_provider_id id =
    if id == "" || ltb 64 (byte_length id) || has_colons id then false else not (has_control id)

unfoldable pub normalize_model_id : String → String
unfolding trim_space byte_length
normalize_model_id value =
    let trimmed = trim_space value in
    if trimmed == "" || ltb 512 (byte_length trimmed) then "" else trimmed

-- The loop of `normalizeModelList`, with the ids kept so far, the newest first.
unfoldable pub keep_models : List String → List String → List String
unfolding normalize_model_id contains
keep_models seen [] = []
keep_models seen (raw ∷ values) =
    let id = normalize_model_id raw in
    let skipped = keep_models seen values in
    let more = keep_models (id ∷ seen) values in
    if id == ""
    then skipped
    else if contains id seen
    then skipped
    else if leb 32 (length (id ∷ seen))
    then id ∷ []
    else id ∷ more

unfoldable pub normalize_model_list : List String → List String
unfolding keep_models
normalize_model_list = keep_models []

abbrev pub with_url : String → String → List String → Option String → Option AgentProvider
with_url id name models none = none
with_url id name models (some url) =
    some record { id = id; name = name; base_url = url; models = normalize_model_list models }

unfoldable pub normalize_one_provider :
    String → String → String → List String → Option AgentProvider
unfolding trim_space valid_provider_id byte_length parse_agent_base_url normalize_model_list
normalize_one_provider raw_id raw_name base_url models =
    let id = trim_space raw_id in
    let name = trim_space raw_name in
    if not (valid_provider_id id)
    then none
    else if name == "" || ltb 64 (byte_length name)
    then none
    else with_url id name models (parse_agent_base_url base_url)

unfoldable pub normalize_provider : AgentProvider → Option AgentProvider
unfolding normalize_one_provider
normalize_provider p = normalize_one_provider p.id p.name p.base_url p.models

-- A turn of the loop of `normalizeProviderList`, with the ids kept so far, the newest first.
abbrev pub keep_next :
    Option AgentProvider → List String → (List String → List AgentProvider) → List AgentProvider
keep_next none seen later = later seen
keep_next (some next) seen later =
    if contains next.id seen
    then later seen
    else if leb 16 (length (next.id ∷ seen))
    then next ∷ []
    else next ∷ later (next.id ∷ seen)

unfoldable pub keep_providers : List String → List AgentProvider → List AgentProvider
unfolding normalize_provider contains
keep_providers seen [] = []
keep_providers seen (p ∷ ps) =
    keep_next (normalize_provider p) seen (λ kept. keep_providers kept ps)

unfoldable pub normalize_provider_list : List AgentProvider → List AgentProvider
unfolding keep_providers
normalize_provider_list = keep_providers []

-- A row of the file's list.
unfoldable pub row_provider : Json → Option AgentProvider
unfolding normalize_one_provider coerce_string coerce_string_slice
row_provider (object id name base_url models) =
    normalize_one_provider (coerce_string id) (coerce_string name) (coerce_string base_url)
      (coerce_string_slice models)
row_provider _ = none

-- A row that is no valid provider is passed over.
abbrev pub add_row : Option AgentProvider → List AgentProvider → List AgentProvider
add_row none rest = rest
add_row (some p) rest = p ∷ rest

unfoldable pub row_providers : Items → List AgentProvider
unfolding row_provider
row_providers nil = []
row_providers (cons j js) = add_row (row_provider j) (row_providers js)

unfoldable pub normalize_agent_providers_raw : Field → List AgentProvider × Bool
unfolding row_providers normalize_provider_list
normalize_agent_providers_raw absent = ([], false)
normalize_agent_providers_raw (present (array js)) =
    (normalize_provider_list (row_providers js), true)
normalize_agent_providers_raw (present _) = ([], true)

-- A model of the provider that is found: the one asked for, or else the first.
unfoldable pub pick_model : String → AgentProvider → List String → String × String
unfolding contains
pick_model model p [] = ("", "")
pick_model model p (m ∷ ms) = if contains model (m ∷ ms) then (p.id, model) else (p.id, m)

abbrev pub first_model : AgentProvider → List String → String × String
first_model p [] = ("", "")
first_model p (m ∷ ms) = (p.id, m)

-- What the code falls back on: the first model of the first provider.
abbrev pub first_default : List AgentProvider → String × String
first_default [] = ("", "")
first_default (p ∷ ps) = first_model p p.models

-- The loop over the providers.
unfoldable pub find_default :
    String → String → String × String → List AgentProvider → String × String
unfolding pick_model
find_default id model fallback [] = fallback
find_default id model fallback (p ∷ ps) =
    let rest = find_default id model fallback ps in
    if p.id == id then pick_model model p p.models else rest

unfoldable pub normalize_agent_default : String → String → List AgentProvider → String × String
unfolding trim_space find_default
normalize_agent_default id model providers =
    find_default (trim_space id) (trim_space model) (first_default providers) providers

unfoldable pub synthesise_legacy_provider : String → String → AgentProvider
unfolding normalize_agent_base_url normalize_agent_model
synthesise_legacy_provider url model = record {
  id = "legacy";
  name = "Default";
  base_url = normalize_agent_base_url url;
  models = normalize_agent_model model ∷ [];
}
