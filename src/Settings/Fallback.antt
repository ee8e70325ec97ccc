-- ===== src/Settings/Fallback.antt =====
-- The endpoints and the providers that a file without a list of providers has.
use node_shell.Base.{
  contains, distinct, ltb, String, not, ◌||◌, ◌==◌, [], ◌∷◌, if◌then◌else◌, if_cases, arith, refl,
}
use node_shell.Std.Strings.{trim_space, byte_length, lower_codes}
use node_shell.Settings.State.{Defaults}
use node_shell.Settings.Texts.{
  is_http, starts_with, trim_slashes, normalize_agent_base_url, normalize_agent_model,
}
use node_shell.Settings.Json.{Field, null, boolean, number, text, array, object, absent, present}
use node_shell.Settings.Providers.{
  valid_provider_id, normalize_agent_providers_raw, synthesise_legacy_provider, row_providers,
}
use node_shell.Settings.Values.{normalize_agent_model-trim_space, trim_slashes_twice}
use node_shell.Settings.Listed.{IsShort, short_lem}
use node_shell.Settings.Provided.{
  IsUrl, IsProvider, IsProviders, normalize_provider_list-IsProviders,
}

pub standard-IsUrl : IsUrl Defaults.agent_base_url
standard-IsUrl = (
  unfold is_http lower_codes starts_with in refl,
  unfold byte_length in omega arith,
  unfold trim_slashes in refl,
)

pub normalize_agent_base_url-IsUrl : (value : String) → IsUrl (normalize_agent_base_url value)
unfolding normalize_agent_base_url
normalize_agent_base_url-IsUrl value =
    if_cases IsUrl (trimmed == "" || ltb 512 (byte_length trimmed)) standard
      (if not (is_http trimmed) then standard else trimmed) (λ e. standard-IsUrl)
      (λ e.
        if_cases IsUrl (not (is_http trimmed)) standard trimmed (λ f. standard-IsUrl)
          (λ f. (
            ground (arith, f),
            (short_lem 512 trimmed e).0,
            trim_slashes_twice (trim_space value),
          )))
  where
    trimmed : String
    trimmed = trim_slashes (trim_space value)

    standard : String
    standard = Defaults.agent_base_url

pub normalize_agent_model-IsShort : (value : String) → IsShort 512 (normalize_agent_model value)
unfolding normalize_agent_model
normalize_agent_model-IsShort value =
    if_cases (IsShort 512) (trimmed == "" || ltb 512 (byte_length trimmed)) Defaults.agent_model
      trimmed (λ e. unfold byte_length in (omega arith, refl)) (λ e. short_lem 512 trimmed e)
  where
    trimmed : String
    trimmed = trim_space value

-- The provider made of the old endpoint is valid.
synthesise_legacy_provider-IsProvider :
    (url model : String) → IsProvider (synthesise_legacy_provider url model)
unfolding synthesise_legacy_provider
synthesise_legacy_provider-IsProvider url model = record {
  valid_id = unfold valid_provider_id in refl;
  trimmed_id = unfold trim_space in refl;
  short_name = unfold byte_length in (omega arith, refl);
  trimmed_name = unfold trim_space in refl;
  url = normalize_agent_base_url-IsUrl url;
  models = (
    unfold distinct contains in refl,
    omega arith,
    ((normalize_agent_model-IsShort model, normalize_agent_model-trim_space model), tt),
  );
}

pub legacy-IsProviders :
    (url model : String) → IsProviders (synthesise_legacy_provider url model ∷ [])
legacy-IsProviders url model = record {
  unique = unfold distinct contains in refl;
  bounded = omega arith;
  each = (synthesise_legacy_provider-IsProvider url model, tt);
}

pub none-IsProviders : IsProviders []
none-IsProviders = record { unique = unfold distinct in refl; bounded = omega arith; each = tt }

pub normalize_agent_providers_raw-IsProviders :
    (raw : Field) → IsProviders (normalize_agent_providers_raw raw).0
unfolding normalize_agent_providers_raw
normalize_agent_providers_raw-IsProviders absent = none-IsProviders
normalize_agent_providers_raw-IsProviders (present (array js)) =
    normalize_provider_list-IsProviders (row_providers js)
normalize_agent_providers_raw-IsProviders (present null) = none-IsProviders
normalize_agent_providers_raw-IsProviders (present (boolean b)) = none-IsProviders
normalize_agent_providers_raw-IsProviders (present (number f)) = none-IsProviders
normalize_agent_providers_raw-IsProviders (present (text s)) = none-IsProviders
normalize_agent_providers_raw-IsProviders (present (object a b c d)) = none-IsProviders
