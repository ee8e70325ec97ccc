-- ===== src/Settings/Settled.antt =====
-- When `Get` returns exactly what `Set` returned.
use node_shell.Base.{
  contains, All, String, true, false, ◌&&◌, ◌==◌, none, List, [], ◌∷◌, Result, ok, arith, eq_iff,
  ◌≡◌, refl, sym, ap, ◌∙◌, inl, inr, Bool-cases,
}
use mathlib.Core.Path.{subst}
use node_shell.Std.Strings.{trim_space}
use node_shell.Stores.AtomicFile.{Folder, System}
use node_shell.Settings.State.{AgentProvider, AppSettings, Patch}
use node_shell.Settings.Json.{Numbers, coerce_string}
use node_shell.Settings.Providers.{
  valid_provider_id, first_default, find_default, normalize_agent_default,
  normalize_agent_providers_raw, normalize_provider_list,
}
use node_shell.Settings.File.{Document, encode}
use node_shell.Settings.Store.{parse_file, providers_of, normalize_settings, read, get, merge, set}
use node_shell.Settings.Listed.{IsModel}
use node_shell.Settings.Provided.{IsProvider, IsProviders}
use node_shell.Settings.Defaulted.{
  offers, IsDefault, unset, offered, normalize_agent_default-offers,
}
use node_shell.Settings.Valid.{IsValid, Written, saved, set-Written}
use node_shell.Settings.Persists.{Agrees, contains-All, encoded-Agrees, read_saved}
use node_shell.Settings.Again.{
  IsKept, normalize_agent_base_url-same, normalize_provider_list-same, row_providers-same,
}

-- No URL has a blank at its end, and the default is only empty where the first provider has no model.
pub record IsSettled (s : AppSettings) : Type 0 where
  pub base_url : trim_space s.agent_base_url ≡ s.agent_base_url
  pub urls : All (λ (p : AgentProvider). trim_space p.base_url ≡ p.base_url) s.agent_providers
  pub picked :
      (s.agent_default_provider_id == "") ≡ true → first_default s.agent_providers ≡ ("", "")

All-IsKept :
    (ps : List AgentProvider)
    → All IsProvider ps
    → All (λ (p : AgentProvider). trim_space p.base_url ≡ p.base_url) ps
    → All IsKept ps
All-IsKept [] h t = tt
All-IsKept (p ∷ ps) h t = ((h.0, t.0), All-IsKept ps h.1 t.1)

-- The providers of settings that are written and read again.
providers_again :
    (numbers : Numbers) (s : AppSettings)
    → IsProviders s.agent_providers
    → All IsKept s.agent_providers
    → providers_of numbers (parse_file (encode s)) ≡ s.agent_providers
providers_again numbers s h k =
    unfold normalize_agent_providers_raw in
    ap normalize_provider_list (row_providers-same s.agent_providers k)
    ∙ normalize_provider_list-same s.agent_providers h k

-- The id and the model that a valid provider offers have no blanks around them.
offers-trimmed :
    (id model : String) (ps : List AgentProvider)
    → All IsProvider ps
    → offers id model ps ≡ true
    → (trim_space id ≡ id) × (trim_space model ≡ model)
offers-trimmed id model [] h o = absurd (unfold offers in ground (arith, o))
offers-trimmed id model (p ∷ ps) h o = elim (Bool-cases (p.id == id && contains model p.models)) [
  | inl e ↦
      let same : p.id ≡ id = (eq_iff p.id id).0 (ground (arith, e)) in
      (
        subst (λ i. trim_space i ≡ i) same h.0.trimmed_id,
        (contains-All IsModel p.models model (ground (arith, e)) h.0.models.2).1,
      )
  | inr e ↦ offers-trimmed id model ps h.1 (unfold offers in ground (arith, o, e))
]

valid-full : (id : String) → valid_provider_id id ≡ true → (id == "") ≡ false
valid-full id h = elim (Bool-cases (id == "")) [
  | inr e ↦ e
  | inl e ↦ absurd (no_id (subst (λ i. valid_provider_id i ≡ true) ((eq_iff id "").0 e) h))
]
  where
    no_id : valid_provider_id "" ≡ true → ⊥
    no_id x = unfold valid_provider_id in ground (arith, x)

-- No provider has the empty id.
find_default_none :
    (model : String) (fallback : String × String) (ps : List AgentProvider)
    → All IsProvider ps
    → find_default "" model fallback ps ≡ fallback
find_default_none model fallback [] h = unfold find_default in refl
find_default_none model fallback (p ∷ ps) h =
    turn p ps h.0 ∙ find_default_none model fallback ps h.1
  where
    turn :
        (q : AgentProvider) (qs : List AgentProvider)
        → IsProvider q
        → find_default "" model fallback (q ∷ qs) ≡ find_default "" model fallback qs
    turn q qs v = unfold find_default in rw (valid-full q.id v.valid_id) refl

default_again :
    (ps : List AgentProvider) {d : String × String}
    → IsProviders ps
    → IsDefault ps d
    → ((d.0 == "") ≡ true → first_default ps ≡ ("", ""))
    → normalize_agent_default d.0 d.1 ps ≡ d
default_again ps h unset first =
    unfold normalize_agent_default trim_space in
    find_default_none "" (first_default ps) ps h.each ∙ first refl
default_again ps h (offered {id} {model} o) first =
    let (i, m) = offers-trimmed id model ps h.each o in
    normalize_agent_default-offers id model ps h.unique (rw (i, m) o) ∙ rw (i, m) refl

-- Settings that agree in every field.
same_settings :
    {a b : AppSettings}
    → Agrees a b
    → b.agent_base_url ≡ a.agent_base_url
    → b.agent_providers ≡ a.agent_providers
    → b.agent_default_provider_id ≡ a.agent_default_provider_id
    → b.agent_default_model ≡ a.agent_default_model
    → a.agent_providers_present ≡ true
    → b ≡ a
same_settings {a} {b} g u p d m l = λ i. record {
  language = g.language i;
  terminal_font_family = g.font_family i;
  terminal_font_size = g.font_size i;
  mcp_idle_timeout_minutes = g.idle_timeout i;
  mcp_max_sessions = g.max_sessions i;
  theme_preference = g.theme i;
  agent_base_url = u i;
  agent_model = g.model i;
  agent_providers = p i;
  agent_default_provider_id = d i;
  agent_default_model = m i;
  agent_context_window = g.window i;
  agent_thinking_strength = g.strength i;
  agent_context_compression = g.compression i;
  agent_providers_present = (g.listed ∙ sym l) i;
  permission_policy = g.policy i;
  mcp_permission_mode = g.mode i;
}

-- Valid and settled settings that are written and read again.
encoded_same :
    (numbers : Numbers) (s : AppSettings)
    → IsValid s
    → IsSettled s
    → s.agent_providers_present ≡ true
    → normalize_settings numbers (parse_file (encode s)) ≡ s
encoded_same numbers s v e l =
    same_settings (encoded-Agrees numbers s v)
      (unfold normalize_settings coerce_string in
        normalize_agent_base_url-same s.agent_base_url v.base_url e.base_url)
      (unfold normalize_settings in again)
      (unfold normalize_settings coerce_string in ap (λ d. d.0) default)
      (unfold normalize_settings coerce_string in ap (λ d. d.1) default) l
  where
    again : providers_of numbers (parse_file (encode s)) ≡ s.agent_providers
    again =
        providers_again numbers s v.providers (All-IsKept s.agent_providers v.providers.each e.urls)

    picked : String × String
    picked = (s.agent_default_provider_id, s.agent_default_model)

    default :
        normalize_agent_default s.agent_default_provider_id s.agent_default_model
          (providers_of numbers (parse_file (encode s)))
        ≡ picked
    default =
        ap (normalize_agent_default s.agent_default_provider_id s.agent_default_model) again
        ∙ default_again s.agent_providers v.providers v.picked e.picked

module _ (numbers : Numbers) where
  Written-same :
      {current : Result AppSettings} (p : Patch) {folder : Folder Document}
      (folder' : Folder Document) (next : AppSettings)
      → Written current p folder (folder', ok next)
      → IsSettled next
      → get numbers folder' ≡ ok next
  Written-same p folder' next (saved {c} f same v on_disk) e =
      ap (read numbers) on_disk
      ∙ read_saved numbers (encode (merge p c))
      ∙ ap ok (encoded_same numbers (merge p c) v e (unfold merge in refl))

  -- Where no write is under way, a Set succeeds, no URL in the settings that it returns has a
  -- blank at its end, and their default is empty only if the first provider has no model: Get then
  -- returns exactly the settings that Set returned, the providers with their models included.
  pub set-get :
      (os : System) (p : Patch) (folder folder' : Folder Document) (next : AppSettings)
      → folder.temp ≡ none
      → set numbers os p folder ≡ (folder', ok next)
      → IsSettled next
      → get numbers folder' ≡ ok next
  set-get os p folder folder' next clean e =
      Written-same p folder' next
        (subst (Written (get numbers folder) p folder) e (set-Written numbers os p folder clean))
