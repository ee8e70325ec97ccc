-- ===== src/Settings/Provided.antt =====
-- What the list of the providers holds.
use node_shell.Base.{
  suc, ◌+◌, ◌≤◌, ◌<◌, ltb, leb, length, contains, distinct, All, String, Bool, true, false, not,
  ◌||◌, List, [], ◌∷◌, ◌==◌, map, Option, none, some, if◌then◌else◌, if_cases, arith, ◌≡◌, refl,
}
use node_shell.Std.Strings.{trim_space, byte_length}
use node_shell.Std.Strings.Trims.{trim_space_twice}
use node_shell.Settings.State.{AgentProvider}
use node_shell.Settings.Texts.{is_http, trim_slashes, parse_agent_base_url}
use node_shell.Settings.Providers.{
  valid_provider_id, with_url, normalize_one_provider, normalize_provider, keep_next,
  keep_providers, normalize_provider_list,
}
use node_shell.Settings.Values.{trim_slashes_twice}
use node_shell.Settings.Listed.{
  IsShort, IsModels, contains_cons, contains_head, new_id, distinct_cons, short_lem,
  normalize_model_list-IsModels,
}

-- An http or https URL of sane length, with no slash at its end.
abbrev pub IsUrl : String → Type 0
IsUrl url = (is_http url ≡ true) × (byte_length url ≤ 512) × (trim_slashes url ≡ url)

pub record IsProvider (p : AgentProvider) : Type 0 where
  pub valid_id : valid_provider_id p.id ≡ true
  pub trimmed_id : trim_space p.id ≡ p.id
  pub short_name : IsShort 64 p.name
  pub trimmed_name : trim_space p.name ≡ p.name
  pub url : IsUrl p.base_url
  pub models : IsModels p.models

abbrev pub ids : List AgentProvider → List String
ids ps = map (λ (p : AgentProvider). p.id) ps

pub record IsProviders (ps : List AgentProvider) : Type 0 where
  pub unique : distinct (ids ps) ≡ true
  pub bounded : length ps ≤ 16
  pub each : All IsProvider ps

-- Of an option: a value has the property.
abbrev pub Holds {ℓ κ} : {A : Type ℓ} → (A → Type κ) → Option A → Type κ
Holds P none = Unit
Holds P (some a) = P a

parse_agent_base_url-IsUrl : (value : String) → Holds IsUrl (parse_agent_base_url value)
unfolding parse_agent_base_url
parse_agent_base_url-IsUrl value =
    if_cases (Holds IsUrl) (trimmed == "" || ltb 512 (byte_length trimmed)) none
      (if not (is_http trimmed) then none else some trimmed) (λ e. tt)
      (λ e.
        if_cases (Holds IsUrl) (not (is_http trimmed)) none (some trimmed) (λ f. tt)
          (λ f. (
            ground (arith, f),
            (short_lem 512 trimmed e).0,
            trim_slashes_twice (trim_space value),
          )))
  where
    trimmed : String
    trimmed = trim_slashes (trim_space value)

with_url-IsProvider :
    (id name : String) (models : List String) (url : Option String)
    → valid_provider_id id ≡ true
    → trim_space id ≡ id
    → IsShort 64 name
    → trim_space name ≡ name
    → Holds IsUrl url
    → Holds IsProvider (with_url id name models url)
with_url-IsProvider id name models none v t n r u = tt
with_url-IsProvider id name models (some url) v t n r u = record {
  valid_id = v;
  trimmed_id = t;
  short_name = n;
  trimmed_name = r;
  url = u;
  models = normalize_model_list-IsModels models;
}

-- A provider that is not dropped is valid.
pub normalize_one_provider-IsProvider :
    (id name base_url : String) (models : List String)
    → Holds IsProvider (normalize_one_provider id name base_url models)
unfolding normalize_one_provider
normalize_one_provider-IsProvider id name base_url models =
    if_cases (Holds IsProvider) (not (valid_provider_id (trim_space id))) none rest (λ e. tt)
      (λ e.
        if_cases (Holds IsProvider) long none found (λ f. tt)
          (λ f.
            with_url-IsProvider (trim_space id) (trim_space name) models
              (parse_agent_base_url base_url) (ground (arith, e)) (trim_space_twice id)
              (short_lem 64 (trim_space name) f) (trim_space_twice name)
              (parse_agent_base_url-IsUrl base_url)))
  where
    long : Bool
    long = trim_space name == "" || ltb 64 (byte_length (trim_space name))

    found : Option AgentProvider
    found = with_url (trim_space id) (trim_space name) models (parse_agent_base_url base_url)

    rest : Option AgentProvider
    rest = if long then none else found

pub normalize_provider-IsProvider : (p : AgentProvider) → Holds IsProvider (normalize_provider p)
unfolding normalize_provider
normalize_provider-IsProvider p = normalize_one_provider-IsProvider p.id p.name p.base_url p.models

-- The ends of one turn of the loop: the provider is passed over, it is the last, or it is kept.
keep_next-cases {κ} :
    (P : List AgentProvider → Type κ) (o : Option AgentProvider) (seen : List String)
    (later : List String → List AgentProvider)
    → Holds IsProvider o
    → P (later seen)
    → ((next : AgentProvider) → IsProvider next → contains next.id seen ≡ false → P (next ∷ []))
    → ((next : AgentProvider)
        → IsProvider next
        → contains next.id seen ≡ false
        → leb 16 (length (next.id ∷ seen)) ≡ false
        → P (next ∷ later (next.id ∷ seen)))
    → P (keep_next o seen later)
keep_next-cases P none seen later v skip last more = skip
keep_next-cases P (some next) seen later v skip last more =
    if_cases P (contains next.id seen) (later seen)
      (if leb 16 (length (next.id ∷ seen)) then next ∷ [] else next ∷ later (next.id ∷ seen))
      (λ f. skip)
      (λ f.
        if_cases P (leb 16 (length (next.id ∷ seen))) (next ∷ []) (next ∷ later (next.id ∷ seen))
          (λ g. last next v f) (more next v f))

keep_providers-cases {κ} :
    (P : List AgentProvider → Type κ) (seen : List String) (p : AgentProvider)
    (ps : List AgentProvider)
    → P (keep_providers seen ps)
    → ((next : AgentProvider) → IsProvider next → contains next.id seen ≡ false → P (next ∷ []))
    → ((next : AgentProvider)
        → IsProvider next
        → contains next.id seen ≡ false
        → leb 16 (length (next.id ∷ seen)) ≡ false
        → P (next ∷ keep_providers (next.id ∷ seen) ps))
    → P (keep_providers seen (p ∷ ps))
unfolding keep_providers
keep_providers-cases P seen p ps =
    keep_next-cases P (normalize_provider p) seen (λ kept. keep_providers kept ps)
      (normalize_provider-IsProvider p)

keep_providers-contains :
    (k : String) (seen : List String) (ps : List AgentProvider)
    → contains k seen ≡ true
    → contains k (ids (keep_providers seen ps)) ≡ false
keep_providers-contains k seen [] h = unfold keep_providers contains in refl
keep_providers-contains k seen (p ∷ ps) h =
    keep_providers-cases (λ out. contains k (ids out) ≡ false) seen p ps
      (keep_providers-contains k seen ps h)
      (λ next v f. new_id k next.id seen [] h f (unfold contains in refl))
      (λ next v f g.
        new_id k next.id seen (ids (keep_providers (next.id ∷ seen) ps)) h f
          (keep_providers-contains k (next.id ∷ seen) ps (contains_cons k next.id seen h)))

keep_providers-distinct :
    (seen : List String) (ps : List AgentProvider) → distinct (ids (keep_providers seen ps)) ≡ true
keep_providers-distinct seen [] = unfold keep_providers distinct in refl
keep_providers-distinct seen (p ∷ ps) =
    keep_providers-cases (λ out. distinct (ids out) ≡ true) seen p ps
      (keep_providers-distinct seen ps) (λ next v f. unfold distinct contains in refl)
      (λ next v f g.
        distinct_cons next.id (ids (keep_providers (next.id ∷ seen) ps))
          (keep_providers-contains next.id (next.id ∷ seen) ps (contains_head next.id seen))
          (keep_providers-distinct (next.id ∷ seen) ps))

keep_providers-length :
    (seen : List String) (ps : List AgentProvider)
    → length seen < 16
    → length (keep_providers seen ps) + length seen ≤ 16
keep_providers-length seen [] h = unfold keep_providers in omega (arith, h)
keep_providers-length seen (p ∷ ps) h =
    keep_providers-cases (λ out. length out + length seen ≤ 16) seen p ps
      (keep_providers-length seen ps h) (λ next v f. omega (arith, h))
      (λ next v f g.
        let l : suc (length seen) < 16 = ground (arith, g) in
        omega (arith, keep_providers-length (next.id ∷ seen) ps l))

keep_providers-All :
    (seen : List String) (ps : List AgentProvider) → All IsProvider (keep_providers seen ps)
keep_providers-All seen [] = unfold keep_providers in tt
keep_providers-All seen (p ∷ ps) =
    keep_providers-cases (All IsProvider) seen p ps (keep_providers-All seen ps)
      (λ next v f. (v, tt)) (λ next v f g. (v, keep_providers-All (next.id ∷ seen) ps))

pub normalize_provider_list-IsProviders :
    (ps : List AgentProvider) → IsProviders (normalize_provider_list ps)
unfolding normalize_provider_list
normalize_provider_list-IsProviders ps = record {
  unique = keep_providers-distinct [] ps;
  bounded = omega (arith, keep_providers-length [] ps (omega arith));
  each = keep_providers-All [] ps;
}
