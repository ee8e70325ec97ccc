-- ===== src/Settings/Again.antt =====
-- Valid lists are normalized to themselves, also when they are written and read again.
use mathlib.Core.Path.{subst}
use node_shell.Base.{
  ℕ, ◌+◌, ◌≤◌, ltb, leb, length, contains, distinct, All, String, Bool, true, false, ◌||◌, ◌==◌,
  List, [], ◌∷◌, some, if◌then◌else◌, arith, eq_iff, ◌≡◌, refl, sym, ap, ◌∙◌, inl, inr, Bool-cases,
}
use node_shell.Std.Strings.{trim_space, byte_length, lower_codes}
use node_shell.Settings.State.{AgentProvider}
use node_shell.Settings.Texts.{is_http, starts_with, parse_agent_base_url, normalize_agent_base_url}
use node_shell.Settings.Json.{coerce_string, coerce_string_slice, texts_of}
use node_shell.Settings.Providers.{
  normalize_model_id, keep_models, normalize_model_list, normalize_one_provider, normalize_provider,
  keep_next, keep_providers, normalize_provider_list, row_provider, add_row, row_providers,
}
use node_shell.Settings.File.{model_items, provider_row, provider_items}
use node_shell.Settings.Listed.{IsShort, IsModel, IsModels}
use node_shell.Settings.Provided.{IsUrl, IsProvider, IsProviders, ids}

-- None of the texts is among the seen.
abbrev Apart : List String → List String → Type 0
Apart seen = All (λ t. contains t seen ≡ false)

Apart-nil : (ts : List String) → Apart [] ts
Apart-nil [] = tt
Apart-nil (t ∷ ts) = (unfold contains in refl, Apart-nil ts)

Apart-cons :
    (s : String) (seen ts : List String)
    → contains s ts ≡ false
    → Apart seen ts
    → Apart (s ∷ seen) ts
Apart-cons s seen [] c a = tt
Apart-cons s seen (t ∷ ts) c a = (
  unfold contains in ground (arith, c, a.0, eq_iff s t, eq_iff t s),
  Apart-cons s seen ts (unfold contains in ground (arith, c)) a.1,
)

distinct_head : (t : String) (ts : List String) → distinct (t ∷ ts) ≡ true → contains t ts ≡ false
unfolding distinct
distinct_head t ts d = ground (arith, d)

distinct_tail : (t : String) (ts : List String) → distinct (t ∷ ts) ≡ true → distinct ts ≡ true
unfolding distinct
distinct_tail t ts d = ground (arith, d)

short_enough :
    (limit : ℕ) (s : String) → IsShort limit s → (s == "" || ltb limit (byte_length s)) ≡ false
short_enough limit s h = ground (arith, h)

normalize_model_id-same : (m : String) → IsModel m → normalize_model_id m ≡ m
normalize_model_id-same m (h, t) = unfold normalize_model_id in rw (t, short_enough 512 m h) refl

module _ {ℓ} {A : Type ℓ} where
  no_more : (xs : List A) → length xs ≤ 0 → xs ≡ []
  no_more [] l = refl
  no_more (x ∷ xs) l = absurd (omega (arith, l))

  -- A turn of a loop that keeps the rest, or has none when it ends.
  last_or_more :
      (x : A) (xs ys : List A) (b : Bool)
      → (b ≡ true → xs ≡ [])
      → (b ≡ false → ys ≡ xs)
      → (if b then x ∷ [] else x ∷ ys) ≡ x ∷ xs
  last_or_more x xs ys true e f = ap (λ l. x ∷ l) (sym (e refl))
  last_or_more x xs ys false e f = ap (λ l. x ∷ l) (f refl)

keep_models_turn :
    (seen : List String) (m : String) (ms : List String)
    → IsModel m
    → contains m seen ≡ false
    → keep_models seen (m ∷ ms)
      ≡ (if leb 32 (length (m ∷ seen)) then m ∷ [] else m ∷ keep_models (m ∷ seen) ms)
keep_models_turn seen m ms h c =
    unfold keep_models in rw (normalize_model_id-same m h, h.0.1, c) refl

keep_models-same :
    (seen ms : List String)
    → All IsModel ms
    → distinct ms ≡ true
    → Apart seen ms
    → length ms + length seen ≤ 32
    → keep_models seen ms ≡ ms
keep_models-same seen [] h d a l = unfold keep_models in refl
keep_models-same seen (m ∷ ms) h d a l =
    keep_models_turn seen m ms h.0 a.0
    ∙ last_or_more m ms (keep_models (m ∷ seen) ms) (leb 32 (length (m ∷ seen)))
        (λ e. no_more ms (ground (arith, e, l)))
        (λ e.
          keep_models-same (m ∷ seen) ms h.1 (distinct_tail m ms d)
            (Apart-cons m seen ms (distinct_head m ms d) a.1) (omega (arith, l)))

pub normalize_model_list-same : (ms : List String) → IsModels ms → normalize_model_list ms ≡ ms
unfolding normalize_model_list
normalize_model_list-same ms (d, l, a) =
    keep_models-same [] ms a d (Apart-nil ms) (omega (arith, l))

texts_of-model_items : (ms : List String) → All IsModel ms → texts_of (model_items ms) ≡ ms
texts_of-model_items [] h = unfold texts_of in refl
texts_of-model_items (m ∷ ms) h = turn m ms h.0 ∙ ap (λ l. m ∷ l) (texts_of-model_items ms h.1)
  where
    turn :
        (t : String) (ts : List String)
        → IsModel t
        → texts_of (model_items (t ∷ ts)) ≡ t ∷ texts_of (model_items ts)
    turn t ts k = unfold texts_of coerce_string in rw k.0.1 refl

-- A URL that is kept as it is has no blank at its end either.
url_full : (url : String) → IsUrl url → (url == "") ≡ false
url_full url h = elim (Bool-cases (url == "")) [
  | inr e ↦ e
  | inl e ↦ absurd (no_url (subst (λ u. is_http u ≡ true) ((eq_iff url "").0 e) h.0))
]
  where
    no_url : is_http "" ≡ true → ⊥
    no_url x = unfold is_http lower_codes starts_with in ground (arith, x)

module _ (url : String) (h : IsUrl url) (t : trim_space url ≡ url) where
  pub parse_agent_base_url-same : parse_agent_base_url url ≡ some url
  parse_agent_base_url-same =
      unfold parse_agent_base_url in
      rw (t, h.2, short_enough 512 url (h.1, url_full url h), h.0) refl

  pub normalize_agent_base_url-same : normalize_agent_base_url url ≡ url
  normalize_agent_base_url-same =
      unfold normalize_agent_base_url in
      rw (t, h.2, short_enough 512 url (h.1, url_full url h), h.0) refl

-- A valid provider whose URL has no blank at its end.
abbrev pub IsKept : AgentProvider → Type 0
IsKept p = IsProvider p × (trim_space p.base_url ≡ p.base_url)

normalize_one_provider-same :
    (p : AgentProvider) → IsKept p → normalize_one_provider p.id p.name p.base_url p.models ≡ some p
normalize_one_provider-same p (h, t) =
    unfold normalize_one_provider in
    rw
      (
        h.trimmed_id,
        h.trimmed_name,
        h.valid_id,
        short_enough 64 p.name h.short_name,
        parse_agent_base_url-same p.base_url h.url t,
        normalize_model_list-same p.models h.models,
      )
      refl

keep_providers_turn :
    (seen : List String) (p : AgentProvider) (ps : List AgentProvider)
    → IsKept p
    → contains p.id seen ≡ false
    → keep_providers seen (p ∷ ps)
      ≡ (if leb 16 (length (p.id ∷ seen)) then p ∷ [] else p ∷ keep_providers (p.id ∷ seen) ps)
keep_providers_turn seen p ps h c =
    unfold keep_providers normalize_provider in
    ap (λ o. keep_next o seen (λ kept. keep_providers kept ps)) (normalize_one_provider-same p h)
    ∙ rw c refl

keep_providers-same :
    (seen : List String) (ps : List AgentProvider)
    → All IsKept ps
    → distinct (ids ps) ≡ true
    → Apart seen (ids ps)
    → length ps + length seen ≤ 16
    → keep_providers seen ps ≡ ps
keep_providers-same seen [] h d a l = unfold keep_providers in refl
keep_providers-same seen (p ∷ ps) h d a l =
    keep_providers_turn seen p ps h.0 a.0
    ∙ last_or_more p ps (keep_providers (p.id ∷ seen) ps) (leb 16 (length (p.id ∷ seen)))
        (λ e. no_more ps (ground (arith, e, l)))
        (λ e.
          keep_providers-same (p.id ∷ seen) ps h.1 (distinct_tail p.id (ids ps) d)
            (Apart-cons p.id seen (ids ps) (distinct_head p.id (ids ps) d) a.1) (omega (arith, l)))

pub normalize_provider_list-same :
    (ps : List AgentProvider) → IsProviders ps → All IsKept ps → normalize_provider_list ps ≡ ps
unfolding normalize_provider_list
normalize_provider_list-same ps h a =
    keep_providers-same [] ps a h.unique (Apart-nil (ids ps)) (omega (arith, h.bounded))

row_provider-same : (p : AgentProvider) → IsKept p → row_provider (provider_row p) ≡ some p
row_provider-same p h =
    unfold row_provider coerce_string coerce_string_slice in
    ap (normalize_one_provider p.id p.name p.base_url) (texts_of-model_items p.models h.0.models.2)
    ∙ normalize_one_provider-same p h

-- The rows of a list that is written are read as its providers.
pub row_providers-same :
    (ps : List AgentProvider) → All IsKept ps → row_providers (provider_items ps) ≡ ps
row_providers-same [] h = unfold row_providers in refl
row_providers-same (p ∷ ps) h = turn p ps h.0 ∙ ap (λ l. p ∷ l) (row_providers-same ps h.1)
  where
    turn :
        (q : AgentProvider) (qs : List AgentProvider)
        → IsKept q
        → row_providers (provider_items (q ∷ qs)) ≡ q ∷ row_providers (provider_items qs)
    turn q qs k =
        unfold row_providers in
        ap (λ o. add_row o (row_providers (provider_items qs))) (row_provider-same q k)
