-- ===== src/Settings/Defaulted.antt =====
-- The default of the conversation picker.
use mathlib.Core.Path.{subst}
use node_shell.Base.{
  contains, String, Bool, true, false, ◌&&◌, ◌||◌, List, [], ◌∷◌, ◌==◌, arith, eq_iff, ◌≡◌, refl,
  sym, ap, ◌∙◌, inl, inr, Bool-cases, if_cases, distinct,
}
use node_shell.Std.Strings.{trim_space}
use node_shell.Settings.State.{AgentProvider}
use node_shell.Settings.Providers.{
  first_model, pick_model, first_default, find_default, normalize_agent_default,
}
use node_shell.Settings.Listed.{contains_head}
use node_shell.Settings.Provided.{ids}

-- Some provider of the id lists the model.
unfoldable pub offers : String → String → List AgentProvider → Bool
unfolding contains
offers id model [] = false
offers id model (p ∷ ps) = (p.id == id && contains model p.models) || offers id model ps

pub data IsDefault (providers : List AgentProvider) : String × String → Type 0 where
  unset : IsDefault providers ("", "")
  offered : {id model : String} → offers id model providers ≡ true → IsDefault providers (id, model)

module _ (p : AgentProvider) (ps : List AgentProvider) where
  offers_head :
      (model : String) → contains model p.models ≡ true → offers p.id model (p ∷ ps) ≡ true
  unfolding offers
  offers_head model h = ground (arith, h, eq_iff p.id p.id)

  offers_tail : (id model : String) → offers id model ps ≡ true → offers id model (p ∷ ps) ≡ true
  unfolding offers
  offers_tail id model h = ground (arith, h)

pick_model-IsDefault :
    (providers : List AgentProvider) (model : String) (p : AgentProvider) (ms : List String)
    → ((m : String) → contains m ms ≡ true → offers p.id m providers ≡ true)
    → IsDefault providers (pick_model model p ms)
unfolding pick_model
pick_model-IsDefault providers model p [] h = unset
pick_model-IsDefault providers model p (m ∷ ms) h = elim (Bool-cases (contains model (m ∷ ms))) [
  | inl e ↦ rw e (offered (h model e))
  | inr e ↦ rw e (offered (h m (contains_head m ms)))
]

find_default-IsDefault :
    (providers : List AgentProvider) (id model : String) (fallback : String × String)
    (ps : List AgentProvider)
    → IsDefault providers fallback
    → ((i m : String) → offers i m ps ≡ true → offers i m providers ≡ true)
    → IsDefault providers (find_default id model fallback ps)
unfolding find_default
find_default-IsDefault providers id model fallback [] f h = f
find_default-IsDefault providers id model fallback (p ∷ ps) f h =
    if_cases (IsDefault providers) (p.id == id) (pick_model model p p.models)
      (find_default id model fallback ps)
      (λ e.
        pick_model-IsDefault providers model p p.models (λ m c. h p.id m (offers_head p ps m c)))
      (λ e.
        find_default-IsDefault providers id model fallback ps f
          (λ i m o. h i m (offers_tail p ps i m o)))

first_default-IsDefault : (ps : List AgentProvider) → IsDefault ps (first_default ps)
first_default-IsDefault [] = unset
first_default-IsDefault (p ∷ ps) = first p.models (λ m c. offers_head p ps m c)
  where
    first :
        (ms : List String)
        → ((m : String) → contains m ms ≡ true → offers p.id m (p ∷ ps) ≡ true)
        → IsDefault (p ∷ ps) (first_model p ms)
    first [] h = unset
    first (m ∷ ms) h = offered (h m (contains_head m ms))

pub normalize_agent_default-IsDefault :
    (id model : String) (ps : List AgentProvider)
    → IsDefault ps (normalize_agent_default id model ps)
unfolding normalize_agent_default
normalize_agent_default-IsDefault id model ps =
    find_default-IsDefault ps (trim_space id) (trim_space model) (first_default ps) ps
      (first_default-IsDefault ps) (λ i m o. o)

offers-contains :
    (id model : String) (ps : List AgentProvider)
    → offers id model ps ≡ true
    → contains id (ids ps) ≡ true
unfolding offers contains
offers-contains id model (p ∷ ps) h = ground (arith, h, offers-contains id model ps)
offers-contains id model [] h = absurd (ground (arith, h))

pick_model-contains :
    (model : String) (p : AgentProvider) (ms : List String)
    → contains model ms ≡ true
    → pick_model model p ms ≡ (p.id, model)
unfolding pick_model
pick_model-contains model p [] h = absurd (unfold contains in ground (arith, h))
pick_model-contains model p (m ∷ ms) h = rw h refl

-- In a list that names no provider twice, the provider of an id that offers the model is the first of
-- the id.
offers_here :
    (model : String) (p : AgentProvider) (ps : List AgentProvider)
    → contains p.id (ids ps) ≡ false
    → offers p.id model (p ∷ ps) ≡ true
    → contains model p.models ≡ true
offers_here model p ps c h = unfold offers in ground (arith, h, c, offers-contains p.id model ps)

find_default_tail :
    (id model : String) (fallback : String × String) (p : AgentProvider) (ps : List AgentProvider)
    → (p.id == id) ≡ false
    → find_default id model fallback (p ∷ ps) ≡ find_default id model fallback ps
unfolding find_default
find_default_tail id model fallback p ps e = rw e refl

find_default-offers :
    (id model : String) (fallback : String × String) (ps : List AgentProvider)
    → distinct (ids ps) ≡ true
    → offers id model ps ≡ true
    → find_default id model fallback ps ≡ (id, model)
find_default-offers id model fallback [] d h = absurd (unfold offers in ground (arith, h))
find_default-offers id model fallback (p ∷ ps) d h = elim (Bool-cases (p.id == id)) [
  | inl e ↦
      let same : p.id ≡ id = (eq_iff p.id id).0 e in
      let alone : contains p.id (ids ps) ≡ false = unfold distinct in ground (arith, d) in
      let at_p : offers p.id model (p ∷ ps) ≡ true =
        subst (λ i. offers i model (p ∷ ps) ≡ true) (sym same) h in
      unfold find_default in
      rw e (
        pick_model-contains model p p.models (offers_here model p ps alone at_p)
        ∙ ap (λ (i : String). (i, model)) same)
  | inr e ↦
      let later : offers id model ps ≡ true = unfold offers in ground (arith, h, e) in
      let rest : distinct (ids ps) ≡ true = unfold distinct in ground (arith, d) in
      find_default_tail id model fallback p ps e
      ∙ find_default-offers id model fallback ps rest later
]

-- A provider and a model that are asked for and offered are kept.
pub normalize_agent_default-offers :
    (id model : String) (ps : List AgentProvider)
    → distinct (ids ps) ≡ true
    → offers (trim_space id) (trim_space model) ps ≡ true
    → normalize_agent_default id model ps ≡ (trim_space id, trim_space model)
unfolding normalize_agent_default
normalize_agent_default-offers id model ps =
    find_default-offers (trim_space id) (trim_space model) (first_default ps) ps
