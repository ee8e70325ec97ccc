-- ===== src/Permission/Memory.antt =====
-- The allowlist: which grants last, and what closing a session forgets.
use Prim.Native.Char.{Char, code}
use Prim.Native.String.{◌++◌ as ◌+++◌}
use text.Mathlib.Text.{starts_with}
use text.Mathlib.TextEquality.{starts_with_iff}
use text.Mathlib.TextLemmas.{nil-append, cons-append, head-eq_of_cons-eq, tail-eq_of_cons-eq}
use text.Mathlib.TextPositions.{starts_with-append}
use mathlib.Core.Path.{ap₂}
use node_shell.Base.{
  ◌≡◌, refl, sym, ◌∙◌, ap, ◌≢◌, inl, inr, String, Bool, true, false, not, ◌&&◌, Option, none, some,
  List, [], ◌∷◌, ◌++◌, ◌==◌, contains, arith, eq_iff, eq_refl, Bool-cases, eqb,
}
use node_shell.Permission.Policy.{ask, Decision, allow_session, Request, sensitive}
use node_shell.Permission.Service.{
  Service, allow_key, remembered, remember, current_policy, ask_gate, authorize, without_prefix,
  forget_session,
}

contains-without_prefix :
    (prefix k : String) (ks : List String)
    → contains k (without_prefix prefix ks) ≡ (contains k ks && not (starts_with k prefix))
unfolding contains without_prefix
contains-without_prefix prefix k [] = refl
contains-without_prefix prefix k (j ∷ ks) = elim (Bool-cases (j == k)) [
  | inl same ↦ ground (
    arith,
    contains-without_prefix prefix k ks,
    ap (λ x. starts_with x prefix) ((eq_iff j k).0 same),
  )
  | inr other ↦ ground (arith, contains-without_prefix prefix k ks)
]

-- After a session is closed, no tool is granted to it any more.
pub forget_session-forgets :
    (session tool : String) (s : Service)
    → (session == "") ≡ false
    → remembered session tool (forget_session session s) ≡ false
unfolding remembered forget_session allow_key
forget_session-forgets session tool s n = simp n (
    ground (
      arith,
      contains-without_prefix (session +++ "\0") ((session +++ "\0") +++ tool) s.allowed,
      starts_with-append (session +++ "\0") tool,
    ))

-- No character of the text is NUL.
unfoldable pub nul_free : String → Bool
nul_free String.[] = true
nul_free (String.◌∷◌ c s) = not (eqb (code c) 0) && nul_free s

abbrev nul : Char
nul = "\0"

nul_append : (u : String) → ("" +++ "\0") +++ u ≡ String.◌∷◌ nul u
nul_append u = cons-append nul "" u ∙ ap (String.◌∷◌ nul) (nil-append u)

cons_append2 :
    (c : Char) (s z u : String) → (String.◌∷◌ c s +++ z) +++ u ≡ String.◌∷◌ c ((s +++ z) +++ u)
cons_append2 c s z u = ap (λ x. x +++ u) (cons-append c s z) ∙ cons-append c (s +++ z) u

nul_head : (c : Char) (s : String) → nul_free (String.◌∷◌ c s) ≡ true → nul ≡ c → ⊥
unfolding nul_free
nul_head c s h e = ground (arith, ap code e)

-- A key begins with its session alone.
key_prefix :
    (s s' t u : String)
    → nul_free s ≡ true
    → nul_free s' ≡ true
    → (s +++ "\0") +++ u ≡ (s' +++ "\0") +++ t
    → s ≡ s'
unfolding nul_free
key_prefix String.[] String.[] t u h k e = refl
key_prefix String.[] (String.◌∷◌ d s') t u h k e =
    absurd
      (nul_head d s' k (head-eq_of_cons-eq (sym (nul_append u) ∙ e ∙ cons_append2 d s' "\0" t)))
key_prefix (String.◌∷◌ c s) String.[] t u h k e =
    absurd
      (nul_head c s h (head-eq_of_cons-eq (sym (nul_append t) ∙ sym e ∙ cons_append2 c s "\0" u)))
key_prefix (String.◌∷◌ c s) (String.◌∷◌ d s') t u h k e =
    let e' = sym (cons_append2 c s "\0" u) ∙ e ∙ cons_append2 d s' "\0" t in
    ap₂ String.◌∷◌ (head-eq_of_cons-eq e')
      (key_prefix s s' t u (ground arith) (ground arith) (tail-eq_of_cons-eq e'))

-- Closing a session leaves the grants of every other session.
pub forget_session-keeps :
    (session other tool : String) (s : Service)
    → nul_free session ≡ true
    → nul_free other ≡ true
    → session ≢ other
    → remembered other tool (forget_session session s) ≡ remembered other tool s
unfolding remembered forget_session
forget_session-keeps session other tool s f g n = elim (Bool-cases (session == "")) [
  | inl none' ↦ rw none'
  | inr some' ↦ simp some' (
      rw (contains-without_prefix (session +++ "\0") (allow_key other tool) s.allowed)
        (elim (Bool-cases (starts_with (allow_key other tool) (session +++ "\0"))) [
          | inl p ↦
              let (u, e) = (starts_with_iff (allow_key other tool) (session +++ "\0")).0 p in
              absurd (n (key_prefix session other tool u f g (unfold allow_key in e)))
          | inr q ↦ ground (arith, q)
        ]))
]

-- A remembered grant is enough where the policy asks.
authorize-remembered :
    (req : Request) (s : Service)
    → current_policy s.policy ≡ ask
    → (req.session_id == "") ≡ false
    → remembered req.session_id req.tool s ≡ true
    → authorize false req s ≡ (s, none)
unfolding authorize
authorize-remembered req s p n r = ground arith

module _ (req : Request) (gate : Request → Option Decision) (s : Service) (g : s.gate ≡ some gate)
    (p : current_policy s.policy ≡ ask) (n : (req.session_id == "") ≡ false)
    (a : gate req ≡ some allow_session) where
  ask_gate-grants :
      ask_gate req s.gate s
      ≡ (remember req.session_id req.tool (record s { prompts = s.prompts ++ req ∷ [] }), none)
  ask_gate-grants = simp (g, a, n)

  authorize-new :
      sensitive req.tool ≡ true
      → remembered req.session_id req.tool s ≡ false
      → authorize false req s
        ≡ (remember req.session_id req.tool (record s { prompts = s.prompts ++ req ∷ [] }), none)
  unfolding authorize
  authorize-new t new = simp (t, p, n, new) ask_gate-grants

  remembered_key :
      (s' : Service)
      → remembered req.session_id req.tool (remember req.session_id req.tool s') ≡ true
  unfolding remembered remember contains
  remembered_key s' = rw eq_refl

  authorize-grants :
      sensitive req.tool ≡ true
      → (remembered req.session_id req.tool (authorize false req s).0 ≡ true)
        × ((authorize false req s).0.policy ≡ s.policy)
  authorize-grants t = elim (Bool-cases (remembered req.session_id req.tool s)) [
    | inl known ↦ rw (authorize-remembered req s p n known) (known, refl)
    | inr new ↦ rw (authorize-new t new) (remembered_key _, unfold remember in refl)
  ]

  -- A grant for the session covers every later call of the same tool in it, with no prompt.
  pub session_grant_lasts :
      sensitive req.tool ≡ true
      → (later : Request) → later.session_id ≡ req.session_id
      → later.tool ≡ req.tool
      → authorize false later (authorize false req s).0 ≡ ((authorize false req s).0, none)
  session_grant_lasts t later e f =
      let (r, q) = authorize-grants t in
      authorize-remembered later (authorize false req s).0 (rw q p) (rw e n) (rw (e, f) r)
