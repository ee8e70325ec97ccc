-- ===== src/Permission/Consent.antt =====
-- What `Authorize` grants, and what the allowlist remembers and forgets.

use node_shell.Base.{
  ◌≡◌, refl, ◌⊎◌, ◌↔◌, inl, inr, Bool, true, false, not, ◌&&◌, Option, none, some, [], ◌∷◌, ◌++◌,
  ◌==◌, arith, Bool-cases,
}
use node_shell.Permission.Policy.{
  Policy, ask, allow, deny, Decision, allow_once, allow_session, Request, sensitive,
}
use node_shell.Permission.Service.{
  Service, remembered, current_policy, answer, ask_gate, by_policy, authorize,
}

-- The gate, if there is one, grants the request.
abbrev pub GrantedBy : Request → Option (Request → Option Decision) → Type 0
GrantedBy req none = Unit
GrantedBy req (some gate) = (gate req ≡ some allow_once) ⊎ (gate req ≡ some allow_session)

-- Who may run a sensitive tool: the policy allows it, or it asks, and the user has granted the tool
-- to the session before, or the gate grants it now, or there is no gate, where the code lets it pass.
abbrev pub HasConsent : Request → Service → Type 0
HasConsent req s =
    (current_policy s.policy ≡ allow)
    ⊎ ((current_policy s.policy ≡ ask)
        × (((req.session_id == "") ≡ false) × (remembered req.session_id req.tool s ≡ true)
            ⊎ GrantedBy req s.gate))

answer-GrantedBy :
    (req : Request) (gate : Request → Option Decision) (s : Service)
    → ((answer req (gate req) s).1 ≡ none) ↔ GrantedBy req (some gate)
answer-GrantedBy req gate s = (ground arith, ground arith)

module _ (req : Request) (s : Service) where
  ask_gate-GrantedBy :
      (o : Option (Request → Option Decision)) → ((ask_gate req o s).1 ≡ none) ↔ GrantedBy req o
  ask_gate-GrantedBy none = (λ e. tt, λ u. refl)
  ask_gate-GrantedBy (some gate) =
      answer-GrantedBy req gate (record s { prompts = s.prompts ++ req ∷ [] })

  by_policy-GrantedBy :
      (p : Policy)
      → ((by_policy p req s).1 ≡ none) ↔ (
          (p ≡ allow)
          ⊎ ((p ≡ ask)
              × (((req.session_id == "") ≡ false) × (remembered req.session_id req.tool s ≡ true)
                  ⊎ GrantedBy req s.gate)))
  by_policy-GrantedBy allow = (λ e. inl refl, λ c. refl)
  by_policy-GrantedBy deny = (λ e. cc, λ c. ground arith)
  by_policy-GrantedBy ask =
      elim (Bool-cases (not (req.session_id == "") && remembered req.session_id req.tool s)) [
        | inl known ↦ (λ e. inr (refl, inl (ground arith)), λ c. rw known)
        | inr unknown ↦ (
          λ e. inr (refl, inr ((ask_gate-GrantedBy s.gate).0 (simp unknown at e))),
          λ c. simp unknown (elim c [
            | inl x ↦ absurd (cc x)
            | inr (p, inl q) ↦ absurd (ground arith)
            | inr (p, inr g) ↦ (ask_gate-GrantedBy s.gate).1 g
          ]),
        )
      ]

  -- A call is granted exactly when its tool is not sensitive, or its context is not over and the
  -- policy allows it, or the policy asks and the tool was granted to the session before, or the gate
  -- grants it, or there is no gate to ask.
  pub authorize-HasConsent :
      (done : Bool)
      → ((authorize done req s).1 ≡ none)
        ↔ ((sensitive req.tool ≡ false) ⊎ ((done ≡ false) × HasConsent req s))
  unfolding authorize
  authorize-HasConsent done = elim (Bool-cases (sensitive req.tool)) [
    | inr plain ↦ (λ e. inl plain, λ c. rw plain)
    | inl yes' ↦ elim (Bool-cases done) [
      | inl over ↦ (λ e. ground arith, λ c. ground arith)
      | inr live ↦ (
        λ e. inr (live, (by_policy-GrantedBy (current_policy s.policy)).0 (rw (yes', live) at e)),
        λ c.
            rw (yes', live)
              (elim c [
                | inl x ↦ absurd (cc (x, yes'))
                | inr (l, k) ↦ (by_policy-GrantedBy (current_policy s.policy)).1 k
              ]),
      )
    ]
  ]
