-- ===== src/Agent/Emission.antt =====
-- internal/agent/agent.go: what `emitIfCurrent` and the deferred function of `run` leave, where nothing
-- comes between their sections.
use node_shell.Base.{
  ℕ, ◌≡◌, refl, sym, Bool, true, false, not, ◌&&◌, Option, none, some, [], ◌∷◌, ◌++◌, arith,
  if◌then◌else◌, Bool-cases, inl, inr,
}
use mathlib.Core.Path.{subst}
use node_shell.Agent.Conversations.{
  Service, Event, put, is_current, check_current, send, send_checked, emit_if_current, close_read,
}

abbrev with_check : ℕ → Option Event → Service → Service
with_check r o s = record s { checked = put r o s.checked }

abbrev pub sent : ℕ → Event → Service → Service
sent r event s =
    let t = with_check r (some event) s in
    record t { events = s.events ++ event ∷ []; checked = put r none t.checked }

own_check : (r : ℕ) (o : Option Event) (s : Service) → (with_check r o s).checked r ≡ o
own_check r o s = ground arith

-- A property of the service behind an emission, by whether the check passes.
pub emit_cases :
    (P : Service → Type 0) (r : ℕ) (event : Event) (s : Service)
    → ((not s.closed && is_current r s) ≡ true → P (sent r event s))
    → ((not s.closed && is_current r s) ≡ false → P (with_check r none s))
    → P (emit_if_current r event s)
unfolding emit_if_current send_checked check_current
emit_cases P r event s passes fails = by (not s.closed && is_current r s) refl
  where
    behind :
        (o : Option Event) → P (send r o (with_check r o s)) → P (send_checked r (with_check r o s))
    behind o h = subst (λ q. P (send r q (with_check r o s))) (sym (own_check r o s)) h

    by :
        (b : Bool)
        → (not s.closed && is_current r s) ≡ b
        → P (send_checked r (with_check r (if b then some event else none) s))
    by true e = behind (some event) (passes e)
    by false e = behind none (fails e)

-- A property of the service behind a close, by what is closed.
pub close_cases :
    (P : Service → Type 0) (r : ℕ) (o : Option ℕ) (s : Service)
    → P s
    → ((k : ℕ) → P (record s { to_close = put r none s.to_close; panicked = true }))
    → ((k : ℕ)
        → P (record s {
          to_close = put r none s.to_close;
          closed_channels = put k true s.closed_channels;
        }))
    → P (close_read r o s)
close_cases P r none s h twice once = h
close_cases P r (some k) s h twice once = elim (Bool-cases (s.closed_channels k)) [
  | inl x ↦ rw x (twice k)
  | inr x ↦ rw x (once k)
]
