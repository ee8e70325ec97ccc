-- ===== src/Tunnel/Started.antt =====
-- What `Start` and `Dispose` leave, on each of their branches.
use node_shell.Base.{
  ℕ, zero, suc, ◌+◌, ◌<◌, ◌≡◌, refl, sym, ap, ◌∙◌, ◌⊎◌, inl, inr, ℤ, pos, negsuc, String, Bool,
  true, false, not, ◌||◌, Option, none, some, [], ◌∷◌, Dict, lookup, Error, Result, ok, err,
  if◌then◌else◌, if_cases, lookup-insert, eq_refl, arith, is_positive, ltℤ,
}
use node_shell.Tunnel.Service.{
  Tunnel, Service, Network, is_target, find_target, bind, enter, bound, unless_found, ready,
  when_ready, start,
}

module _ (net : Network) (id session addr : String) (port : ℤ) where
  pub record Unchanged (s s' : Service) : Type 0 where
    pub tunnels : s'.tunnels ≡ s.tunnels
    pub closed : s'.closed ≡ s.closed
    pub open_listeners : s'.open_listeners ≡ s.open_listeners

  -- A tunnel to the target that is new, on one listener more.
  pub record Started (s s' : Service) (t : Tunnel) : Type 0 where
    pub found : lookup id s'.tunnels ≡ some t
    pub target : is_target session addr port t ≡ true
    pub only : find_target session addr port s.tunnels ≡ none
    pub local : 0 < t.local_port
    pub open_gate : s.closed ≡ false
    pub open_listeners : s'.open_listeners ≡ s.open_listeners + 1

  abbrev pub Leaves : Service → Service × Result Tunnel → Type 0
  Leaves s (s', err e) = Unchanged s s'
  Leaves s (s', ok t) =
      ((s' ≡ s)
        × (find_target session addr port s.tunnels ≡ some t)
        × (is_target session addr port t ≡ true))
      ⊎ Started s s' t

  unchanged : (s : Service) → Unchanged s s
  unchanged s = record { tunnels = refl; closed = refl; open_listeners = refl }

  found-target :
      (m : Dict Tunnel) (t : Tunnel)
      → find_target session addr port m ≡ some t
      → is_target session addr port t ≡ true
  unfolding find_target
  found-target [] t e = absurd (cc e)
  found-target ((k, x) ∷ m) t e = by_test (is_target session addr port x) refl (found-target m t) e
    where
      by_test :
          (b : Bool)
          → is_target session addr port x ≡ b
          → (find_target session addr port m ≡ some t → is_target session addr port t ≡ true)
          → (if b then some x else find_target session addr port m) ≡ some t
          → is_target session addr port t ≡ true
      by_test true p later q = ap (is_target session addr port) (sym (some_inj q)) ∙ p
        where
          some_inj : some x ≡ some t → x ≡ t
          some_inj r = ground arith
      by_test false p later q = later q

  abbrev target_of : ℕ → Tunnel
  target_of n = record {
    id = id;
    session_id = session;
    local_port = n;
    remote_addr = addr;
    remote_port = port;
  }

  same_target : (n : ℕ) → is_target session addr port (target_of n) ≡ true
  same_target n = ground (arith, eq_refl session, eq_refl addr, irreflexive port)
    where
      irreflexive : (i : ℤ) → ltℤ i i ≡ false
      irreflexive (pos k) = ground arith
      irreflexive (negsuc k) = ground arith

  enter-Leaves :
      (n : ℕ) (s : Service)
      → find_target session addr port s.tunnels ≡ none
      → Leaves s (enter (target_of (suc n)) (record s { open_listeners = s.open_listeners + 1 }))
  unfolding enter
  enter-Leaves n s e =
      if_cases (λ (p : Service × Result Tunnel). Leaves s p) s.closed _ _
        (λ c. record { tunnels = refl; closed = refl; open_listeners = omega arith })
        (λ c. inr (record {
          found = lookup-insert id id (target_of (suc n)) s.tunnels ∙ rw (eq_refl id) refl;
          target = same_target (suc n);
          only = e;
          local = omega arith;
          open_gate = c;
          open_listeners = refl;
        }))

  bound-Leaves :
      (o : Option ℕ) (s : Service)
      → find_target session addr port s.tunnels ≡ none
      → Leaves s (bound net id session addr port o s)
  bound-Leaves none s e = unchanged s
  bound-Leaves (some zero) s e = unchanged s
  bound-Leaves (some (suc n)) s e = enter-Leaves n s e

  found-Leaves :
      (o : Option Tunnel) (s : Service)
      → find_target session addr port s.tunnels ≡ o
      → Leaves s (unless_found net id session addr port o s)
  found-Leaves (some t) s e = inl (refl, e, found-target s.tunnels t e)
  found-Leaves none s e = bound-Leaves (bind net.listen port) s e

  ready-Leaves :
      (o : Option Error) (s : Service) → Leaves s (when_ready net id session addr port o s)
  ready-Leaves (some e) s = unchanged s
  ready-Leaves none s =
      if_cases (λ (p : Service × Result Tunnel). Leaves s p) s.closed _ _ (λ c. unchanged s)
        (λ c. found-Leaves (find_target session addr port s.tunnels) s refl)

  -- A start that reports an error leaves the tunnels and the open listeners as they were; one that
  -- reports a tunnel has one to the target: the one that was there, and then nothing has changed, or,
  -- where there was none and the service is not shut, a new one on one new listener.
  pub start-Leaves : (s : Service) → Leaves s (start net id session addr port s)
  unfolding start
  start-Leaves s =
      if_cases (λ (p : Service × Result Tunnel). Leaves s p)
        (not (is_positive port) || ltℤ (pos 65535) port) _ _ (λ c. unchanged s)
        (λ c.
          if_cases (λ (p : Service × Result Tunnel). Leaves s p) (not net.dialer) _ _
            (λ k. unchanged s) (λ k. ready-Leaves (ready net id session addr port net.can_dial) s))
