-- ===== src/Agent/Isolation.antt =====
-- internal/agent/agent.go: what `Clear` and `Prompt` do to the runs of a session, and what a run whose
-- conversation its session no longer has can still change.
use node_shell.Base.{
  ℕ, suc, ◌<◌, ◌≡◌, refl, sym, ap, ◌∙◌, String, true, false, Option, none, some, List, [], ◌∷◌,
  ◌++◌, lookup, insert, lookup-insert, eqb, Error, arith, eq_iff, if_cases, inl, inr, ◌⊎◌,
  Bool-cases,
}
use node_shell.Agent.Message.{ChatMessage, user, message}
use node_shell.Agent.Conversations.{
  released, empty_conversation, Event, Service, clear, clear_found, accept, start, open_from,
  started, cancel_run, same, is_current, write_compacted, append_produced, set_phase, reconcile_run,
  write_messages, check_current, send, send_checked, release, read_done, close_done,
}
use node_shell.Agent.Emission.{close_cases}
use node_shell.Agent.History.{trim_history}
use node_shell.Agent.Runs.{Inv}
use node_shell.Agent.Runs.Started.{opened, run_of}
use node_shell.Agent.Runs.Tame.{cancel_run-Tame}

-- The sections of a run's goroutine.
pub data Work : Type 0 where
  compacting producing : List ChatMessage → Work
  reconciling releasing reading closing sending : Work
  checking : Event → Work

abbrev pub work : Work → ℕ → Service → Service
work (compacting msgs) r s = write_compacted r msgs s
work (producing msgs) r s = append_produced r msgs s
work reconciling r s = reconcile_run r s
work (checking event) r s = check_current r event s
work sending r s = send_checked r s
work releasing r s = release r s
work reading r s = read_done r s
work closing r s = close_done r s

-- What a section of a stale run leaves: it emits nothing, or the event that had passed its check; no
-- further event passes; it changes no conversation of a session; and the run stays stale.
pub record Untouched (r : ℕ) (s t : Service) : Type 0 where
  pub events :
      (t.events ≡ s.events)
      ⊎ ((event : Event) × (s.checked r ≡ some event) × (t.events ≡ s.events ++ event ∷ []))
  pub checks : (t.checked r ≡ none) ⊎ (t.checked r ≡ s.checked r)
  pub convs : t.convs ≡ s.convs
  pub conversations : (x : String) (p : ℕ) → lookup x s.convs ≡ some p → t.heap p ≡ s.heap p
  pub stale : is_current r t ≡ false

elsewhere :
    (r : ℕ) (s : Service)
    → Inv s
    → r < s.next_run
    → is_current r s ≡ false
    → (x : String) (p : ℕ) → lookup x s.convs ≡ some p
    → eqb (s.runs r).conversation p ≡ false
unfolding is_current
elsewhere r s h l c x p e = elim (Bool-cases (eqb (s.runs r).conversation p)) [
  | inl y ↦
      let q : p ≡ (s.runs r).conversation = ground arith in
      let o : (s.runs r).session_id ≡ x = h.own_session r x l (e ∙ ap some q) in
      let f : lookup (s.runs r).session_id s.convs ≡ some p = ap (λ i. lookup i s.convs) o ∙ e in
      absurd (ground arith)
  | inr y ↦ y
]

-- A section that emits nothing, lets no event pass and leaves the heap.
same-Untouched :
    (r : ℕ) (s t : Service)
    → is_current r t ≡ false
    → (t.events ≡ s.events) × (t.convs ≡ s.convs) × (t.heap ≡ s.heap)
    → (t.checked r ≡ none) ⊎ (t.checked r ≡ s.checked r)
    → Untouched r s t
same-Untouched r s t c (e, v, h) k = record {
  events = inl e;
  checks = k;
  convs = v;
  conversations = λ x p f. ap (λ heap. heap p) h;
  stale = c;
}

module _ (r : ℕ) (s : Service) (h : Inv s) (l : r < s.next_run) (c : is_current r s ≡ false) where
  unchanged : Untouched r s s
  unchanged = same-Untouched r s s c (refl, refl, refl) (inr refl)

  written :
      (msgs : List ChatMessage) → Untouched r s (write_messages (s.runs r).conversation msgs s)
  unfolding is_current
  written msgs = record {
    events = inl refl;
    checks = inr refl;
    convs = refl;
    conversations = λ x p e. rw (elsewhere r s h l c x p e) refl;
    stale = c;
  }

  sent-Untouched : (o : Option Event) → s.checked r ≡ o → Untouched r s (send r o s)
  unfolding is_current
  sent-Untouched none e = unchanged
  sent-Untouched (some event) e = record {
    events = inr (event, e, refl);
    checks = inl (ground arith);
    convs = refl;
    conversations = λ x p f. refl;
    stale = c;
  }

  -- A section of a run whose session was cleared or disposed changes no conversation of any session,
  -- and emits nothing but the event, if there is one, whose check had passed before; no further event
  -- passes its check, and the run stays without its session.
  pub work-Untouched : (w : Work) → Untouched r s (work w r s)
  unfolding is_current write_compacted append_produced reconcile_run check_current send_checked
      release read_done close_done
  work-Untouched (compacting []) = unchanged
  work-Untouched (compacting (m ∷ ms)) =
      if_cases (Untouched r s) (is_current r s) _ _ (λ x. absurd (ground arith)) (λ x. unchanged)
  work-Untouched (producing msgs) = written _
  work-Untouched reconciling = record {
    events = inl refl;
    checks = inr refl;
    convs = refl;
    conversations = λ x p e. rw (elsewhere r s h l c x p e) refl;
    stale = ground (arith, c);
  }
  work-Untouched (checking event) = record {
    events = inl refl;
    checks = inl (ground (arith, c));
    convs = refl;
    conversations = λ x p e. refl;
    stale = c;
  }
  work-Untouched sending = sent-Untouched (s.checked r) refl
  work-Untouched releasing =
      if_cases (λ (t : Service). Untouched r s (set_phase r released t)) (is_current r s) _ _
        (λ x. absurd (ground arith))
        (λ x. same-Untouched r s _ (ground (arith, c)) (refl, refl, refl) (inr refl))
  work-Untouched reading = same-Untouched r s _ (ground (arith, c)) (refl, refl, refl) (inr refl)
  work-Untouched closing =
      close_cases (Untouched r s) r (s.to_close r) s unchanged
        (λ k. same-Untouched r s _ c (refl, refl, refl) (inr refl))
        (λ k. same-Untouched r s _ c (refl, refl, refl) (inr refl))

cancelled-current :
    (o : Option ℕ) (t : Service) (r : ℕ) → is_current r (cancel_run o t) ≡ is_current r t
unfolding is_current
cancelled-current none t r = refl
cancelled-current (some q) t r =
    let tame = cancel_run-Tame (some q) t in
    λ i. same (tame.conversation_of r i) (lookup (tame.session_of r i) t.convs)

-- Behind a clear, no run of the session is current any more, and where the session had a conversation,
-- it has an empty one.
pub clear-detaches :
    (session : String) (s : Service)
    → Inv s
    → ((r : ℕ)
        → r < s.next_run
        → (s.runs r).session_id ≡ session
        → is_current r (clear session s) ≡ false)
      × ((lookup session s.convs ≡ none)
          ⊎ ((p : ℕ) × (lookup session (clear session s).convs ≡ some p)
              × ((clear session s).heap p ≡ empty_conversation)))
unfolding clear is_current
clear-detaches session s h = by (lookup session s.convs) refl
  where
    fresh : lookup session (insert session s.next_conv s.convs) ≡ some s.next_conv
    fresh =
        ground (arith, lookup-insert session session s.next_conv s.convs, eq_iff session session)

    stale :
        (o : Option ℕ) (r : ℕ)
        → r < s.next_run
        → (s.runs r).session_id ≡ session
        → is_current r (cancel_run o (opened session s)) ≡ false
    stale o r l e =
        cancelled-current o (opened session s) r
        ∙ ap (λ i. same (s.runs r).conversation (lookup i (insert session s.next_conv s.convs))) e
        ∙ ap (same (s.runs r).conversation) fresh
        ∙ ground (arith, h.known r l)

    emptied :
        (o : Option ℕ) → (cancel_run o (opened session s)).heap s.next_conv ≡ empty_conversation
    emptied none = ground arith
    emptied (some q) = ground arith

    found :
        (o : Option ℕ) → lookup session (cancel_run o (opened session s)).convs ≡ some s.next_conv
    found none = fresh
    found (some q) = fresh

    by :
        (o : Option ℕ)
        → lookup session s.convs ≡ o
        → ((r : ℕ)
            → r < s.next_run
            → (s.runs r).session_id ≡ session
            → is_current r (clear_found session o s) ≡ false)
          × ((o ≡ none)
              ⊎ ((p : ℕ) × (lookup session (clear_found session o s).convs ≡ some p)
                  × ((clear_found session o s).heap p ≡ empty_conversation)))
    by none e = (
      λ r l i.
          ap (λ x. same (s.runs r).conversation (lookup x s.convs)) i
          ∙ ap (same (s.runs r).conversation) e,
      inl refl,
    )
    by (some p) e = let o = (s.heap p).cancel in (stale o, inr (s.next_conv, found o, emptied o))

-- How the locked section of a prompt ends: with a new run, which drives the session's conversation, or
-- with an error and no change.
pub data Accepted (session prompt : String) (s : Service) : Service × Option Error → Type 0 where
  starts :
      (t : Service) (p : ℕ)
      → lookup session t.convs ≡ some p
      → (t.heap p).running ≡ true
      → ((q : ℕ)
          → lookup session s.convs ≡ some q
          → (p ≡ q)
            × ((s.heap q).running ≡ false)
            × ((t.heap p).messages
                ≡ trim_history ((s.heap q).messages ++ message user prompt ∷ [])))
      → (lookup session s.convs ≡ none
          → (t.heap p).messages ≡ trim_history (message user prompt ∷ []))
      → t.runs s.next_run ≡ run_of session p
      → t.next_run ≡ suc s.next_run
      → Accepted session prompt s (t, none)
  rejects :
      (e : Error)
      → (s.closed ≡ true)
        ⊎ ((q : ℕ) × (lookup session s.convs ≡ some q) × ((s.heap q).running ≡ true))
      → Accepted session prompt s (s, some e)

-- A prompt that is accepted starts a run that is current, drives the session's conversation, and has
-- the prompt in its transcript, behind what the session's conversation held; one is rejected
-- only where the service is closed or the session's conversation is running, and changes nothing.
pub accept-Accepted :
    (session prompt : String) (s : Service) → Accepted session prompt s (accept session prompt s)
unfolding accept
accept-Accepted session prompt s =
    if_cases (Accepted session prompt s) s.closed _ _ (λ x. rejects _ (inl x))
      (λ x. by (lookup session s.convs) refl)
  where
    by :
        (o : Option ℕ)
        → lookup session s.convs ≡ o
        → Accepted session prompt s (start session prompt (open_from session o s))
    by (some q) e =
        if_cases (Accepted session prompt s) (s.heap q).running _ _ (λ y. rejects _ (inr (q, e, y)))
          (λ y.
            starts (started session prompt q s) q e (ground arith)
              (λ q' f. (let z : q ≡ q' = ground arith in rw (sym z) (refl, y, ground arith)))
              (λ f. cc) (ground arith) refl)
    by none e =
        let t = opened session s in
        let fresh : lookup session t.convs ≡ some s.next_conv =
          ground
            (arith, lookup-insert session session s.next_conv s.convs, eq_iff session session) in
        if_cases (Accepted session prompt s) (t.heap s.next_conv).running _ _
          (λ y. absurd (ground arith))
          (λ y.
            starts (started session prompt s.next_conv t) s.next_conv fresh (ground arith)
              (λ q' f. cc) (λ f. ground arith) (ground arith) refl)
