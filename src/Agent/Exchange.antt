-- ===== src/Agent/Exchange.antt =====
-- A whole run of a prompt, undisturbed: what it leaves of the conversation, and what it tells.
use mathlib.Core.List.{append-nil, append_assoc}
use mathlib.Core.Path.{subst}
use node_shell.Base.{
  ℕ, ◌≡◌, refl, sym, ap, ◌∙◌, String, Bool, true, false, not, Option, none, some, List, [], ◌∷◌,
  ◌++◌, Error, lookup, if◌then◌else◌, if_cases, arith,
}
use node_shell.Agent.Message.{ChatMessage}
use node_shell.Agent.Budget.{compression_enabled, over_budget}
use node_shell.Agent.History.{reconcile, append_all}
use node_shell.Agent.Compaction.{compress}
use node_shell.Agent.Conversations.{
  Config, Service, Conversation, Phase, Event, over, released, reconciled, error, done_event,
  system_prompt, put, is_current, write_messages, write_compacted, append_produced, set_phase,
  reconcile_run, emit_if_current, release, finish, read_done, close_done,
}
use node_shell.Agent.Emission.{emit_cases, close_cases}
use node_shell.Agent.Eino.{Reply}
use node_shell.Agent.Drive.{emit_all, snapshot, prepare_context, loop, report, close, run}
use node_shell.Agent.Settled.{IsTranscript, compress-IsTranscript}
use node_shell.Agent.Replies.{IsReply}
use node_shell.Agent.Replied.{reconcile-append_all}

-- What a run tells at its end: its error, unless it was stopped, and that it is done.
abbrev pub failures : Option Error → Bool → List Event
failures (some e) false = error e.message ∷ []
failures _ _ = []

abbrev pub told : Option Error → Bool → String → List Event
told failure aborted session = failures failure aborted ++ done_event session aborted ∷ []

module _ (session : String) (p r : ℕ) (aborted : Bool) where
  -- The run drives the conversation that its session has, and so much has been told.
  pub record Drives (events : List Event) (s : Service) : Type 0 where
    pub open' : s.closed ≡ false
    pub has : lookup session s.convs ≡ some p
    pub of_session : (s.runs r).session_id ≡ session
    pub drives : (s.runs r).conversation ≡ p
    pub stops : (s.runs r).cancelled ≡ aborted
    pub events_so_far : s.events ≡ events

  abbrev transcript : Service → List ChatMessage
  transcript s = (s.heap p).messages

  current : {es : List Event} (s : Service) → Drives es s → is_current r s ≡ true
  unfolding is_current
  current s d = ground (arith, d.has, d.of_session, d.drives)

  write_messages-Drives :
      {es : List Event} (q : ℕ) (msgs : List ChatMessage) (s : Service)
      → Drives es s
      → Drives es (write_messages q msgs s)
  write_messages-Drives q msgs s d = record {
    open' = d.open';
    has = d.has;
    of_session = d.of_session;
    drives = d.drives;
    stops = d.stops;
    events_so_far = d.events_so_far;
  }

  written_messages :
      {es : List Event} (msgs : List ChatMessage) (s : Service)
      → Drives es s
      → ((write_messages (s.runs r).conversation msgs s).heap p).messages ≡ msgs
  written_messages msgs s d = ground (arith, d.drives)

  -- The conversation and the run, behind the compaction.
  abbrev pub Ready : List Event → Service → Type 0
  Ready es s = Drives es s × IsTranscript (s.heap p).messages

  write_compacted-Ready :
      {es : List Event} (msgs : List ChatMessage) (s : Service)
      → Ready es s
      → IsTranscript msgs
      → Ready es (write_compacted r msgs s)
  unfolding write_compacted
  write_compacted-Ready [] s h t = h
  write_compacted-Ready (m ∷ ms) s h t = rw (current s h.0) (
    write_messages-Drives (s.runs r).conversation (m ∷ ms) s h.0,
    subst IsTranscript (sym (written_messages (m ∷ ms) s h.0)) t,
  )

  module _ (summary_of : List ChatMessage → String) (title : String) (cfg : Config) where
    prepare_context-Ready :
        {es : List Event} (s : Service)
        → Ready es s
        → Ready es (prepare_context summary_of title cfg r s)
    unfolding prepare_context
    prepare_context-Ready {es} s h =
        if_cases (Ready es) (not (compression_enabled cfg.context_window cfg.context_compression)) s
          rest (λ e. h)
          (λ e.
            if_cases (Ready es)
              (not (over_budget (system_prompt title) (snapshot r s) cfg.context_window)) s
              (write_compacted r compressed s) (λ f. h)
              (λ f. write_compacted-Ready compressed s h (
                compress-IsTranscript summary_of (system_prompt title) cfg.context_window
                  (snapshot r s)
                  (subst (λ q. IsTranscript (s.heap q).messages) (sym h.0.drives) h.1))))
      where
        compressed : List ChatMessage
        compressed = compress summary_of (system_prompt title) cfg.context_window (snapshot r s)

        rest : Service
        rest =
            if not (over_budget (system_prompt title) (snapshot r s) cfg.context_window)
            then s
            else write_compacted r compressed s

  set_phase-Drives :
      {es : List Event} (phase : Phase) (s : Service)
      → Drives es s
      → Drives es (set_phase r phase s)
  set_phase-Drives phase s d = record {
    open' = d.open';
    has = d.has;
    of_session = ground (arith, d.of_session);
    drives = ground (arith, d.drives);
    stops = ground (arith, d.stops);
    events_so_far = d.events_so_far;
  }

  -- What the agent produced is in the transcript, and the transcript is reconciled.
  reconcile_run-Ready :
      {es : List Event} (produced : List ChatMessage) (s : Service)
      → Ready es s
      → IsReply produced
      → Ready es (reconcile_run r (append_produced r produced s))
  unfolding reconcile_run append_produced
  reconcile_run-Ready {es} produced s (d, t) reply = (
    set_phase-Drives reconciled _ (write_messages-Drives _ _ appended d'),
    subst IsTranscript (sym messages) (reconcile-append_all (s.heap p).messages produced t reply),
  )
    where
      appended : Service
      appended =
          write_messages (s.runs r).conversation
            (append_all (s.heap (s.runs r).conversation).messages produced) s

      d' : Drives es appended
      d' = write_messages-Drives _ _ s d

      messages :
          transcript (
            write_messages
              (appended.runs r).conversation
              (reconcile (appended.heap (appended.runs r).conversation).messages)
              appended)
          ≡ reconcile (append_all (s.heap p).messages produced)
      messages =
          written_messages _ appended d'
          ∙ ap (λ q. reconcile (appended.heap q).messages) d.drives
          ∙ ap reconcile (written_messages _ s d)
          ∙ ap (λ q. reconcile (append_all (s.heap q).messages produced)) d.drives

  emit-Drives :
      {es : List Event} (event : Event) (s : Service)
      → Drives es s
      → Drives (es ++ event ∷ []) (emit_if_current r event s)
        × ((emit_if_current r event s).heap ≡ s.heap)
  emit-Drives {es} event s d =
      emit_cases (λ (t : Service). Drives (es ++ event ∷ []) t × (t.heap ≡ s.heap)) r event s
        (λ e. (
          record {
            open' = d.open';
            has = d.has;
            of_session = d.of_session;
            drives = d.drives;
            stops = d.stops;
            events_so_far = ap (λ l. l ++ event ∷ []) d.events_so_far;
          },
          refl,
        ))
        (λ e. absurd (ground (arith, e, current s d, d.open')))

  emit-Ready :
      {es : List Event} (event : Event) (s : Service)
      → Ready es s
      → Ready (es ++ event ∷ []) (emit_if_current r event s)
  emit-Ready event s (d, t) =
      let (d', h) = emit-Drives event s d in
      (d', subst (λ (heap : ℕ → Conversation). IsTranscript (heap p).messages) (sym h) t)

  emit_all-Ready :
      {es : List Event} (events : List Event) (s : Service)
      → Ready es s
      → Ready (es ++ events) (emit_all r events s)
  unfolding emit_all
  emit_all-Ready [] s h = rw append-nil h
  emit_all-Ready {es} (event ∷ events) s h =
      subst (λ l. Ready l (emit_all r (event ∷ events) s)) (append_assoc es (event ∷ []) events)
        (emit_all-Ready events (emit_if_current r event s) (emit-Ready event s h))

  -- The run gives the conversation back.
  release-Drives :
      {es : List Event} (s : Service)
      → Drives es s
      → Drives es (release r s)
        × (((release r s).heap p).messages ≡ (s.heap p).messages)
        × (((release r s).heap p).running ≡ false)
  unfolding release
  release-Drives {es} s d =
      if_cases
        (λ (t : Service).
          let u = set_phase r released t in
          Drives es u × (transcript u ≡ transcript s) × ((u.heap p).running ≡ false))
        (is_current r s) given s
        (λ e. (
          set_phase-Drives released given given-Drives,
          ground (arith, d.drives),
          ground (arith, d.drives),
        ))
        (λ e. absurd (ground (arith, e, current s d)))
    where
      given : Service
      given = record s {
        heap =
            put (s.runs r).conversation
              (record (s.heap (s.runs r).conversation) { running = false; cancel = none }) s.heap;
      }

      given-Drives : Drives es given
      given-Drives = record {
        open' = d.open';
        has = d.has;
        of_session = d.of_session;
        drives = d.drives;
        stops = d.stops;
        events_so_far = d.events_so_far;
      }

  -- What a run of an undisturbed conversation ends with.
  pub record Completed (events : List Event) (s : Service) : Type 0 where
    pub still_has : lookup session s.convs ≡ some p
    pub still_open : s.closed ≡ false
    pub kept : IsTranscript (s.heap p).messages
    pub idle : (s.heap p).running ≡ false
    pub tells : s.events ≡ events
    pub ends : (s.runs r).phase ≡ over

  report-Drives :
      {es : List Event} (failure : Option Error) (s : Service)
      → Drives es s
      → Drives (es ++ failures failure aborted) (report failure aborted r s)
        × ((report failure aborted r s).heap ≡ s.heap)
  report-Drives {es} failure s d = by failure aborted
    where
      same : Drives (es ++ []) s × (s.heap ≡ s.heap)
      same = (rw append-nil d, refl)

      by :
          (f : Option Error) (b : Bool)
          → Drives (es ++ failures f b) (report f b r s) × ((report f b r s).heap ≡ s.heap)
      by none true = same
      by none false = same
      by (some e) true = same
      by (some e) false = emit-Drives (error e.message) s d

  finish-Completed :
      {es : List Event} (s : Service)
      → Ready es s
      → (s.heap p).running ≡ false
      → Completed es (finish r s)
  unfolding finish read_done close_done
  finish-Completed {es} s (d, t) i =
      close_cases (Completed es) r ((read_done r s).to_close r) (read_done r s)
        record {
          still_has = d.has;
          still_open = d.open';
          kept = t;
          idle = i;
          tells = d.events_so_far;
          ends = ground arith;
        }
        (λ k. record {
          still_has = d.has;
          still_open = d.open';
          kept = t;
          idle = i;
          tells = d.events_so_far;
          ends = ground arith;
        })
        (λ k. record {
          still_has = d.has;
          still_open = d.open';
          kept = t;
          idle = i;
          tells = d.events_so_far;
          ends = ground arith;
        })

  close-Completed :
      {es : List Event} (reply : Reply) (s : Service)
      → Ready es s
      → Completed (es ++ told reply.failure aborted session) (finish r (close reply aborted r s))
  close-Completed {es} reply s (d, t) =
      let (d1, h1) = report-Drives reply.failure s d in
      let s1 = report reply.failure aborted r s in
      let (d2, m2, i2) = release-Drives s1 d1 in
      let (d3, h3) = emit-Drives (done_event session aborted) (release r s1) d2 in
      let s3 = emit_if_current r (done_event session aborted) (release r s1) in
      let m : transcript s3 ≡ transcript s =
        ap (λ h. (h p).messages) h3 ∙ m2 ∙ ap (λ h. (h p).messages) h1 in
      let i : (s3.heap p).running ≡ false = ap (λ h. (h p).running) h3 ∙ i2 in
      let tells =
        append_assoc es (failures reply.failure aborted) (done_event session aborted ∷ []) in
      subst
        (λ x.
          Completed (es ++ told reply.failure aborted session)
            (finish r (emit_if_current r (done_event x aborted) (release r s1))))
        (sym d.of_session)
        (subst (λ l. Completed l (finish r s3)) tells
          (finish-Completed s3 (d3, subst IsTranscript (sym m) t) i))

  module _ (summary_of : List ChatMessage → String) (title : String) (cfg : Config) where
    -- A run that is not disturbed.
    pub run-Completed :
        {es : List Event} (reply : Reply) (s : Service)
        → Ready es s
        → IsReply reply.produced
        → Completed
            ((es ++ reply.shown) ++ told reply.failure aborted session)
            (run summary_of title cfg reply r s)
    unfolding run loop
    run-Completed {es} reply s h reply' =
        let u = emit_all r reply.shown (prepare_context summary_of title cfg r s) in
        let shown =
          emit_all-Ready reply.shown (prepare_context summary_of title cfg r s)
            (prepare_context-Ready summary_of title cfg s h) in
        let ready = reconcile_run-Ready reply.produced u shown reply' in
        let t = reconcile_run r (append_produced r reply.produced u) in
        subst
          (λ b.
            Completed ((es ++ reply.shown) ++ told reply.failure aborted session)
              (finish r (close reply b r t)))
          (sym ready.0.stops) (close-Completed reply t ready)
