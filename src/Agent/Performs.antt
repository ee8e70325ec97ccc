-- ===== src/Agent/Performs.antt =====
-- The goroutine of a run as a sequence of its sections.
use node_shell.Base.{
  ℕ, ◌<◌, ◌≡◌, ◌≢◌, sym, ◌∙◌, String, Bool, true, false, not, Option, none, some, List, [], ◌∷◌,
  Error, if◌then◌else◌, if_cases, arith,
}
use node_shell.Agent.Message.{ChatMessage}
use node_shell.Agent.Budget.{compression_enabled, over_budget}
use node_shell.Agent.Compaction.{compress}
use node_shell.Agent.Conversations.{
  Config, Service, Phase, Event, driving, reconciled, released, over, error, done_event,
  system_prompt, put, write_messages, write_compacted, append_produced, set_phase, reconcile_run,
  emit_if_current, check_current, is_current, release, finish, read_done,
}
use node_shell.Agent.Runs.{
  Reach, here, next, compacts, appends, reconciles, checks, sends, releases, finishes, closes,
}
use node_shell.Agent.Emission.{emit_cases}
use node_shell.Agent.Eino.{Reply}
use node_shell.Agent.Drive.{emit_all, snapshot, report, close, prepare_context, loop, run}

module _ (r : ℕ) where
  -- The run is there, and stands in the phase.
  abbrev Stands : Phase → Service → Type 0
  Stands phase s = (r < s.next_run) × ((s.runs r).phase ≡ phase)

  -- A service that was reached, with the run in a phase.
  abbrev At : Service → Phase → Service → Type 0
  At s phase t = Reach s t × Stands phase t

  write_compacted-Stands :
      (phase : Phase) (msgs : List ChatMessage) (s : Service)
      → Stands phase s
      → Stands phase (write_compacted r msgs s)
  unfolding write_compacted
  write_compacted-Stands phase [] s h = h
  write_compacted-Stands phase (m ∷ ms) s h =
      if_cases (Stands phase) (is_current r s) (write_messages (s.runs r).conversation (m ∷ ms) s) s
        (λ e. h) (λ e. h)

  emit-At :
      (s t : Service) (phase : Phase) (event : Event)
      → phase ≢ over
      → At s phase t
      → At s phase (emit_if_current r event t)
  unfolding emit_if_current check_current
  emit-At s t phase event n (reached, (l, e)) = (
    next (next reached (checks r event l running)) (sends r l running),
    emit_cases (Stands phase) r event t (λ x. (l, e)) (λ x. (l, e)),
  )
    where
      running : (t.runs r).phase ≢ over
      running o = n (sym e ∙ o)

  report-At :
      (failure : Option Error) (aborted : Bool) (s t : Service)
      → At s reconciled t
      → At s reconciled (report failure aborted r t)
  report-At none true s t a = a
  report-At none false s t a = a
  report-At (some e) true s t a = a
  report-At (some e) false s t a =
      emit-At s t reconciled (error e.message) (λ x. absurd (ground (arith, x))) a

  release-At : (s t : Service) → At s reconciled t → At s released (release r t)
  release-At s t (reached, (l, e)) = (
    next reached (releases r l e),
    unfold release in
        if_cases (λ (u : Service). Stands released (set_phase r released u)) (is_current r t)
          (record t {
            heap =
                put (t.runs r).conversation
                  (record (t.heap (t.runs r).conversation) { running = false; cancel = none })
                  t.heap;
          })
          t (λ x. (l, ground arith)) (λ x. (l, ground arith)),
  )

  finished-Reach : (s t : Service) → At s released t → Reach s (finish r t)
  unfolding finish read_done
  finished-Reach s t (reached, (l, e)) =
      next (next reached (finishes r l e)) (closes r l (ground arith))

  close-At :
      (reply : Reply) (aborted : Bool) (s t : Service)
      → At s reconciled t
      → At s released (close reply aborted r t)
  close-At reply aborted s t a =
      let reported = report-At reply.failure aborted s t a in
      let gave_back = release-At s (report reply.failure aborted r t) reported in
      emit-At s (release r (report reply.failure aborted r t)) released
        (done_event (t.runs r).session_id aborted) (λ x. absurd (ground (arith, x))) gave_back

  module _ (summary_of : List ChatMessage → String) (title : String) (cfg : Config) where
    prepare_context-At :
        (s : Service) → Stands driving s → At s driving (prepare_context summary_of title cfg r s)
    prepare_context-At s h =
        unfold prepare_context in
        if_cases (At s driving)
          (not (compression_enabled cfg.context_window cfg.context_compression)) s rest
          (λ e. (here, h))
          (λ e.
            if_cases (At s driving)
              (not (over_budget (system_prompt title) (snapshot r s) cfg.context_window)) s
              (write_compacted r compressed s) (λ f. (here, h))
              (λ f. (
                next here (compacts r compressed h.0 h.1),
                write_compacted-Stands driving compressed s h,
              )))
      where
        compressed : List ChatMessage
        compressed = compress summary_of (system_prompt title) cfg.context_window (snapshot r s)

        rest : Service
        rest =
            if not (over_budget (system_prompt title) (snapshot r s) cfg.context_window)
            then s
            else write_compacted r compressed s

    emit_all-At :
        (events : List Event) (s t : Service) → At s driving t → At s driving (emit_all r events t)
    unfolding emit_all
    emit_all-At [] s t a = a
    emit_all-At (event ∷ events) s t a =
        emit_all-At events s (emit_if_current r event t)
          (emit-At s t driving event (λ x. absurd (ground (arith, x))) a)

    appended-At :
        (produced : List ChatMessage) (s t : Service)
        → At s driving t
        → At s driving (append_produced r produced t)
    appended-At produced s t (reached, (l, e)) =
        (next reached (appends r produced l e), unfold append_produced in (l, e))

    reconciled-At : (s t : Service) → At s driving t → At s reconciled (reconcile_run r t)
    reconciled-At s t (reached, (l, e)) =
        (next reached (reconciles r l e), unfold reconcile_run in (l, ground arith))

    -- Where a run drives its conversation, its goroutine, through compaction, reply,
    -- reconciliation and end, is a sequence of the sections, and so one of the orders that the
    -- theorems on all orders are about.
    pub run-Reach :
        (reply : Reply) (s : Service)
        → r < s.next_run
        → (s.runs r).phase ≡ driving
        → Reach s (run summary_of title cfg reply r s)
    run-Reach reply s l e =
        let prepared = prepare_context-At s (l, e) in
        let shown = emit_all-At reply.shown s (prepare_context summary_of title cfg r s) prepared in
        let u = emit_all r reply.shown (prepare_context summary_of title cfg r s) in
        let v = append_produced r reply.produced u in
        let t = reconcile_run r v in
        let at_end =
          close-At reply (t.runs r).cancelled s t
            (reconciled-At s v (appended-At reply.produced s u shown)) in
        unfold run loop in finished-Reach s _ at_end
