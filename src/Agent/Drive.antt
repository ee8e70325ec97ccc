-- ===== src/Agent/Drive.antt =====
-- internal/agent: the goroutine of a run, from the compaction of the transcript to the event that it is
-- done, where no other section comes between its own.
use node_shell.Base.{ℕ, String, Bool, false, not, Option, some, List, [], ◌∷◌, Error, if◌then◌else◌}
use node_shell.Agent.Message.{ChatMessage}
use node_shell.Agent.Budget.{compression_enabled, over_budget}
use node_shell.Agent.Eino.{Reply}
use node_shell.Agent.Compaction.{compress}
use node_shell.Agent.Conversations.{
  Config, Service, Event, error, done_event, system_prompt, write_compacted, append_produced,
  reconcile_run, emit_if_current, release, finish,
}

unfoldable pub emit_all : ℕ → List Event → Service → Service
unfolding emit_if_current
emit_all r [] s = s
emit_all r (event ∷ events) s = emit_all r events (emit_if_current r event s)

-- The transcript that a run begins with, `snapshot` of it.
abbrev pub snapshot : ℕ → Service → List ChatMessage
snapshot r s = (s.heap (s.runs r).conversation).messages

-- The error is reported unless the run was stopped.
abbrev pub report : Option Error → Bool → ℕ → Service → Service
report (some e) false r s = emit_if_current r (error e.message) s
report _ _ r s = s

abbrev pub close : Reply → Bool → ℕ → Service → Service
close reply aborted r s =
    emit_if_current r (done_event (s.runs r).session_id aborted)
      (release r (report reply.failure aborted r s))

module _ (summary_of : List ChatMessage → String) (title : String) (cfg : Config) where
  unfoldable pub prepare_context : ℕ → Service → Service
  unfolding compression_enabled over_budget compress write_compacted system_prompt
  prepare_context r s =
      if not (compression_enabled cfg.context_window cfg.context_compression)
      then s
      else if not (over_budget (system_prompt title) (snapshot r s) cfg.context_window)
      then s
      else write_compacted r
          (compress summary_of (system_prompt title) cfg.context_window (snapshot r s)) s

  unfoldable pub loop : Reply → ℕ → Service → Service
  unfolding prepare_context append_produced emit_all
  loop reply r s = append_produced r reply.produced (emit_all r reply.shown (prepare_context r s))

  -- `run`, whose deferred function comes last.
  unfoldable pub run : Reply → ℕ → Service → Service
  unfolding loop reconcile_run emit_if_current release finish
  run reply r s =
      let t = reconcile_run r (loop reply r s) in finish r (close reply (t.runs r).cancelled r t)
