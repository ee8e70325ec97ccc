-- ===== src/Agent/Exchanges.antt =====
-- A prompt and its run: what the session's conversation is behind them.
use mathlib.Core.Path.{subst}
use node_shell.Base.{
  ℕ, ◌≡◌, refl, sym, ap, ◌∙◌, String, false, Option, none, some, List, [], ◌∷◌, ◌++◌, Error, lookup,
  lookup-insert, eq_iff, if_cases, arith,
}
use node_shell.Agent.Message.{ChatMessage, user, message}
use node_shell.Agent.History.{trim_history}
use node_shell.Agent.Accepted.{accepted_after}
use node_shell.Agent.Answered.{answered}
use node_shell.Agent.Conversations.{
  Config, Service, Event, Conversation, empty_conversation, open_from, started, start, accept,
}
use node_shell.Agent.Runs.Started.{opened}
use node_shell.Agent.Eino.{Reply}
use node_shell.Agent.Drive.{run}
use node_shell.Agent.Settled.{IsTranscript, trim_history-IsTranscript}
use node_shell.Agent.Replies.{IsReply}
use node_shell.Agent.Replied.{IsTranscript-append}
use node_shell.Agent.Exchange.{Ready, Completed, told, run-Completed}

-- The service is open, and the session's conversation, if it has one, waits for a prompt.
pub record Idle (session : String) (s : Service) : Type 0 where
  pub open' : s.closed ≡ false
  pub waits :
      (p : ℕ)
      → lookup session s.convs ≡ some p
      → ((s.heap p).running ≡ false) × IsTranscript (s.heap p).messages

-- A prompt is taken and its run ends, with the reply told.
pub record Exchanged (session : String) (reply : Reply) (s : Service) (error : Option Error)
    (t : Service) : Type 0 where
  pub taken : error ≡ none
  pub again : Idle session t
  pub tells : t.events ≡ (s.events ++ reply.shown) ++ told reply.failure false session

prompt-IsTranscript : (text : String) → IsTranscript (message user text ∷ [])
prompt-IsTranscript text = record {
  accept = unfold accepted_after in refl;
  answer = unfold answered in refl;
}

no_messages : IsTranscript []
no_messages = record { accept = unfold accepted_after in refl; answer = unfold answered in refl }

module _ (session prompt : String) where
  started-Ready :
      (p : ℕ) (s : Service)
      → s.closed ≡ false
      → lookup session s.convs ≡ some p
      → IsTranscript (s.heap p).messages
      → Ready session p s.next_run false s.events (started session prompt p s)
  started-Ready p s o e t = (
    record {
      open' = o;
      has = e;
      of_session = ground arith;
      drives = ground arith;
      stops = ground arith;
      events_so_far = refl;
    },
    subst IsTranscript (sym messages) (
        trim_history-IsTranscript ((s.heap p).messages ++ message user prompt ∷ []) (
          IsTranscript-append (s.heap p).messages (message user prompt ∷ []) t
            (prompt-IsTranscript prompt))),
  )
    where
      messages :
          ((started session prompt p s).heap p).messages
          ≡ trim_history ((s.heap p).messages ++ message user prompt ∷ [])
      messages = ground arith

  Completed-Idle :
      (p r : ℕ) (es : List Event) (t : Service) → Completed session p r false es t → Idle session t
  Completed-Idle p r es t c = record {
    open' = c.still_open;
    waits = λ q e.
        let same : p ≡ q = ground (arith, c.still_has, e) in
        subst (λ x. ((t.heap x).running ≡ false) × IsTranscript (t.heap x).messages) same
          (c.idle, c.kept);
  }

  module _ (summary_of : List ChatMessage → String) (title : String) (cfg : Config) (reply : Reply)
      (is_reply : IsReply reply.produced) where
    abbrev drive : ℕ → Service × Option Error → Service
    drive r o = run summary_of title cfg reply r o.0

    abbrev Ended : Service → Service × Option Error → Type 0
    Ended s o = Exchanged session reply s o.1 (drive s.next_run o)

    started-Ended :
        (p : ℕ) (s u : Service)
        → s.closed ≡ false
        → lookup session u.convs ≡ some p
        → IsTranscript (u.heap p).messages
        → u.closed ≡ s.closed
        → u.events ≡ s.events
        → u.next_run ≡ s.next_run
        → Ended s (started session prompt p u, none)
    started-Ended p s u o e t c v n =
        let ready = started-Ready p u (c ∙ o) e t in
        let done =
          run-Completed session p u.next_run false summary_of title cfg reply
            (started session prompt p u) ready is_reply in
        subst
          (λ r.
            Exchanged session reply s none
              (run summary_of title cfg reply r (started session prompt p u)))
          n
          (record {
            taken = refl;
            again = Completed-Idle p u.next_run _ _ done;
            tells =
                done.tells ∙ ap (λ es. (es ++ reply.shown) ++ told reply.failure false session) v;
          })

    accept-Ended : (s : Service) → Idle session s → Ended s (accept session prompt s)
    accept-Ended s h =
        unfold accept in
        if_cases (Ended s) s.closed _
          (start session prompt (open_from session (lookup session s.convs) s))
          (λ e. absurd (ground (arith, e, h.open'))) (λ e. by (lookup session s.convs) refl)
      where
        by :
            (o : Option ℕ)
            → lookup session s.convs ≡ o
            → Ended s (start session prompt (open_from session o s))
        by (some p) e =
            let (idle, t) = h.waits p e in
            if_cases (Ended s) (s.heap p).running _ (started session prompt p s, none)
              (λ x. absurd (ground (arith, x, idle)))
              (λ x. started-Ended p s s h.open' e t refl refl refl)
        by none e =
            let u = opened session s in
            let fresh : lookup session u.convs ≡ some s.next_conv =
              ground (
                arith,
                lookup-insert session session s.next_conv s.convs,
                eq_iff session session,
              ) in
            let blank : u.heap s.next_conv ≡ empty_conversation = ground arith in
            if_cases (Ended s) (u.heap s.next_conv).running _
              (started session prompt s.next_conv u, none) (λ x. absurd (ground (arith, x, blank)))
              (λ x.
                started-Ended s.next_conv s u h.open' fresh
                  (subst (λ (c : Conversation). IsTranscript c.messages) (sym blank) no_messages)
                  refl refl refl)

-- Where the service is open and the session's conversation, if there is one, waits with a
-- transcript in which each call is answered, and the agent's reply has whole rounds and at most
-- one that was stopped: a prompt is taken, and behind its run, undisturbed by other sections,
-- the conversation waits again with such a transcript; told are the events of the handlers, then
-- the run's error, if there is one, and then, once, that it is done.
pub accept-Exchanged :
    (session prompt : String) (summary_of : List ChatMessage → String) (title : String)
    (cfg : Config) (reply : Reply) (s : Service)
    → IsReply reply.produced
    → Idle session s
    → Exchanged session reply s
        (accept session prompt s).1
        (run summary_of title cfg reply s.next_run (accept session prompt s).0)
accept-Exchanged session prompt summary_of title cfg reply s is_reply =
    accept-Ended session prompt summary_of title cfg reply is_reply s
