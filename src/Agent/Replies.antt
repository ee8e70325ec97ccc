-- ===== src/Agent/Replies.antt =====
-- What a run may add to a transcript, and the transcript behind its reconciliation.
use mathlib.Core.List.{append_assoc}
use node_shell.Base.{
  ◌≡◌, refl, ◌∙◌, String, true, false, List, [], ◌∷◌, ◌++◌, contains, distinct, arith, eq_iff, inl,
  inr, contains-append, Bool-cases,
}
use node_shell.Agent.Message.{ToolCall, ChatMessage, is_tool, calls_tools}
use node_shell.Agent.History.{answered_ids, stopped_results, reconcile}
use node_shell.Agent.Reconciled.{
  Within, call_ids, all_tools, last_call-append, all_tools-append, stopped_results-tools,
  reconcile-accepted,
}
use node_shell.Agent.Answered.{front_ids, each_in, answered, answered-append, trim_history-answered}
use node_shell.Agent.Settled.{IsTranscript}

-- A turn with calls, and results of some of them, each at most once.
pub record IsOpen (call : ChatMessage) (results : List ChatMessage) : Type 0 where
  pub calls : calls_tools call ≡ true
  pub tools : all_tools results ≡ true
  pub distinct_calls : distinct (call_ids call.tool_calls) ≡ true
  pub distinct_results : distinct (answered_ids results) ≡ true
  pub known : Within (answered_ids results) (call_ids call.tool_calls)

-- What the agent produced: whole rounds, and at the end one that was stopped in the middle, or none.
pub data IsReply : List ChatMessage → Type 0 where
  whole : {msgs : List ChatMessage} → IsTranscript msgs → IsReply msgs
  stopped :
      (done : List ChatMessage) (call : ChatMessage) (results : List ChatMessage)
      → IsTranscript done
      → IsOpen call results
      → IsReply (done ++ call ∷ results)

tools-answered : (msgs : List ChatMessage) → all_tools msgs ≡ true → answered msgs ≡ true
unfolding answered all_tools
tools-answered [] t = refl
tools-answered (m ∷ ms) t = ground (arith, t, tools-answered ms)

tools-front_ids :
    (msgs : List ChatMessage) → all_tools msgs ≡ true → front_ids msgs ≡ answered_ids msgs
unfolding front_ids answered_ids all_tools
tools-front_ids [] t = refl
tools-front_ids (m ∷ ms) t = ground (arith, t, tools-front_ids ms)

all_in :
    (xs ys : List String)
    → ((id : String) → contains id xs ≡ true → contains id ys ≡ true)
    → each_in xs ys ≡ true
unfolding each_in contains
all_in [] ys h = refl
all_in (x ∷ xs) ys h =
    ground
      (arith, h x (ground (arith, eq_iff x x)), all_in xs ys (λ id c. h id (ground (arith, c))))

answered_ids-append :
    (xs ys : List ChatMessage) → answered_ids (xs ++ ys) ≡ answered_ids xs ++ answered_ids ys
unfolding answered_ids
answered_ids-append [] ys = refl
answered_ids-append (x ∷ xs) ys = ground (arith, answered_ids-append xs ys)

-- A call without a result gets one.
stopped_results-contains :
    (ids : List String) (calls : List ToolCall) (id : String)
    → contains id (call_ids calls) ≡ true
    → contains id ids ≡ false
    → contains id (answered_ids (stopped_results ids calls)) ≡ true
unfolding stopped_results call_ids contains answered_ids
stopped_results-contains ids [] id c n = c
stopped_results-contains ids (call ∷ calls) id c n =
    ground (arith, c, n, stopped_results-contains ids calls id, eq_iff call.id id)

module _ (call : ChatMessage) (results : List ChatMessage) (o : IsOpen call results) where
  abbrev missing : List ChatMessage
  missing = stopped_results (answered_ids results) call.tool_calls

  pub call_turn : is_tool call.role ≡ false
  call_turn = ground (arith, o.calls)

  every_call :
      (id : String)
      → contains id (call_ids call.tool_calls) ≡ true
      → contains id (answered_ids results ++ answered_ids missing) ≡ true
  every_call id c =
      let both = contains-append id (answered_ids results) (answered_ids missing) in
      elim (Bool-cases (contains id (answered_ids results))) [
        | inl e ↦ ground (arith, both, e)
        | inr e ↦
            ground (
              arith,
              both,
              e,
              stopped_results-contains (answered_ids results) call.tool_calls id c e,
            )
      ]

  closed_turn : answered (call ∷ (results ++ missing)) ≡ true
  closed_turn =
      let tools =
        all_tools-append results missing o.tools
          (stopped_results-tools (answered_ids results) call.tool_calls) in
      let ids = tools-front_ids (results ++ missing) tools ∙ answered_ids-append results missing in
      let each =
        all_in (call_ids call.tool_calls) (answered_ids results ++ answered_ids missing)
          every_call in
      unfold answered in ground (arith, ids, each, tools-answered (results ++ missing) tools)

  -- The reconciliation closes the turn.
  pub reconcile-open :
      (front : List ChatMessage)
      → IsTranscript front
      → IsTranscript (reconcile (front ++ call ∷ results))
  reconcile-open front t = record {
    accept =
        reconcile-accepted front call results t.accept o.calls o.tools o.distinct_calls
          o.distinct_results o.known;
    answer =
        unfold reconcile in
        rw (last_call-append front call results o.calls o.tools, reconcile)
          (trim_history-answered ((front ++ call ∷ results) ++ missing) (
            rw (append_assoc front (call ∷ results) missing)
              (answered-append front call (results ++ missing) call_turn t.answer closed_turn)));
  }
