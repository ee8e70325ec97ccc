-- ===== src/Agent/Settled.antt =====
-- Transcripts that a provider accepts and whose calls are all answered: the cap, the compaction and the
-- reconciliation keep them.
use mathlib.Core.List.{append-nil}
use mathlib.Core.Path.{subst}
use node_shell.Base.{
  ℕ, ◌-◌, ◌≡◌, refl, ◌∙◌, String, true, false, ◌||◌, Option, none, some, List, [], ◌∷◌, ℤ, length,
  take, ltb, leb, contains, arith, if_cases, All, All-take, Option-cases, inl, inr,
}
use node_shell.Agent.Message.{ToolCall, ChatMessage, message, system, calls_tools}
use node_shell.Agent.History.{
  Open, last_call, answered_ids, stopped_results, reconcile, trim_history,
}
use node_shell.Agent.Compaction.{
  ToolRound, tool_rounds, tool_at, split_for_compression, cut_index, drop_tool_round, drop_rounds,
  drop_old_tool_results, call_names, calls_at, compress,
}
use node_shell.Agent.Accepted.{accepted, trim_history-accepted}
use node_shell.Agent.Rounds.{
  RoundAt, Ordered, tool_rounds-RoundAt, tool_rounds-Ordered, Ordered-take,
}
use node_shell.Agent.Split.{split_for_compression-IsSplit}
use node_shell.Agent.Dropped.{
  Kept, drop_rounds-Kept, drop_old_tool_results-accepted, headed-accepted, compress-keeps,
}
use node_shell.Agent.Reconciled.{call_ids}
use node_shell.Agent.Answered.{
  front_ids, each_in, answered, answered-drop, trim_history-answered, answered_around,
}

pub record IsTranscript (msgs : List ChatMessage) : Type 0 where
  pub accept : accepted msgs ≡ true
  pub answer : answered msgs ≡ true

pub trim_history-IsTranscript :
    (msgs : List ChatMessage) → IsTranscript msgs → IsTranscript (trim_history msgs)
trim_history-IsTranscript msgs h = record {
  accept = trim_history-accepted msgs h.accept;
  answer = trim_history-answered msgs h.answer;
}

tail_answered :
    (msgs : List ChatMessage) (keep_messages keep_rounds : ℕ)
    → answered msgs ≡ true
    → answered (split_for_compression msgs keep_messages keep_rounds).1 ≡ true
unfolding split_for_compression
tail_answered [] km kr a = a
tail_answered (m ∷ ms) km kr a = answered-drop (cut_index (m ∷ ms) km kr) (m ∷ ms) a

headed-answered :
    (text : String) (keep : List ChatMessage)
    → answered keep ≡ true
    → answered (message system text ∷ keep) ≡ true
unfolding answered
headed-answered text keep a = a

drop_tool_round-answered :
    (msgs out : List ChatMessage) (r : ToolRound)
    → RoundAt 0 msgs r
    → Kept r.end msgs out
    → answered out ≡ true
    → answered (drop_tool_round out r) ≡ true
unfolding drop_tool_round
drop_tool_round-answered msgs out r h k a =
    let starts : tool_at msgs r.start ≡ false =
      (let z : r.start - 0 ≡ r.start = omega arith in rw z at (h.starts_turn)) in
    if_cases (λ ms. answered ms ≡ true) (ltb (length out) r.end || leb r.end r.start) _ _ (λ bad. a)
      (λ fine.
        answered_around r.start r.end out (call_names (calls_at out r.start))
          (omega (arith, k.long, h.nonempty)) (k.same r.start (omega (arith, h.nonempty)) ∙ starts)
          a)

drop_rounds-answered :
    (lo : ℕ) (rs : List ToolRound) (msgs : List ChatMessage)
    → All (RoundAt 0 msgs) rs
    → Ordered lo rs
    → IsTranscript msgs
    → answered (drop_rounds rs msgs) ≡ true
unfolding drop_rounds
drop_rounds-answered lo [] msgs h o t = t.answer
drop_rounds-answered lo (r ∷ rs) msgs h o t =
    drop_tool_round-answered msgs (drop_rounds rs msgs) r h.0
      (drop_rounds-Kept r.end rs msgs h.1 o.1 (omega (arith, h.0.within)) t.accept)
      (drop_rounds-answered r.end rs msgs h.1 o.1 t)

drop_old_tool_results-IsTranscript :
    (msgs : List ChatMessage) (kept : ℕ)
    → IsTranscript msgs
    → IsTranscript (drop_old_tool_results msgs kept)
unfolding drop_old_tool_results
drop_old_tool_results-IsTranscript msgs kept t =
    let n = length (tool_rounds msgs) - kept in
    record {
      accept = drop_old_tool_results-accepted msgs kept t.accept;
      answer =
          if_cases (λ ms. answered ms ≡ true) (leb (length (tool_rounds msgs)) kept) _ _
            (λ few. t.answer)
            (λ many.
              drop_rounds-answered 0 (take n (tool_rounds msgs)) msgs
                (All-take (RoundAt 0 msgs) n (tool_rounds msgs) (tool_rounds-RoundAt msgs))
                (Ordered-take n 0 (tool_rounds msgs) (tool_rounds-Ordered msgs)) t);
    }

pub compress-IsTranscript :
    (summary_of : List ChatMessage → String) (instruction : String) (window : ℤ)
    (history : List ChatMessage)
    → IsTranscript history
    → IsTranscript (compress summary_of instruction window history)
compress-IsTranscript =
    compress-keeps IsTranscript trim_history-IsTranscript
      (λ msgs km kr t. record {
        accept = (split_for_compression-IsSplit msgs km kr t.accept).tail_accepted;
        answer = tail_answered msgs km kr t.answer;
      })
      (λ text keep t. record {
        accept = headed-accepted text keep t.accept;
        answer = headed-answered text keep t.answer;
      })
      drop_old_tool_results-IsTranscript

-- The results at the front are among all results.
front_ids-answered :
    (msgs : List ChatMessage) (id : String)
    → contains id (front_ids msgs) ≡ true
    → contains id (answered_ids msgs) ≡ true
unfolding front_ids answered_ids contains
front_ids-answered [] id c = c
front_ids-answered (m ∷ ms) id c = ground (arith, c, front_ids-answered ms id)

-- Calls that all have a result get no other.
stopped_results-none :
    (ids : List String) (calls : List ToolCall) (fronts : List String)
    → each_in (call_ids calls) fronts ≡ true
    → ((id : String) → contains id fronts ≡ true → contains id ids ≡ true)
    → stopped_results ids calls ≡ []
unfolding stopped_results call_ids each_in
stopped_results-none ids [] fronts e h = refl
stopped_results-none ids (call ∷ calls) fronts e h =
    let here : contains call.id ids ≡ true = h call.id (ground (arith, e)) in
    rw here (stopped_results-none ids calls fronts (ground (arith, e)) h)

-- The last turn with calls, if there is one, has all its results.
abbrev Settles : Option Open → Type 0
Settles none = Unit
Settles (some (call, behind)) = stopped_results (answered_ids behind) call.tool_calls ≡ []

last_call-Settles : (msgs : List ChatMessage) → answered msgs ≡ true → Settles (last_call msgs)
unfolding last_call
last_call-Settles [] a = tt
last_call-Settles (m ∷ ms) a = elim (Option-cases (last_call ms)) [
  | inl e ↦
      rw (e, last_call)
        (if_cases Settles (calls_tools m) (some (m, ms)) none
          (λ c.
            stopped_results-none (answered_ids ms) m.tool_calls (front_ids ms)
              (unfold answered in ground (arith, a, c)) (front_ids-answered ms))
          (λ c. tt))
  | inr (found, e) ↦
      rw (e, last_call) (subst Settles e (last_call-Settles ms (answered-drop 1 (m ∷ ms) a)))
]

-- Where no call is open, the reconciliation adds nothing.
pub reconcile-IsTranscript :
    (msgs : List ChatMessage) → IsTranscript msgs → IsTranscript (reconcile msgs)
unfolding reconcile
reconcile-IsTranscript msgs t = elim (Option-cases (last_call msgs)) [
  | inl e ↦ rw (e, reconcile) t
  | inr ((call, behind), e) ↦
      let none_open : stopped_results (answered_ids behind) call.tool_calls ≡ [] =
        subst Settles e (last_call-Settles msgs t.answer) in
      rw (e, reconcile, none_open, append-nil) (trim_history-IsTranscript msgs t)
]
