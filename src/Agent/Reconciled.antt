-- ===== src/Agent/Reconciled.antt =====
-- Accepted transcripts and internal/agent/agent.go: `reconcile`.
use node_shell.Base.{
  ℕ, suc, ◌+◌, ◌-◌, ◌≡◌, refl, String, Bool, true, ◌&&◌, none, some, List, [], ◌∷◌, ◌++◌, length,
  contains, distinct, remove_first, contains-remove_first, distinct-remove_first, length-append,
  eq_iff, if◌then◌else◌, arith, Bool-cases, inl, inr,
}
use mathlib.Core.List.{append_assoc}
use node_shell.Agent.Message.{ToolCall, ChatMessage, is_tool, calls_tools}
use node_shell.Agent.History.{last_call, answered_ids, stopped_results, reconcile}
use node_shell.Agent.Accepted.{accepted_after, accepted, expects, trim_history-accepted}

unfoldable pub call_ids : List ToolCall → List String
call_ids [] = []
call_ids (call ∷ calls) = call.id ∷ call_ids calls

unfoldable pub all_tools : List ChatMessage → Bool
all_tools [] = true
all_tools (m ∷ ms) = is_tool m.role && all_tools ms

abbrev pub Within : List String → List String → Type 0
Within xs ys = (id : String) → contains id xs ≡ true → contains id ys ≡ true

pub accepted-append :
    (open' : ℕ) (front rest : List ChatMessage)
    → accepted_after open' front ≡ true
    → accepted rest ≡ true
    → accepted_after open' (front ++ rest) ≡ true
unfolding accepted_after
accepted-append open' [] rest a b = (let z : open' ≡ 0 = ground arith in rw z b)
accepted-append open' (m ∷ ms) rest a b =
    ground (arith, accepted-append (if is_tool m.role then open' - 1 else expects m) ms rest)

accepted_after-results :
    (open' : ℕ) (results : List ChatMessage)
    → all_tools results ≡ true
    → length results ≡ open'
    → accepted_after open' results ≡ true
unfolding accepted_after all_tools
accepted_after-results open' [] t l = ground arith
accepted_after-results open' (m ∷ ms) t l = ground (arith, accepted_after-results (open' - 1) ms)

last_call-tools : (results : List ChatMessage) → all_tools results ≡ true → last_call results ≡ none
unfolding last_call all_tools
last_call-tools [] t = refl
last_call-tools (m ∷ ms) t = rw (last_call-tools ms (ground arith), last_call) (ground arith)

pub last_call-append :
    (front : List ChatMessage) (call : ChatMessage) (results : List ChatMessage)
    → calls_tools call ≡ true
    → all_tools results ≡ true
    → last_call (front ++ call ∷ results) ≡ some (call, results)
unfolding last_call
last_call-append [] call results c t = rw (last_call-tools results t, last_call) (rw c refl)
last_call-append (m ∷ ms) call results c t =
    rw (last_call-append ms call results c t, last_call) refl

length-answered_ids :
    (results : List ChatMessage)
    → all_tools results ≡ true
    → length (answered_ids results) ≡ length results
unfolding answered_ids all_tools
length-answered_ids [] t = refl
length-answered_ids (m ∷ ms) t = ground (arith, length-answered_ids ms)

pub all_tools-append :
    (xs ys : List ChatMessage)
    → all_tools xs ≡ true
    → all_tools ys ≡ true
    → all_tools (xs ++ ys) ≡ true
unfolding all_tools
all_tools-append [] ys a b = b
all_tools-append (x ∷ xs) ys a b = ground (arith, all_tools-append xs ys)

pub stopped_results-tools :
    (answered : List String) (calls : List ToolCall)
    → all_tools (stopped_results answered calls) ≡ true
unfolding stopped_results all_tools
stopped_results-tools answered [] = refl
stopped_results-tools answered (call ∷ calls) = ground (arith, stopped_results-tools answered calls)

length-remove_first :
    (id : String) (ids : List String)
    → contains id ids ≡ true
    → length ids ≡ suc (length (remove_first id ids))
unfolding contains remove_first
length-remove_first id [] c = cc
length-remove_first id (j ∷ js) c = ground (arith, length-remove_first id js)

-- The results depend only on which calls are answered.
stopped_results-same :
    (xs ys : List String) (calls : List ToolCall)
    → ((id : String) → contains id (call_ids calls) ≡ true → contains id xs ≡ contains id ys)
    → length (stopped_results xs calls) ≡ length (stopped_results ys calls)
unfolding stopped_results call_ids contains
stopped_results-same xs ys [] h = refl
stopped_results-same xs ys (call ∷ calls) h = ground (
  arith,
  h call.id (ground (arith, eq_iff call.id call.id)),
  stopped_results-same xs ys calls (λ id c. h id (ground arith)),
)

-- Each call is answered once, or gets a result.
stopped_results-count :
    (answered : List String) (calls : List ToolCall)
    → distinct (call_ids calls) ≡ true
    → distinct answered ≡ true
    → Within answered (call_ids calls)
    → length answered + length (stopped_results answered calls) ≡ length calls
unfolding stopped_results call_ids contains distinct
stopped_results-count [] [] d e w = refl
stopped_results-count (id ∷ ids) [] d e w =
    (let f : contains id [] ≡ true = w id (ground (arith, eq_iff id id)) in cc)
stopped_results-count answered (call ∷ calls) d e w =
    elim (Bool-cases (contains call.id answered)) [
      | inl x ↦
          let rest = remove_first call.id answered in
          let others : (id : String)
              → contains id (call_ids calls) ≡ true
              → contains id answered ≡ contains id rest =
            λ id c.
              ground (arith, contains-remove_first call.id id answered e, eq_iff call.id id) in
          let ih =
            stopped_results-count rest calls (ground arith)
              (distinct-remove_first call.id answered e)
              (λ id c.
                ground
                  (arith, contains-remove_first call.id id answered e, w id, eq_iff call.id id)) in
          let same = stopped_results-same answered rest calls others in
          let l = length-remove_first call.id answered x in rw x (omega (arith, ih, same, l))
      | inr x ↦
          let ih =
            stopped_results-count answered calls (ground arith) e
              (λ id c. ground (arith, w id c, eq_iff call.id id)) in
          rw x (omega (arith, ih))
    ]

-- A transcript whose last assistant turn with calls is followed by results of some of these calls, each
-- at most once, and which was accepted in front of that turn: the reconciliation answers the other
-- calls, and gives a transcript that is accepted.
pub reconcile-accepted :
    (front : List ChatMessage) (call : ChatMessage) (results : List ChatMessage)
    → accepted front ≡ true
    → calls_tools call ≡ true
    → all_tools results ≡ true
    → distinct (call_ids call.tool_calls) ≡ true
    → distinct (answered_ids results) ≡ true
    → Within (answered_ids results) (call_ids call.tool_calls)
    → accepted (reconcile (front ++ call ∷ results)) ≡ true
unfolding reconcile accepted_after
reconcile-accepted front call results a c t d e w =
    let stopped = stopped_results (answered_ids results) call.tool_calls in
    let count = stopped_results-count (answered_ids results) call.tool_calls d e w in
    let turn : accepted (call ∷ (results ++ stopped)) ≡ true =
      (let closed =
          accepted_after-results (length call.tool_calls) (results ++ stopped)
            (all_tools-append results stopped t
              (stopped_results-tools (answered_ids results) call.tool_calls))
            (omega (arith, count, length-append results stopped, length-answered_ids results t)) in
        ground arith) in
    rw (last_call-append front call results c t, reconcile)
      (trim_history-accepted ((front ++ call ∷ results) ++ stopped) (
        rw (append_assoc front (call ∷ results) stopped)
          (accepted-append 0 front (call ∷ (results ++ stopped)) a turn)))
