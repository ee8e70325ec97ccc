-- ===== src/Agent/Answered.antt =====
-- Transcripts in which each tool call is answered by a result directly behind its turn.
use mathlib.Core.Path.{subst}
use node_shell.Base.{
  ℕ, zero, suc, ◌-◌, ◌≤◌, ◌≡◌, refl, ap, String, Bool, true, false, ◌&&◌, List, [], ◌∷◌, ◌++◌,
  length, take, drop, ltb, contains, if◌then◌else◌, arith, if_cases,
}
use node_shell.Agent.Message.{ChatMessage, is_tool, calls_tools}
use node_shell.Agent.History.{max_history_messages, drop_tools, trim_history}
use node_shell.Agent.Compaction.{tool_at, note}
use node_shell.Agent.Reconciled.{call_ids}

-- The ids of the tool results at the front.
unfoldable pub front_ids : List ChatMessage → List String
front_ids [] = []
front_ids (m ∷ ms) = let rest = front_ids ms in if is_tool m.role then m.tool_call_id ∷ rest else []

unfoldable pub each_in : List String → List String → Bool
unfolding contains
each_in [] ys = true
each_in (x ∷ xs) ys = contains x ys && each_in xs ys

abbrev pub turn_answered : ChatMessage → List ChatMessage → Bool
turn_answered m behind =
    if calls_tools m then each_in (call_ids m.tool_calls) (front_ids behind) else true

unfoldable pub answered : List ChatMessage → Bool
unfolding each_in call_ids front_ids
answered [] = true
answered (m ∷ ms) = turn_answered m ms && answered ms

pub answered-drop :
    (n : ℕ) (msgs : List ChatMessage) → answered msgs ≡ true → answered (drop n msgs) ≡ true
answered-drop zero msgs a = a
answered-drop (suc n) [] a = a
answered-drop (suc n) (m ∷ ms) a = answered-drop n ms (unfold answered in ground (arith, a))

pub answered-drop_tools :
    (msgs : List ChatMessage) → answered msgs ≡ true → answered (drop_tools msgs) ≡ true
unfolding drop_tools
answered-drop_tools [] a = a
answered-drop_tools (m ∷ ms) a =
    if_cases (λ xs. answered xs ≡ true) (is_tool m.role) (drop_tools ms) (m ∷ ms)
      (λ e. answered-drop_tools ms (answered-drop 1 (m ∷ ms) a)) (λ e. a)

pub trim_history-answered :
    (msgs : List ChatMessage) → answered msgs ≡ true → answered (trim_history msgs) ≡ true
unfolding trim_history
trim_history-answered msgs a =
    if_cases (λ ms. answered (drop_tools ms) ≡ true) (ltb max_history_messages (length msgs))
      (drop (length msgs - max_history_messages) msgs) msgs
      (λ over.
        answered-drop_tools (drop (length msgs - max_history_messages) msgs)
          (answered-drop (length msgs - max_history_messages) msgs a))
      (λ fits. answered-drop_tools msgs a)

-- The results at the front end at an index that holds no result, whatever turn stands there.
front_ids-take :
    (n : ℕ) (msgs : List ChatMessage) (x : ChatMessage) (rest : List ChatMessage)
    → n ≤ length msgs
    → tool_at msgs n ≡ false
    → is_tool x.role ≡ false
    → front_ids (take n msgs ++ x ∷ rest) ≡ front_ids msgs
unfolding front_ids tool_at
front_ids-take zero [] x rest l t e = rw e refl
front_ids-take zero (m ∷ ms) x rest l t e = rw (e, t) refl
front_ids-take (suc n) [] x rest l t e = absurd (omega (arith, l))
front_ids-take (suc n) (m ∷ ms) x rest l t e =
    ap (λ ids. if is_tool m.role then m.tool_call_id ∷ ids else [])
      (front_ids-take n ms x rest (omega (arith, l)) t e)

-- The front up to an index that holds no result, with a rest that starts with a turn.
pub answered-take :
    (n : ℕ) (msgs : List ChatMessage) (x : ChatMessage) (rest : List ChatMessage)
    → n ≤ length msgs
    → tool_at msgs n ≡ false
    → is_tool x.role ≡ false
    → answered msgs ≡ true
    → answered (x ∷ rest) ≡ true
    → answered (take n msgs ++ x ∷ rest) ≡ true
answered-take zero msgs x rest l t e a b = b
answered-take (suc n) [] x rest l t e a b = absurd (omega (arith, l))
answered-take (suc n) (m ∷ ms) x rest l t e a b =
    turn m ms (front_ids-take n ms x rest (omega (arith, l)) (unfold tool_at in t) e) a (
      answered-take n ms x rest (omega (arith, l)) (unfold tool_at in t) e
        (answered-drop 1 (m ∷ ms) a) b)
  where
    turn :
        (q : ChatMessage) (qs : List ChatMessage)
        → front_ids (take n qs ++ x ∷ rest) ≡ front_ids qs
        → answered (q ∷ qs) ≡ true
        → answered (take n qs ++ x ∷ rest) ≡ true
        → answered (q ∷ (take n qs ++ x ∷ rest)) ≡ true
    turn q qs f c d = unfold answered in rw f (ground (arith, c, d))

answered-note :
    (names : String) (rest : List ChatMessage)
    → answered rest ≡ true
    → answered (note names ∷ rest) ≡ true
unfolding answered
answered-note names rest a = a

-- A round is replaced by a note.
pub answered_around :
    (n k : ℕ) (msgs : List ChatMessage) (names : String)
    → n ≤ length msgs
    → tool_at msgs n ≡ false
    → answered msgs ≡ true
    → answered (take n msgs ++ note names ∷ drop k msgs) ≡ true
answered_around n k msgs names l t a =
    answered-take n msgs (note names) (drop k msgs) l t refl a
      (answered-note names (drop k msgs) (answered-drop k msgs a))

end_turn : (ms : List ChatMessage) → tool_at ms (length ms) ≡ false
unfolding tool_at
end_turn [] = refl
end_turn (m ∷ ms) = end_turn ms

-- A transcript behind another, with a turn first.
pub answered-append :
    (front : List ChatMessage) (x : ChatMessage) (rest : List ChatMessage)
    → is_tool x.role ≡ false
    → answered front ≡ true
    → answered (x ∷ rest) ≡ true
    → answered (front ++ x ∷ rest) ≡ true
answered-append front x rest e a b =
    subst (λ ms. answered (ms ++ x ∷ rest) ≡ true) (take_all front)
      (answered-take (length front) front x rest (omega arith) (end_turn front) e a b)
  where
    take_all : (ms : List ChatMessage) → take (length ms) ms ≡ ms
    take_all [] = refl
    take_all (m ∷ ms) = ap (λ l. m ∷ l) (take_all ms)
