-- ===== src/Agent/Replied.antt =====
-- The transcript behind `appendAll` and `reconcile`.
use mathlib.Core.List.{append-nil, append_assoc}
use mathlib.Core.Path.{subst}
use node_shell.Base.{
  ℕ, zero, suc, ◌-◌, ◌≡◌, refl, sym, true, List, [], ◌∷◌, ◌++◌, length, drop, ltb, if◌then◌else◌,
  arith, if_cases, inl, inr, ◌⊎◌,
}
use node_shell.Agent.Message.{ChatMessage, is_tool}
use node_shell.Agent.History.{max_history_messages, drop_tools, trim_history, reconcile, append_all}
use node_shell.Agent.Compaction.{tool_at}
use node_shell.Agent.Accepted.{accepted_after, expects, drop_tools-accepted}
use node_shell.Agent.Split.{accepted-head}
use node_shell.Agent.Reconciled.{all_tools, accepted-append}
use node_shell.Agent.Answered.{answered, answered-drop, answered-drop_tools, answered-append}
use node_shell.Agent.Settled.{IsTranscript, trim_history-IsTranscript, reconcile-IsTranscript}
use node_shell.Agent.Replies.{IsOpen, IsReply, whole, stopped, reconcile-open, call_turn}

pub IsTranscript-append :
    (xs ys : List ChatMessage) → IsTranscript xs → IsTranscript ys → IsTranscript (xs ++ ys)
IsTranscript-append xs [] a b = rw append-nil a
IsTranscript-append xs (y ∷ ys) a b = record {
  accept = accepted-append 0 xs (y ∷ ys) a.accept b.accept;
  answer =
      answered-append xs y ys (unfold tool_at in accepted-head (y ∷ ys) b.accept) a.answer b.answer;
}

drop_tools-none : (msgs : List ChatMessage) → all_tools msgs ≡ true → drop_tools msgs ≡ []
unfolding drop_tools all_tools
drop_tools-none [] t = refl
drop_tools-none (m ∷ ms) t = ground (arith, t, drop_tools-none ms)

all_tools-drop :
    (n : ℕ) (msgs : List ChatMessage) → all_tools msgs ≡ true → all_tools (drop n msgs) ≡ true
unfolding all_tools
all_tools-drop zero msgs t = t
all_tools-drop (suc n) [] t = t
all_tools-drop (suc n) (m ∷ ms) t = all_tools-drop n ms (ground (arith, t))

module _ (call : ChatMessage) (results : List ChatMessage) (o : IsOpen call results) where
  drop_tools-append :
      (front : List ChatMessage)
      → drop_tools (front ++ call ∷ results) ≡ drop_tools front ++ call ∷ results
  unfolding drop_tools
  drop_tools-append [] = rw (call_turn call results o) refl
  drop_tools-append (m ∷ ms) = ground (arith, drop_tools-append ms)

  -- What the cap leaves of an open transcript: nothing, or an open transcript.
  abbrev Left : List ChatMessage → Type 0
  Left msgs =
      (msgs ≡ [])
      ⊎ ((front : List ChatMessage) × (msgs ≡ front ++ call ∷ results) × IsTranscript front)

  dropped-Left :
      (n k : ℕ) (front : List ChatMessage)
      → accepted_after k front ≡ true
      → answered front ≡ true
      → Left (drop_tools (drop n (front ++ call ∷ results)))
  dropped-Left zero k front a b = inr (
    drop_tools front,
    drop_tools-append front,
    record { accept = drop_tools-accepted k front a; answer = answered-drop_tools front b },
  )
  dropped-Left (suc n) k [] a b =
      inl (drop_tools-none (drop n results) (all_tools-drop n results o.tools))
  dropped-Left (suc n) k (m ∷ ms) a b =
      dropped-Left n (if is_tool m.role then k - 1 else expects m) ms
        (unfold accepted_after in ground (arith, a)) (answered-drop 1 (m ∷ ms) b)

  trimmed-Left :
      (front : List ChatMessage)
      → IsTranscript front
      → Left (trim_history (front ++ call ∷ results))
  unfolding trim_history
  trimmed-Left front t =
      let msgs = front ++ call ∷ results in
      if_cases (λ ms. Left (drop_tools ms)) (ltb max_history_messages (length msgs))
        (drop (length msgs - max_history_messages) msgs) msgs
        (λ over. dropped-Left (length msgs - max_history_messages) 0 front t.accept t.answer)
        (λ fits. dropped-Left 0 0 front t.accept t.answer)

  reconcile-Left : (msgs : List ChatMessage) → Left msgs → IsTranscript (reconcile msgs)
  reconcile-Left msgs (inl e) =
      subst (λ ms. IsTranscript (reconcile ms)) (sym e)
        (reconcile-IsTranscript []
          (record { accept = unfold accepted_after in refl; answer = unfold answered in refl }))
  reconcile-Left msgs (inr (front, e, t)) =
      subst (λ ms. IsTranscript (reconcile ms)) (sym e) (reconcile-open call results o front t)

append_all-cons :
    (msgs front : List ChatMessage) (x : ChatMessage) (rest : List ChatMessage)
    → append_all msgs (front ++ x ∷ rest) ≡ trim_history (msgs ++ (front ++ x ∷ rest))
unfolding append_all
append_all-cons msgs [] x rest = refl
append_all-cons msgs (y ∷ ys) x rest = refl

-- A run that keeps whole rounds, or is stopped in the middle of one, leaves a transcript that the next
-- request may send.
pub reconcile-append_all :
    (msgs produced : List ChatMessage)
    → IsTranscript msgs
    → IsReply produced
    → IsTranscript (reconcile (append_all msgs produced))
reconcile-append_all msgs [] t (whole r) = unfold append_all in reconcile-IsTranscript msgs t
reconcile-append_all msgs (x ∷ xs) t (whole r) =
    subst (λ ms. IsTranscript (reconcile ms)) (sym (append_all-cons msgs [] x xs))
      (reconcile-IsTranscript (trim_history (msgs ++ x ∷ xs))
        (trim_history-IsTranscript (msgs ++ x ∷ xs) (IsTranscript-append msgs (x ∷ xs) t r)))
reconcile-append_all msgs produced t (stopped done call results d o) =
    subst (λ ms. IsTranscript (reconcile ms)) (sym (append_all-cons msgs done call results))
      (reconcile-Left call results o (trim_history (msgs ++ (done ++ call ∷ results))) (
        subst (λ ms. Left call results o (trim_history ms))
          (append_assoc msgs done (call ∷ results))
          (trimmed-Left call results o (msgs ++ done) (IsTranscript-append msgs done t d))))
