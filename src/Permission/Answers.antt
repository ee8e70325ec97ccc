-- ===== src/Permission/Answers.antt =====
-- internal/permission/channel.go: what becomes of the asks that wait.
use node_shell.Base.{
  ◌≡◌, refl, ap, ◌∙◌, String, Bool, true, false, Option, none, some, List, [], ◌∷◌, ◌++◌, ◌==◌,
  if◌then◌else◌, Dict, lookup, delete, map, contains, arith, eq_iff, eq_refl, lookup-insert,
  lookup-delete, is_map, Bool-cases, inl, inr,
}
use node_shell.Permission.Policy.{Decision, deny_call}
use node_shell.Permission.Channel.{
  PendingAsk, closed, Gate, emit_closed, receive, answer_in, send, decide_found, decide, signalled,
  matching, signal_matching, cancel_session, dispose_all,
}

-- An ask after it was sent a decision.
abbrev pub sent : Bool → Decision → Option PendingAsk → Option PendingAsk
sent b d none = none
sent b d (some p) = some (if b then send d p else p)

decide_found-lookup :
    (id j : String) (d : Decision) (g : Gate) (o : Option PendingAsk)
    → lookup id g.pending ≡ o
    → lookup j (decide_found id d g o).pending ≡ sent (id == j) d (lookup j g.pending)
decide_found-lookup id j d g none e = ground (arith, eq_iff id j)
decide_found-lookup id j d g (some p) e =
    ground (arith, lookup-insert id j (send d p) g.pending, eq_iff id j)

-- The renderer's answer reaches the ask with its id and no other, and only an ask without an answer
-- takes it: the first answer stands.
pub decide-lookup :
    (id j : String) (d : Decision) (g : Gate)
    → (id == "") ≡ false
    → lookup j (decide id d g).pending ≡ sent (id == j) d (lookup j g.pending)
unfolding decide
decide-lookup id j d g n = simp n (decide_found-lookup id j d g (lookup id g.pending) refl)

signalled-lookup :
    (match : PendingAsk → Bool) (j : String) (ps : Dict PendingAsk) (o : Option PendingAsk)
    → lookup j ps ≡ o
    → lookup j (signalled match ps)
      ≡ elim o [ none ↦ none | some p ↦ some (if match p then send deny_call p else p) ]
unfolding signalled lookup
signalled-lookup match j [] o e = ground arith
signalled-lookup match j ((i, p) ∷ ps) o e = elim (Bool-cases (i == j)) [
  | inl same ↦ ground arith
  | inr other ↦ rw other (signalled-lookup match j ps o (rw other at e))
]

-- What a pending ask that matches reports.
abbrev pub matched : (PendingAsk → Bool) → Option PendingAsk → Bool
matched match none = false
matched match (some p) = match p

matching-contains :
    (match : PendingAsk → Bool) (j : String) (ps : Dict PendingAsk)
    → is_map ps ≡ true
    → contains j (matching match ps) ≡ matched match (lookup j ps)
unfolding matching lookup contains is_map
matching-contains match j [] d = refl
matching-contains match j ((i, p) ∷ ps) d = ground (arith, matching-contains match j ps, eq_iff i j)

emit_closed-pending : (ids : List String) (g : Gate) → (emit_closed ids g).pending ≡ g.pending
unfolding emit_closed
emit_closed-pending ids g = ground arith

emit_closed-events :
    (ids : List String) (g : Gate)
    → g.has_emitter ≡ true
    → (emit_closed ids g).events ≡ g.events ++ map closed ids
unfolding emit_closed
emit_closed-events ids g h = ground arith

abbrev is_answered : Option PendingAsk → Bool
is_answered none = true
is_answered (some p) = elim p.answer [ none ↦ false | some d ↦ true ]

-- Of a session that is cancelled.
abbrev of_session : String → PendingAsk → Bool
of_session session p = p.session_id == session

-- What the cancellation of a session does to each ask, and which asks it closes on the screen.
pub record Cancels (session : String) (g : Gate) (after : Gate) : Type 0 where
  -- each ask of the session has an answer: its own, if it had one, or else a denial
  pub answers :
      (j : String) (p : PendingAsk)
      → lookup j g.pending ≡ some p
      → lookup j after.pending ≡ some (if p.session_id == session then send deny_call p else p)
  pub nothing_new : (j : String) → lookup j g.pending ≡ none → lookup j after.pending ≡ none
  pub closes : List String
  pub events : after.events ≡ g.events ++ map closed closes
  pub closes_exact :
      (j : String) → contains j closes ≡ matched (of_session session) (lookup j g.pending)

-- Closing a session answers every ask of the session that waits with a denial, leaves the asks of the
-- other sessions alone, and emits one closing event for each ask of the session and for no other.
pub cancel_session-Cancels :
    (session : String) (g : Gate)
    → (session == "") ≡ false
    → g.has_emitter ≡ true
    → is_map g.pending ≡ true
    → Cancels session g (cancel_session session g)
unfolding cancel_session signal_matching
cancel_session-Cancels session g n h d = simp n (record {
  answers = λ j p e.
      ap (lookup j) (emit_closed-pending _ _)
      ∙ signalled-lookup (of_session session) j g.pending (some p) e;
  nothing_new = λ j e.
      ap (lookup j) (emit_closed-pending _ _)
      ∙ signalled-lookup (of_session session) j g.pending none e;
  closes = matching (of_session session) g.pending;
  events = emit_closed-events _ _ h;
  closes_exact = λ j. matching-contains (of_session session) j g.pending d;
})

-- After a shutdown no ask waits: the channel of each that was pending holds a decision.
pub dispose_all-answers :
    (g : Gate) (j : String) (p : PendingAsk)
    → lookup j g.pending ≡ some p
    → lookup j (dispose_all g).pending ≡ some (send deny_call p)
unfolding dispose_all signal_matching
dispose_all-answers g j p e =
    ap (lookup j) (emit_closed-pending _ _) ∙ signalled-lookup (λ q. true) j g.pending (some p) e

receive-answered :
    (id : String) (d : Decision) (g : Gate)
    → answer_in (lookup id g.pending) ≡ some d
    → receive id g ≡ some (d, record g { pending = delete id g.pending })
unfolding receive
receive-answered id d g a = rw (a, receive)

-- The first answer that a waiting ask was sent is what `Ask` returns, whatever answers come after it,
-- and the ask is pending no more.
pub receive-decide :
    (id : String) (d e : Decision) (g : Gate) (p : PendingAsk)
    → (id == "") ≡ false
    → lookup id g.pending ≡ some p
    → p.answer ≡ none
    → (g' : Gate) × (receive id (decide id e (decide id d g)) ≡ some (d, g'))
      × (lookup id g'.pending ≡ none)
receive-decide id d e g p n f a =
    let g' = decide id e (decide id d g) in
    let twice : answer_in (lookup id g'.pending) ≡ some d =
      ground
        (arith, decide-lookup id id e (decide id d g) n, decide-lookup id id d g n, eq_refl id) in
    (
      record g' { pending = delete id g'.pending },
      receive-answered id d g' twice,
      ground (arith, lookup-delete id id g'.pending, eq_refl id),
    )
