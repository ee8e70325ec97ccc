-- ===== src/Permission/Channel.antt =====
-- internal/permission/channel.go: asks that wait for the renderer's answer.
use node_shell.Base.{
  String, Bool, true, false, Option, none, some, List, [], ◌∷◌, ◌++◌, ◌==◌, if◌then◌else◌, Dict,
  lookup, insert, delete, map,
}
use node_shell.Permission.Policy.{Decision, deny_call, Request}

-- `answer` is the channel's buffer of one decision.
pub record PendingAsk : Type 0 where
  pub session_id : String
  pub answer : Option Decision

pub data Event : Type 0 where
  asked : Request → Event
  closed : String → Event

-- `has_emitter` is whether the emitter is not nil.
pub record Gate : Type 0 where
  pub has_emitter : Bool
  pub pending : Dict PendingAsk
  pub events : List Event

unfoldable pub emit : Event → Gate → Gate
emit e g = if g.has_emitter then record g { events = g.events ++ e ∷ [] } else g

unfoldable pub emit_closed : List String → Gate → Gate
emit_closed ids g = if g.has_emitter then record g { events = g.events ++ map closed ids } else g

-- The first part of `Ask`, up to its `select`: none where the context is over, and the call denied.
unfoldable pub ask : Bool → String → Request → Gate → Option Gate
unfolding insert emit
ask true id req g = none
ask false id req g = some (
    emit (asked (record req { id = id })) (record g {
      pending = insert id (record { session_id = req.session_id; answer = none }) g.pending;
    }))

abbrev pub answer_in : Option PendingAsk → Option Decision
answer_in none = none
answer_in (some p) = p.answer

-- The two cases of the `select`, with the deferred removal: the decision that the channel holds, and
-- the end of the context. Where both are ready, either may be taken.
unfoldable pub receive : String → Gate → Option (Decision × Gate)
unfolding lookup delete
receive id g = elim (answer_in (lookup id g.pending)) [
  | none ↦ none
  | some d ↦ some (d, record g { pending = delete id g.pending })
]

unfoldable pub abandon : String → Gate → Decision × Gate
unfolding emit delete
abandon id g =
    let g' = emit (closed id) g in (deny_call, record g' { pending = delete id g'.pending })

-- A send that does not block: a full buffer keeps what it holds.
abbrev pub send : Decision → PendingAsk → PendingAsk
send d p = record p { answer = elim p.answer [ none ↦ some d | some e ↦ some e ] }

abbrev pub decide_found : String → Decision → Gate → Option PendingAsk → Gate
decide_found id d g none = g
decide_found id d g (some p) = record g { pending = insert id (send d p) g.pending }

unfoldable pub decide : String → Decision → Gate → Gate
unfolding lookup insert
decide id d g = if id == "" then g else decide_found id d g (lookup id g.pending)

-- `signalMatching`: the asks that match are sent a denial, and their ids returned.
unfoldable pub signalled : (PendingAsk → Bool) → Dict PendingAsk → Dict PendingAsk
signalled match [] = []
signalled match ((id, p) ∷ ps) = (id, if match p then send deny_call p else p) ∷ signalled match ps

unfoldable pub matching : (PendingAsk → Bool) → Dict PendingAsk → List String
matching match [] = []
matching match ((id, p) ∷ ps) = let rest = matching match ps in if match p then id ∷ rest else rest

unfoldable pub signal_matching : (PendingAsk → Bool) → Gate → Gate
unfolding signalled matching emit_closed
signal_matching match g =
    emit_closed (matching match g.pending) (record g { pending = signalled match g.pending })

unfoldable pub cancel_session : String → Gate → Gate
unfolding signal_matching
cancel_session session g =
    if session == "" then g else signal_matching (λ p. p.session_id == session) g

unfoldable pub dispose_all : Gate → Gate
unfolding signal_matching
dispose_all = signal_matching (λ p. true)
