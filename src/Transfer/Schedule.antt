-- ===== src/Transfer/Schedule.antt =====
-- `scheduleLocked` and `schedule`: which queued tasks start, within the caps.
use node_shell.Base.{
  ℕ, zero, suc, ◌+◌, String, false, Option, none, some, List, [], ◌∷◌, Dict, lookup, insert, length,
  ltb, if◌then◌else◌,
}
use node_shell.Transfer.State.{
  Task, running, TransferTaskDto, to_dto, Manager, max_global, max_session, running_of, emit_all,
}

-- The queued task of an id, if its session is below the cap; an id without a task is passed over.
unfoldable pub runnable : Dict Task → Dict ℕ → String → Option Task
unfolding lookup running_of
runnable tasks sessions id = elim (lookup id tasks) [
  | none ↦ none
  | some t ↦ if ltb (running_of t.session_id sessions) max_session then some t else none
]

-- What the inner loop picks: the id, its task, and the queue without its index.
pub record Pick : Type 0 where
  pub id : String
  pub task : Task
  pub rest : List String

abbrev pub skip : String → Option Pick → Option Pick
skip id none = none
skip id (some p) = some (record p { rest = id ∷ p.rest })

unfoldable pub pick : Dict Task → Dict ℕ → List String → Option Pick
unfolding runnable
pick tasks sessions [] = none
pick tasks sessions (id ∷ queue) = elim (runnable tasks sessions id) [
  | some t ↦ some (record { id = id; task = t; rest = queue })
  | none ↦ skip id (pick tasks sessions queue)
]

abbrev pub started : ℕ → Task → Task
started now t = record t { state = running; started_at = now; cancel = some false }

-- One round of the loop: the task runs, and its context is a new one that is not cancelled.
unfoldable pub launch : ℕ → Pick → Manager → Manager
unfolding insert running_of
launch now p m = record m {
  tasks = insert p.id (started now p.task) m.tasks;
  queue = p.rest;
  running_global = m.running_global + 1;
  running_session =
      insert p.task.session_id (running_of p.task.session_id m.running_session + 1)
        m.running_session;
  runs = (p.id, p.task.session_id) ∷ m.runs;
}

-- The loop, with the clock's reading of each round; every round shortens the queue, so that the
-- queue's length is fuel enough.
unfoldable pub schedule_loop : ℕ → (ℕ → ℕ) → Manager → Manager × List TransferTaskDto
unfolding pick launch to_dto
schedule_loop zero clock m = (m, [])
schedule_loop (suc fuel) clock m =
    if ltb m.running_global max_global
    then elim (pick m.tasks m.running_session m.queue) [
      | none ↦ (m, [])
      | some p ↦
          let (m', dtos) = schedule_loop fuel clock (launch (clock fuel) p m) in
          (m', to_dto (started (clock fuel) p.task) ∷ dtos)
    ]
    else (m, [])

unfoldable pub schedule_locked : (ℕ → ℕ) → Manager → Manager × List TransferTaskDto
unfolding schedule_loop
schedule_locked clock m = if m.closed then (m, []) else schedule_loop (length m.queue) clock m

-- The launches are emitted, and each is handed to its goroutine.
unfoldable pub schedule : (ℕ → ℕ) → Manager → Manager
unfolding schedule_locked
schedule clock m = let (m', dtos) = schedule_locked clock m in emit_all dtos m'
