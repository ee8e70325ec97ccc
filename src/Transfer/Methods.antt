-- ===== src/Transfer/Methods.antt =====
-- `Cancel`, `Retry`, `Clear`, `ClearCompleted` and `Dispose`. A method returns the new state beside
-- its results. `clock k` is the reading of the clock that a call makes with k items left.
use node_shell.Base.{
  ℕ, String, Bool, true, false, not, ◌&&◌, ◌||◌, Option, none, some, List, [], ◌∷◌, pos, Dict,
  lookup, insert, delete, keep, if◌then◌else◌, Error, Result, ok, err, remove_first,
}
use node_shell.Transfer.State.{
  State, queued, running, finalizing, succeeded, failed, cancelled, Task, TransferTaskDto, to_dto,
  Manager, emit, emit_all,
}
use node_shell.Transfer.Schedule.{schedule}
use node_shell.Transfer.Enqueue.{failure, closed_error, submit}

abbrev pub is_state : State → State → Bool
is_state queued queued = true
is_state running running = true
is_state finalizing finalizing = true
is_state succeeded succeeded = true
is_state failed failed = true
is_state cancelled cancelled = true
is_state _ _ = false

abbrev pub dropped : ℕ → Task → Task
dropped now t = record t { state = cancelled; finished_at = now }

-- Calling a cancel function ends its context.
abbrev pub fire : Option Bool → Option Bool
fire none = none
fire (some _) = some true

abbrev pub signal : Task → Task
signal t = record t { cancel = fire t.cancel }

abbrev pub missing : Error
missing = failure "Transfer task not found"

-- The locked section of `Cancel` for a queued task.
unfoldable pub cancel_queued : ℕ → String → Task → Manager → Manager
unfolding insert remove_first
cancel_queued now id t m = record m {
  tasks = insert id (dropped now t) m.tasks;
  queue = remove_first id m.queue;
}

abbrev pub cancel_found : ℕ → (ℕ → ℕ) → String → Manager → Option Task → Manager × Result (Unit {0})
cancel_found now clock id m none = (m, err missing)
cancel_found now clock id m (some t) =
    if is_state t.state queued
    then (schedule clock (emit (to_dto (dropped now t)) (cancel_queued now id t m)), ok tt)
    else if is_state t.state running
    then (record m { tasks = insert id (signal t) m.tasks }, ok tt)
    else (m, ok tt)

unfoldable pub cancel : ℕ → (ℕ → ℕ) → String → Manager → Manager × Result (Unit {0})
unfolding lookup cancel_queued schedule to_dto
cancel now clock id m = cancel_found now clock id m (lookup id m.tasks)

abbrev pub retry_task : Task → ℕ → String → Task
retry_task old now id = record old {
  id = id;
  transferred = pos 0;
  state = queued;
  error = "";
  created_at = now;
  started_at = 0;
  finished_at = 0;
  retry_of = old.id;
  cancel = none;
}

abbrev pub retry_found : ℕ → (ℕ → ℕ) → String → Manager → Option Task → Manager × Result String
retry_found now clock new_id m none = (m, err missing)
retry_found now clock new_id m (some old) =
    if not (is_state old.state failed) && not (is_state old.state cancelled)
    then (m, err (failure "Only failed or cancelled tasks can be retried"))
    else (submit clock (retry_task old now new_id ∷ []) m, ok new_id)

unfoldable pub retry : ℕ → (ℕ → ℕ) → String → String → Manager → Manager × Result String
unfolding lookup submit
retry now clock new_id id m =
    if m.closed then (m, err closed_error) else retry_found now clock new_id m (lookup id m.tasks)

abbrev pub clear_found : String → Manager → Option Task → Manager × Result (Unit {0})
clear_found id m none = (m, ok tt)
clear_found id m (some t) =
    if is_state t.state queued || is_state t.state running || is_state t.state finalizing
    then (m, err (failure "Cannot clear an active transfer task"))
    else (record m { tasks = delete id m.tasks }, ok tt)

unfoldable pub clear : String → Manager → Manager × Result (Unit {0})
unfolding lookup delete
clear id m = clear_found id m (lookup id m.tasks)

abbrev pub is_kept : String → Task → Bool
is_kept id t =
    not (is_state t.state succeeded || is_state t.state failed || is_state t.state cancelled)

unfoldable pub clear_completed : Manager → Manager
unfolding keep
clear_completed m = record m { tasks = keep is_kept m.tasks }

-- `Dispose`: the queued tasks are cancelled, in queue order; their new shapes are to be emitted.
abbrev pub drop_one : ℕ → String → Option Task → Dict Task → Dict Task
drop_one now id none tasks = tasks
drop_one now id (some t) tasks = insert id (dropped now t) tasks

unfoldable pub drop_queued : ℕ → List String → Dict Task → Dict Task
unfolding lookup insert
drop_queued now [] tasks = tasks
drop_queued now (id ∷ ids) tasks = drop_queued now ids (drop_one now id (lookup id tasks) tasks)

abbrev pub dropped_dto : ℕ → Option Task → List TransferTaskDto → List TransferTaskDto
dropped_dto now none dtos = dtos
dropped_dto now (some t) dtos = to_dto (dropped now t) ∷ dtos

unfoldable pub dropped_dtos : ℕ → List String → Dict Task → List TransferTaskDto
unfolding lookup insert to_dto
dropped_dtos now [] tasks = []
dropped_dtos now (id ∷ ids) tasks =
    dropped_dto now (lookup id tasks)
      (dropped_dtos now ids (drop_one now id (lookup id tasks) tasks))

-- Every running task is told to stop.
unfoldable pub signal_running : Dict Task → Dict Task
signal_running [] = []
signal_running ((id, t) ∷ tasks) =
    (id, if is_state t.state running then signal t else t) ∷ signal_running tasks

unfoldable pub dispose : ℕ → Manager → Manager
unfolding drop_queued dropped_dtos signal_running
dispose now m =
    if m.closed
    then m
    else emit_all (dropped_dtos now m.queue m.tasks) (record m {
      closed = true;
      tasks = signal_running (drop_queued now m.queue m.tasks);
      queue = [];
    })
