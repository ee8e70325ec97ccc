-- ===== src/Transfer/Running.antt =====
-- The locked sections of `runTask`: the progress callback, and the end of a run.
use node_shell.Base.{
  ℕ, ◌-◌, String, Bool, false, not, ◌&&◌, Option, none, some, ℤ, is_positive, Dict, lookup, insert,
  delete, leb, if◌then◌else◌,
}
use node_shell.Transfer.State.{
  running, finalizing, succeeded, failed, cancelled, Task, to_dto, Manager, running_of, emit,
}
use node_shell.Transfer.Schedule.{schedule}
use node_shell.Transfer.Methods.{is_state}

-- What a transfer engine reports at its end: a context's error, or another with its message.
pub data RunError : Type 0 where
  context_error : RunError
  other_error : String → RunError

abbrev pub progressed : ℤ → ℤ → Bool → Task → Task
progressed transferred total finalize t = record t {
  transferred = transferred;
  total = if is_positive total then total else t.total;
  state = if finalize && is_state t.state running then finalizing else t.state;
}

abbrev pub progress_found : ℤ → ℤ → Bool → String → Manager → Option Task → Manager
progress_found transferred total finalize id m none = m
progress_found transferred total finalize id m (some t) =
    let t' = progressed transferred total finalize t in
    let m' = record m { tasks = insert id t' m.tasks } in
    if m.closed then m' else emit (to_dto t') m'

-- The engine's progress callback, of the run of a task.
unfoldable pub on_progress : ℤ → ℤ → Bool → String → Manager → Manager
unfolding lookup insert to_dto
on_progress transferred total finalize id m =
    progress_found transferred total finalize id m (lookup id m.tasks)

abbrev pub is_done : Option Bool → Bool
is_done (some b) = b
is_done none = false

-- The task's fields after the run, by the engine's error and the run's context.
abbrev pub ended : ℕ → Option RunError → Task → Task
ended now none t = record t {
  finished_at = now;
  state = succeeded;
  transferred = if is_positive t.total then t.total else t.transferred;
}
ended now (some context_error) t = record t { finished_at = now; state = cancelled }
ended now (some (other_error message)) t =
    if is_done t.cancel && not (is_state t.state finalizing)
    then record t { finished_at = now; state = cancelled }
    else record t { finished_at = now; state = failed; error = message }

-- `runningSession[s]--`, and the key is deleted at 0 or below: `-` stops at 0, which is deleted too.
unfoldable pub release : String → Dict ℕ → Dict ℕ
unfolding running_of insert delete
release s sessions =
    if leb (running_of s sessions) 1
    then delete s (insert s (running_of s sessions - 1) sessions)
    else insert s (running_of s sessions - 1) sessions

-- The last locked section of `runTask`. `runningGlobal--` is exact, since a run is counted.
unfoldable pub finish_locked : ℕ → Option RunError → String → String → Task → Manager → Manager
unfolding insert release delete
finish_locked now e id session t m = record m {
  tasks = insert id (ended now e t) m.tasks;
  running_global = m.running_global - 1;
  running_session = release session m.running_session;
  runs = delete id m.runs;
}

abbrev pub finish_found :
    ℕ → (ℕ → ℕ) → Option RunError → String → Option String → Option Task → Manager → Manager
finish_found now clock e id (some session) (some t) m =
    let m' = finish_locked now e id session t m in
    if m.closed then m' else schedule clock (emit (to_dto (ended now e t)) m')
finish_found now clock e id _ _ m = m

-- The end of the run of a task: nothing where no goroutine runs it.
unfoldable pub finish : ℕ → (ℕ → ℕ) → Option RunError → String → Manager → Manager
unfolding lookup finish_locked to_dto schedule
finish now clock e id m = finish_found now clock e id (lookup id m.runs) (lookup id m.tasks) m
