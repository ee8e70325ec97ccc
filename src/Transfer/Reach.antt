-- ===== src/Transfer/Reach.antt =====
-- The manager under concurrency: any order of its locked sections, by any number of callers.
use node_shell.Base.{
  ℕ, arith, ◌≡◌, String, Bool, false, some, none, Option, List, ℤ, lookup, insert,
}
use node_shell.Transfer.State.{
  Task, queued, running, TransferTaskDto, Manager, new_manager, emit_all,
}
use node_shell.Transfer.Schedule.{schedule_locked}
use node_shell.Transfer.Running.{RunError, on_progress, finish_locked}
use node_shell.Transfer.Enqueue.{enqueue}
use node_shell.Transfer.Methods.{signal, cancel_queued, clear, clear_completed, dispose}
use node_shell.Transfer.Invariant.{Inv, new_manager-Inv}
use node_shell.Transfer.Sections.{
  enqueue-Inv, cancel_queued-Inv, replace-Inv, schedule_locked-Inv, finish_locked-Inv,
  on_progress-Inv, emit_all-Inv,
}
use node_shell.Transfer.Disposal.{clear-Inv, clear_completed-Inv, dispose-Inv}

-- A locked section, or an emission between two of them. New tasks carry ids that no task has; the
-- engine reports progress and its end only of a task that a goroutine runs.
pub data Step (m : Manager) : Manager → Type 0 where
  enqueues :
      (t : Task)
      → t.state ≡ queued
      → lookup t.id m.tasks ≡ none
      → m.closed ≡ false
      → Step m (enqueue t m)
  emits : (dtos : List TransferTaskDto) → Step m (emit_all dtos m)
  schedules : (clock : ℕ → ℕ) → Step m (schedule_locked clock m).0
  cancels_queued :
      (now : ℕ) (id : String) (t : Task)
      → lookup id m.tasks ≡ some t
      → t.state ≡ queued
      → Step m (cancel_queued now id t m)
  signals :
      (id : String) (t : Task)
      → lookup id m.tasks ≡ some t
      → t.state ≡ running
      → Step m (record m { tasks = insert id (signal t) m.tasks })
  clears : (id : String) → Step m (clear id m).0
  clears_completed : Step m (clear_completed m)
  disposes : (now : ℕ) → Step m (dispose now m)
  progresses :
      (transferred total : ℤ) (finalize : Bool) (id session : String)
      → lookup id m.runs ≡ some session
      → Step m (on_progress transferred total finalize id m)
  finishes :
      (now : ℕ) (e : Option RunError) (id session : String) (t : Task)
      → lookup id m.runs ≡ some session
      → lookup id m.tasks ≡ some t
      → Step m (finish_locked now e id session t m)

pub data Reach (m : Manager) : Manager → Type 0 where
  here : Reach m m
  next : {k n : Manager} → Reach m k → Step k n → Reach m n

pub Step-Inv : {m n : Manager} → Step m n → Inv m → Inv n
Step-Inv (enqueues t q f o) h = enqueue-Inv h t q f o
Step-Inv (emits dtos) h = emit_all-Inv h dtos
Step-Inv (schedules clock) h = schedule_locked-Inv clock h
Step-Inv (cancels_queued now id t f q) h = cancel_queued-Inv h now id t f q
Step-Inv (signals id t f r) h = replace-Inv h id t (signal t) f (ground arith) (ground arith)
Step-Inv (clears id) h = clear-Inv h id
Step-Inv clears_completed h = clear_completed-Inv h
Step-Inv (disposes now) h = dispose-Inv now h
Step-Inv (progresses x y z id s r) h = on_progress-Inv x y z id h
Step-Inv (finishes now e id s t r f) h = finish_locked-Inv h now e id s t r f

-- Whatever the order of the locked sections, from a new manager on: the queue holds the queued
-- tasks, each once; the goroutines are those of the running and finalizing tasks, one each; the
-- counters count them; and at most three run, at most one of a session.
pub Reach-Inv : {m : Manager} → Reach new_manager m → Inv m
Reach-Inv here = new_manager-Inv
Reach-Inv (next r s) = Step-Inv s (Reach-Inv r)
