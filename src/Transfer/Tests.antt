-- ===== src/Transfer/Tests.antt =====
-- The theorems about transfers at small managers.
use Prim.Native.Char.{Char}
use text.Mathlib.TextLemmas.{nil≢cons, cons≢nil, tail-eq_of_cons-eq}
use node_shell.Base.{ℕ, zero, suc, ap, ◌≡◌, refl, String, false, some, [], ◌∷◌, lookup, insert}
use node_shell.Transfer.State.{Task, running, Manager, new_manager}
use node_shell.Transfer.Schedule.{Pick, pick, schedule_locked}
use node_shell.Transfer.Running.{other_error, context_error, ended, finish_locked}
use node_shell.Transfer.Enqueue.{blank_task, enqueue}
use node_shell.Transfer.Methods.{dispose}
use node_shell.Transfer.Running
use node_shell.Transfer.Invariant.{Inv}
use node_shell.Transfer.Reach.{
  Reach, here, next, enqueues, schedules, finishes, disposes, Reach-Inv,
}
use node_shell.Transfer.Progress.{Saturated, IsFirst, schedule_locked-Saturated, pick-IsFirst}
use node_shell.Transfer.Final.{Unchanged, Step-final}
use node_shell.Transfer.Calls.{cancel, perform, perform-Reach, IsFresh}
use node_shell.Transfer.Outcomes.{Outcome, finish-ended}

abbrev clock : ℕ → ℕ
clock k = 7

abbrev first : Task
first = record blank_task { id = "a"; session_id = "s" }

abbrev second : Task
second = record blank_task { id = "b"; session_id = "s" }

abbrev one_queued : Manager
one_queued = enqueue first new_manager

abbrev two_queued : Manager
two_queued = enqueue second one_queued

queued_steps : Reach new_manager two_queued
unfolding enqueue lookup insert
queued_steps = next (next here (enqueues first refl refl refl)) (enqueues second refl refl refl)

abbrev one_running : Manager
one_running = (schedule_locked clock two_queued).0

running_steps : Reach new_manager one_running
running_steps = next queued_steps (schedules clock)

-- Two tasks of one session: the second waits for the first.
one_runs :
    (one_running.queue ≡ "b" ∷ [])
    × (one_running.runs ≡ ("a", "s") ∷ [])
    × (one_running.running_global ≡ 1)
unfolding schedule_locked enqueue
one_runs = (refl, refl, refl)

Reach-Inv_example : Inv one_running
Reach-Inv_example = Reach-Inv running_steps

-- A source of ids that are all different.
abbrev x_char : Char
x_char = "x"

abbrev unary_id : ℕ → String
unary_id zero = ""
unary_id (suc k) = String.◌∷◌ x_char (unary_id k)

unary_id_inj : (j k : ℕ) → unary_id j ≡ unary_id k → j ≡ k
unary_id_inj zero zero e = refl
unary_id_inj zero (suc k) e = absurd (nil≢cons e)
unary_id_inj (suc j) zero e = absurd (cons≢nil e)
unary_id_inj (suc j) (suc k) e = ap suc (unary_id_inj j k (tail-eq_of_cons-eq e))

unary_id-IsFresh : IsFresh unary_id new_manager
unfolding lookup
unary_id-IsFresh = record { unused = λ k. refl; injective = unary_id_inj }

perform-Reach_example : Reach new_manager (perform clock unary_id (cancel 3 "a") new_manager)
perform-Reach_example = perform-Reach clock unary_id unary_id-IsFresh (cancel 3 "a")

schedule_locked-Saturated_example : Saturated one_running
unfolding enqueue
schedule_locked-Saturated_example = schedule_locked-Saturated clock two_queued refl

abbrev next_pick : Pick
next_pick = record {
  id = "c";
  task = record blank_task { id = "c"; session_id = "r" };
  rest = "b" ∷ [];
}

pick-IsFirst_example :
    IsFirst
      (insert "c" (record blank_task { id = "c"; session_id = "r" }) one_running.tasks)
      one_running.running_session
      ("b" ∷ "c" ∷ [])
      next_pick
unfolding pick schedule_locked enqueue
pick-IsFirst_example =
    pick-IsFirst (insert "c" (record blank_task { id = "c"; session_id = "r" }) one_running.tasks)
      one_running.running_session ("b" ∷ "c" ∷ []) next_pick refl

abbrev started : Task
started = record first { state = running; started_at = 7; cancel = some false }

abbrev ended_badly : Task
ended_badly = ended 9 (some (other_error "lost")) started

finish-ended_example :
    (t : Task) × (lookup "a"
        (Running.finish 9 clock (some (other_error "lost")) "a" one_running).tasks
      ≡ some t)
    × Outcome 9 started (some (other_error "lost")) t
unfolding schedule_locked enqueue lookup
finish-ended_example =
    finish-ended 9 clock (some (other_error "lost")) "a" "s" started Reach-Inv_example refl refl

abbrev one_failed : Manager
one_failed = finish_locked 9 (some (other_error "lost")) "a" "s" started one_running

failed_steps : Reach new_manager one_failed
unfolding schedule_locked enqueue lookup
failed_steps = next running_steps (finishes 9 (some (other_error "lost")) "a" "s" started refl refl)

Step-final_example : Unchanged "a" ended_badly (dispose 11 one_failed).tasks
unfolding finish_locked schedule_locked enqueue lookup
Step-final_example = Step-final "a" ended_badly refl (disposes 11) (Reach-Inv failed_steps) refl

abbrev shut : Manager
shut = dispose 11 one_running
