-- ===== src/Transfer/Calls.antt =====
-- Every call of a method is a sequence of the manager's locked sections.
use node_shell.Base.{
  ℕ, ◌<◌, ◌≡◌, refl, String, false, ◌||◌, ◌&&◌, not, some, none, Option, List, [], ◌∷◌, Dict,
  Result, ok, err, lookup, insert, map, arith, if_cases, ◌==◌, eq_iff, length, lookup-insert,
}
use node_shell.Std.Paths.{base}
use node_shell.Transfer.State.{Task, queued, running, failed, cancelled, to_dto, Manager}
use node_shell.Transfer.Schedule.{schedule, schedule_locked}
use node_shell.Transfer.Enqueue.{
  Files, ValidFile, download_to, enqueue, enqueue_all, submit, upload_task, upload_tasks, validate,
  enqueue_valid, on_valid, download_task, on_target,
}
use node_shell.Transfer.Running.{RunError, ended, finish_locked, finish_found}
use node_shell.Transfer.Methods.{
  is_state, dropped, signal, cancel_queued, cancel_found, retry_task, retry_found,
}
use node_shell.Transfer.Methods
use node_shell.Transfer.Enqueue
use node_shell.Transfer.Running
use node_shell.Transfer.Reach.{
  Reach, here, next, enqueues, emits, schedules, cancels_queued, signals, clears, clears_completed,
  disposes, finishes,
}

-- What the UUID source promises: ids that no task has, each drawn once.
pub record IsFresh (ids : ℕ → String) (m : Manager) : Type 0 where
  pub unused : (k : ℕ) → lookup (ids k) m.tasks ≡ none
  pub injective : (j k : ℕ) → ids j ≡ ids k → j ≡ k

pub schedule-Reach : {m n : Manager} (clock : ℕ → ℕ) → Reach m n → Reach m (schedule clock n)
unfolding schedule
schedule-Reach {m} {n} clock r = next (next r (schedules clock)) (emits (schedule_locked clock n).1)

-- New tasks, each with an id that no task has when it is stored.
abbrev pub AllNew : List Task → Dict Task → Type 0
AllNew [] tasks = Unit
AllNew (t ∷ ts) tasks =
    (t.state ≡ queued) × (lookup t.id tasks ≡ none) × AllNew ts (insert t.id t tasks)

enqueue_all-Reach :
    (ts : List Task) {m n : Manager}
    → n.closed ≡ false
    → AllNew ts n.tasks
    → Reach m n
    → Reach m (enqueue_all ts n)
unfolding enqueue_all
enqueue_all-Reach [] o new r = r
enqueue_all-Reach (t ∷ ts) {n = n} o new r =
    enqueue_all-Reach ts {n = enqueue t n} o new.2 (next r (enqueues t new.0 new.1 o))

pub submit-Reach :
    (clock : ℕ → ℕ) (ts : List Task) (m : Manager)
    → m.closed ≡ false
    → AllNew ts m.tasks
    → Reach m (submit clock ts m)
unfolding submit
submit-Reach clock ts m o new =
    schedule-Reach clock (next (enqueue_all-Reach ts o new here) (emits (map to_dto ts)))

upload_tasks-AllNew :
    (session title dir : String) (now : ℕ) (ids : ℕ → String) (vs : List ValidFile)
    (tasks : Dict Task)
    → ((j k : ℕ) → ids j ≡ ids k → j ≡ k)
    → ((k : ℕ) → k < length vs → lookup (ids k) tasks ≡ none)
    → AllNew (upload_tasks session title dir now ids vs) tasks
unfolding upload_tasks
upload_tasks-AllNew session title dir now ids [] tasks inj new = tt
upload_tasks-AllNew session title dir now ids (v ∷ vs) tasks inj new =
    let t = upload_task session title dir now (ids (length vs)) v in
    (
      refl,
      new (length vs) (omega arith),
      upload_tasks-AllNew session title dir now ids vs (insert t.id t tasks) inj λ k below. ground (
        arith,
        lookup-insert t.id (ids k) t tasks,
        eq_iff t.id (ids k),
        inj (length vs) k,
        new k,
      ),
    )

-- A call of a method, or the end of a task's run, with the arguments it is made with.
pub data Call : Type 0 where
  enqueue_upload : Files → String → String → String → List String → ℕ → Call
  enqueue_download : Files → String → String → String → String → ℕ → Call
  cancel : ℕ → String → Call
  retry : ℕ → String → Call
  clear : String → Call
  clear_completed : Call
  dispose : ℕ → Call
  finish : ℕ → Option RunError → String → Call

-- The state after a call.
unfoldable pub perform : (ℕ → ℕ) → (ℕ → String) → Call → Manager → Manager
perform clock ids (enqueue_upload files session title dir paths now) m =
    (Enqueue.enqueue_upload files session title dir paths now clock ids m).0
perform clock ids (enqueue_download files session title remote local now) m =
    (Enqueue.enqueue_download files session title remote local now clock (ids 0) m).0
perform clock ids (cancel now id) m = (Methods.cancel now clock id m).0
perform clock ids (retry now id) m = (Methods.retry now clock (ids 0) id m).0
perform clock ids (clear id) m = (Methods.clear id m).0
perform clock ids clear_completed m = Methods.clear_completed m
perform clock ids (dispose now) m = Methods.dispose now m
perform clock ids (finish now e id) m = Running.finish now clock e id m

module _ (clock : ℕ → ℕ) (ids : ℕ → String) {m : Manager} (fresh : IsFresh ids m) where
  submit_one-Reach :
      (t : Task)
      → m.closed ≡ false
      → t.state ≡ queued
      → t.id ≡ ids 0
      → Reach m (submit clock (t ∷ []) m)
  submit_one-Reach t o q e = submit-Reach clock (t ∷ []) m o (q, rw e (fresh.unused 0), tt)

  upload-Reach :
      (session title dir : String) (now : ℕ) (r : Result (List ValidFile))
      → Reach m (on_valid (enqueue_valid session title dir now clock ids) r m).0
  upload-Reach session title dir now (err e) = here
  upload-Reach session title dir now (ok []) = here
  upload-Reach session title dir now (ok (v ∷ vs)) =
      if_cases (λ (r : Manager × Result (List String)). Reach m r.0) m.closed _ _ (λ c. here)
        (λ o. submit-Reach clock (upload_tasks session title dir now ids (v ∷ vs)) m o (
          upload_tasks-AllNew session title dir now ids (v ∷ vs) m.tasks fresh.injective
            (λ k b. fresh.unused k)))

  download-Reach :
      (session title remote name : String) (now : ℕ) (r : Result String)
      → Reach m (on_target (download_to session title remote name now clock (ids 0)) r m).0
  download-Reach session title remote name now (err e) = here
  download-Reach session title remote name now (ok safe) =
      if_cases (λ (r : Manager × Result String). Reach m r.0)
        (name == "" || name == "/" || name == ".") _ _ (λ x. here)
        (λ y.
          if_cases (λ (r : Manager × Result String). Reach m r.0) m.closed _ _ (λ c. here)
            (λ o.
              submit_one-Reach (download_task session title remote name safe now (ids 0)) o refl
                refl))

  cancel_found-Reach :
      (now : ℕ) (id : String) (o : Option Task)
      → lookup id m.tasks ≡ o
      → Reach m (cancel_found now clock id m o).0
  cancel_found-Reach now id none e = here
  cancel_found-Reach now id (some t) e =
      if_cases (λ (r : Manager × Result (Unit {0})). Reach m r.0) (is_state t.state queued) _ _
        (λ q. schedule-Reach clock (
          next (next here (cancels_queued now id t e (ground arith)))
            (emits (to_dto (dropped now t) ∷ []))))
        (λ x.
          if_cases (λ (r : Manager × Result (Unit {0})). Reach m r.0) (is_state t.state running) _ _
            (λ r. next here (signals id t e (ground arith))) (λ y. here))

  retry_found-Reach :
      (now : ℕ) (o : Option Task) → m.closed ≡ false → Reach m (retry_found now clock (ids 0) m o).0
  retry_found-Reach now none o = here
  retry_found-Reach now (some t) o =
      if_cases (λ (r : Manager × Result String). Reach m r.0)
        (not (is_state t.state failed) && not (is_state t.state cancelled)) _ _ (λ x. here)
        (λ y. submit_one-Reach (retry_task t now (ids 0)) o refl refl)

  finish_found-Reach :
      (now : ℕ) (e : Option RunError) (id : String) (r : Option String) (o : Option Task)
      → lookup id m.runs ≡ r
      → lookup id m.tasks ≡ o
      → Reach m (finish_found now clock e id r o m)
  finish_found-Reach now e id none o p q = here
  finish_found-Reach now e id (some s) none p q = here
  finish_found-Reach now e id (some s) (some t) p q =
      let ended_step = next here (finishes now e id s t p q) in
      if_cases (Reach m) m.closed _ _ (λ c. ended_step)
        (λ o. schedule-Reach clock (next ended_step (emits (to_dto (ended now e t) ∷ []))))

  -- Each call of a method, on every one of its branches, is a sequence of locked sections and
  -- emissions, given that the UUIDs it draws are new.
  pub perform-Reach : (c : Call) → Reach m (perform clock ids c m)
  unfolding perform Enqueue.enqueue_upload Enqueue.enqueue_download Methods.cancel Methods.retry
      Running.finish
  perform-Reach (enqueue_upload files session title dir paths now) =
      upload-Reach session title dir now (validate files paths)
  perform-Reach (enqueue_download files session title remote local now) =
      download-Reach session title remote (base remote) now (files.resolve_target local)
  perform-Reach (cancel now id) = cancel_found-Reach now id (lookup id m.tasks) refl
  perform-Reach (retry now id) =
      if_cases (λ (r : Manager × Result String). Reach m r.0) m.closed _ _ (λ c. here)
        (λ o. retry_found-Reach now (lookup id m.tasks) o)
  perform-Reach (clear id) = next here (clears id)
  perform-Reach clear_completed = next here clears_completed
  perform-Reach (dispose now) = next here (disposes now)
  perform-Reach (finish now e id) =
      finish_found-Reach now e id (lookup id m.runs) (lookup id m.tasks) refl refl
