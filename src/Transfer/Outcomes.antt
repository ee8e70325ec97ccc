-- ===== src/Transfer/Outcomes.antt =====
-- What a failed call changes, what the end of a run leaves, and what a disposal stops.
use node_shell.Base.{
  ℕ, ◌≡◌, refl, String, Bool, true, false, some, none, Option, List, [], ◌∷◌, ℤ, Error, Result, ok,
  err, lookup, insert, arith, if_cases, eq_refl, not, ◌&&◌, inl, inr, ◌⊎◌, is_positive,
  lookup-insert, if◌then◌else◌,
}
use node_shell.Std.Paths.{base}
use node_shell.Transfer.State.{
  Task, queued, running, finalizing, succeeded, failed, cancelled, to_dto, Manager,
}
use node_shell.Transfer.Schedule.{schedule}
use node_shell.Transfer.Enqueue.{
  ValidFile, validate, enqueue_valid, on_valid, on_target, download_to, enqueue,
}
use node_shell.Transfer.Running.{
  RunError, context_error, other_error, is_done, ended, finish_locked, finish_found, on_progress,
  progress_found,
}
use node_shell.Transfer.Methods.{
  is_state, dropped, signal, cancel_found, retry_found, clear_found, dispose, cancel_queued,
  clear_completed,
}
use node_shell.Transfer.Methods
use node_shell.Transfer.Enqueue
use node_shell.Transfer.Running
use node_shell.Transfer.Invariant.{Inv}
use node_shell.Transfer.Sections.{finish_locked-Inv, emit_all-Inv}
use node_shell.Transfer.Disposal.{dispose-lookup}
use node_shell.Transfer.Final.{is_final, schedule_locked-final}
use node_shell.Transfer.Calls.{
  Call, enqueue_upload, enqueue_download, cancel, retry, clear,
  clear_completed as clear_completed_call, dispose as dispose_call, finish, perform,
}

abbrev pub error_of {ℓ} : {A : Type ℓ} → Result A → Option Error
error_of (ok a) = none
error_of (err e) = some e

-- The error that a call returns, if it returns one.
unfoldable pub call_error : (ℕ → ℕ) → (ℕ → String) → Call → Manager → Option Error
call_error clock ids (enqueue_upload files session title dir paths now) m =
    error_of (Enqueue.enqueue_upload files session title dir paths now clock ids m).1
call_error clock ids (enqueue_download files session title remote local now) m =
    error_of (Enqueue.enqueue_download files session title remote local now clock (ids 0) m).1
call_error clock ids (cancel now id) m = error_of (Methods.cancel now clock id m).1
call_error clock ids (retry now id) m = error_of (Methods.retry now clock (ids 0) id m).1
call_error clock ids (clear id) m = error_of (Methods.clear id m).1
call_error clock ids clear_completed_call m = none
call_error clock ids (dispose_call now) m = none
call_error clock ids (finish now e id) m = none

module _ (clock : ℕ → ℕ) (ids : ℕ → String) (m : Manager) where
  upload-error :
      (session title dir : String) (now : ℕ) (r : Result (List ValidFile)) (e : Error)
      → error_of (on_valid (enqueue_valid session title dir now clock ids) r m).1 ≡ some e
      → (on_valid (enqueue_valid session title dir now clock ids) r m).0 ≡ m
  upload-error session title dir now (err x) e h = refl
  upload-error session title dir now (ok []) e h = refl
  upload-error session title dir now (ok (v ∷ vs)) e h = ground arith

  download-error :
      (session title remote name : String) (now : ℕ) (r : Result String) (e : Error)
      → error_of (on_target (download_to session title remote name now clock (ids 0)) r m).1
        ≡ some e
      → (on_target (download_to session title remote name now clock (ids 0)) r m).0 ≡ m
  download-error session title remote name now (err x) e h = refl
  download-error session title remote name now (ok safe) e h = ground arith

  cancel-error :
      (now : ℕ) (id : String) (o : Option Task) (e : Error)
      → error_of (cancel_found now clock id m o).1 ≡ some e
      → (cancel_found now clock id m o).0 ≡ m
  cancel-error now id none e h = refl
  cancel-error now id (some t) e h = ground arith

  retry-error :
      (now : ℕ) (o : Option Task) (e : Error)
      → error_of (retry_found now clock (ids 0) m o).1 ≡ some e
      → (retry_found now clock (ids 0) m o).0 ≡ m
  retry-error now none e h = refl
  retry-error now (some t) e h = ground arith

  clear-error :
      (id : String) (o : Option Task) (e : Error)
      → error_of (clear_found id m o).1 ≡ some e
      → (clear_found id m o).0 ≡ m
  clear-error id none e h = refl
  clear-error id (some t) e h = ground arith

  -- A call that returns an error has changed nothing and emitted nothing.
  pub call_error_changes_nothing :
      (c : Call) (e : Error) → call_error clock ids c m ≡ some e → perform clock ids c m ≡ m
  unfolding call_error perform Enqueue.enqueue_upload Enqueue.enqueue_download Methods.cancel
      Methods.retry Methods.clear
  call_error_changes_nothing (enqueue_upload files session title dir paths now) e h =
      upload-error session title dir now (validate files paths) e h
  call_error_changes_nothing (enqueue_download files session title remote local now) e h =
      download-error session title remote (base remote) now (files.resolve_target local) e h
  call_error_changes_nothing (cancel now id) e h = cancel-error now id (lookup id m.tasks) e h
  call_error_changes_nothing (retry now id) e h =
      if_cases (λ (r : Manager × Result String). error_of r.1 ≡ some e → r.0 ≡ m) m.closed _ _
        (λ c x. refl) (λ o. retry-error now (lookup id m.tasks) e) h
  call_error_changes_nothing (clear id) e h = clear-error id (lookup id m.tasks) e h
  call_error_changes_nothing clear_completed_call e h = cc
  call_error_changes_nothing (dispose_call now) e h = cc
  call_error_changes_nothing (finish now x id) e h = cc

-- What a run leaves of its task, for each way in which the engine may end: the task as it was, with a
-- time and a final state.
pub data Outcome (now : ℕ) (t : Task) : Option RunError → Task → Type 0 where
  complete :
      is_positive t.total ≡ true
      → Outcome now t none
          (record t { finished_at = now; state = succeeded; transferred = t.total })
  complete_unmeasured :
      is_positive t.total ≡ false
      → Outcome now t none (record t { finished_at = now; state = succeeded })
  called_off :
      Outcome now t (some context_error) (record t { finished_at = now; state = cancelled })
  interrupted :
      (message : String)
      → t.cancel ≡ some true
      → is_state t.state finalizing ≡ false
      → Outcome now t
          (some (other_error message))
          (record t { finished_at = now; state = cancelled })
  broken :
      (message : String)
      → (t.cancel ≡ none) ⊎ (t.cancel ≡ some false) ⊎ (is_state t.state finalizing ≡ true)
      → Outcome now t
          (some (other_error message))
          (record t { finished_at = now; state = failed; error = message })

ended-Outcome : (now : ℕ) (t : Task) (e : Option RunError) → Outcome now t e (ended now e t)
ended-Outcome now t none =
    if_cases
      (λ (x : ℤ).
        Outcome now t none (record t { finished_at = now; state = succeeded; transferred = x }))
      (is_positive t.total) _ _ complete complete_unmeasured
ended-Outcome now t (some context_error) = called_off
ended-Outcome now t (some (other_error message)) =
    if_cases (Outcome now t (some (other_error message)))
      (is_done t.cancel && not (is_state t.state finalizing)) _ _
      (λ e. interrupted message (done t.cancel (ground arith)) (ground arith))
      (λ e. broken message (live t.cancel (ground arith)))
  where
    done : (o : Option Bool) → is_done o ≡ true → o ≡ some true
    done none e = absurd (ground arith)
    done (some true) e = refl
    done (some false) e = absurd (ground arith)

    live :
        (o : Option Bool)
        → (is_done o && not (is_state t.state finalizing)) ≡ false
        → (o ≡ none) ⊎ (o ≡ some false) ⊎ (is_state t.state finalizing ≡ true)
    live none e = inl refl
    live (some false) e = inr (inl refl)
    live (some true) e = inr (inr (ground arith))

ended-final : (now : ℕ) (e : Option RunError) (t : Task) → is_final (ended now e t) ≡ true
ended-final now e t = ground arith

module _ (now : ℕ) (clock : ℕ → ℕ) (e : Option RunError) (id s : String) (t : Task) {m : Manager}
    (h : Inv m) where
  after_run :
      lookup id m.runs ≡ some s → lookup id m.tasks ≡ some t → Inv (finish_locked now e id s t m)
  after_run p q = finish_locked-Inv h now e id s t p q

  finish_found-lookup :
      lookup id m.runs ≡ some s
      → lookup id m.tasks ≡ some t
      → lookup id (finish_found now clock e id (some s) (some t) m).tasks ≡ some (ended now e t)
  unfolding schedule finish_locked
  finish_found-lookup p q =
      let stored : lookup id (insert id (ended now e t) m.tasks) ≡ some (ended now e t) =
        ground (arith, lookup-insert id id (ended now e t) m.tasks, eq_refl id) in
      if_cases (λ (n : Manager). lookup id n.tasks ≡ some (ended now e t)) m.closed _ _
        (λ c. stored)
        (λ o.
          schedule_locked-final id (ended now e t) (ended-final now e t) clock
            (emit_all-Inv (after_run p q) (to_dto (ended now e t) ∷ [])) stored)

  -- After the end of a run of a manager that meets the invariant, scheduling included, its task is
  -- there and ended as it should: it succeeded, its total reached, if the engine reports no error; it
  -- is cancelled if the engine reports its context's error, or another while the context is over and
  -- the task is not finalizing; it failed with the engine's message otherwise.
  pub finish-ended :
      lookup id m.runs ≡ some s
      → lookup id m.tasks ≡ some t
      → (t' : Task) × (lookup id (Running.finish now clock e id m).tasks ≡ some t')
        × Outcome now t e t'
  unfolding Running.finish
  finish-ended p q = (ended now e t, rw (p, q) (finish_found-lookup p q), ended-Outcome now t e)

-- A disposal, of a manager that is open: every queued task is cancelled, the context of every
-- running one is ended, a finalizing one is left to finish, and the rest is as it was.
abbrev pub disposed_in : ℕ → Task → Task
disposed_in now t =
    if is_state t.state queued
    then dropped now t
    else if is_state t.state running
    then signal t
    else t

pub dispose-lookup_lem :
    (now : ℕ) (id : String) (t : Task) {m : Manager}
    → Inv m
    → m.closed ≡ false
    → lookup id m.tasks ≡ some t
    → lookup id (dispose now m).tasks ≡ some (disposed_in now t)
unfolding dispose
dispose-lookup_lem now id t {m} h o f =
    simp o (ground (arith, dispose-lookup now m.queue id m.tasks, h.queue_exact id))
