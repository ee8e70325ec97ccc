-- ===== src/Transfer/Final.antt =====
-- What never changes again: a finished task, and a closed manager.
use node_shell.Base.{
  ℕ, ◌≡◌, ◌⊎◌, inl, inr, refl, sym, ◌∙◌, length, ℤ, String, Bool, true, ◌||◌, some, none, Option,
  List, Dict, lookup, arith, Bool-cases, if_cases, ltb, ◌==◌, eq_iff, lookup-insert, lookup-delete,
  lookup-keep, suc, zero, Option-cases,
}
use node_shell.Transfer.State.{
  Task, TransferTaskDto, succeeded, failed, cancelled, Manager, max_global,
}
use node_shell.Transfer.Schedule.{Pick, pick, started, launch, schedule_loop, schedule_locked}
use node_shell.Transfer.Methods.{
  is_state, cancel_queued, dropped, signal, is_kept, clear, clear_found, clear_completed, dispose,
}
use node_shell.Transfer.Enqueue.{enqueue}
use node_shell.Transfer.Running.{on_progress, progressed, progress_found, finish_locked, ended}
use node_shell.Transfer.Invariant.{Inv, active_in}
use node_shell.Transfer.Picked.{IsPick, runnable-found, pick-IsPick}
use node_shell.Transfer.Sections.{launch-Inv}
use node_shell.Transfer.Disposal.{dispose-lookup}
use node_shell.Transfer.Reach.{
  Step, enqueues, emits, schedules, cancels_queued, signals, clears, clears_completed, disposes,
  progresses, finishes,
}

abbrev pub is_final : Task → Bool
is_final t = is_state t.state succeeded || is_state t.state failed || is_state t.state cancelled

-- A task in the history is as it was, or was removed.
abbrev pub Unchanged : String → Task → Dict Task → Type 0
Unchanged id t tasks = (lookup id tasks ≡ some t) ⊎ (lookup id tasks ≡ none)

module _ (id : String) (t : Task) (done : is_final t ≡ true) where
  launch-final :
      (now : ℕ) (p : Pick) {m : Manager} (h : Inv m)
      → IsPick m.tasks m.running_session m.queue p
      → lookup id m.tasks ≡ some t
      → lookup id (launch now p m).tasks ≡ some t
  unfolding launch
  launch-final now p {m} h q f =
      let (found, free) = runnable-found m.tasks m.running_session p.id p.task q.can_run in
      ground (
        arith,
        lookup-insert p.id id (started now p.task) m.tasks,
        h.queue_exact p.id,
        q.member,
        eq_iff p.id id,
      )

  schedule_loop-final :
      (fuel : ℕ) (clock : ℕ → ℕ) {m : Manager} (h : Inv m)
      → lookup id m.tasks ≡ some t
      → lookup id (schedule_loop fuel clock m).0.tasks ≡ some t
  unfolding schedule_loop
  schedule_loop-final zero clock h f = f
  schedule_loop-final (suc fuel) clock {m} h f =
      if_cases (λ (r : Manager × List TransferTaskDto). lookup id r.0.tasks ≡ some t)
        (ltb m.running_global max_global) _ _
        (λ room. elim (Option-cases (pick m.tasks m.running_session m.queue)) [
          | inl e ↦ rw (e, schedule_loop) f
          | inr (p, e) ↦
              let q = pick-IsPick m.tasks m.running_session m.queue p e in
              rw (e, schedule_loop)
                (schedule_loop-final fuel clock (launch-Inv h (clock fuel) p (ground arith) q)
                  (launch-final (clock fuel) p h q f))
        ])
        (λ full. f)

  pub schedule_locked-final :
      (clock : ℕ → ℕ) {m : Manager} (h : Inv m)
      → lookup id m.tasks ≡ some t
      → lookup id (schedule_locked clock m).0.tasks ≡ some t
  unfolding schedule_locked
  schedule_locked-final clock {m} h f =
      if_cases (λ (r : Manager × List TransferTaskDto). lookup id r.0.tasks ≡ some t) m.closed _ _
        (λ c. f) (λ o. schedule_loop-final (length m.queue) clock h f)

  progress-final :
      (x y : ℤ) (z : Bool) (j s : String) (m : Manager) (o : Option Task)
      → lookup j m.tasks ≡ o
      → active_in o ≡ some s
      → lookup id m.tasks ≡ some t
      → lookup id (progress_found x y z j m o).tasks ≡ some t
  progress-final x y z j s m none e a f = f
  progress-final x y z j s m (some u) e a f =
      ground (arith, lookup-insert j id (progressed x y z u) m.tasks, eq_iff j id)

  clear-final :
      (j : String) (m : Manager) (o : Option Task)
      → lookup id m.tasks ≡ some t
      → Unchanged id t (clear_found j m o).0.tasks
  clear-final j m none f = inl f
  clear-final j m (some u) f = elim (Bool-cases (j == id)) [
    | inl same ↦ ground (arith, lookup-delete j id m.tasks)
    | inr other ↦ ground (arith, lookup-delete j id m.tasks)
  ]

  dispose-final :
      (now : ℕ) {m : Manager} (h : Inv m)
      → lookup id m.tasks ≡ some t
      → lookup id (dispose now m).tasks ≡ some t
  unfolding dispose
  dispose-final now {m} h f =
      if_cases (λ (n : Manager). lookup id n.tasks ≡ some t) m.closed _ _ (λ c. f)
        (λ o. ground (arith, dispose-lookup now m.queue id m.tasks, h.queue_exact id))

  -- A succeeded, failed or cancelled task never changes again, whatever any caller does next: each
  -- step leaves it as it is, or removes it from the history.
  pub Step-final :
      {m n : Manager} → Step m n → Inv m → lookup id m.tasks ≡ some t → Unchanged id t n.tasks
  unfolding enqueue cancel_queued clear clear_completed on_progress finish_locked
  Step-final {m} (enqueues u q new o) h f =
      inl (ground (arith, lookup-insert u.id id u m.tasks, eq_iff u.id id))
  Step-final (emits dtos) h f = inl f
  Step-final {m} (schedules clock) h f = inl (schedule_locked-final clock h f)
  Step-final {m} (cancels_queued now j u g q) h f =
      inl (ground (arith, lookup-insert j id (dropped now u) m.tasks, eq_iff j id))
  Step-final {m} (signals j u g r) h f =
      inl (ground (arith, lookup-insert j id (signal u) m.tasks, eq_iff j id))
  Step-final {m} (clears j) h f = clear-final j m (lookup j m.tasks) f
  Step-final {m} clears_completed h f =
      ground (arith, lookup-keep is_kept id m.tasks, h.tasks_distinct)
  Step-final {m} (disposes now) h f = inl (dispose-final now h f)
  Step-final {m} (progresses x y z j s r) h f =
      inl (progress-final x y z j s m (lookup j m.tasks) refl (sym (h.runs_exact j) ∙ r) f)
  Step-final {m} (finishes now e j s u r g) h f =
      inl (ground (arith, lookup-insert j id (ended now e u) m.tasks, h.runs_exact j, eq_iff j id))
