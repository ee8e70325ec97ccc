-- ===== src/Transfer/Sections.antt =====
-- Each locked section of the manager keeps the invariant.
use node_shell.Base.{
  ℕ, zero, suc, ◌+◌, ◌<◌, ◌≡◌, refl, ap, String, Bool, true, false, some, none, Option, List, [],
  ◌∷◌, ℤ, lookup, insert, is_map, contains, remove_first, length, eq_iff, arith, Option-cases, inl,
  inr, lookup-insert, lookup-delete, is_map-delete, is_map-insert, length-delete, contains-append,
  contains-remove_first, distinct-remove_first, distinct-append_one, Bool-cases, if_cases, ltb,
}
use node_shell.Transfer.State.{
  Task, queued, TransferTaskDto, Manager, max_global, running_of, emit_all, to_dto,
}
use node_shell.Transfer.Schedule.{Pick, pick, started, launch, schedule_loop, schedule_locked}
use node_shell.Transfer.Running.{
  RunError, progress_found, progressed, on_progress, ended, finish_locked,
}
use node_shell.Transfer.Enqueue.{enqueue}
use node_shell.Transfer.Methods.{dropped, cancel_queued}
use node_shell.Transfer.Counts.{count, count-delete, running_of-insert, running_of-release}
use node_shell.Transfer.Invariant.{Inv, queued_in, active_in}
use node_shell.Transfer.Picked.{IsPick, runnable-found, pick-IsPick}

module _ {m : Manager} (h : Inv m) where
  pub enqueue-Inv :
      (t : Task)
      → t.state ≡ queued
      → lookup t.id m.tasks ≡ none
      → m.closed ≡ false
      → Inv (enqueue t m)
  unfolding enqueue contains
  enqueue-Inv t q new o = record {
    tasks_distinct = is_map-insert t.id t m.tasks h.tasks_distinct;
    queue_exact = λ id. ground (
      arith,
      h.queue_exact id,
      contains-append id m.queue (t.id ∷ []),
      eq_iff t.id id,
      lookup-insert t.id id t m.tasks,
    );
    queue_distinct =
        distinct-append_one t.id m.queue h.queue_distinct (ground (arith, h.queue_exact t.id));
    runs_exact =
        λ id. ground (arith, h.runs_exact id, lookup-insert t.id id t m.tasks, eq_iff t.id id);
    runs_distinct = h.runs_distinct;
    global_exact = h.global_exact;
    global_cap = h.global_cap;
    session_exact = h.session_exact;
    session_cap = h.session_cap;
    closed_empty = λ c. cc;
  }

  pub cancel_queued-Inv :
      (now : ℕ) (id : String) (t : Task)
      → lookup id m.tasks ≡ some t
      → t.state ≡ queued
      → Inv (cancel_queued now id t m)
  unfolding cancel_queued remove_first
  cancel_queued-Inv now id t f q = record {
    tasks_distinct = is_map-insert id (dropped now t) m.tasks h.tasks_distinct;
    queue_exact = λ j. ground (
      arith,
      h.queue_exact j,
      h.queue_distinct,
      contains-remove_first id j m.queue,
      lookup-insert id j (dropped now t) m.tasks,
    );
    queue_distinct = distinct-remove_first id m.queue h.queue_distinct;
    runs_exact = λ j.
        ground (arith, h.runs_exact j, lookup-insert id j (dropped now t) m.tasks, eq_iff id j);
    runs_distinct = h.runs_distinct;
    global_exact = h.global_exact;
    global_cap = h.global_cap;
    session_exact = h.session_exact;
    session_cap = h.session_cap;
    closed_empty = λ c. ap (remove_first id) (h.closed_empty c);
  }

  -- A change of a task that keeps its session, and whether it is queued and under way.
  pub replace-Inv :
      (id : String) (t t' : Task)
      → lookup id m.tasks ≡ some t
      → queued_in (some t') ≡ queued_in (some t)
      → active_in (some t') ≡ active_in (some t)
      → Inv (record m { tasks = insert id t' m.tasks })
  replace-Inv id t t' f q a = record {
    tasks_distinct = is_map-insert id t' m.tasks h.tasks_distinct;
    queue_exact = λ j. ground (arith, h.queue_exact j, lookup-insert id j t' m.tasks, eq_iff id j);
    runs_exact = λ j. ground (arith, h.runs_exact j, lookup-insert id j t' m.tasks, eq_iff id j);
    queue_distinct = h.queue_distinct;
    runs_distinct = h.runs_distinct;
    global_exact = h.global_exact;
    global_cap = h.global_cap;
    session_exact = h.session_exact;
    session_cap = h.session_cap;
    closed_empty = h.closed_empty;
  }

  pub launch-Inv :
      (now : ℕ) (p : Pick)
      → m.running_global < max_global
      → IsPick m.tasks m.running_session m.queue p
      → Inv (launch now p m)
  unfolding launch contains is_map count
  launch-Inv now p room q =
      let (found, free) = runnable-found m.tasks m.running_session p.id p.task q.can_run in
      let waits : queued_in (some p.task) ≡ true =
        ground (arith, h.queue_exact p.id, q.member, found) in
      record {
        tasks_distinct = is_map-insert p.id (started now p.task) m.tasks h.tasks_distinct;
        queue_exact = λ j. ground (
          arith,
          h.queue_exact j,
          h.queue_distinct,
          q.rest,
          contains-remove_first p.id j m.queue,
          lookup-insert p.id j (started now p.task) m.tasks,
        );
        queue_distinct =
            ground (arith, q.rest, h.queue_distinct, distinct-remove_first p.id m.queue);
        runs_exact = λ j. ground (
          arith,
          h.runs_exact j,
          lookup-insert p.id j (started now p.task) m.tasks,
          eq_iff p.id j,
        );
        runs_distinct = ground (arith, h.runs_exact p.id, h.runs_distinct, found, waits);
        global_exact = omega (arith, h.global_exact);
        global_cap = omega arith;
        session_exact = λ s. ground (
          arith,
          h.session_exact s,
          eq_iff p.task.session_id s,
          running_of-insert p.task.session_id s (running_of p.task.session_id m.running_session + 1)
              m.running_session,
        );
        session_cap = λ s.
            ground (arith, h.session_cap s, h.session_exact s, free, eq_iff p.task.session_id s);
        closed_empty = λ c. cc (h.closed_empty c, q.member);
      }

  pub finish_locked-Inv :
      (now : ℕ) (e : Option RunError) (id session : String) (t : Task)
      → lookup id m.runs ≡ some session
      → lookup id m.tasks ≡ some t
      → Inv (finish_locked now e id session t m)
  unfolding finish_locked
  finish_locked-Inv now e id session t r f = record {
    tasks_distinct = is_map-insert id (ended now e t) m.tasks h.tasks_distinct;
    queue_exact = λ j. ground (
      arith,
      h.queue_exact j,
      h.runs_exact id,
      lookup-insert id j (ended now e t) m.tasks,
      eq_iff id j,
    );
    queue_distinct = h.queue_distinct;
    runs_exact = λ j. ground (
      arith,
      h.runs_exact j,
      lookup-delete id j m.runs,
      lookup-insert id j (ended now e t) m.tasks,
    );
    runs_distinct = is_map-delete id m.runs h.runs_distinct;
    global_exact = ground (arith, h.global_exact, h.runs_distinct, length-delete id m.runs);
    global_cap = omega (arith, h.global_cap);
    session_exact = λ s. ground (
      arith,
      h.session_exact s,
      running_of-release session s m.running_session,
      h.runs_distinct,
      count-delete s id session m.runs,
      eq_iff session s,
    );
    session_cap =
        λ s. ground (arith, h.session_cap s, h.runs_distinct, count-delete s id session m.runs);
    closed_empty = h.closed_empty;
  }

module _ (clock : ℕ → ℕ) where
  pub schedule_loop-Inv : (fuel : ℕ) {m : Manager} → Inv m → Inv (schedule_loop fuel clock m).0
  unfolding schedule_loop
  schedule_loop-Inv zero h = h
  schedule_loop-Inv (suc fuel) {m} h = elim (Bool-cases (ltb m.running_global max_global)) [
    | inl room ↦ elim (Option-cases (pick m.tasks m.running_session m.queue)) [
      | inl e ↦ rw (room, e, schedule_loop) h
      | inr (p, e) ↦
          rw (room, e, schedule_loop)
            (schedule_loop-Inv fuel (
              launch-Inv h (clock fuel) p (ground arith)
                (pick-IsPick m.tasks m.running_session m.queue p e)))
    ]
    | inr full ↦ rw full h
  ]

  pub schedule_locked-Inv : {m : Manager} → Inv m → Inv (schedule_locked clock m).0
  unfolding schedule_locked
  schedule_locked-Inv {m} h =
      if_cases (λ (r : Manager × List TransferTaskDto). Inv r.0) m.closed _ _ (λ c. h)
        (λ o. schedule_loop-Inv (length m.queue) h)

module _ {m : Manager} (h : Inv m) where
  pub emit_all-Inv : (dtos : List TransferTaskDto) → Inv (emit_all dtos m)
  emit_all-Inv dtos = record {
    tasks_distinct = h.tasks_distinct;
    queue_exact = h.queue_exact;
    queue_distinct = h.queue_distinct;
    runs_exact = h.runs_exact;
    runs_distinct = h.runs_distinct;
    global_exact = h.global_exact;
    global_cap = h.global_cap;
    session_exact = h.session_exact;
    session_cap = h.session_cap;
    closed_empty = h.closed_empty;
  }

module _ (transferred total : ℤ) (finalize : Bool) (id : String) {m : Manager} (h : Inv m) where
  progress_found-Inv :
      (o : Option Task)
      → lookup id m.tasks ≡ o
      → Inv (progress_found transferred total finalize id m o)
  progress_found-Inv none e = h
  progress_found-Inv (some t) e =
      let t' = progressed transferred total finalize t in
      let h' = replace-Inv h id t t' e (ground arith) (ground arith) in
      if_cases Inv m.closed _ _ (λ c. h') (λ o. emit_all-Inv h' (to_dto t' ∷ []))

  pub on_progress-Inv : Inv (on_progress transferred total finalize id m)
  unfolding on_progress
  on_progress-Inv = progress_found-Inv (lookup id m.tasks) refl
