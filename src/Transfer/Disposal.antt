-- ===== src/Transfer/Disposal.antt =====
-- Removal of finished tasks, and the manager's disposal, keep the invariant.
use node_shell.Base.{
  ℕ, ◌≡◌, refl, String, Bool, true, false, some, none, Option, List, [], ◌∷◌, Dict, lookup, delete,
  contains, distinct, ◌==◌, eq_iff, arith, is_map, is_map-insert, is_map-keep, is_map-delete,
  lookup-keep, Option-cases, Bool-cases, inl, inr, ap, ◌∙◌, if◌then◌else◌, lookup-insert,
  lookup-delete, ◌||◌,
}
use node_shell.Transfer.State.{Task, queued, running, finalizing, Manager}
use node_shell.Transfer.Methods.{
  is_state, dropped, signal, is_kept, clear, clear_found, clear_completed, drop_one, drop_queued,
  signal_running, dispose,
}
use node_shell.Transfer.Invariant.{Inv, queued_in, active_in}

-- A history without a task that is neither queued nor under way.
pub delete-Inv :
    {m : Manager} (h : Inv m) (id : String)
    → queued_in (lookup id m.tasks) ≡ false
    → active_in (lookup id m.tasks) ≡ none
    → Inv (record m { tasks = delete id m.tasks })
delete-Inv {m} h id q a = record {
  tasks_distinct = is_map-delete id m.tasks h.tasks_distinct;
  queue_exact = λ j. ground (arith, h.queue_exact j, lookup-delete id j m.tasks, eq_iff id j);
  runs_exact = λ j. ground (arith, h.runs_exact j, lookup-delete id j m.tasks, eq_iff id j);
  queue_distinct = h.queue_distinct;
  runs_distinct = h.runs_distinct;
  global_exact = h.global_exact;
  global_cap = h.global_cap;
  session_exact = h.session_exact;
  session_cap = h.session_cap;
  closed_empty = h.closed_empty;
}

clear_found-Inv :
    {m : Manager} (h : Inv m) (id : String) (o : Option Task)
    → lookup id m.tasks ≡ o
    → Inv (clear_found id m o).0
clear_found-Inv h id none e = h
clear_found-Inv h id (some t) e =
    elim (Bool-cases
      (is_state t.state queued || is_state t.state running || is_state t.state finalizing)) [
        | inl b ↦ simp b h
        | inr b ↦ simp b (delete-Inv h id (ground arith) (ground arith))
      ]

pub clear-Inv : {m : Manager} (h : Inv m) (id : String) → Inv (clear id m).0
unfolding clear
clear-Inv {m} h id = clear_found-Inv h id (lookup id m.tasks) refl

pub clear_completed-Inv : {m : Manager} → Inv m → Inv (clear_completed m)
unfolding clear_completed
clear_completed-Inv {m} h = record {
  tasks_distinct = is_map-keep is_kept m.tasks h.tasks_distinct;
  queue_exact =
      λ j. ground (arith, h.queue_exact j, h.tasks_distinct, lookup-keep is_kept j m.tasks);
  runs_exact = λ j. ground (arith, h.runs_exact j, h.tasks_distinct, lookup-keep is_kept j m.tasks);
  queue_distinct = h.queue_distinct;
  runs_distinct = h.runs_distinct;
  global_exact = h.global_exact;
  global_cap = h.global_cap;
  session_exact = h.session_exact;
  session_cap = h.session_cap;
  closed_empty = h.closed_empty;
}

-- The tasks after the queue was dropped.
abbrev dropped_in : ℕ → Bool → Option Task → Option Task
dropped_in now false o = o
dropped_in now true none = none
dropped_in now true (some t) = some (dropped now t)

drop_one-lookup :
    (now : ℕ) (id j : String) (tasks : Dict Task)
    → lookup j (drop_one now id (lookup id tasks) tasks) ≡ dropped_in now (id == j) (lookup j tasks)
drop_one-lookup now id j tasks = elim (Option-cases (lookup id tasks)) [
  | inl e ↦ rw e (ground (arith, eq_iff id j))
  | inr (t, e) ↦ rw e (ground (arith, lookup-insert id j (dropped now t) tasks, eq_iff id j))
]

drop_queued-lookup :
    (now : ℕ) (queue : List String) (j : String) (tasks : Dict Task)
    → lookup j (drop_queued now queue tasks) ≡ dropped_in now (contains j queue) (lookup j tasks)
unfolding drop_queued contains
drop_queued-lookup now [] j tasks = refl
drop_queued-lookup now (id ∷ queue) j tasks = ground (
  arith,
  drop_queued-lookup now queue j (drop_one now id (lookup id tasks) tasks),
  drop_one-lookup now id j tasks,
)

abbrev signalled : Option Task → Option Task
signalled none = none
signalled (some t) = some (if is_state t.state running then signal t else t)

signal_running-lookup :
    (j : String) (tasks : Dict Task) → lookup j (signal_running tasks) ≡ signalled (lookup j tasks)
unfolding signal_running lookup
signal_running-lookup j [] = refl
signal_running-lookup j ((i, t) ∷ tasks) = ground (arith, signal_running-lookup j tasks)

signal_running-distinct :
    (tasks : Dict Task) → is_map tasks ≡ true → is_map (signal_running tasks) ≡ true
unfolding signal_running is_map
signal_running-distinct [] h = refl
signal_running-distinct ((i, t) ∷ tasks) h =
    ground (arith, signal_running-distinct tasks, signal_running-lookup i tasks)

drop_queued-distinct :
    (now : ℕ) (queue : List String) (tasks : Dict Task)
    → is_map tasks ≡ true
    → is_map (drop_queued now queue tasks) ≡ true
unfolding drop_queued
drop_queued-distinct now [] tasks h = h
drop_queued-distinct now (id ∷ queue) tasks h =
    drop_queued-distinct now queue (drop_one now id (lookup id tasks) tasks) (one (lookup id tasks))
  where
    one : (o : Option Task) → is_map (drop_one now id o tasks) ≡ true
    one none = h
    one (some t) = is_map-insert id (dropped now t) tasks h

pub dispose-lookup :
    (now : ℕ) (queue : List String) (j : String) (tasks : Dict Task)
    → lookup j (signal_running (drop_queued now queue tasks))
      ≡ signalled (dropped_in now (contains j queue) (lookup j tasks))
dispose-lookup now queue j tasks =
    signal_running-lookup j (drop_queued now queue tasks)
    ∙ ap signalled (drop_queued-lookup now queue j tasks)

pub dispose-Inv : (now : ℕ) {m : Manager} → Inv m → Inv (dispose now m)
unfolding dispose
dispose-Inv now {m} h = elim (Bool-cases m.closed) [
  | inl c ↦ simp c h
  | inr o ↦ simp o (record {
    tasks_distinct =
        signal_running-distinct (drop_queued now m.queue m.tasks)
          (drop_queued-distinct now m.queue m.tasks h.tasks_distinct);
    queue_exact = λ j.
        unfold contains in ground (arith, h.queue_exact j, dispose-lookup now m.queue j m.tasks);
    runs_exact =
        λ j. ground (arith, h.runs_exact j, h.queue_exact j, dispose-lookup now m.queue j m.tasks);
    queue_distinct = unfold distinct in refl;
    runs_distinct = h.runs_distinct;
    global_exact = h.global_exact;
    global_cap = h.global_cap;
    session_exact = h.session_exact;
    session_cap = h.session_cap;
    closed_empty = λ c. refl;
  })
]
