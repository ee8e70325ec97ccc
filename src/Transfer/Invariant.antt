-- ===== src/Transfer/Invariant.antt =====
-- Queue, runs and counters agree with the tasks' states, and the caps hold.
use node_shell.Base.{
  ◌≤◌, String, ◌≡◌, refl, Bool, true, false, ◌||◌, Option, none, some, [], lookup, is_map, contains,
  distinct, length, if◌then◌else◌, arith,
}
use node_shell.Transfer.State.{
  Task, queued, running, finalizing, Manager, max_global, max_session, new_manager, running_of,
}
use node_shell.Transfer.Methods.{is_state}
use node_shell.Transfer.Counts.{count}

abbrev pub queued_in : Option Task → Bool
queued_in none = false
queued_in (some t) = is_state t.state queued

-- The session of a task whose transfer is under way.
abbrev pub active_in : Option Task → Option String
active_in none = none
active_in (some t) =
    if is_state t.state running || is_state t.state finalizing then some t.session_id else none

pub record Inv (m : Manager) : Type 0 where
  -- the history is a map
  pub tasks_distinct : is_map m.tasks ≡ true
  -- the queue holds the queued tasks, each once
  pub queue_exact : (id : String) → contains id m.queue ≡ queued_in (lookup id m.tasks)
  pub queue_distinct : distinct m.queue ≡ true
  -- the goroutines run the running and finalizing tasks, one each
  pub runs_exact : (id : String) → lookup id m.runs ≡ active_in (lookup id m.tasks)
  pub runs_distinct : is_map m.runs ≡ true
  -- the counters count them, and stay within the caps
  pub global_exact : m.running_global ≡ length m.runs
  pub global_cap : m.running_global ≤ max_global
  pub session_exact : (s : String) → running_of s m.running_session ≡ count s m.runs
  pub session_cap : (s : String) → count s m.runs ≤ max_session
  -- a closed manager queues nothing
  pub closed_empty : m.closed ≡ true → m.queue ≡ []

pub new_manager-Inv : Inv new_manager
unfolding contains lookup distinct is_map running_of count
new_manager-Inv = record {
  tasks_distinct = refl;
  queue_exact = λ id. refl;
  queue_distinct = refl;
  runs_exact = λ id. refl;
  runs_distinct = refl;
  global_exact = refl;
  global_cap = omega arith;
  session_exact = λ s. refl;
  session_cap = λ s. omega arith;
  closed_empty = λ h. refl;
}
