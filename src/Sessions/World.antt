-- ===== src/Sessions/World.antt =====
-- The manager among the goroutines that use it: any order of the sections under its lock.
use node_shell.Base.{
  ◌+◌, ◌-◌, ◌≡◌, String, Bool, true, false, not, ◌&&◌, ◌||◌, none, some, List, [], ◌∷◌, ◌++◌,
  lookup, contains, Error, ◌==◌, if◌then◌else◌,
}
use node_shell.Sessions.State.{
  Conn, Phase, running, ending, told, ended, quieting, Event, data_event, closed_event, error_event,
  Manager, emit,
}
use node_shell.Sessions.Ends.{record_fault, begin_end, phase_of, unlist, report, announce}
use node_shell.Sessions.Connect.{enter, leave, register}
use node_shell.Sessions.Calls.{cancel_connect, close_gate}

-- Until when the batcher of a session delivers.
abbrev pub delivering : Phase → Bool
delivering running = true
delivering ending = true
delivering _ = false

-- The ids of sessions are new; a batcher delivers nothing once it is closed or discarded.
pub data Step (m : Manager) : Manager → Type 0 where
  enters : (connect_id : String) → Step m (enter connect_id m)
  leaves : (connect_id : String) → Step m (leave connect_id m)
  cancels : Step m (cancel_connect m)
  opens : Step m (record m { open_conns = m.open_conns + 1 })
  closes : Step m (record m { open_conns = m.open_conns - 1 })
  registers :
      (id host_id : String) (conn : Conn)
      → lookup id m.objects ≡ none
      → Step m (register id host_id conn m).0
  delivers :
      (id : String)
      → delivering (phase_of (lookup id m.objects)) ≡ true
      → Step m (emit (data_event id) m)
  faults : (id : String) (e : Error) → Step m (record_fault id (some e) m)
  ends : (id : String) → Step m (begin_end id ending m)
  quiets : (id : String) → Step m (begin_end id quieting m)
  unlists : (id : String) → Step m (unlist id m)
  reports : (id : String) → Step m (report id m)
  announces : (id : String) → Step m (announce id m)
  shuts : Step m (close_gate m)

pub data Reach (m : Manager) : Manager → Type 0 where
  here : Reach m m
  next : {n n' : Manager} → Reach m n → Step n n' → Reach m n'

-- What the trace says of a session.
abbrev pub about : String → Event → Bool
about id (data_event j) = j == id
about id (closed_event j) = j == id
about id (error_event j e) = j == id

abbrev pub closing_of : String → Event → Bool
closing_of id (data_event j) = false
closing_of id (closed_event j) = j == id
closing_of id (error_event j e) = false

abbrev pub error_of : String → Event → List Error
error_of id (data_event j) = []
error_of id (closed_event j) = []
error_of id (error_event j e) = if j == id then e ∷ [] else []

unfoldable pub has_closed : String → List Event → Bool
has_closed id [] = false
has_closed id (e ∷ es) = closing_of id e || has_closed id es

unfoldable pub none_about : String → List Event → Bool
none_about id [] = true
none_about id (e ∷ es) = not (about id e) && none_about id es

-- Nothing of the session follows the event that it is closed.
unfoldable pub silent_after : String → List Event → Bool
unfolding none_about
silent_after id [] = true
silent_after id (e ∷ es) =
    let rest = silent_after id es in if closing_of id e then none_about id es else rest

unfoldable pub errors_of : String → List Event → List Error
errors_of id [] = []
errors_of id (e ∷ es) = error_of id e ++ errors_of id es

abbrev pub told_errors : Phase → List Error
told_errors (told (some e)) = e ∷ []
told_errors (ended (some e)) = e ∷ []
told_errors _ = []

abbrev pub is_ended : Phase → Bool
is_ended (ended e) = true
is_ended _ = false

abbrev pub is_listed : Phase → Bool
is_listed running = true
is_listed ending = true
is_listed quieting = true
is_listed _ = false

-- The trace and the map agree with how far the end of a session has come.
pub record Told (m : Manager) (id : String) : Type 0 where
  pub silent : silent_after id m.events ≡ true
  pub closed : has_closed id m.events ≡ is_ended (phase_of (lookup id m.objects))
  pub errors : errors_of id m.events ≡ told_errors (phase_of (lookup id m.objects))
  pub listed : contains id m.sessions ≡ is_listed (phase_of (lookup id m.objects))
