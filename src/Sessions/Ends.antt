-- ===== src/Sessions/Ends.antt =====
-- internal/sessions/sessions.go: `recordFault`, `end`, `finish` and `disposeQuiet`, by their sections.
use node_shell.Base.{◌-◌, String, true, Option, none, some, lookup, insert, remove_first, Error}
use node_shell.Sessions.State.{
  Session, Phase, running, ending, removed, told, ended, quieting, quiet, closed_event, error_event,
  Manager, emit,
}

-- A change of a session that is there.
abbrev pub change_found : String → (Session → Session) → Manager → Option Session → Manager
change_found id f m none = m
change_found id f m (some s) = record m { objects = insert id (f s) m.objects }

unfoldable pub change : String → (Session → Session) → Manager → Manager
unfolding lookup insert
change id f m = change_found id f m (lookup id m.objects)

-- The first error stays.
abbrev pub first_of : Error → Option Error → Option Error
first_of e none = some e
first_of e (some first) = some first

abbrev pub faulted : Error → Session → Session
faulted e s = record s { first_fault = first_of e s.first_fault }

-- `recordFault`.
unfoldable pub record_fault : String → Option Error → Manager → Manager
unfolding change
record_fault id none m = m
record_fault id (some e) m = change id (faulted e) m

abbrev pub begun : Phase → Session → Session
begun phase s = record s { phase = phase; local_close = true }

abbrev pub in_phase : Phase → Session → Session
in_phase phase s = record s { phase = phase }

-- The sections of `finish`: the local close is marked and the connection closed; the session is taken
-- off the map; the error is told; the end is told. Each does nothing but in its turn.
abbrev pub begin_of : String → Phase → Manager → Option Session → Phase → Manager
begin_of id next m o running = record (change_found id (begun next) m o) {
  open_conns = m.open_conns - 1;
}
begin_of id next m o _ = m

abbrev pub phase_of : Option Session → Phase
phase_of none = quiet
phase_of (some s) = s.phase

unfoldable pub begin_end : String → Phase → Manager → Manager
unfolding lookup insert
begin_end id next m = begin_of id next m (lookup id m.objects) (phase_of (lookup id m.objects))

abbrev pub unlisted : String → Phase → Manager → Option Session → Manager
unlisted id next m o = record (change_found id (in_phase next) m o) {
  sessions = remove_first id m.sessions;
}

abbrev pub unlist_of : String → Manager → Option Session → Phase → Manager
unlist_of id m o ending = unlisted id removed m o
unlist_of id m o quieting = unlisted id quiet m o
unlist_of id m o _ = m

unfoldable pub unlist : String → Manager → Manager
unfolding lookup insert remove_first
unlist id m = unlist_of id m (lookup id m.objects) (phase_of (lookup id m.objects))

abbrev pub tell : String → Option Error → Manager → Manager
tell id none m = m
tell id (some e) m = emit (error_event id e) m

abbrev pub report_found : String → Manager → Option Session → Manager
report_found id m none = m
report_found id m (some s) =
    tell id s.first_fault (change_found id (in_phase (told s.first_fault)) m (some s))

abbrev pub report_of : String → Manager → Option Session → Phase → Manager
report_of id m o removed = report_found id m o
report_of id m o _ = m

unfoldable pub report : String → Manager → Manager
unfolding lookup insert
report id m = report_of id m (lookup id m.objects) (phase_of (lookup id m.objects))

abbrev pub announce_of : String → Manager → Option Session → Phase → Manager
announce_of id m o (told e) = emit (closed_event id) (change_found id (in_phase (ended e)) m o)
announce_of id m o _ = m

unfoldable pub announce : String → Manager → Manager
unfolding lookup insert
announce id m = announce_of id m (lookup id m.objects) (phase_of (lookup id m.objects))

-- The body of `endOnce`, if it has not begun.
unfoldable pub finish : String → Manager → Manager
unfolding begin_end unlist report announce
finish id m = announce id (report id (unlist id (begin_end id ending m)))

unfoldable pub end_session : String → Option Error → Manager → Manager
unfolding record_fault finish
end_session id e m = finish id (record_fault id e m)

unfoldable pub dispose_quiet : String → Manager → Manager
unfolding begin_end unlist
dispose_quiet id m = unlist id (begin_end id quieting m)
