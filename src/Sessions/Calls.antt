-- ===== src/Sessions/Calls.antt =====
-- internal/sessions/sessions.go: the calls on a session, the pumps, `CancelConnect` and `DisposeAll`.
use Prim.Native.String.{◌++◌ as ◌+++◌}
use node_shell.Base.{
  String, Bool, true, false, not, Option, none, some, List, [], ◌∷◌, Dict, lookup, contains, Error,
  Result, ok, err, if◌then◌else◌, is_some,
}
use node_shell.Apperror.{unknown, session_not_found}
use node_shell.Sessions.State.{WireError, Conn, Session, Manager, classify_end_error, error_code}
use node_shell.Sessions.Ends.{end_session, dispose_quiet}

-- `get`: the session, if the map has it.
unfoldable pub get : String → Manager → Option Session
unfolding contains lookup
get id m = if contains id m.sessions then lookup id m.objects else none

abbrev pub not_found : String → Error
not_found id = record { code = session_not_found; message = "Session not found: " +++ id }

abbrev pub plain : WireError → Error
plain e = record { code = error_code e.coded; message = e.text }

abbrev pub local_of : Option Session → Bool
local_of none = false
local_of (some s) = s.local_close

-- An error of a session's stream or connection ends it, unless it is a normal end.
unfoldable pub end_by : String → Option WireError → Manager → Manager
unfolding lookup classify_end_error end_session
end_by id e m = end_session id (classify_end_error (local_of (lookup id m.objects)) e) m

-- The end of a pump.
unfoldable pub pump_error : String → WireError → Manager → Manager
unfolding end_by
pump_error id e m = if e.is_plain_eof then m else end_by id (some e) m

-- The part of `Session.Write` on an error: only a fault ends the session.
abbrev pub write_fault : String → Option Error → Manager → Manager
write_fault id none m = m
write_fault id (some e) m = end_session id (some e) m

-- `Write`, with the answer of the connection.
abbrev pub write_found :
    String → Option WireError → Manager → Option Session → Manager × Option Error
write_found id answer m none = (m, some (not_found id))
write_found id none m (some s) = (m, none)
write_found id (some e) m (some s) =
    (write_fault id (classify_end_error s.local_close (some e)) m, some (plain e))

unfoldable pub write : String → Option WireError → Manager → Manager × Option Error
unfolding get classify_end_error end_session error_code
write id answer m = write_found id answer m (get id m)

abbrev pub resize_found : String → Option Error → Option Session → Option Error
resize_found id answer none = some (not_found id)
resize_found id answer (some s) = answer

unfoldable pub resize : String → Option Error → Manager → Option Error
unfolding get
resize id answer m = resize_found id answer (get id m)

unfoldable pub disconnect : String → Manager → Manager
unfolding get end_session
disconnect id m = if is_some (get id m) then end_session id none m else m

abbrev pub host_of : Option Session → Option String
host_of none = none
host_of (some s) = some s.host_id

unfoldable pub host_id : String → Manager → Option String
unfolding get
host_id id m = host_of (get id m)

-- The three calls that a connection may not be able to make, with the connection's answer.
abbrev pub provided :
    {A : Type 0} → String → (Conn → Bool) → String → Result A → Option Session → Result A
provided id able message answer none = err (not_found id)
provided id able message answer (some s) =
    if not (able s.conn) then err (record { code = unknown; message = message }) else answer

unfoldable pub new_sftp_client : {A : Type 0} → String → Result A → Manager → Result A
unfolding get
new_sftp_client id answer m =
    provided id (λ c. c.opens_sftp) "SFTP is unavailable for this session" answer (get id m)

unfoldable pub exec : String → Result String → Manager → Result String
unfolding get
exec id answer m =
    provided id (λ c. c.runs_exec) "Exec is unavailable for this session" answer (get id m)

unfoldable pub can_dial : String → Manager → Result (Unit {0})
unfolding get
can_dial id m =
    provided id (λ c. c.dials) "Port forwarding is unavailable for this session" (ok tt) (get id m)

unfoldable pub dial : {A : Type 0} → String → Result A → Manager → Result A
unfolding get
dial id answer m =
    provided id (λ c. c.dials) "Port forwarding is unavailable for this session" answer (get id m)

unfoldable pub all_cancelled : Dict Bool → Dict Bool
all_cancelled [] = []
all_cancelled ((id, over) ∷ rest) = (id, true) ∷ all_cancelled rest

unfoldable pub cancel_connect : Manager → Manager
unfolding all_cancelled
cancel_connect m = record m { inflight = all_cancelled m.inflight }

unfoldable pub dispose_each : List String → Manager → Manager
unfolding dispose_quiet
dispose_each [] m = m
dispose_each (id ∷ ids) m = dispose_each ids (dispose_quiet id m)

unfoldable pub close_gate : Manager → Manager
close_gate m = record m { closing = true }

unfoldable pub dispose_all : Manager → Manager
unfolding cancel_connect dispose_each close_gate
dispose_all m = dispose_each m.sessions (close_gate (cancel_connect m))
