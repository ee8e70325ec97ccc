-- ===== src/Sessions/State.antt =====
-- internal/sessions/sessions.go: the manager, its sessions and its events.
use node_shell.Base.{
  ℕ, String, Bool, false, ◌||◌, Option, none, some, List, [], ◌∷◌, ◌++◌, Dict, Error, if◌then◌else◌,
}
use node_shell.Apperror.{unknown, timeout}

-- An error of a connection: what `errors.As` and `errors.Is` find in its chain, whether it is
-- `io.EOF` itself, and its text.
pub record WireError : Type 0 where
  pub is_exit : Bool
  pub is_eof : Bool
  pub is_plain_eof : Bool
  pub is_net_closed : Bool
  pub is_timeout : Bool
  pub coded : Option String
  pub text : String

-- What a connection can open, and the fingerprint of its host.
pub record Conn : Type 0 where
  pub opens_sftp : Bool
  pub runs_exec : Bool
  pub dials : Bool
  pub fingerprint : String

-- How far the body of `endOnce` has come: not begun; begun by `end`; off the map; the error is told, if
-- there is one; done; or begun, and done, by `disposeQuiet`.
pub data Phase : Type 0 where
  running ending removed : Phase
  told ended : Option Error → Phase
  quieting quiet : Phase

pub record Session : Type 0 where
  pub host_id : String
  pub conn : Conn
  pub local_close : Bool
  pub first_fault : Option Error
  pub phase : Phase

pub data Event : Type 0 where
  data_event closed_event : String → Event
  error_event : String → Error → Event

-- `sessions` are the keys of the map, and `objects` every session that it ever held, which the pumps may
-- still hold. `inflight` says of a connect whether it was cancelled; `open_conns` counts the connections.
pub record Manager : Type 0 where
  pub objects : Dict Session
  pub sessions : List String
  pub inflight : Dict Bool
  pub closing : Bool
  pub events : List Event
  pub open_conns : ℕ

unfoldable pub new_manager : Manager
new_manager = record {
  objects = [];
  sessions = [];
  inflight = [];
  closing = false;
  events = [];
  open_conns = 0;
}

abbrev pub emit : Event → Manager → Manager
emit e m = record m { events = m.events ++ e ∷ [] }

-- The error of a code that is coded, or else the code of an unknown one.
unfoldable pub error_code : Option String → String
error_code none = unknown
error_code (some code) = code

-- `classifyEndError`: none where the end is a normal one.
unfoldable pub classify_end_error : Bool → Option WireError → Option Error
classify_end_error local_close none = none
classify_end_error local_close (some e) =
    if e.is_exit
    then none
    else if e.is_eof
    then none
    else if local_close || e.is_net_closed
    then none
    else if e.is_timeout
    then some (record { code = timeout; message = "Connection timed out" })
    else some (record { code = unknown; message = "Connection lost" })
