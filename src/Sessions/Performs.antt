-- ===== src/Sessions/Performs.antt =====
-- The calls of the manager, as sequences of its sections.
use node_shell.Base.{
  ◌+◌, ◌≡◌, String, Option, none, some, List, [], ◌∷◌, lookup, Error, Result, ok, err, if_cases,
  is_some,
}
use node_shell.Stores.Hosts.{HostConfig}
use node_shell.Sessions.State.{WireError, Conn, Session, Manager, quieting}
use node_shell.Sessions.Ends.{record_fault, begin_end, unlist, finish, end_session, dispose_quiet}
use node_shell.Sessions.Connect.{
  ConnectOptions, Secrets, Deps, hosts_by_id, base_options, with_secrets, with_reader, enter,
  remembered, dialled, with_options, for_host, connect,
}
use node_shell.Sessions.Calls.{
  get, end_by, pump_error, write, write_found, write_fault, disconnect, cancel_connect, close_gate,
  dispose_each, dispose_all,
}
use node_shell.Sessions.World.{
  Reach, here, next, enters, leaves, cancels, opens, closes, registers, faults, ends, quiets,
  unlists, reports, announces, shuts,
}

pub Reach-trans : {m m' m'' : Manager} → Reach m m' → Reach m' m'' → Reach m m''
Reach-trans p here = p
Reach-trans p (next q s) = next (Reach-trans p q) s

record_fault-Reach : (id : String) (e : Option Error) (m : Manager) → Reach m (record_fault id e m)
unfolding record_fault
record_fault-Reach id none m = here
record_fault-Reach id (some e) m = next here (faults id e)

finish-Reach : (id : String) (m : Manager) → Reach m (finish id m)
unfolding finish
finish-Reach id m =
    next (next (next (next here (ends id)) (unlists id)) (reports id)) (announces id)

end_session-Reach : (id : String) (e : Option Error) (m : Manager) → Reach m (end_session id e m)
unfolding end_session
end_session-Reach id e m =
    Reach-trans (record_fault-Reach id e m) (finish-Reach id (record_fault id e m))

dispose_each-Reach : (ids : List String) (m : Manager) → Reach m (dispose_each ids m)
unfolding dispose_each dispose_quiet
dispose_each-Reach [] m = here
dispose_each-Reach (id ∷ ids) m =
    Reach-trans (next (next here (quiets id)) (unlists id))
      (dispose_each-Reach ids (unlist id (begin_end id quieting m)))

write_fault-Reach : (id : String) (e : Option Error) (m : Manager) → Reach m (write_fault id e m)
write_fault-Reach id none m = here
write_fault-Reach id (some e) m = end_session-Reach id (some e) m

write_found-Reach :
    (id : String) (answer : Option WireError) (m : Manager) (o : Option Session)
    → Reach m (write_found id answer m o).0
write_found-Reach id answer m none = here
write_found-Reach id none m (some s) = here
write_found-Reach id (some e) m (some s) = write_fault-Reach id _ m

-- A call that changes the manager. The answers of the connection are its arguments.
pub data Call : Type 0 where
  connects : Deps → String → ConnectOptions → String → String → Call
  writes : String → Option WireError → Call
  pump_ends : String → WireError → Call
  wait_ends : String → Option WireError → Call
  disconnects : String → Call
  cancels_all disposes_all : Call

unfoldable pub perform : Call → Manager → Manager
unfolding connect write pump_error end_by disconnect cancel_connect dispose_all
perform (connects d host opts connect_id id) m = (connect d host opts connect_id id m).0
perform (writes id answer) m = (write id answer m).0
perform (pump_ends id e) m = pump_error id e m
perform (wait_ends id e) m = end_by id e m
perform (disconnects id) m = disconnect id m
perform cancels_all m = cancel_connect m
perform disposes_all m = dispose_all m

-- The id that a connect draws for its session is new.
abbrev pub IsNew : Call → Manager → Type 0
IsNew (connects d host opts connect_id id) m = lookup id m.objects ≡ none
IsNew _ m = Unit

module _ (d : Deps) (host_id : String) (opts : ConnectOptions)
    (connect_id session_id : String) where
  remembered-Reach :
      (o : Option Error) (conn : Conn) (m : Manager)
      → lookup session_id m.objects ≡ none
      → Reach m (remembered d host_id opts connect_id session_id o conn m).0
  remembered-Reach (some e) conn m n = next here closes
  remembered-Reach none conn m n = next here (registers session_id host_id conn n)

  dialled-Reach :
      (host : HostConfig) (r : Result Conn) (m : Manager)
      → lookup session_id m.objects ≡ none
      → Reach m (dialled d host_id opts connect_id session_id host r m).0
  dialled-Reach host (err e) m n = here
  dialled-Reach host (ok conn) m n =
      Reach-trans (next here opens)
        (remembered-Reach _ conn (record m { open_conns = m.open_conns + 1 }) n)

  options-Reach :
      (host : HostConfig) (r : Result (Option Secrets)) (m : Manager)
      → lookup session_id m.objects ≡ none
      → Reach m (with_options d host_id opts connect_id session_id host r m).0
  unfolding enter
  options-Reach host (err e) m n = here
  options-Reach host (ok secrets) m n =
      let answer = d.connector (with_reader (with_secrets (base_options host opts) secrets)) in
      next
        (Reach-trans (next here (enters connect_id))
          (dialled-Reach host answer (enter connect_id m) n))
        (leaves connect_id)

  host-Reach :
      (r : Result (Option HostConfig)) (m : Manager)
      → lookup session_id m.objects ≡ none
      → Reach m (for_host d host_id opts connect_id session_id r m).0
  host-Reach (err e) m n = here
  host-Reach (ok none) m n = here
  host-Reach (ok (some host)) m n = options-Reach host _ m n

-- Every call, on each of its branches, is a sequence of sections of the manager.
pub perform-Steps : (call : Call) (m : Manager) → IsNew call m → Reach m (perform call m)
unfolding perform connect write pump_error end_by disconnect cancel_connect dispose_all
perform-Steps (connects d host opts connect_id id) m n =
    host-Reach d host opts connect_id id (hosts_by_id d host) m n
perform-Steps (writes id answer) m n = write_found-Reach id answer m (get id m)
perform-Steps (pump_ends id e) m n =
    if_cases (Reach m) e.is_plain_eof _ _ (λ x. here) (λ x. end_session-Reach id _ m)
perform-Steps (wait_ends id e) m n = end_session-Reach id _ m
perform-Steps (disconnects id) m n =
    if_cases (Reach m) (is_some (get id m)) _ _ (λ x. end_session-Reach id none m) (λ x. here)
perform-Steps cancels_all m n = next here cancels
perform-Steps disposes_all m n =
    Reach-trans (next (next here cancels) shuts)
      (dispose_each-Reach m.sessions (close_gate (cancel_connect m)))
