-- ===== src/Tunnel/Service.antt =====
-- internal/tunnel/service.go: the live forwards and their listeners.
use node_shell.Base.{
  ℕ, zero, suc, ◌+◌, ◌-◌, ℤ, pos, String, Bool, true, false, not, ◌&&◌, ◌||◌, Option, none, some,
  List, [], ◌∷◌, Dict, lookup, insert, delete, keep, length, Error, Result, ok, err, ◌==◌,
  if◌then◌else◌, ltℤ, is_positive,
}
use node_shell.Apperror.{unknown, cancelled}
use node_shell.Std.Format.{decimal}
use node_shell.Tunnel.Address.{join_host_port}
use node_shell.Tunnel.Parse.{Listener, parse_listeners}

abbrev pub local_host : String
local_host = "127.0.0.1"

pub record Tunnel : Type 0 where
  pub id : String
  pub session_id : String
  pub local_port : ℕ
  pub remote_addr : String
  pub remote_port : ℤ

-- `open_listeners` counts the listeners that are not closed, in the table or not.
pub record Service : Type 0 where
  pub tunnels : Dict Tunnel
  pub closed : Bool
  pub open_listeners : ℕ

unfoldable pub new_service : Service
new_service = record { tunnels = []; closed = false; open_listeners = 0 }

-- What a start asks of the network: whether there is a dialer; whether the session can dial; and the port
-- of a listener at an address, which is none where it fails and 0 where it is no TCP port.
pub record Network : Type 0 where
  pub dialer : Bool
  pub can_dial : Option (String → Option Error)
  pub listen : String → Option ℕ

abbrev pub failed : String → Error
failed message = record { code = unknown; message = message }

-- `Discover`, with the answer of the remote command.
abbrev pub listeners_of : Result String → Result (List Listener)
listeners_of (err e) = err e
listeners_of (ok out) = ok (parse_listeners out)

unfoldable pub discover : Option (Result String) → Result (List Listener)
unfolding parse_listeners
discover none = err (failed "Port discovery is not initialised")
discover (some answer) = listeners_of answer

abbrev pub is_target : String → String → ℤ → Tunnel → Bool
is_target session addr port t =
    t.session_id == session && t.remote_addr == addr && eqℤ t.remote_port port
  where
    eqℤ : ℤ → ℤ → Bool
    eqℤ a b = not (ltℤ a b) && not (ltℤ b a)

-- The loop that looks for a tunnel to the same target.
unfoldable pub find_target : String → String → ℤ → Dict Tunnel → Option Tunnel
find_target session addr port [] = none
find_target session addr port ((id, t) ∷ rest) =
    let later = find_target session addr port rest in
    if is_target session addr port t then some t else later

abbrev pub shutting_down : Error
shutting_down = record { code = cancelled; message = "Port forwarding is shutting down" }

-- A listener at the remote port, or else at any.
abbrev pub or_any : (String → Option ℕ) → Option ℕ → Option ℕ
unfolding join_host_port
or_any listen none = listen (join_host_port local_host "0")
or_any listen (some p) = some p

unfoldable pub bind : (String → Option ℕ) → ℤ → Option ℕ
unfolding join_host_port or_any decimal
bind listen port = or_any listen (listen (join_host_port local_host (decimal port)))

-- The second section of `Start`, which closes the listener where the service is shut.
unfoldable pub enter : Tunnel → Service → Service × Result Tunnel
unfolding insert
enter t s =
    if s.closed
    then (record s { open_listeners = s.open_listeners - 1 }, err shutting_down)
    else (record s { tunnels = insert t.id t s.tunnels }, ok t)

module _ (net : Network) (id session addr : String) (port : ℤ) where
  abbrev pub refuse : String → Service → Service × Result Tunnel
  refuse message s = (s, err (failed message))

  abbrev pub bound : Option ℕ → Service → Service × Result Tunnel
  bound none s = refuse "Failed to listen on a local port" s
  bound (some zero) s = refuse "Failed to listen on a local port" s
  bound (some (suc n)) s =
      enter
        (record {
          id = id;
          session_id = session;
          local_port = suc n;
          remote_addr = addr;
          remote_port = port;
        })
        (record s { open_listeners = s.open_listeners + 1 })

  abbrev pub unless_found : Option Tunnel → Service → Service × Result Tunnel
  unless_found (some t) s = (s, ok t)
  unless_found none s = bound (bind net.listen port) s

  abbrev pub ready : Option (String → Option Error) → Option Error
  ready none = none
  ready (some can) = can session

  abbrev pub when_ready : Option Error → Service → Service × Result Tunnel
  when_ready (some e) s = (s, err e)
  when_ready none s =
      if s.closed
      then (s, err shutting_down)
      else unless_found (find_target session addr port s.tunnels) s

  -- `Start`.
  unfoldable pub start : Service → Service × Result Tunnel
  unfolding find_target bind enter
  start s =
      if not (is_positive port) || ltℤ (pos 65535) port
      then refuse "Invalid remote port" s
      else if not net.dialer
      then refuse "Port forwarding is not initialised" s
      else when_ready (ready net.can_dial) s

abbrev pub belongs : String → Option Tunnel → Bool
belongs session none = false
belongs session (some t) = t.session_id == session

-- The locked section of `Stop`, with the number of listeners that it takes off the table and has still
-- to close.
unfoldable pub stop_locked : String → String → Service → Service × ℕ
unfolding lookup delete
stop_locked session id s =
    if belongs session (lookup id s.tunnels)
    then (record s { tunnels = delete id s.tunnels }, 1)
    else (s, 0)

-- A listener is closed behind the section, without the lock.
unfoldable pub close_listener : Service → Service
close_listener s = record s { open_listeners = s.open_listeners - 1 }

-- The loop that closes the listeners that were taken off.
unfoldable pub close_all : Service × ℕ → Service
unfolding close_listener
close_all (s, zero) = s
close_all (s, suc n) = close_all (close_listener s, n)

-- `Stop`.
unfoldable pub stop : String → String → Service → Service
unfolding stop_locked close_all
stop session id s = close_all (stop_locked session id s)

-- `List`.
unfoldable pub list : String → Dict Tunnel → List Tunnel
list session [] = []
list session ((id, t) ∷ rest) =
    let later = list session rest in if t.session_id == session then t ∷ later else later

abbrev pub of_other : String → String → Tunnel → Bool
of_other session id t = not (t.session_id == session)

-- The locked section of `Dispose`: every tunnel of the session is deleted, and its listener collected.
unfoldable pub dispose_locked : String → Service → Service × ℕ
unfolding keep list
dispose_locked session s =
    (record s { tunnels = keep (of_other session) s.tunnels }, length (list session s.tunnels))

-- `Dispose`.
unfoldable pub dispose : String → Service → Service
unfolding dispose_locked close_all
dispose session s = close_all (dispose_locked session s)

-- The locked section of `DisposeAll`.
unfoldable pub dispose_all_locked : Service → Service × ℕ
dispose_all_locked s = (record s { tunnels = []; closed = true }, length s.tunnels)

-- `DisposeAll`.
unfoldable pub dispose_all : Service → Service
unfolding dispose_all_locked close_all
dispose_all s = close_all (dispose_all_locked s)
