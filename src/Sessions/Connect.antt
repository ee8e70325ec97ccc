-- ===== src/Sessions/Connect.antt =====
-- internal/sessions/sessions.go: `Connect`.
use Prim.Native.String.{◌++◌ as ◌+++◌}
use node_shell.Base.{
  ℤ, ◌+◌, ◌-◌, String, Bool, true, false, not, ◌&&◌, Option, none, some, ◌∷◌, insert, delete, Error,
  Result, ok, err, ◌==◌, if◌then◌else◌,
}
use node_shell.Apperror.{unknown, cancelled}
use node_shell.Stores.Hosts.{HostConfig}
use node_shell.Sessions.State.{Conn, Session, running, Manager}

pub record ConnectOptions : Type 0 where
  pub password : String
  pub accept_host_key : Bool

pub record Secrets : Type 0 where
  pub password : String
  pub private_key : String

-- `sshclient.Options`, without the stores that it passes on; `reads_key` says whether the reader of
-- private keys is among them.
pub record SshOptions : Type 0 where
  pub host : String
  pub port : ℤ
  pub username : String
  pub auth_method : String
  pub password : String
  pub private_key : String
  pub private_key_path : String
  pub accept_host_key : Bool
  pub reads_key : Bool

-- The stores and the connector: none is a nil dependency.
pub record Deps : Type 0 where
  pub hosts : Option (String → Result (Option HostConfig))
  pub creds : Option (String → Result (Option Secrets))
  pub remember : String → ℤ → String → Option Error
  pub connector : SshOptions → Result Conn

abbrev pub plain_error : String → Error
plain_error message = record { code = unknown; message = message }

abbrev pub hosts_by_id : Deps → String → Result (Option HostConfig)
hosts_by_id d id = found d.hosts
  where
    found : Option (String → Result (Option HostConfig)) → Result (Option HostConfig)
    found none = err (plain_error "nodeshell: sessions not initialised")
    found (some get) = get id

abbrev pub base_options : HostConfig → ConnectOptions → SshOptions
base_options host opts = record {
  host = host.host;
  port = host.port;
  username = host.username;
  auth_method = host.auth_method;
  password = opts.password;
  private_key = "";
  private_key_path = host.private_key_path;
  accept_host_key = opts.accept_host_key;
  reads_key = false;
}

-- A stored secret: a password that was given wins over the stored one.
abbrev pub with_secrets : SshOptions → Option Secrets → SshOptions
with_secrets o none = o
with_secrets o (some secrets) = record o {
  password = if o.password == "" then secrets.password else o.password;
  private_key = secrets.private_key;
}

abbrev pub with_reader : SshOptions → SshOptions
with_reader o =
    if o.private_key == "" && not (o.private_key_path == "")
    then record o { reads_key = true }
    else o

abbrev pub secrets_of : Option (String → Result (Option Secrets)) → String → Result (Option Secrets)
secrets_of none id = ok none
secrets_of (some get) id = get id

-- The sections of a connect: it is registered, and taken off again.
unfoldable pub enter : String → Manager → Manager
unfolding insert
enter connect_id m = record m { inflight = insert connect_id false m.inflight }

unfoldable pub leave : String → Manager → Manager
unfolding delete
leave connect_id m = record m { inflight = delete connect_id m.inflight }

abbrev pub new_session : String → Conn → Session
new_session host_id conn = record {
  host_id = host_id;
  conn = conn;
  local_close = false;
  first_fault = none;
  phase = running;
}

abbrev pub close_conn : Manager → Manager
close_conn m = record m { open_conns = m.open_conns - 1 }

-- The section that registers the session, unless the manager shuts down.
unfoldable pub register : String → String → Conn → Manager → Manager × Result String
unfolding insert
register id host_id conn m =
    if m.closing
    then (close_conn m, err (record { code = cancelled; message = "Connection cancelled" }))
    else (
      record m {
        objects = insert id (new_session host_id conn) m.objects;
        sessions = id ∷ m.sessions;
      },
      ok id,
    )

module _ (d : Deps) (host_id : String) (opts : ConnectOptions)
    (connect_id session_id : String) where
  abbrev pub refuse : Error → Manager → Manager × Result String
  refuse e m = (m, err e)

  abbrev pub left : Manager × Result String → Manager × Result String
  left p = (leave connect_id p.0, p.1)

  abbrev pub remembered : Option Error → Conn → Manager → Manager × Result String
  remembered (some e) conn m = refuse e (close_conn m)
  remembered none conn m = register session_id host_id conn m

  -- An accepted key is remembered once the connection stands.
  abbrev pub trusted : HostConfig → Conn → Manager → Manager × Result String
  trusted host conn m =
      remembered
        (if opts.accept_host_key && not (conn.fingerprint == "")
          then d.remember host.host host.port conn.fingerprint
          else none)
        conn m

  abbrev pub dialled : HostConfig → Result Conn → Manager → Manager × Result String
  dialled host (err e) m = refuse e m
  dialled host (ok conn) m = trusted host conn (record m { open_conns = m.open_conns + 1 })

  abbrev pub with_options : HostConfig → Result (Option Secrets) → Manager → Manager × Result String
  with_options host (err e) m = refuse e m
  with_options host (ok secrets) m =
      let o = with_reader (with_secrets (base_options host opts) secrets) in
      left (dialled host (d.connector o) (enter connect_id m))

  abbrev pub for_host : Result (Option HostConfig) → Manager → Manager × Result String
  for_host (err e) m = refuse e m
  for_host (ok none) m =
      refuse (record { code = "HOST_NOT_FOUND"; message = "Host not found: " +++ host_id }) m
  for_host (ok (some host)) m = with_options host (secrets_of d.creds host_id) m

  unfoldable pub connect : Manager → Manager × Result String
  connect m = for_host (hosts_by_id d host_id) m
