-- ===== src/Sessions/Opened.antt =====
-- What `Connect` leaves, on each of its branches.
use node_shell.Base.{
  ◌+◌, ◌≡◌, refl, sym, ◌∙◌, String, Bool, true, false, not, ◌&&◌, Option, none, some, ◌∷◌, lookup,
  Error, Result, ok, err, ◌==◌, arith, eq_refl, if◌then◌else◌, if_cases, lookup-insert,
}
use node_shell.Stores.Hosts.{HostConfig}
use node_shell.Sessions.State.{Conn, Manager}
use node_shell.Sessions.Connect.{
  ConnectOptions, Secrets, Deps, hosts_by_id, base_options, with_secrets, with_reader, secrets_of,
  enter, leave, new_session, register, left, remembered, trusted, dialled, with_options, for_host,
  connect,
}

module _ (d : Deps) (host_id : String) (opts : ConnectOptions)
    (connect_id session_id : String) where
  -- No session, no event and no open connection more.
  pub record Untouched (m m' : Manager) : Type 0 where
    pub objects : m'.objects ≡ m.objects
    pub sessions : m'.sessions ≡ m.sessions
    pub events : m'.events ≡ m.events
    pub open_conns : m'.open_conns ≡ m.open_conns
    pub closing : m'.closing ≡ m.closing

  -- One session more, on a connection to the host whose accepted key is remembered.
  pub record Opened (m m' : Manager) (id : String) : Type 0 where
    pub named : id ≡ session_id
    pub host : HostConfig
    pub saved : hosts_by_id d host_id ≡ ok (some host)
    pub conn : Conn
    pub object : lookup id m'.objects ≡ some (new_session host_id conn)
    pub sessions : m'.sessions ≡ id ∷ m.sessions
    pub trust :
        (opts.accept_host_key && not (conn.fingerprint == "")) ≡ true
        → d.remember host.host host.port conn.fingerprint ≡ none
    pub open_gate : m.closing ≡ false
    pub open_conns : m'.open_conns ≡ m.open_conns + 1
    pub events : m'.events ≡ m.events

  abbrev pub Leaves : Manager → Manager × Result String → Type 0
  Leaves m (m', err e) = Untouched m m'
  Leaves m (m', ok id) = Opened m m' id

  untouched : (m : Manager) → Untouched m m
  untouched m = record {
    objects = refl;
    sessions = refl;
    events = refl;
    open_conns = refl;
    closing = refl;
  }

  module _ (host : HostConfig) (saved : hosts_by_id d host_id ≡ ok (some host)) (m : Manager) where
    -- The manager while the connect is under way, with a connection more.
    abbrev dialling : Manager
    dialling = enter connect_id m

    abbrev standing : Manager
    standing = record dialling { open_conns = dialling.open_conns + 1 }

    register-Leaves :
        (conn : Conn)
        → ((opts.accept_host_key && not (conn.fingerprint == "")) ≡ true
            → d.remember host.host host.port conn.fingerprint ≡ none)
        → Leaves m
            (left d host_id opts connect_id session_id (register session_id host_id conn standing))
    unfolding register leave enter
    register-Leaves conn t =
        if_cases
          (λ (p : Manager × Result String). Leaves m (left d host_id opts connect_id session_id p))
          m.closing _ _
          (λ c. record {
            objects = refl;
            sessions = refl;
            events = refl;
            open_conns = omega arith;
            closing = refl;
          })
          (λ c. record {
            named = refl;
            host = host;
            saved = saved;
            conn = conn;
            object =
                lookup-insert session_id session_id (new_session host_id conn) m.objects
                ∙ rw (eq_refl session_id) refl;
            sessions = refl;
            trust = t;
            open_gate = c;
            open_conns = refl;
            events = refl;
          })

    remembered-Leaves :
        (conn : Conn) (b : Bool)
        → (opts.accept_host_key && not (conn.fingerprint == "")) ≡ b
        → (o : Option Error) → (b ≡ true → d.remember host.host host.port conn.fingerprint ≡ o)
        → Leaves m (
            left d host_id opts connect_id session_id
              (remembered d host_id opts connect_id session_id o conn standing))
    unfolding leave enter
    remembered-Leaves conn b e (some x) r = record {
      objects = refl;
      sessions = refl;
      events = refl;
      open_conns = omega arith;
      closing = refl;
    }
    remembered-Leaves conn b e none r = register-Leaves conn (λ k. r (sym e ∙ k))

    trusted-Leaves :
        (conn : Conn)
        → Leaves m (
            left d host_id opts connect_id session_id
              (trusted d host_id opts connect_id session_id host conn standing))
    trusted-Leaves conn =
        let asked = opts.accept_host_key && not (conn.fingerprint == "") in
        let answer = d.remember host.host host.port conn.fingerprint in
        by_ask asked refl answer refl
      where
        by_ask :
            (b : Bool)
            → (opts.accept_host_key && not (conn.fingerprint == "")) ≡ b
            → (o : Option Error) → d.remember host.host host.port conn.fingerprint ≡ o
            → Leaves m (
                left d host_id opts connect_id session_id (
                  remembered d host_id opts connect_id session_id
                    (if b then o else none)
                    conn
                    standing))
        by_ask true e o r = remembered-Leaves conn true e o (λ k. r)
        by_ask false e o r = remembered-Leaves conn false e none (λ k. absurd (cc k))

    dialled-Leaves :
        (r : Result Conn)
        → Leaves m (
            left d host_id opts connect_id session_id
              (dialled d host_id opts connect_id session_id host r dialling))
    unfolding leave enter
    dialled-Leaves (err x) = record {
      objects = refl;
      sessions = refl;
      events = refl;
      open_conns = refl;
      closing = refl;
    }
    dialled-Leaves (ok conn) = trusted-Leaves conn

    options-Leaves :
        (r : Result (Option Secrets))
        → Leaves m (with_options d host_id opts connect_id session_id host r m)
    options-Leaves (err x) = untouched m
    options-Leaves (ok secrets) =
        dialled-Leaves (d.connector (with_reader (with_secrets (base_options host opts) secrets)))

  host-Leaves :
      (r : Result (Option HostConfig)) (m : Manager)
      → hosts_by_id d host_id ≡ r
      → Leaves m (for_host d host_id opts connect_id session_id r m)
  host-Leaves (err x) m e = untouched m
  host-Leaves (ok none) m e = untouched m
  host-Leaves (ok (some host)) m e = options-Leaves host e m (secrets_of d.creds host_id)

  -- A connect that reports an error leaves no session, no event and no open connection behind; one that
  -- reports a session has registered it, before any shutdown, on one new connection, whose accepted key
  -- is remembered.
  pub connect-Leaves : (m : Manager) → Leaves m (connect d host_id opts connect_id session_id m)
  unfolding connect
  connect-Leaves m = host-Leaves (hosts_by_id d host_id) m refl
