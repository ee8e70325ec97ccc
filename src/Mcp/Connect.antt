-- ===== src/Mcp/Connect.antt =====
-- internal/mcpcli/runtime.go: `ConnectHost`, `ListHosts` and `ListSessions`.
use Prim.Native.String.{◌++◌ as ◌+++◌}
use node_shell.Base.{
  ℕ, ℤ, String, Bool, List, [], ◌∷◌, Option, none, some, Dict, lookup, Error, Result, ok, err,
}
use node_shell.Stores.Hosts.{HostConfig}
use node_shell.Mcp.State.{Meta, Runtime}
use node_shell.Mcp.Sections.{reserve, release_reserve, commit}
use node_shell.Mcp.Services.{SessionManager, Deps, Scene, discard_late}

pub record HostDto : Type 0 where
  pub id : String
  pub name : String
  pub host : String
  pub port : ℤ
  pub username : String
  pub auth_method : String
  pub credentials_saved : Bool

pub record SessionDto : Type 0 where
  pub session_id : String
  pub host_id : String
  pub title : String

pub record ConnectResult : Type 0 where
  pub session_id : String
  pub title : String

unfoldable pub host_dtos : List HostConfig → List HostDto
host_dtos [] = []
host_dtos (h ∷ hs) =
    record {
      id = h.id;
      name = h.name;
      host = h.host;
      port = h.port;
      username = h.username;
      auth_method = h.auth_method;
      credentials_saved = h.credentials_saved;
    }
    ∷ host_dtos hs

abbrev pub found_dto : Option Meta → List SessionDto → List SessionDto
found_dto none rest = rest
found_dto (some m) rest =
    record { session_id = m.session_id; host_id = m.host_id; title = m.title } ∷ rest

-- The loop of `ListSessions`.
unfoldable pub list_sessions : Dict Meta → List String → List SessionDto
unfolding lookup
list_sessions meta [] = []
list_sessions meta (id ∷ ids) = found_dto (lookup id meta) (list_sessions meta ids)

module _ {S : Type 0} (d : Deps S) where
  -- The value of a call, which is none where it panics.
  abbrev pub Answer : Type 0 → Type 0
  Answer A = Scene S × Option (Result A)

  -- `ListHosts`.
  abbrev listed_hosts : Result (List HostConfig) → Result (List HostDto)
  listed_hosts (err e) = err e
  listed_hosts (ok hosts) = ok (host_dtos hosts)

  unfoldable pub list_hosts : Scene S → Result (List HostDto)
  unfolding host_dtos
  list_hosts c = listed_hosts (d.hosts c.outside)

  abbrev pub released : Option (Result ConnectResult) → Scene S → Answer ConnectResult
  released a c = (record c { runtime = release_reserve c.runtime }, a)

  abbrev pub committed : String → String → Scene S → Runtime × Option Error → Answer ConnectResult
  committed id title c (r, none) =
      (record c { runtime = r }, some (ok (record { session_id = id; title = title })))
  committed id title c (r, some e) =
      released (some (err e)) (discard_late d id (record c { runtime = r }))

  -- `now` is read from the clock behind the manager's call.
  abbrev pub connected :
      String → HostConfig → ℕ → Runtime → S × Result String → Answer ConnectResult
  connected host_id host now r (s, err e) =
      released (some (err e)) (record { runtime = r; outside = s })
  connected host_id host now r (s, ok id) =
      let title = host.username +++ ("@" +++ host.host) in
      committed id title (record { runtime = r; outside = s }) (commit id host_id title now r)

  abbrev pub connect_by :
      Option (SessionManager S)
      → String
      → String
      → Bool
      → ℕ
      → Scene S
      → HostConfig
      → Answer ConnectResult
  connect_by none host_id password accept now c host = released none c
  connect_by (some m) host_id password accept now c host =
      connected host_id host now c.runtime (m.connect host_id password accept c.outside)

  abbrev pub find_host :
      String → String → Bool → ℕ → Scene S → Result (Option HostConfig) → Answer ConnectResult
  find_host host_id password accept now c (err e) = released (some (err e)) c
  find_host host_id password accept now c (ok none) =
      released
        (some (err (record { code = "HOST_NOT_FOUND"; message = "Host not found: " +++ host_id })))
        c
  find_host host_id password accept now c (ok (some host)) =
      connect_by d.manager host_id password accept now c host

  abbrev pub reserved :
      String → String → Bool → ℕ → Scene S → Runtime × Option Error → Answer ConnectResult
  reserved host_id password accept now c (r, some e) = (record c { runtime = r }, some (err e))
  reserved host_id password accept now c (r, none) =
      find_host host_id password accept now (record c { runtime = r })
        (d.get_by_id host_id c.outside)

  unfoldable pub connect_host : String → String → Bool → ℕ → Scene S → Answer ConnectResult
  unfolding reserve release_reserve commit discard_late
  connect_host host_id password accept now c =
      reserved host_id password accept now c (reserve c.runtime)
