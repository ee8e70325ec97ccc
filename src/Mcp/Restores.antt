-- ===== src/Mcp/Restores.antt =====
-- What a tool leaves of the busy counts of the sessions.
use node_shell.Base.{
  ℕ, ◌≡◌, refl, String, Bool, true, false, not, ◌&&◌, Option, none, some, Dict, lookup, insert,
  Error, Result, ok, err, ◌==◌, arith, eq_iff, if_cases, lookup-insert,
}
use node_shell.Mcp.State.{Meta, Runtime, clamp_timeout}
use node_shell.Mcp.Sections.{Ticket, begin, begin_found, started, finish, finish_found, ended}
use node_shell.Mcp.Services.{Deps, Scene, Sftp}
use node_shell.Mcp.Files.{
  Timing, Work, held, during, file_tool, file_work, exec_by, list_run, finished, named,
  max_file_bytes, run_command, sftp_list, sftp_read, sftp_write, sftp_upload, sftp_download,
}
use node_shell.Mcp.Arguments.{
  Value, ToolCall, list_hosts_call, list_sessions_call, connect_call, disconnect_call, run_call,
  list_call, read_call, write_call, upload_call, download_call, parse_call,
}
use node_shell.Mcp.Call.{
  CallOpts, Gate, ask_consent, consent, run_call_of, permitted, asked, parsed, call_with,
}
use node_shell.Mcp.Names.{tool_name, parse_call-Names}
use node_shell.Permission.Policy.{Request}

abbrev pub busy_of : Option Meta → Option ℕ
busy_of none = none
busy_of (some m) = some m.busy_count

unfoldable pub busy_at : String → Runtime → Option ℕ
unfolding lookup
busy_at id r = busy_of (lookup id r.meta)

-- The calls that open or end a session.
abbrev pub ends_session : ToolCall → Bool
ends_session (connect_call host password accept) = true
ends_session (disconnect_call id) = true
ends_session _ = false

ended_started :
    (id : String) (now later : ℕ) (r : Runtime) (m : Meta) (j : String) (o : Option Meta)
    → lookup id r.meta ≡ some m
    → o ≡ some (started now m)
    → busy_at j (finish_found id later (record r { meta = insert id (started now m) r.meta }) o)
      ≡ busy_at j r
unfolding busy_at
ended_started id now later r m j none e p = absurd (cc p)
ended_started id now later r m j (some n) e p = ground (
  arith,
  p,
  e,
  lookup-insert id j (ended later n) (insert id (started now m) r.meta),
  lookup-insert id j (started now m) r.meta,
  eq_iff id j,
)

module _ {S : Type 0} (d : Deps S) where
  held-busy :
      {A : Type 0} (id : String) (now later : ℕ) (work : Work S A) (c : Scene S) (o : Option Meta)
      (j : String)
      → lookup id c.runtime.meta ≡ o
      → busy_at j (held d id later work c.outside (begin_found id now c.runtime o)).0.runtime
        ≡ busy_at j c.runtime
  unfolding finish busy_at
  held-busy {A} id now later work c none j e =
      if_cases
        (λ (t : Ticket).
          busy_at j (held d id later work c.outside (c.runtime, t)).0.runtime ≡ busy_at j c.runtime)
        (c.runtime.guest && not c.runtime.closed) _ _ (λ x. refl) (λ x. refl)
  held-busy {A} id now later work c (some m) j e =
      if_cases
        (λ (p : Runtime × Ticket).
          busy_at j (held d id later work c.outside p).0.runtime ≡ busy_at j c.runtime)
        m.reaping _ _ (λ x. refl)
        (λ x.
          ended_started id now later c.runtime m j _ e
            (ground (arith, lookup-insert id id (started now m) c.runtime.meta, eq_iff id id)))

  during-busy :
      {A : Type 0} (id : String) (now later : ℕ) (work : Work S A) (c : Scene S) (j : String)
      → busy_at j (during d id now later work c).0.runtime ≡ busy_at j c.runtime
  unfolding during begin
  during-busy id now later work c j =
      held-busy id now later work c (lookup id c.runtime.meta) j refl

  file_tool-busy :
      {A : Type 0} (t : Timing) (id : String) (run : Sftp S → Work S A) (c : Scene S) (j : String)
      → busy_at j (file_tool d t id run c).0.runtime ≡ busy_at j c.runtime
  unfolding file_tool
  file_tool-busy t id run c j =
      during-busy id t.now t.later (file_work d d.sftp c.runtime.guest t.race id run) c j

  run_call_of-busy :
      (t : Timing) (call : ToolCall) (c : Scene S) (j : String)
      → ends_session call ≡ false
      → busy_at j (run_call_of d t call c).0.runtime ≡ busy_at j c.runtime
  unfolding run_call_of run_command sftp_list sftp_read sftp_write sftp_upload sftp_download
      file_tool
  run_call_of-busy t list_hosts_call c j e = refl
  run_call_of-busy t list_sessions_call c j e = refl
  run_call_of-busy t (connect_call host password accept) c j e = absurd (ground arith)
  run_call_of-busy t (disconnect_call id) c j e = absurd (ground arith)
  run_call_of-busy t (run_call id command ms) c j e =
      during-busy id t.now t.later (exec_by d.manager id command (clamp_timeout ms)) c j
  run_call_of-busy t (list_call id path chdir) c j e =
      file_tool-busy t id (list_run id path chdir) c j
  run_call_of-busy t (read_call id path) c j e =
      file_tool-busy t id (λ files s. files.read_text id path max_file_bytes s) c j
  run_call_of-busy t (write_call id path body) c j e =
      file_tool-busy t id (λ files s. files.write_text id path body max_file_bytes s) c j
  run_call_of-busy t (upload_call id local name) c j e =
      file_tool-busy t id
        (λ files s. finished (local, named name) (files.upload_as id local name s)) c j
  run_call_of-busy t (download_call id remote local) c j e =
      file_tool-busy t id (λ files s. finished (remote, local) (files.download id remote local s)) c
        j

  asked-busy :
      (gate : Gate S) (t : Timing) (call : ToolCall) (c : Scene S) (o : Option Request) (j : String)
      → ends_session call ≡ false
      → busy_at j (asked d gate t call c o).0.runtime ≡ busy_at j c.runtime
  asked-busy gate t call c none j e = run_call_of-busy t call c j e
  asked-busy gate t call c (some req) j e = by_verdict (ask_consent gate req c.outside)
    where
      by_verdict :
          (v : S × Option Error)
          → busy_at j (permitted d t call c.runtime v).0.runtime ≡ busy_at j c.runtime
      by_verdict (s, some x) = refl
      by_verdict (s, none) =
          run_call_of-busy t call (record { runtime = c.runtime; outside = s }) j e

  -- A tool call that neither opens nor ends a session leaves the busy count of every session as it
  -- was, however it ends.
  pub call_with-busy :
      (gate : Gate S) (name : String) (args : Dict Value) (opts : CallOpts) (t : Timing)
      (c : Scene S) (j : String)
      → (name == "connect_host") ≡ false
      → (name == "disconnect_session") ≡ false
      → busy_at j (call_with d gate name args opts t c).0.runtime ≡ busy_at j c.runtime
  unfolding call_with
  call_with-busy gate name args opts t c j n n' = by_arguments (parse_call name args) refl
    where
      by_arguments :
          (r : Result ToolCall)
          → parse_call name args ≡ r
          → busy_at j (parsed d gate opts t c r).0.runtime ≡ busy_at j c.runtime
      by_arguments (err e) p = refl
      by_arguments (ok call) p =
          asked-busy gate t call c (consent opts c.runtime call) j
            (other_tool call (parse_call-Names name args call p))
        where
          other_tool : (called : ToolCall) → tool_name called ≡ name → ends_session called ≡ false
          other_tool (connect_call host password accept) q =
              absurd (ground (arith, eq_iff name "connect_host"))
          other_tool (disconnect_call id) q =
              absurd (ground (arith, eq_iff name "disconnect_session"))
          other_tool list_hosts_call q = refl
          other_tool list_sessions_call q = refl
          other_tool (run_call id command ms) q = refl
          other_tool (list_call id path chdir) q = refl
          other_tool (read_call id path) q = refl
          other_tool (write_call id path body) q = refl
          other_tool (upload_call id local name') q = refl
          other_tool (download_call id remote local) q = refl
