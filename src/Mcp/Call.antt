-- ===== src/Mcp/Call.antt =====
-- internal/mcpcli/tools.go: `CallWith`, and the consent that it asks for.
use Prim.Native.String.{◌++◌ as ◌+++◌}
use node_shell.Base.{
  pos, String, List, Option, none, some, Dict, lookup, Error, Result, ok, err, ◌==◌, if◌then◌else◌,
  leb,
}
use node_shell.Std.Format.{decimal}
use node_shell.Std.Strings.{trim_space, byte_length, rune_length, take_runes}
use node_shell.Permission.Policy.{Request}
use node_shell.Mcp.State.{Meta, Runtime}
use node_shell.Mcp.Services.{Deps, Scene, disconnect_session}
use node_shell.Mcp.Connect.{
  HostDto, SessionDto, ConnectResult, list_hosts, list_sessions, connect_host,
}
use node_shell.Mcp.Files.{
  Timing, Listing, run_command, sftp_list, sftp_read, sftp_write, sftp_upload, sftp_download,
}
use node_shell.Mcp.Arguments.{
  Value, ToolCall, list_hosts_call, list_sessions_call, connect_call, disconnect_call, run_call,
  list_call, read_call, write_call, upload_call, download_call, parse_call,
}

pub data Reply : Type 0 where
  hosts : List HostDto → Reply
  sessions : List SessionDto → Reply
  connected : ConnectResult → Reply
  disconnected : String → Reply
  output : String → Reply
  listing : Listing → Reply
  content : String × String → Reply
  written : String → Reply
  uploaded : String × Option String → Reply
  downloaded : String × String → Reply

-- `permission.Truncate`.
unfoldable pub truncate : String → String
unfolding trim_space rune_length take_runes
truncate s = let r = trim_space s in if leb (rune_length r) 160 then r else take_runes 160 r +++ "…"

pub record CallOpts : Type 0 where
  pub source : String
  pub title : String

abbrev title_of : Option Meta → String
title_of none = ""
title_of (some m) = m.title

unfoldable pub session_title : String → Runtime → String
unfolding lookup
session_title id r = title_of (lookup id r.meta)

-- The user's consent, if there is a gate: nil is a granted call.
abbrev pub Gate : Type 0 → Type 0
Gate S = Option (Request → S → S × Option Error)

-- The request that `authorize` sends; its id is given by the gate.
unfoldable pub request : CallOpts → String → String → String → String → Runtime → Request
unfolding session_title truncate
request opts tool id summary detail r = record {
  id = "";
  source = if opts.source == "" then "mcp" else opts.source;
  tool = tool;
  session_id = id;
  title = if opts.title == "" then session_title id r else opts.title;
  summary = truncate summary;
  detail = detail;
}

abbrev pub ask_consent : {S : Type 0} → Gate S → Request → S → S × Option Error
ask_consent none req s = (s, none)
ask_consent (some gate) req s = gate req s

-- The request of a call, if it is one that asks.
unfoldable pub consent : CallOpts → Runtime → ToolCall → Option Request
unfolding request truncate decimal byte_length
consent opts r (run_call id command ms) =
    some (request opts "run_command" id (truncate command) "" r)
consent opts r (write_call id path body) =
    some (request opts "sftp_write" id path (decimal (pos (byte_length body)) +++ " bytes") r)
consent opts r (upload_call id local name) = some (request opts "sftp_upload" id local name r)
consent opts r (download_call id remote local) =
    some (request opts "sftp_download" id remote local r)
consent opts r list_hosts_call = none
consent opts r list_sessions_call = none
consent opts r (connect_call host password accept) = none
consent opts r (disconnect_call id) = none
consent opts r (list_call id path chdir) = none
consent opts r (read_call id path) = none

module _ {S : Type 0} (d : Deps S) where
  -- The value is none where a nil manager panics.
  abbrev pub Answered : Type 0
  Answered = Scene S × Option (Result Reply)

  abbrev pub mapped : {A : Type 0} → (A → Reply) → Result A → Result Reply
  mapped f (ok a) = ok (f a)
  mapped f (err e) = err e

  abbrev pub replies : {A : Type 0} → (A → Reply) → Scene S × Result A → Answered
  replies f p = (p.0, some (mapped f p.1))

  abbrev pub may_panic : Scene S × Option (Result ConnectResult) → Answered
  may_panic (c, none) = (c, none)
  may_panic (c, some a) = (c, some (mapped connected a))

  -- The part of each case behind its arguments and its consent.
  unfoldable pub run_call_of : Timing → ToolCall → Scene S → Answered
  unfolding list_hosts list_sessions connect_host disconnect_session run_command sftp_list sftp_read
      sftp_write sftp_upload sftp_download
  run_call_of t list_hosts_call c = (c, some (mapped hosts (list_hosts d c)))
  run_call_of t list_sessions_call c =
      (c, some (ok (sessions (list_sessions c.runtime.meta c.runtime.order))))
  run_call_of t (connect_call host password accept) c =
      may_panic (connect_host d host password accept t.now c)
  run_call_of t (disconnect_call id) c = (disconnect_session d id c, some (ok (disconnected id)))
  run_call_of t (run_call id command ms) c = replies output (run_command d t id command ms c)
  run_call_of t (list_call id path chdir) c = replies listing (sftp_list d t id path chdir c)
  run_call_of t (read_call id path) c = replies content (sftp_read d t id path c)
  run_call_of t (write_call id path body) c = replies written (sftp_write d t id path body c)
  run_call_of t (upload_call id local name) c = replies uploaded (sftp_upload d t id local name c)
  run_call_of t (download_call id remote local) c =
      replies downloaded (sftp_download d t id remote local c)

  abbrev pub permitted : Timing → ToolCall → Runtime → S × Option Error → Answered
  permitted t call r (s, some e) = (record { runtime = r; outside = s }, some (err e))
  permitted t call r (s, none) = run_call_of t call (record { runtime = r; outside = s })

  abbrev pub asked : Gate S → Timing → ToolCall → Scene S → Option Request → Answered
  asked gate t call c none = run_call_of t call c
  asked gate t call c (some req) = permitted t call c.runtime (ask_consent gate req c.outside)

  abbrev pub parsed : Gate S → CallOpts → Timing → Scene S → Result ToolCall → Answered
  parsed gate opts t c (err e) = (c, some (err e))
  parsed gate opts t c (ok call) = asked gate t call c (consent opts c.runtime call)

  unfoldable pub call_with : Gate S → String → Dict Value → CallOpts → Timing → Scene S → Answered
  unfolding parse_call consent run_call_of
  call_with gate name args opts t c = parsed gate opts t c (parse_call name args)
