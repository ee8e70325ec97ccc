-- ===== src/Permission/Policy.antt =====
-- internal/permission/permission.go: policies, decisions, requests and the sensitive tools.
use node_shell.Base.{String, Bool, true, false, ◌||◌, ◌==◌, if◌then◌else◌, Error}
use node_shell.Apperror.{permission_denied}
use node_shell.Std.Strings.{trim_space, lower_is}

pub data Policy : Type 0 where
  ask allow deny : Policy

pub data McpMode : Type 0 where
  external local : McpMode

-- Go's `Decision` is a text: the three that are named, or another.
pub data Decision : Type 0 where
  deny_call allow_once allow_session : Decision
  other_decision : String → Decision

pub record Request : Type 0 where
  pub id : String
  pub source : String
  pub tool : String
  pub session_id : String
  pub title : String
  pub summary : String
  pub detail : String

abbrev pub err_denied : Error
err_denied = record { code = permission_denied; message = "Permission denied" }

unfoldable pub sensitive : String → Bool
sensitive tool =
    tool == "bash"
    || tool == "sftp_write"
    || tool == "run_command"
    || tool == "sftp_upload"
    || tool == "sftp_download"

unfoldable pub parse_mcp_mode : String → McpMode
unfolding trim_space lower_is
parse_mcp_mode value =
    let v = trim_space value in
    if lower_is v "local"
    then local
    else if lower_is v "external"
    then external
    else if v == ""
    then external
    else local

unfoldable pub parse_policy : String → Policy
unfolding trim_space lower_is
parse_policy value =
    let v = trim_space value in
    if lower_is v "allow" then allow else if lower_is v "deny" then deny else ask

unfoldable pub parse_decision : String → Decision × Bool
parse_decision value =
    if value == "deny"
    then (deny_call, true)
    else if value == "allow"
    then (allow_once, true)
    else if value == "allow-session"
    then (allow_session, true)
    else (deny_call, false)
