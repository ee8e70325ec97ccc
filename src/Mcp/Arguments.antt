-- ===== src/Mcp/Arguments.antt =====
-- internal/mcpcli/tools.go: the arguments of a tool call.
use Prim.Native.String.{◌++◌ as ◌+++◌}
use node_shell.Base.{
  ℤ, pos, String, Bool, true, false, ◌||◌, Option, none, some, Dict, lookup, Result, ok, err, ◌>>=◌,
  ◌⊎◌, inl, inr, ◌==◌, if◌then◌else◌, ltℤ, is_some,
}
use node_shell.Mcp.State.{max_command_timeout, default_command_timeout}
use node_shell.Mcp.Files.{coded_unknown}

-- A value of the decoded JSON object: a number is its int64, or none where it has a fraction or does
-- not fit; all else is null, an array or an object.
pub data Value : Type 0 where
  text : String → Value
  flag : Bool → Value
  number : Option ℤ → Value
  other : Value

-- A checked argument: the message of the failure on the left.
abbrev pub Checked : Type 0 → Type 0
Checked A = String ⊎ A

abbrev quoted : String → String → String
quoted key rest = "argument \"" +++ (key +++ ("\" " +++ rest))

abbrev text_of : String → Value → Checked String
text_of key (text s) = inr s
text_of key _ = inl (quoted key "must be a string")

abbrev flag_of : String → Value → Checked Bool
flag_of key (flag b) = inr b
flag_of key _ = inl (quoted key "must be a boolean")

abbrev integer_of : String → Value → Checked ℤ
integer_of key (number (some i)) = inr i
integer_of key _ = inl (quoted key "must be an integer")

abbrev required : {A : Type 0} → (Value → Checked A) → String → Option Value → Checked A
required f key none = inl (quoted key "is required")
required f key (some v) = f v

abbrev optional : {A : Type 0} → A → (Value → Checked A) → Option Value → Checked A
optional default f none = inr default
optional default f (some v) = f v

unfoldable pub arg_string : Dict Value → String → Checked String
unfolding lookup
arg_string args key = required (text_of key) key (lookup key args)

unfoldable pub arg_string_opt : Dict Value → String → Checked String
unfolding lookup
arg_string_opt args key = optional "" (text_of key) (lookup key args)

unfoldable pub arg_bool_opt : Dict Value → String → Checked Bool
unfolding lookup
arg_bool_opt args key = optional false (flag_of key) (lookup key args)

unfoldable pub arg_chdir : Dict Value → Checked Bool
unfolding lookup
arg_chdir args = optional true (flag_of "chdir") (lookup "chdir" args)

unfoldable pub arg_int_opt : Dict Value → String → Checked ℤ
unfolding lookup
arg_int_opt args key = optional (pos 0) (integer_of key) (lookup key args)

abbrev pub in_range : Checked ℤ → Checked ℤ
in_range (inl message) = inl message
in_range (inr ms) =
    if ltℤ ms (pos 1) || ltℤ (pos max_command_timeout) ms
    then inl (quoted "timeoutMs" "is out of range")
    else inr ms

unfoldable pub arg_timeout_ms : Dict Value → Checked ℤ
unfolding lookup arg_int_opt
arg_timeout_ms args =
    if is_some (lookup "timeoutMs" args)
    then in_range (arg_int_opt args "timeoutMs")
    else inr (pos default_command_timeout)

-- A call whose arguments are checked.
pub data ToolCall : Type 0 where
  list_hosts_call list_sessions_call : ToolCall
  connect_call : String → String → Bool → ToolCall
  disconnect_call : String → ToolCall
  run_call : String → String → ℤ → ToolCall
  list_call : String → String → Bool → ToolCall
  read_call : String → String → ToolCall
  write_call upload_call download_call : String → String → String → ToolCall

-- A failure carries the tool's name.
unfoldable pub tool_arg : {A : Type 0} → String → Checked A → Result A
tool_arg tool (inl message) = err (coded_unknown (tool +++ (": " +++ message)))
tool_arg tool (inr a) = ok a

module _ (tool : String) (args : Dict Value) where
  abbrev pub string_arg : String → Result String
  unfolding tool_arg arg_string
  string_arg key = tool_arg tool (arg_string args key)

  abbrev pub optional_arg : String → Result String
  unfolding tool_arg arg_string_opt
  optional_arg key = tool_arg tool (arg_string_opt args key)

  abbrev pub connect_args : Result ToolCall
  unfolding tool_arg arg_bool_opt
  connect_args = do
    host ← string_arg "hostId"
    password ← optional_arg "password"
    accept ← tool_arg tool (arg_bool_opt args "acceptHostKey")
    ok (connect_call host password accept)

  abbrev pub disconnect_args : Result ToolCall
  disconnect_args = do id ← string_arg "sessionId"; ok (disconnect_call id)

  abbrev pub run_args : Result ToolCall
  unfolding tool_arg arg_timeout_ms
  run_args = do
    id ← string_arg "sessionId"
    command ← string_arg "command"
    ms ← tool_arg tool (arg_timeout_ms args)
    ok (run_call id command ms)

  abbrev pub list_args : Result ToolCall
  unfolding tool_arg arg_chdir
  list_args = do
    id ← string_arg "sessionId"
    path ← optional_arg "path"
    chdir ← tool_arg tool (arg_chdir args)
    ok (list_call id path chdir)

  abbrev pub read_args : Result ToolCall
  read_args = do id ← string_arg "sessionId"; path ← string_arg "path"; ok (read_call id path)

  abbrev pub write_args : Result ToolCall
  write_args = do
    id ← string_arg "sessionId"
    path ← string_arg "path"
    content ← string_arg "content"
    ok (write_call id path content)

  abbrev pub upload_args : Result ToolCall
  upload_args = do
    id ← string_arg "sessionId"
    local ← string_arg "localPath"
    name ← optional_arg "remoteName"
    ok (upload_call id local name)

  abbrev pub download_args : Result ToolCall
  download_args = do
    id ← string_arg "sessionId"
    remote ← string_arg "remotePath"
    local ← string_arg "localPath"
    ok (download_call id remote local)

  -- The switch of `CallWith`, up to the arguments that each case reads.
  unfoldable pub parse_call : Result ToolCall
  parse_call =
      if tool == "list_hosts"
      then ok list_hosts_call
      else if tool == "list_sessions"
      then ok list_sessions_call
      else if tool == "connect_host"
      then connect_args
      else if tool == "disconnect_session"
      then disconnect_args
      else if tool == "run_command"
      then run_args
      else if tool == "sftp_list"
      then list_args
      else if tool == "sftp_read"
      then read_args
      else if tool == "sftp_write"
      then write_args
      else if tool == "sftp_upload"
      then upload_args
      else if tool == "sftp_download"
      then download_args
      else err (coded_unknown ("Unknown tool: " +++ tool))
