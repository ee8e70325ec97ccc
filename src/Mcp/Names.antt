-- ===== src/Mcp/Names.antt =====
-- The tool that a parsed call belongs to.
use Prim.Native.String.{◌++◌ as ◌+++◌}
use node_shell.Mcp.Files.{coded_unknown}
use node_shell.Base.{
  ◌≡◌, refl, ◌∙◌, sym, ap, String, true, false, Dict, lookup, Option, none, some, Result, ok, err,
  ◌>>=◌, ◌==◌, arith, eq_iff, if_cases, ◌||◌, inl, inr, ltℤ, pos, is_some, Bool-cases, ℤ, ◌≤◌, ℕ,
  zero, suc, ◌<◌, negsuc,
}
use node_shell.Permission.Policy.{Request, sensitive}
use node_shell.Mcp.State.{Runtime, clamp_timeout}
use node_shell.Mcp.Arguments.{
  Value, ToolCall, list_hosts_call, list_sessions_call, connect_call, disconnect_call, run_call,
  list_call, read_call, write_call, upload_call, download_call, parse_call, string_arg,
  optional_arg, tool_arg, arg_bool_opt, arg_chdir, arg_timeout_ms, arg_int_opt, in_range, Checked,
}
use node_shell.Mcp.Call.{CallOpts, consent, request}

abbrev pub tool_name : ToolCall → String
tool_name list_hosts_call = "list_hosts"
tool_name list_sessions_call = "list_sessions"
tool_name (connect_call host password accept) = "connect_host"
tool_name (disconnect_call id) = "disconnect_session"
tool_name (run_call id command ms) = "run_command"
tool_name (list_call id path chdir) = "sftp_list"
tool_name (read_call id path) = "sftp_read"
tool_name (write_call id path body) = "sftp_write"
tool_name (upload_call id local name) = "sftp_upload"
tool_name (download_call id remote local) = "sftp_download"

Names : String → Result ToolCall → Type 0
Names name r = (call : ToolCall) → r ≡ ok call → tool_name call ≡ name

bound :
    {A : Type 0} (name : String) (r : Result A) (k : A → Result ToolCall)
    → ((a : A) → Names name (k a))
    → Names name (r >>= k)
unfolding Names
bound name (ok a) k h = h a
bound name (err e) k h = λ call p. absurd (cc p)

abbrev tool_of : Option Request → String
tool_of none = ""
tool_of (some req) = req.tool

named-Names : (name : String) (call : ToolCall) → tool_name call ≡ name → Names name (ok call)
unfolding Names
named-Names name call e = λ call' p. ground (arith, p)

one-Names :
    {A : Type 0} (name : String) (r : Result A) (k : A → ToolCall)
    → ((a : A) → tool_name (k a) ≡ name)
    → Names name (r >>= (λ a. ok (k a)))
one-Names name r k h = bound name r (λ a. ok (k a)) (λ a. named-Names name (k a) (h a))

two-Names :
    {A B : Type 0} (name : String) (r : Result A) (r' : Result B) (k : A → B → ToolCall)
    → ((a : A) (b : B) → tool_name (k a b) ≡ name)
    → Names name (r >>= (λ a. r' >>= (λ b. ok (k a b))))
two-Names name r r' k h =
    bound name r (λ a. r' >>= (λ b. ok (k a b))) (λ a. one-Names name r' (k a) (h a))

three-Names :
    {A B C : Type 0} (name : String) (r : Result A) (r' : Result B) (r'' : Result C)
    (k : A → B → C → ToolCall)
    → ((a : A) (b : B) (c : C) → tool_name (k a b c) ≡ name)
    → Names name (r >>= (λ a. r' >>= (λ b. r'' >>= (λ c. ok (k a b c)))))
three-Names name r r' r'' k h =
    bound name r (λ a. r' >>= (λ b. r'' >>= (λ c. ok (k a b c))))
      (λ a. two-Names name r' r'' (k a) (h a))

pub parse_call-Names :
    (name : String) (args : Dict Value) (call : ToolCall)
    → parse_call name args ≡ ok call
    → tool_name call ≡ name
unfolding parse_call Names arg_chdir tool_arg arg_timeout_ms arg_bool_opt
parse_call-Names name args =
    let text = string_arg name args in
    let optional = optional_arg name args in
    let named : (tool : String) → (name == tool) ≡ true → tool ≡ name =
      λ tool e. ground (arith, eq_iff name tool) in
    if_cases (Names name) (name == "list_hosts") _ _
      (λ e. named-Names name list_hosts_call (named _ e))
      (λ n0.
        if_cases (Names name) (name == "list_sessions") _ _
          (λ e. named-Names name list_sessions_call (named _ e))
          (λ n1.
            if_cases (Names name) (name == "connect_host") _ _
              (λ e.
                three-Names name (text "hostId") (optional "password")
                  (tool_arg name (arg_bool_opt args "acceptHostKey")) connect_call
                  (λ a b c. named _ e))
              (λ n2.
                if_cases (Names name) (name == "disconnect_session") _ _
                  (λ e. one-Names name (text "sessionId") disconnect_call (λ a. named _ e))
                  (λ n3.
                    if_cases (Names name) (name == "run_command") _ _
                      (λ e.
                        three-Names name (text "sessionId") (text "command")
                          (tool_arg name (arg_timeout_ms args)) run_call (λ a b c. named _ e))
                      (λ n4.
                        if_cases (Names name) (name == "sftp_list") _ _
                          (λ e.
                            three-Names name (text "sessionId") (optional "path")
                              (tool_arg name (arg_chdir args)) list_call (λ a b c. named _ e))
                          (λ n5.
                            if_cases (Names name) (name == "sftp_read") _ _
                              (λ e.
                                two-Names name (text "sessionId") (text "path") read_call
                                  (λ a b. named _ e))
                              (λ n6.
                                if_cases (Names name) (name == "sftp_write") _ _
                                  (λ e.
                                    three-Names name (text "sessionId") (text "path")
                                      (text "content") write_call (λ a b c. named _ e))
                                  (λ n7.
                                    if_cases (Names name) (name == "sftp_upload") _ _
                                      (λ e.
                                        three-Names name (text "sessionId") (text "localPath")
                                          (optional "remoteName") upload_call (λ a b c. named _ e))
                                      (λ n8.
                                        if_cases (Names name) (name == "sftp_download") _
                                          (err (coded_unknown ("Unknown tool: " +++ name)))
                                          (λ e.
                                            three-Names name (text "sessionId") (text "remotePath")
                                              (text "localPath") download_call (λ a b c. named _ e))
                                          (λ n9 call p. absurd (cc p)))))))))))

-- A call whose arguments are checked asks for consent exactly when its tool is sensitive.
pub consent-sensitive :
    (name : String) (args : Dict Value) (call : ToolCall) (opts : CallOpts) (r : Runtime)
    → parse_call name args ≡ ok call
    → is_some (consent opts r call) ≡ sensitive name
unfolding consent sensitive
consent-sensitive name args call opts r p =
    asks_tool call ∙ ap sensitive (parse_call-Names name args call p)
  where
    asks_tool : (called : ToolCall) → is_some (consent opts r called) ≡ sensitive (tool_name called)
    asks_tool list_hosts_call = refl
    asks_tool list_sessions_call = refl
    asks_tool (connect_call host password accept) = refl
    asks_tool (disconnect_call id) = refl
    asks_tool (run_call id command ms) = refl
    asks_tool (list_call id path chdir) = refl
    asks_tool (read_call id path) = refl
    asks_tool (write_call id path body) = refl
    asks_tool (upload_call id local name') = refl
    asks_tool (download_call id remote local) = refl

-- A request for consent names the tool that is called.
pub consent-tool :
    (name : String) (args : Dict Value) (call : ToolCall) (opts : CallOpts) (r : Runtime)
    (req : Request)
    → parse_call name args ≡ ok call
    → consent opts r call ≡ some req
    → req.tool ≡ name
unfolding consent request
consent-tool name args call opts r req p q = asked_tool call (q) ∙ parse_call-Names name args call p
  where
    asked_tool :
        (called : ToolCall) → consent opts r called ≡ some req → req.tool ≡ tool_name called
    asked_tool (run_call id command ms) e = ap tool_of (sym e)
    asked_tool (write_call id path body) e = ap tool_of (sym e)
    asked_tool (upload_call id local name') e = ap tool_of (sym e)
    asked_tool (download_call id remote local) e = ap tool_of (sym e)
    asked_tool list_hosts_call e = absurd (cc e)
    asked_tool list_sessions_call e = absurd (cc e)
    asked_tool (connect_call host password accept) e = absurd (cc e)
    asked_tool (disconnect_call id) e = absurd (cc e)
    asked_tool (list_call id path chdir) e = absurd (cc e)
    asked_tool (read_call id path) e = absurd (cc e)

abbrev Kept : ℤ → Type 0
Kept ms = (1 ≤ clamp_timeout ms) × (clamp_timeout ms ≤ 300000) × (ms ≡ pos (clamp_timeout ms))

within : (n : ℕ) → n ≤ 300000 → 0 < n → Kept (pos n)
unfolding clamp_timeout
within zero l p = absurd (ground arith)
within (suc n) l p = (ground arith, ground arith, ap pos (ground arith))

in_range-Kept : (o : Checked ℤ) (ms : ℤ) → in_range o ≡ inr ms → Kept ms
in_range-Kept (inl message) ms e = absurd (cc e)
in_range-Kept (inr (pos n)) ms e =
    elim (Bool-cases (ltℤ (pos n) (pos 1) || ltℤ (pos 300000) (pos n))) [
      | inl out ↦ absurd (ground arith)
      | inr fine ↦ rw (number_of e fine) (within n (ground arith) (ground arith))
    ]
  where
    number_of :
        in_range (inr (pos n)) ≡ inr ms
        → (ltℤ (pos n) (pos 1) || ltℤ (pos 300000) (pos n)) ≡ false
        → ms ≡ pos n
    number_of e f = ground arith
in_range-Kept (inr (negsuc n)) ms e = absurd (cc e)

-- The timeout of a checked run_command is the one that was asked for, which the runtime leaves as it is.
pub arg_timeout_ms-clamp :
    (args : Dict Value) (ms : ℤ)
    → arg_timeout_ms args ≡ inr ms
    → (1 ≤ clamp_timeout ms) × (clamp_timeout ms ≤ 300000) × (ms ≡ pos (clamp_timeout ms))
unfolding arg_timeout_ms
arg_timeout_ms-clamp args ms e = elim (Bool-cases (is_some (lookup "timeoutMs" args))) [
  | inl given ↦ in_range-Kept (arg_int_opt args "timeoutMs") ms (ground arith)
  | inr absent ↦ rw (the_default absent) (within 60000 (omega arith) (omega arith))
]
  where
    the_default : is_some (lookup "timeoutMs" args) ≡ false → ms ≡ pos 60000
    the_default absent = ground arith
