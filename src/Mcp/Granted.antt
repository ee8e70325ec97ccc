-- ===== src/Mcp/Granted.antt =====
-- The tools under the permission service: what a sensitive call needs.
use node_shell.Base.{
  ◌≡◌, refl, ap, ◌∙◌, ◌⊎◌, inl, inr, String, Bool, true, false, Dict, Option, none, some, Error,
  Result, ok, err, arith, is_some,
}
use mathlib.Core.Option.{some-injective}
use mathlib.Core.Path.{subst}
use node_shell.Permission.Policy.{Request, sensitive}
use node_shell.Permission.Service.{Service, authorize}
use node_shell.Permission.Consent.{HasConsent, authorize-HasConsent}
use node_shell.Mcp.Services.{Deps, Scene}
use node_shell.Mcp.Files.{Timing}
use node_shell.Mcp.State.{Runtime}
use node_shell.Mcp.Arguments.{
  Value, ToolCall, parse_call, list_hosts_call, list_sessions_call, connect_call, disconnect_call,
  run_call, list_call, read_call, write_call, upload_call, download_call,
}
use node_shell.Mcp.Call.{
  CallOpts, Gate, Answered, consent, request, truncate, permitted, asked, parsed, call_with,
}
use node_shell.Mcp.Names.{consent-sensitive, consent-tool}

-- The permission service as the runtime's gate; `done` says that the call's context is over.
unfoldable pub permission_gate : {T : Type 0} → Bool → Gate (Service × T)
unfolding authorize
permission_gate done = some (λ req s. let p = authorize done req s.0 in ((p.0, s.1), p.1))

-- What the request of a sensitive call tells the user: the tool, the session that it is for, and what it
-- would run, write or copy there.
abbrev pub Concerns : ToolCall → Request → Type 0
Concerns (run_call id command ms) req =
    (req.tool ≡ "run_command") × (req.session_id ≡ id) × (req.summary ≡ truncate (truncate command))
Concerns (write_call id path body) req =
    (req.tool ≡ "sftp_write") × (req.session_id ≡ id) × (req.summary ≡ truncate path)
Concerns (upload_call id local name) req =
    (req.tool ≡ "sftp_upload")
    × (req.session_id ≡ id)
    × (req.summary ≡ truncate local)
    × (req.detail ≡ name)
Concerns (download_call id remote local) req =
    (req.tool ≡ "sftp_download")
    × (req.session_id ≡ id)
    × (req.summary ≡ truncate remote)
    × (req.detail ≡ local)
Concerns list_hosts_call req = ⊥
Concerns list_sessions_call req = ⊥
Concerns (connect_call host password accept) req = ⊥
Concerns (disconnect_call id) req = ⊥
Concerns (list_call id path chdir) req = ⊥
Concerns (read_call id path) req = ⊥

consent-Concerns :
    (opts : CallOpts) (r : Runtime) (call : ToolCall) (req : Request)
    → consent opts r call ≡ some req
    → Concerns call req
unfolding consent request
consent-Concerns opts r (run_call id command ms) req e =
    subst (Concerns (run_call id command ms)) (some-injective _ _ e) (refl, refl, refl)
consent-Concerns opts r (write_call id path body) req e =
    subst (Concerns (write_call id path body)) (some-injective _ _ e) (refl, refl, refl)
consent-Concerns opts r (upload_call id local name) req e =
    subst (Concerns (upload_call id local name)) (some-injective _ _ e) (refl, refl, refl, refl)
consent-Concerns opts r (download_call id remote local) req e =
    subst (Concerns (download_call id remote local)) (some-injective _ _ e) (refl, refl, refl, refl)
consent-Concerns opts r list_hosts_call req e = absurd (ground arith)
consent-Concerns opts r list_sessions_call req e = absurd (ground arith)
consent-Concerns opts r (connect_call host password accept) req e = absurd (ground arith)
consent-Concerns opts r (disconnect_call id) req e = absurd (ground arith)
consent-Concerns opts r (list_call id path chdir) req e = absurd (ground arith)
consent-Concerns opts r (read_call id path) req e = absurd (ground arith)

module _ {T : Type 0} (d : Deps (Service × T)) (done : Bool) (c : Scene (Service × T)) where
  -- Nothing but the permission service has changed, or the call has a consent to a request for what it
  -- does.
  abbrev pub Guarded : Result ToolCall → Answered d → Type 0
  Guarded r a =
      ((a.0.runtime ≡ c.runtime) × (a.0.outside.1 ≡ c.outside.1))
      ⊎ ((call : ToolCall) × (r ≡ ok call)
          × ((req : Request) × Concerns call req × (done ≡ false) × HasConsent req c.outside.0))

  asked-Guarded :
      (t : Timing) (opts : CallOpts) (call : ToolCall) (o : Option Request)
      → consent opts c.runtime call ≡ o
      → is_some o ≡ true
      → ((req : Request) → o ≡ some req → sensitive req.tool ≡ true)
      → Guarded (ok call) (asked d (permission_gate done) t call c o)
  unfolding permission_gate
  asked-Guarded t opts call none q e f = absurd (ground arith)
  asked-Guarded t opts call (some req) q e f = by_verdict (authorize done req c.outside.0).1 refl
    where
      by_verdict :
          (v : Option Error)
          → (authorize done req c.outside.0).1 ≡ v
          → Guarded
              (ok call)
              (permitted d t call c.runtime (((authorize done req c.outside.0).0, c.outside.1), v))
      by_verdict (some x) p = inl (refl, refl)
      by_verdict none p = elim ((authorize-HasConsent req c.outside.0 done).0 p) [
        | inl plain ↦ absurd (ground (arith, f req refl))
        | inr (live, granted) ↦
            inr (call, refl, (req, consent-Concerns opts c.runtime call req q, live, granted))
      ]

  -- Where the runtime has the permission service as its authorizer: a call of a sensitive tool changes
  -- nothing but that service, whatever its arguments, unless its context is not over and there is
  -- consent to a request that names the call's tool and session, and the command, path or file that
  -- the call is about: by the policy, by an earlier grant of the tool to the session, by the gate's
  -- answer, or because the policy asks and the service has no gate.
  pub call_with-Guarded :
      (name : String) (args : Dict Value) (opts : CallOpts) (t : Timing)
      → sensitive name ≡ true
      → Guarded (parse_call name args) (call_with d (permission_gate done) name args opts t c)
  unfolding call_with
  call_with-Guarded name args opts t s = by_arguments (parse_call name args) refl
    where
      by_arguments :
          (r : Result ToolCall)
          → parse_call name args ≡ r
          → Guarded r (parsed d (permission_gate done) opts t c r)
      by_arguments (err e) p = inl (refl, refl)
      by_arguments (ok call) p =
          asked-Guarded t opts call (consent opts c.runtime call) refl
            (consent-sensitive name args call opts c.runtime p ∙ s)
            (λ req q. ap sensitive (consent-tool name args call opts c.runtime req p q) ∙ s)
