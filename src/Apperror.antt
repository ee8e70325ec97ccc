-- ===== src/Apperror.antt =====
-- internal/apperror/apperror.go: the codes that cross the boundary, and the formatter of errors.
use Prim.Native.String.{◌++◌ as ◌+++◌}
use node_shell.Base.{String, Bool, List, [], ◌∷◌, Option, none, some, contains, if◌then◌else◌}

abbrev pub config_read_failed : String
config_read_failed = "CONFIG_READ_FAILED"

abbrev pub config_write_failed : String
config_write_failed = "CONFIG_WRITE_FAILED"

abbrev pub permission_denied : String
permission_denied = "PERMISSION_DENIED"

abbrev pub session_not_found : String
session_not_found = "SESSION_NOT_FOUND"

abbrev pub cancelled : String
cancelled = "CANCELLED"

abbrev pub timeout : String
timeout = "TIMEOUT"

abbrev pub unknown : String
unknown = "UNKNOWN"

-- The whitelist of `knownCode`.
abbrev pub known_codes : List String
known_codes =
    config_read_failed ∷ config_write_failed ∷ "CONNECTION_REFUSED" ∷ timeout ∷ "AUTH_FAILED"
    ∷ "HOST_UNREACHABLE" ∷ "HOST_KEY_CHANGED" ∷ "HOST_KEY_UNKNOWN" ∷ "HOST_NOT_FOUND"
    ∷ session_not_found ∷ "MCP_SESSION_LIMIT" ∷ cancelled ∷ permission_denied ∷ unknown ∷ []

unfoldable pub known_code : String → Bool
unfolding contains
known_code code = contains code known_codes

-- An error value: the code of the first `Coded` in its chain, if there is one, and its message.
pub record Failure : Type 0 where
  pub coded : Option String
  pub message : String

abbrev code_of : Option String → String
code_of none = unknown
code_of (some c) = if known_code c then c else unknown

unfoldable pub format : Option Failure → String
unfolding known_code
format none = "NODESHELL_ERR:" +++ (unknown +++ ":Unknown error")
format (some f) = "NODESHELL_ERR:" +++ (code_of f.coded +++ (":" +++ f.message))
