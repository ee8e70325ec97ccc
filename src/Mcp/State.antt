-- ===== src/Mcp/State.antt =====
-- internal/mcpcli/runtime.go: the state of the runtime, and its policy.
use node_shell.Base.{
  ℕ, zero, suc, String, Bool, true, false, List, [], ℤ, pos, negsuc, Dict, ltb, ◌==◌, if◌then◌else◌,
}

-- Times and durations count one unit, such as the millisecond.
pub record Meta : Type 0 where
  pub session_id : String
  pub host_id : String
  pub title : String
  pub last_used : ℕ
  pub busy_count : ℕ
  pub reaping : Bool

-- `reaper` is whether a reap loop is published. A set of ids is its membership test.
pub record Runtime : Type 0 where
  pub max_sessions : ℕ
  pub idle_timeout : ℕ
  pub guest : Bool
  pub meta : Dict Meta
  pub order : List String
  pub pending : ℕ
  pub closed : Bool
  pub tombstones : String → Bool
  pub local_closing : String → Bool
  pub reaper : Bool

abbrev pub put_in : String → (String → Bool) → String → Bool
put_in id set other = if id == other then true else set other

abbrev pub take_out : String → (String → Bool) → String → Bool
take_out id set other = if id == other then false else set other

abbrev pub default_max_sessions : ℕ
default_max_sessions = 8

abbrev pub default_idle_timeout : ℕ
default_idle_timeout = 600000

-- A value that is not positive is the default.
abbrev pub positive_or : ℤ → ℕ → ℕ
positive_or (pos zero) default = default
positive_or (pos (suc n)) default = suc n
positive_or (negsuc n) default = default

unfoldable pub clamp_policy : ℤ → ℤ → ℕ × ℕ
clamp_policy max_sessions idle =
    (positive_or max_sessions default_max_sessions, positive_or idle default_idle_timeout)

unfoldable pub new_runtime : ℤ → ℤ → Bool → Runtime
unfolding clamp_policy
new_runtime max_sessions idle guest =
    let policy = clamp_policy max_sessions idle in
    record {
      max_sessions = policy.0;
      idle_timeout = policy.1;
      guest = guest;
      meta = [];
      order = [];
      pending = 0;
      closed = false;
      tombstones = λ id. false;
      local_closing = λ id. false;
      reaper = false;
    }

abbrev pub max_command_timeout : ℕ
max_command_timeout = 300000

abbrev pub default_command_timeout : ℕ
default_command_timeout = 60000

-- `clampTimeout`, in milliseconds.
unfoldable pub clamp_timeout : ℤ → ℕ
clamp_timeout ms =
    let n = positive_or ms default_command_timeout in
    let n' = if ltb n 1 then 1 else n in
    if ltb max_command_timeout n' then max_command_timeout else n'
