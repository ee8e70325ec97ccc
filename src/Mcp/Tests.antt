-- ===== src/Mcp/Tests.antt =====
-- Runs of the runtime at concrete inputs.
use node_shell.Base.{
  ℕ, ◌≡◌, ◌⊎◌, refl, String, true, false, List, [], ◌∷◌, none, some, Dict, lookup, insert, contains,
  ok, pos, ◌==◌, if◌then◌else◌, arith,
}
use node_shell.Stores.Hosts.{HostConfig}
use node_shell.Permission.Policy.{deny_call, sensitive}
use node_shell.Permission.Service.{Service}
use node_shell.Mcp.State.{new_runtime, clamp_policy, put_in}
use node_shell.Mcp.Sections.{
  reserve, commit, begin, finish, reap, reap_loop, refused, not_found, shut,
}
use node_shell.Mcp.World.{
  shuts, World, new_world, Reach, here, next, IsSound, after_reserve, after_commit, after_begin,
  sub_at, reserves, issues, commits, begins, finishes,
}
use node_shell.Mcp.Services.{SessionManager, Deps, Scene}
use node_shell.Mcp.Files.{Timing, result_first}
use node_shell.Mcp.Arguments.{parse_call, Value, text, number}
use node_shell.Mcp.Call.{call_with, CallOpts}
use node_shell.Mcp.Sound.{Reach-IsSound}
use node_shell.Mcp.StaysOut.{reaped, Reach-reaps}
use node_shell.Mcp.Shut.{Reach-StaysShut, StaysShut}
use node_shell.Mcp.Restores.{busy_at, call_with-busy}
use node_shell.Mcp.Granted.{permission_gate, Guarded, call_with-Guarded}

abbrev fresh : World
fresh = new_world (new_runtime (pos 2) (pos 10) false)

abbrev reserved_world : World
reserved_world = after_reserve fresh (reserve fresh.runtime)

abbrev issued_world : World
issued_world = record reserved_world {
  issued = put_in "s1" reserved_world.issued;
  connected = put_in "s1" reserved_world.connected;
}

abbrev registered_world : World
registered_world =
    after_commit "s1" issued_world (commit "s1" "h1" "root@example" 5 issued_world.runtime)

abbrev busy_world : World
busy_world = after_begin "s1" registered_world (begin "s1" 7 registered_world.runtime)

abbrev idle_world : World
idle_world = record busy_world {
  runtime = finish "s1" 9 busy_world.runtime;
  operations = sub_at "s1" busy_world.operations;
}

registers : Reach fresh registered_world
unfolding new_runtime clamp_policy reserve commit lookup insert
registers =
    next (next (next here reserves) (issues "s1" refl))
      (commits "s1" "h1" "root@example" 5 refl (omega arith))

works : Reach fresh idle_world
unfolding new_runtime clamp_policy reserve commit begin finish lookup insert
works = next (next registers (begins "s1" 7)) (finishes "s1" 9 (omega arith))

Reach-IsSound_example : IsSound idle_world
Reach-IsSound_example = Reach-IsSound (pos 2) (pos 10) false works

-- Behind the reaper, an operation on the session is tried, and the runtime is shut.
abbrev reaped_world : World
reaped_world = reaped 100 idle_world

abbrev tried_world : World
tried_world = after_begin "s1" reaped_world (begin "s1" 101 reaped_world.runtime)

Reach-reaps_example :
    (idle_world.operations "s1" ≡ 0)
    × ((later : ℕ)
        → ((begin "s1" later (shut tried_world.runtime).0).1 ≡ refused (not_found "s1"))
          ⊎ (((shut tried_world.runtime).0.guest ≡ true)
              × (lookup "s1" (shut tried_world.runtime).0.meta ≡ none)))
unfolding new_runtime clamp_policy reserve commit begin finish lookup insert reap reap_loop contains
Reach-reaps_example =
    Reach-reaps (pos 2) (pos 10) false 100 "s1" works refl
      (next (next here (begins "s1" 101)) shuts)

abbrev shut_world : World
shut_world = record issued_world { runtime = (shut issued_world.runtime).0 }

abbrev late_world : World
late_world = after_commit "s1" shut_world (commit "s1" "h1" "root@example" 5 shut_world.runtime)

Reach-StaysShut_example : StaysShut shut_world.runtime late_world.runtime
unfolding new_runtime clamp_policy reserve shut
Reach-StaysShut_example =
    Reach-StaysShut {w = shut_world} {w' = late_world} refl
      (next here (commits "s1" "h1" "root@example" 5 refl (omega arith)))

-- The services: the manager hands out the session s1 and announces every end; all calls are recorded.
abbrev recording_manager : SessionManager (List String)
recording_manager = record {
  connect = λ host password accept s. ("connect" ∷ s, ok "s1");
  disconnect = λ id s. ("disconnect" ∷ s, true);
  exec = λ id command ms s. (command ∷ s, ok "done");
}

abbrev saved : HostConfig
saved = record {
  id = "h1";
  name = "web";
  host = "example";
  port = pos 22;
  username = "root";
  auth_method = "password";
  private_key_path = "";
  credentials_prompted = true;
  credentials_saved = true;
}

abbrev demo : Deps (List String)
demo = record {
  hosts = λ s. ok (saved ∷ []);
  get_by_id = λ id s. ok (if id == "h1" then some saved else none);
  manager = some recording_manager;
  sftp = none;
  forget = none;
}

abbrev start : Scene (List String)
start = record { runtime = registered_world.runtime; outside = [] }

abbrev at_once : Timing
at_once = record { now = 10; later = 11; race = result_first }

abbrev options : CallOpts
options = record { source = ""; title = "" }

abbrev command : Dict Value
command =
    ("sessionId", text "s1")
    ∷ ("command", text "uptime")
    ∷ ("timeoutMs", number (some (pos 500)))
    ∷ []

call_with-busy_example :
    busy_at "s1" (call_with demo none "run_command" command options at_once start).0.runtime
    ≡ busy_at "s1" start.runtime
call_with-busy_example =
    call_with-busy demo none "run_command" command options at_once start "s1" refl refl

abbrev guarded : Deps (Service × List String)
guarded = record {
  hosts = λ s. ok (saved ∷ []);
  get_by_id = λ id s. ok (some saved);
  manager = some (record {
    connect = λ host password accept s. ((s.0, "connect" ∷ s.1), ok "s1");
    disconnect = λ id s. ((s.0, "disconnect" ∷ s.1), true);
    exec = λ id line ms s. ((s.0, line ∷ s.1), ok "done");
  });
  sftp = none;
  forget = none;
}

abbrev denying : Service
denying = record { gate = some (λ req. some deny_call); policy = none; allowed = []; prompts = [] }

abbrev watched : Scene (Service × List String)
watched = record { runtime = registered_world.runtime; outside = (denying, []) }

call_with-Guarded_example :
    Guarded guarded false watched
      (parse_call "run_command" command)
      (call_with guarded (permission_gate false) "run_command" command options at_once watched)
unfolding sensitive
call_with-Guarded_example =
    call_with-Guarded guarded false watched "run_command" command options at_once refl
