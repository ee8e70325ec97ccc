-- ===== src/Sessions/Tests.antt =====
-- Runs of the session manager at concrete inputs.
use node_shell.Base.{
  pos, ◌≡◌, refl, true, none, some, [], ◌∷◌, lookup, insert, remove_first, Error, ok, ◌==◌,
  if◌then◌else◌,
}
use node_shell.Stores.Hosts.{HostConfig}
use node_shell.Sessions.State.{Conn, Manager, new_manager}
use node_shell.Sessions.Ends.{record_fault, change, begin_end, unlist, report, announce, finish}
use node_shell.Sessions.Connect.{ConnectOptions, Deps, connect, register, enter, new_session}
use node_shell.Sessions.World.{
  Reach, here, next, enters, registers, faults, ends, unlists, reports, announces, errors_of,
  has_closed,
}
use node_shell.Sessions.Lifecycle.{IsTold, Reach-IsTold}
use node_shell.Sessions.Faults.{Reach-fault}
use node_shell.Sessions.Opened.{Leaves, connect-Leaves}

abbrev link : Conn
link = record { opens_sftp = true; runs_exec = true; dials = true; fingerprint = "SHA256:abc" }

abbrev saved : HostConfig
saved = record {
  id = "h1";
  name = "web";
  host = "example";
  port = pos 22;
  username = "root";
  auth_method = "password";
  private_key_path = "";
  credentials_prompted = true;
  credentials_saved = true;
}

abbrev demo : Deps
demo = record {
  hosts = some (λ id. ok (if id == "h1" then some saved else none));
  creds = some (λ id. ok (some (record { password = "secret"; private_key = "" })));
  remember = λ host port fingerprint. none;
  connector = λ o. ok link;
}

abbrev accepting : ConnectOptions
accepting = record { password = ""; accept_host_key = true }

abbrev lost : Error
lost = record { code = "UNKNOWN"; message = "Connection lost" }

abbrev registered : Manager
registered = (register "s1" "h1" link (enter "c1" new_manager)).0

abbrev faulty : Manager
faulty = record_fault "s1" (some lost) registered

abbrev over : Manager
over = finish "s1" faulty

registers_one : Reach new_manager registered
unfolding new_manager enter lookup
registers_one = next (next here (enters "c1")) (registers "s1" "h1" link refl)

faults_one : Reach new_manager faulty
faults_one = next registers_one (faults "s1" lost)

ends_one : Reach faulty over
unfolding finish
ends_one = next (next (next (next here (ends "s1")) (unlists "s1")) (reports "s1")) (announces "s1")

Reach-IsTold_example : IsTold faulty
Reach-IsTold_example = Reach-IsTold faults_one

Reach-fault_example : errors_of "s1" over.events ≡ lost ∷ []
unfolding new_manager enter register record_fault change lookup insert finish begin_end unlist
    report announce has_closed remove_first
Reach-fault_example =
    Reach-fault lost "s1" (record (new_session "h1" link) { first_fault = some lost }) faults_one
      refl refl refl ends_one refl

connect-Leaves_example :
    Leaves demo "h1" accepting "c1" "s1" new_manager
      (connect demo "h1" accepting "c1" "s1" new_manager)
connect-Leaves_example = connect-Leaves demo "h1" accepting "c1" "s1" new_manager
