-- ===== src/Tunnel/Tests.antt =====
-- Runs of discovery and of the forwards at concrete inputs.
use node_shell.Base.{
  ◌≡◌, refl, pos, String, true, false, none, some, lookup, insert, delete, [], ◌==◌, if◌then◌else◌,
  arith,
}
use node_shell.Tunnel.Parse.{Listener, lines, parse_listeners, listed}
use node_shell.Tunnel.Given.{ascending, given}
use node_shell.Tunnel.Discovered.{Offered, parse_listeners-lists}
use node_shell.Tunnel.Service.{Tunnel, Network, new_service, enter, start, stop_locked}
use node_shell.Tunnel.Listeners.{
  World, here, next, binds, enters, stops, Accounted, Reach-Accounted,
}
use node_shell.Tunnel.Started.{Leaves, start-Leaves}

abbrev output : String
output = "LISTEN 0 128 0.0.0.0:8080 0.0.0.0:*\nLISTEN 0 5 [::]:22 [::]:*\n"

parse_listeners-lists_example :
    (ascending (parse_listeners output) ≡ true)
    × ((l : Listener) → listed l (parse_listeners output) ≡ given l (lines output))
    × ((l : Listener) → listed l (parse_listeners output) ≡ true → Offered l.port)
parse_listeners-lists_example = parse_listeners-lists output

abbrev web : Tunnel
web = record {
  id = "t1";
  session_id = "s1";
  local_port = 8080;
  remote_addr = "0.0.0.0";
  remote_port = pos 8080;
}

abbrev bound_world : World
bound_world = record { service = record new_service { open_listeners = 1 }; held = 1; taken = 0 }

-- Behind the locked section of a stop, whose listener is still open.
abbrev stopped_world : World
stopped_world = record {
  service = record { tunnels = []; closed = false; open_listeners = 1 };
  held = 0;
  taken = 1;
}

Reach-Accounted_example : Accounted stopped_world
unfolding new_service lookup enter stop_locked insert delete
Reach-Accounted_example =
    Reach-Accounted
      (next (next (next here binds) (enters web (omega arith) refl)) (stops "s1" web.id))

abbrev network : Network
network = record {
  dialer = true;
  can_dial = none;
  listen = λ address. if address == "127.0.0.1:8080" then none else some 40000;
}

start-Leaves_example :
    Leaves network "t1" "s1" "0.0.0.0"
      (pos 8080)
      new_service
      (start network "t1" "s1" "0.0.0.0" (pos 8080) new_service)
start-Leaves_example = start-Leaves network "t1" "s1" "0.0.0.0" (pos 8080) new_service
