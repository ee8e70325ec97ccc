-- ===== src/Tunnel/Listeners.antt =====
-- The listeners of the service, under any order of its sections.
use node_shell.Base.{
  ℕ, ◌+◌, ◌-◌, ◌<◌, ◌≡◌, refl, String, true, Option, none, some, [], ◌∷◌, Dict, lookup, keep,
  length, Result, if_cases, is_map, is_some, is_map-insert, is_map-delete, is_map-keep,
  length-insert, length-delete, arith,
}
use node_shell.Tunnel.Service.{
  Tunnel, Service, new_service, enter, belongs, stop_locked, close_listener, list, of_other,
  dispose_locked, dispose_all_locked,
}

-- Beside the service: how many starts hold a listener that is not in the table yet, and how many
-- listeners a call has taken off the table and has still to close.
pub record World : Type 0 where
  pub service : Service
  pub held : ℕ
  pub taken : ℕ

abbrev pub new_world : World
new_world = record { service = new_service; held = 0; taken = 0 }

abbrev takes_off : World → Service × ℕ → World
takes_off w (s, n) = record w { service = s; taken = w.taken + n }

-- A start binds a listener, gives it up, or enters its tunnel, whose id is new. A stop and a disposal
-- take tunnels off, and close their listeners one by one in sections of their own.
pub data Step (w : World) : World → Type 0 where
  binds : Step w (record w {
    service = record w.service { open_listeners = w.service.open_listeners + 1 };
    held = w.held + 1;
  })
  gives_up :
      0 < w.held
      → Step w (record w {
        service = record w.service { open_listeners = w.service.open_listeners - 1 };
        held = w.held - 1;
      })
  enters :
      (t : Tunnel)
      → 0 < w.held
      → lookup t.id w.service.tunnels ≡ none
      → Step w (record w { service = (enter t w.service).0; held = w.held - 1 })
  stops : (session id : String) → Step w (takes_off w (stop_locked session id w.service))
  disposes : (session : String) → Step w (takes_off w (dispose_locked session w.service))
  shuts : Step w (takes_off w (dispose_all_locked w.service))
  closes :
      0 < w.taken → Step w (record w { service = close_listener w.service; taken = w.taken - 1 })

pub data Reach (w : World) : World → Type 0 where
  here : Reach w w
  next : {v v' : World} → Reach w v → Step v v' → Reach w v'

-- Every open listener is a tunnel's, or one that a start holds, or one that is about to be closed.
pub record Accounted (w : World) : Type 0 where
  pub mapped : is_map w.service.tunnels ≡ true
  pub open_ones : w.service.open_listeners ≡ length w.service.tunnels + w.held + w.taken
  pub none_shut : w.service.closed ≡ true → length w.service.tunnels ≡ 0

length-keep :
    (session : String) (m : Dict Tunnel)
    → length m ≡ length (keep (of_other session) m) + length (list session m)
unfolding keep list
length-keep session [] = refl
length-keep session ((id, t) ∷ m) = ground (arith, length-keep session m)

enter-Accounted :
    (t : Tunnel) (w : World)
    → 0 < w.held
    → lookup t.id w.service.tunnels ≡ none
    → Accounted w
    → Accounted (record w { service = (enter t w.service).0; held = w.held - 1 })
unfolding enter
enter-Accounted t w l n h =
    if_cases
      (λ (p : Service × Result Tunnel). Accounted (record w { service = p.0; held = w.held - 1 }))
      w.service.closed _ _
      (λ c. record {
        mapped = h.mapped;
        open_ones = omega (arith, h.open_ones);
        none_shut = h.none_shut;
      })
      (λ c. record {
        mapped = is_map-insert t.id t w.service.tunnels h.mapped;
        open_ones = ground (arith, length-insert t.id t w.service.tunnels, h.open_ones);
        none_shut = λ e. absurd (ground arith);
      })

known_belongs : (session : String) (o : Option Tunnel) → belongs session o ≡ true → is_some o ≡ true
known_belongs session none e = e
known_belongs session (some t) e = refl

stop-Accounted :
    (session id : String) (w : World)
    → Accounted w
    → Accounted (takes_off w (stop_locked session id w.service))
unfolding stop_locked
stop-Accounted session id w h =
    if_cases (λ (p : Service × ℕ). Accounted (takes_off w p))
      (belongs session (lookup id w.service.tunnels)) _ _
      (λ b.
        let fewer =
          length-delete id w.service.tunnels h.mapped
            (known_belongs session (lookup id w.service.tunnels) b) in
        record {
          mapped = is_map-delete id w.service.tunnels h.mapped;
          open_ones = omega (arith, h.open_ones, fewer);
          none_shut = λ c. absurd (omega (arith, h.none_shut c, fewer));
        })
      (λ b. record {
        mapped = h.mapped;
        open_ones = omega (arith, h.open_ones);
        none_shut = h.none_shut;
      })

dispose-Accounted :
    (session : String) (w : World)
    → Accounted w
    → Accounted (takes_off w (dispose_locked session w.service))
unfolding dispose_locked
dispose-Accounted session w h =
    let split = length-keep session w.service.tunnels in
    record {
      mapped = is_map-keep (of_other session) w.service.tunnels h.mapped;
      open_ones = omega (arith, h.open_ones, split);
      none_shut = λ c. omega (arith, h.none_shut c, split);
    }

Step-Accounted : {w w' : World} → Accounted w → Step w w' → Accounted w'
unfolding dispose_all_locked close_listener is_map
Step-Accounted h binds = record {
  mapped = h.mapped;
  open_ones = omega (arith, h.open_ones);
  none_shut = h.none_shut;
}
Step-Accounted h (gives_up l) = record {
  mapped = h.mapped;
  open_ones = omega (arith, h.open_ones);
  none_shut = h.none_shut;
}
Step-Accounted {w} h (enters t l n) = enter-Accounted t w l n h
Step-Accounted {w} h (stops session id) = stop-Accounted session id w h
Step-Accounted {w} h (disposes session) = dispose-Accounted session w h
Step-Accounted h (closes l) = record {
  mapped = h.mapped;
  open_ones = omega (arith, h.open_ones);
  none_shut = h.none_shut;
}
Step-Accounted h shuts = record {
  mapped = refl;
  open_ones = omega (arith, h.open_ones);
  none_shut = λ c. refl;
}

-- Whatever the order of the sections: the listeners that are open are as many as the tunnels in the
-- table, the listeners that starts under way still hold, and those that a stop or a disposal has taken
-- off the table and is about to close; and the table of a service that was shut stays empty.
pub Reach-Accounted : {w : World} → Reach new_world w → Accounted w
unfolding new_service is_map
Reach-Accounted here = record { mapped = refl; open_ones = refl; none_shut = λ c. refl }
Reach-Accounted (next p s) = Step-Accounted (Reach-Accounted p) s
