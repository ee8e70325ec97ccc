-- ===== src/Mcp/Sound.antt =====
-- The runtime among its goroutines: every state that they reach.
use node_shell.Base.{
  ◌≡◌, refl, String, Bool, true, none, lookup, arith, ℤ, Option-cases, is_map, distinct, contains,
  inl, inr,
}
use node_shell.Mcp.State.{new_runtime, clamp_policy}
use node_shell.Mcp.World.{World, new_world, Step, Reach, here, next, Placed, IsSound}
use node_shell.Mcp.Slots.{Step-Slots}
use node_shell.Mcp.Ids.{Step-Placed}
use node_shell.Mcp.Busy.{Step-Counts}

Step-IsSound : {w w' : World} → IsSound w → Step w w' → IsSound w'
Step-IsSound {w} h s = record {
  slots = Step-Slots (λ id c. waits_unregistered id c (h.placed id)) h.slots s;
  placed = Step-Placed h.placed s;
  counts = Step-Counts h.placed h.counts s;
}
  where
    waits_unregistered :
        (id : String) → w.connected id ≡ true → Placed w id → lookup id w.runtime.meta ≡ none
    waits_unregistered id c p = elim (Option-cases (lookup id w.runtime.meta)) [
      | inl e ↦ e
      | inr (m, e) ↦ absurd (ground (arith, p.registered))
    ]

new_world-IsSound : (max idle : ℤ) (guest : Bool) → IsSound (new_world (new_runtime max idle guest))
unfolding new_runtime clamp_policy is_map distinct contains lookup
new_world-IsSound max idle guest = record {
  slots = record {
    mapped = refl;
    ordered = refl;
    listed = λ id. refl;
    booked = refl;
    limited = omega arith;
    shut_reaper = λ c. absurd (ground arith);
  };
  placed = λ id. record {
    registered = λ e. ground arith;
    waiting = λ e. ground arith;
    unknown_id = λ e. (refl, refl, refl, refl);
  };
  counts = λ id. refl;
}

-- Whatever the order of the sections of the runtime's goroutines, its state is sound: the sessions
-- and the connects under way stay within the limit, the list of ids is the list of sessions, no
-- session is registered whose end was announced, and a session that the reaper has selected has no
-- operation under way.
pub Reach-IsSound :
    (max idle : ℤ) (guest : Bool) {w : World}
    → Reach (new_world (new_runtime max idle guest)) w
    → IsSound w
Reach-IsSound max idle guest here = new_world-IsSound max idle guest
Reach-IsSound max idle guest (next p s) = Step-IsSound (Reach-IsSound max idle guest p) s
