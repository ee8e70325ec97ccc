-- ===== src/Mcp/World.antt =====
-- The runtime among the goroutines that use it: any order of the sections under the lock.
use node_shell.Base.{
  ℕ, ◌+◌, ◌-◌, ◌≤◌, ◌<◌, ◌≡◌, String, Bool, true, false, Option, none, some, lookup, contains,
  distinct, is_map, is_some, length, eqb, not, ◌&&◌, ◌||◌, ◌==◌, if◌then◌else◌, Error,
}
use node_shell.Mcp.State.{Meta, Runtime, put_in, take_out}
use node_shell.Mcp.Sections.{
  reserve, release_reserve, commit, on_closed, drop_and_mark, mark_closing, unmark_closing, Ticket,
  counted, uncounted, refused, begin, finish, reap, start_reaper, stop_reaper, shut,
}

-- Beside the runtime: how many connects hold a reservation; the ids that the session manager has
-- issued, those that a connect has still to register, and those whose end it has announced; and the
-- counted operations under way on each session.
pub record World : Type 0 where
  pub runtime : Runtime
  pub reserved : ℕ
  pub issued : String → Bool
  pub connected : String → Bool
  pub announced : String → Bool
  pub operations : String → ℕ

abbrev pub new_world : Runtime → World
new_world r = record {
  runtime = r;
  reserved = 0;
  issued = λ id. false;
  connected = λ id. false;
  announced = λ id. false;
  operations = λ id. 0;
}

abbrev pub add_at : String → (String → ℕ) → String → ℕ
add_at id f other = if id == other then f other + 1 else f other

abbrev pub sub_at : String → (String → ℕ) → String → ℕ
sub_at id f other = if id == other then f other - 1 else f other

abbrev pub after_reserve : World → Runtime × Option Error → World
after_reserve w (r, none) = record w { runtime = r; reserved = w.reserved + 1 }
after_reserve w (r, some e) = record w { runtime = r }

abbrev pub after_commit : String → World → Runtime × Option Error → World
after_commit id w (r, none) = record w {
  runtime = r;
  reserved = w.reserved - 1;
  connected = take_out id w.connected;
}
after_commit id w (r, some e) = record w { runtime = r; connected = take_out id w.connected }

abbrev pub after_begin : String → World → Runtime × Ticket → World
after_begin id w (r, counted) = record w { runtime = r; operations = add_at id w.operations }
after_begin id w (r, uncounted) = record w { runtime = r }
after_begin id w (r, refused e) = record w { runtime = r }

-- The session manager never issues an id twice, announces only the end of a session that it issued,
-- and a session is torn down from here only when no connect has still to register it.
pub data Step (w : World) : World → Type 0 where
  reserves : Step w (after_reserve w (reserve w.runtime))
  gives_up :
      0 < w.reserved
      → Step w (record w { runtime = release_reserve w.runtime; reserved = w.reserved - 1 })
  issues :
      (id : String)
      → w.issued id ≡ false
      → Step w (record w { issued = put_in id w.issued; connected = put_in id w.connected })
  commits :
      (id host title : String) (now : ℕ)
      → w.connected id ≡ true
      → 0 < w.reserved
      → Step w (after_commit id w (commit id host title now w.runtime))
  announces :
      (id : String)
      → w.issued id ≡ true
      → Step w
          (record w { runtime = (on_closed id w.runtime).0; announced = put_in id w.announced })
  drops : (id : String) → Step w (record w { runtime = (drop_and_mark id w.runtime).0 })
  marks :
      (id : String)
      → w.issued id ≡ true
      → w.connected id ≡ false
      → Step w (record w { runtime = mark_closing id w.runtime })
  unmarks : (id : String) → Step w (record w { runtime = unmark_closing id w.runtime })
  begins : (id : String) (now : ℕ) → Step w (after_begin id w (begin id now w.runtime))
  finishes :
      (id : String) (now : ℕ)
      → 0 < w.operations id
      → Step w (record w { runtime = finish id now w.runtime; operations = sub_at id w.operations })
  reaps : (now : ℕ) → Step w (record w { runtime = (reap now w.runtime).0 })
  starts_reaper : Step w (record w { runtime = start_reaper w.runtime })
  stops_reaper : Step w (record w { runtime = stop_reaper w.runtime })
  shuts : Step w (record w { runtime = (shut w.runtime).0 })

pub data Reach (w : World) : World → Type 0 where
  here : Reach w w
  next : {v v' : World} → Reach w v → Step v v' → Reach w v'

-- The sessions, the list of their ids and the slots.
pub record Slots (w : World) : Type 0 where
  pub mapped : is_map w.runtime.meta ≡ true
  pub ordered : distinct w.runtime.order ≡ true
  pub listed : (id : String) → contains id w.runtime.order ≡ is_some (lookup id w.runtime.meta)
  pub booked : w.runtime.pending ≡ w.reserved
  pub limited : length w.runtime.meta + w.runtime.pending ≤ w.runtime.max_sessions
  pub shut_reaper : w.runtime.closed ≡ true → w.runtime.reaper ≡ false

-- What is known of an id, by where it stands.
pub record Placed (w : World) (id : String) : Type 0 where
  pub registered :
      is_some (lookup id w.runtime.meta) ≡ true
      → (w.issued id ≡ true) × (w.connected id ≡ false) × (w.announced id ≡ false)
  pub waiting :
      w.connected id ≡ true
      → (w.issued id ≡ true)
        × (w.runtime.local_closing id ≡ false)
        × (w.announced id ≡ w.runtime.tombstones id)
        × (w.operations id ≡ 0)
  pub unknown_id :
      w.issued id ≡ false
      → (w.runtime.local_closing id ≡ false)
        × (w.announced id ≡ false)
        × (w.runtime.tombstones id ≡ false)
        × (w.operations id ≡ 0)

-- A session counts the operations under way on it; one that the reaper has selected has none.
abbrev pub counts_all : Option Meta → ℕ → Bool
counts_all none n = true
counts_all (some m) n = eqb m.busy_count n && (not m.reaping || eqb n 0)

pub record IsSound (w : World) : Type 0 where
  pub slots : Slots w
  pub placed : (id : String) → Placed w id
  pub counts : (id : String) → counts_all (lookup id w.runtime.meta) (w.operations id) ≡ true
