-- ===== src/Mcp/Ids.antt =====
-- The ids of the sessions, under any order of the sections.
use node_shell.Base.{
  ℕ, ◌+◌, ◌-◌, ◌<◌, ◌≡◌, refl, String, Bool, true, false, not, ◌&&◌, ◌||◌, Option, none, some,
  lookup, insert, is_some, length, leb, ltb, Error, arith, eq_iff, if_cases, lookup-insert,
  lookup-delete, ◌⊎◌,
}
use node_shell.Mcp.State.{Meta, Runtime, put_in, take_out}
use node_shell.Mcp.Sections.{
  reserve, release_reserve, drop_locked, new_meta, commit, on_closed, drop_and_mark, mark_closing,
  unmark_closing, Ticket, begin, begin_found, started, finish, reap, start_reaper, stop_reaper,
  shut,
}
use node_shell.Mcp.World.{
  World, after_reserve, after_commit, after_begin, Step, Placed, reserves, gives_up, issues,
  commits, announces, drops, marks, unmarks, begins, finishes, reaps, starts_reaper, stops_reaper,
  shuts, add_at, sub_at,
}
use node_shell.Mcp.Alike.{Alike-refl, replaced-Alike, finish_found-Alike, reap_loop-Alike, Alike}

Alike-Placed :
    (w v : World) (j : String)
    → Alike w.runtime v.runtime
    → (v.issued j ≡ w.issued j)
    → (v.connected j ≡ w.connected j)
    → (v.announced j ≡ w.announced j)
    → (v.operations j ≡ w.operations j)
    → Placed w j
    → Placed v j
Alike-Placed w v j a i c n o h = record {
  registered = λ e. ground (arith, a.found j);
  waiting = λ e. ground (arith, a.closing j, a.tombs j);
  unknown_id = λ e. ground (arith, a.closing j, a.tombs j);
}

moved-Placed :
    (w : World) (r : Runtime) (j : String)
    → Alike w.runtime r
    → Placed w j
    → Placed (record w { runtime = r }) j
moved-Placed w r j a h = Alike-Placed w _ j a refl refl refl refl h

issues-Placed :
    (w : World) (id j : String)
    → w.issued id ≡ false
    → is_some (lookup id w.runtime.meta) ≡ false
    → Placed w j
    → Placed (record w { issued = put_in id w.issued; connected = put_in id w.connected }) j
issues-Placed w id j n f h = record {
  registered = λ e. ground (arith, eq_iff id j);
  waiting = λ e. ground (arith, eq_iff id j);
  unknown_id = λ e. ground (arith, eq_iff id j);
}

commit-Placed :
    (id host title : String) (now : ℕ) (w : World) (j : String)
    → w.connected id ≡ true
    → Placed w id
    → Placed w j
    → Placed (after_commit id w (commit id host title now w.runtime)) j
unfolding commit
commit-Placed id host title now w j c a h =
    if_cases (λ (p : Runtime × Option Error). Placed (after_commit id w p) j) w.runtime.closed _ _
      (λ x. record {
        registered = λ e. ground (arith, eq_iff id j);
        waiting = λ e. ground (arith, eq_iff id j);
        unknown_id = h.unknown_id;
      })
      (λ x.
        if_cases (λ (p : Runtime × Option Error). Placed (after_commit id w p) j)
          (w.runtime.tombstones id) _ _
          (λ t. record {
            registered = λ e. ground (arith, eq_iff id j);
            waiting = λ e. ground (arith, eq_iff id j);
            unknown_id = λ e. ground (arith, eq_iff id j);
          })
          (λ t. record {
            registered = λ e. ground (
              arith,
              lookup-insert id j (new_meta id host title now) w.runtime.meta,
              eq_iff id j,
            );
            waiting = λ e. ground (arith, eq_iff id j);
            unknown_id = h.unknown_id;
          }))

announces-Placed :
    (id : String) (w : World) (j : String)
    → w.issued id ≡ true
    → Placed w id
    → Placed w j
    → Placed
        (record w { runtime = (on_closed id w.runtime).0; announced = put_in id w.announced })
        j
unfolding on_closed drop_locked
announces-Placed id w j i a h = record {
  registered = λ e. ground (arith, lookup-delete id j w.runtime.meta, eq_iff id j);
  waiting = λ e. ground (arith, eq_iff id j);
  unknown_id = λ e. ground (arith, eq_iff id j);
}

drops-Placed :
    (id : String) (w : World) (j : String)
    → Placed w id
    → Placed w j
    → Placed (record w { runtime = (drop_and_mark id w.runtime).0 }) j
unfolding drop_and_mark drop_locked
drops-Placed id w j a h = record {
  registered = λ e. ground (arith, lookup-delete id j w.runtime.meta, eq_iff id j);
  waiting = λ e. ground (arith, eq_iff id j);
  unknown_id = λ e. ground (arith, eq_iff id j);
}

closing-Placed :
    (w : World) (closing : String → Bool) (j : String)
    → (closing j ≡ true
        → (w.runtime.local_closing j ≡ true) ⊎ ((w.issued j ≡ true) × (w.connected j ≡ false)))
    → Placed w j
    → Placed (record w { runtime = record w.runtime { local_closing = closing } }) j
closing-Placed w closing j c h = record {
  registered = h.registered;
  waiting = λ e. ground (arith);
  unknown_id = λ e. ground (arith);
}

operations-Placed :
    (w : World) (operations : String → ℕ) (j : String)
    → (operations j ≡ w.operations j) ⊎ ((w.issued j ≡ true) × (w.connected j ≡ false))
    → Placed w j
    → Placed (record w { operations = operations }) j
operations-Placed w operations j c h = record {
  registered = h.registered;
  waiting = λ e. ground (arith);
  unknown_id = λ e. ground (arith);
}

reserve-Placed :
    (w : World) (j : String) → Placed w j → Placed (after_reserve w (reserve w.runtime)) j
unfolding reserve
reserve-Placed w j h =
    if_cases (λ (p : Runtime × Option Error). Placed (after_reserve w p) j) w.runtime.closed _ _
      (λ c. h)
      (λ c.
        if_cases (λ (p : Runtime × Option Error). Placed (after_reserve w p) j)
          (leb w.runtime.max_sessions (length w.runtime.meta + w.runtime.pending)) _ _ (λ x. h)
          (λ x. record {
            registered = h.registered;
            waiting = h.waiting;
            unknown_id = h.unknown_id;
          }))

gives_up-Placed :
    (w : World) (j : String)
    → Placed w j
    → Placed (record w { runtime = release_reserve w.runtime; reserved = w.reserved - 1 }) j
unfolding release_reserve
gives_up-Placed w j h =
    if_cases (λ (r : Runtime). Placed (record w { runtime = r; reserved = w.reserved - 1 }) j)
      (ltb 0 w.runtime.pending) _ _
      (λ x. record { registered = h.registered; waiting = h.waiting; unknown_id = h.unknown_id })
      (λ x. record { registered = h.registered; waiting = h.waiting; unknown_id = h.unknown_id })

begin-Placed :
    (id : String) (now : ℕ) (w : World) (j : String) (o : Option Meta)
    → lookup id w.runtime.meta ≡ o
    → Placed w id
    → Placed w j
    → Placed (after_begin id w (begin_found id now w.runtime o)) j
begin-Placed id now w j none e a h =
    if_cases (λ (t : Ticket). Placed (after_begin id w (w.runtime, t)) j)
      (w.runtime.guest && not w.runtime.closed) _ _ (λ x. h) (λ x. h)
begin-Placed id now w j (some m) e a h =
    if_cases (λ (p : Runtime × Ticket). Placed (after_begin id w p) j) m.reaping _ _ (λ x. h)
      (λ x.
        operations-Placed
          (record w {
            runtime = record w.runtime { meta = insert id (started now m) w.runtime.meta };
          })
          (add_at id w.operations) j (ground (arith, eq_iff id j))
          (moved-Placed w _ j (replaced-Alike w.runtime id m (started now m) e) h))

busy-Placed :
    (id : String) (w : World) (j : String)
    → 0 < w.operations id
    → Placed w id
    → Placed w j
    → Placed (record w { operations = sub_at id w.operations }) j
busy-Placed id w j l a h =
    operations-Placed w (sub_at id w.operations) j (ground (arith, eq_iff id j)) h

start_reaper-Alike : (r : Runtime) → Alike r (start_reaper r)
unfolding start_reaper
start_reaper-Alike r =
    if_cases (λ (s : Runtime). Alike r s) (r.reaper || r.closed) _ _ (λ x. Alike-refl r)
      (λ x. record { found = λ id. refl; closing = λ id. refl; tombs = λ id. refl })

pub Step-Placed :
    {w w' : World} → ((id : String) → Placed w id) → Step w w' → (j : String) → Placed w' j
unfolding begin finish reap mark_closing unmark_closing stop_reaper shut
Step-Placed {w} h reserves j = reserve-Placed w j (h j)
Step-Placed {w} h (gives_up l) j = gives_up-Placed w j (h j)
Step-Placed {w} h (issues id n) j =
    let a = h id in issues-Placed w id j n (ground (arith, a.registered)) (h j)
Step-Placed {w} h (commits id host title now c l) j =
    commit-Placed id host title now w j c (h id) (h j)
Step-Placed {w} h (announces id i) j = announces-Placed id w j i (h id) (h j)
Step-Placed {w} h (drops id) j = drops-Placed id w j (h id) (h j)
Step-Placed {w} h (marks id i c) j =
    closing-Placed w (put_in id w.runtime.local_closing) j (λ e. ground (arith, eq_iff id j)) (h j)
Step-Placed {w} h (unmarks id) j =
    closing-Placed w (take_out id w.runtime.local_closing) j (λ e. ground (arith, eq_iff id j))
      (h j)
Step-Placed {w} h (begins id now) j =
    begin-Placed id now w j (lookup id w.runtime.meta) refl (h id) (h j)
Step-Placed {w} h (finishes id now l) j =
    moved-Placed (record w { operations = sub_at id w.operations }) _ j
      (finish_found-Alike id now w.runtime _ refl) (busy-Placed id w j l (h id) (h j))
Step-Placed {w} h (reaps now) j =
    moved-Placed w _ j (reap_loop-Alike now w.runtime.order w.runtime) (h j)
Step-Placed {w} h starts_reaper j = moved-Placed w _ j (start_reaper-Alike w.runtime) (h j)
Step-Placed {w} h stops_reaper j =
    moved-Placed w _ j (record { found = λ id. refl; closing = λ id. refl; tombs = λ id. refl })
      (h j)
Step-Placed {w} h shuts j =
    moved-Placed w _ j (record { found = λ id. refl; closing = λ id. refl; tombs = λ id. refl })
      (h j)
