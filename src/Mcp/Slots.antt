-- ===== src/Mcp/Slots.antt =====
-- The slots of the runtime, under any order of the sections.
use node_shell.Base.{
  ℕ, ◌+◌, ◌-◌, ◌<◌, ◌≡◌, refl, String, Bool, true, false, ◌||◌, Option, none, lookup, is_some,
  length, leb, ltb, Error, arith, if_cases,
}
use node_shell.Mcp.State.{Runtime, put_in, take_out}
use node_shell.Mcp.Sections.{
  reserve, release_reserve, drop_locked, commit, on_closed, drop_and_mark, mark_closing,
  unmark_closing, Ticket, counted, uncounted, refused, begin, finish, reap, start_reaper,
  stop_reaper, shut,
}
use node_shell.Mcp.World.{
  World, after_reserve, after_commit, after_begin, Step, Slots, reserves, gives_up, issues, commits,
  announces, drops, marks, unmarks, begins, finishes, reaps, starts_reaper, stops_reaper, shuts,
}
use node_shell.Mcp.Tables.{
  sets-Table, drop_locked-Table, begin_found-Table, finish_found-Table, reap_loop-Table,
  registered-Table, Table,
}

held-Table : {w : World} → Slots w → Table w.runtime w.reserved
held-Table h = record {
  mapped = h.mapped;
  ordered = h.ordered;
  listed = h.listed;
  booked = h.booked;
  limited = h.limited;
  shut_reaper = h.shut_reaper;
}

Table-Slots : (w : World) → Table w.runtime w.reserved → Slots w
Table-Slots w h = record {
  mapped = h.mapped;
  ordered = h.ordered;
  listed = h.listed;
  booked = h.booked;
  limited = h.limited;
  shut_reaper = h.shut_reaper;
}

reserve-Slots : (w : World) → Slots w → Slots (after_reserve w (reserve w.runtime))
unfolding reserve
reserve-Slots w h =
    if_cases (λ (p : Runtime × Option Error). Slots (after_reserve w p)) w.runtime.closed _ _
      (λ c. h)
      (λ c.
        if_cases (λ (p : Runtime × Option Error). Slots (after_reserve w p))
          (leb w.runtime.max_sessions (length w.runtime.meta + w.runtime.pending)) _ _ (λ x. h)
          (λ x. record {
            mapped = h.mapped;
            ordered = h.ordered;
            listed = h.listed;
            booked = omega (arith, h.booked);
            limited = ground (arith);
            shut_reaper = h.shut_reaper;
          }))

gives_up-Slots :
    (w : World)
    → 0 < w.reserved
    → Slots w
    → Slots (record w { runtime = release_reserve w.runtime; reserved = w.reserved - 1 })
unfolding release_reserve
gives_up-Slots w l h =
    if_cases (λ (r : Runtime). Slots (record w { runtime = r; reserved = w.reserved - 1 }))
      (ltb 0 w.runtime.pending) _ _
      (λ x. record {
        mapped = h.mapped;
        ordered = h.ordered;
        listed = h.listed;
        booked = omega (arith, h.booked);
        limited = omega (arith, h.limited);
        shut_reaper = h.shut_reaper;
      })
      (λ x. absurd (ground (arith, h.booked)))

commit-Slots :
    (id host title : String) (now : ℕ) (w : World)
    → 0 < w.reserved
    → lookup id w.runtime.meta ≡ none
    → Slots w
    → Slots (after_commit id w (commit id host title now w.runtime))
unfolding commit
commit-Slots id host title now w l e h =
    if_cases (λ (p : Runtime × Option Error). Slots (after_commit id w p)) w.runtime.closed _ _
      (λ c. Table-Slots _ (held-Table h))
      (λ c.
        if_cases (λ (p : Runtime × Option Error). Slots (after_commit id w p))
          (w.runtime.tombstones id) _ _
          (λ t. Table-Slots _ (
            sets-Table w.runtime w.reserved (take_out id w.runtime.tombstones)
              w.runtime.local_closing (held-Table h)))
          (λ t.
            Table-Slots _
              (registered-Table id host title now w.reserved w.runtime l (held-Table h) e)))

on_closed-Table : (id : String) (r : Runtime) (n : ℕ) → Table r n → Table (on_closed id r).0 n
unfolding on_closed
on_closed-Table id r n h =
    if_cases (λ (p : Runtime × Bool). Table p.0 n) (is_some (lookup id r.meta)) _ _
      (λ k.
        drop_locked-Table (record r { local_closing = take_out id r.local_closing }) n id
          (sets-Table r n r.tombstones (take_out id r.local_closing) h) k)
      (λ k.
        if_cases (λ (p : Runtime × Bool). Table p.0 n) (r.local_closing id) _ _
          (λ c. sets-Table r n r.tombstones (take_out id r.local_closing) h)
          (λ c. sets-Table r n (put_in id r.tombstones) (take_out id r.local_closing) h))

drop_and_mark-Table :
    (id : String) (r : Runtime) (n : ℕ) → Table r n → Table (drop_and_mark id r).0 n
unfolding drop_and_mark drop_locked
drop_and_mark-Table id r n h =
    if_cases (λ (p : Runtime × Bool). Table p.0 n) (is_some (lookup id r.meta)) _ _
      (λ k.
        sets-Table (drop_locked id r) n r.tombstones (put_in id r.local_closing)
          (drop_locked-Table r n id h k))
      (λ k. h)

reaper-Table :
    (r : Runtime) (n : ℕ) (closed reaper : Bool)
    → (closed ≡ true → reaper ≡ false)
    → Table r n
    → Table (record r { closed = closed; reaper = reaper }) n
reaper-Table r n closed reaper c h = record {
  mapped = h.mapped;
  ordered = h.ordered;
  listed = h.listed;
  booked = h.booked;
  limited = h.limited;
  shut_reaper = c;
}

start_reaper-Table : (r : Runtime) (n : ℕ) → Table r n → Table (start_reaper r) n
unfolding start_reaper
start_reaper-Table r n h =
    if_cases (λ (s : Runtime). Table s n) (r.reaper || r.closed) _ _ (λ x. h)
      (λ x. reaper-Table r n r.closed true (λ c. ground arith) h)

begin-Slots :
    (id : String) (w : World) (t : Ticket) (r : Runtime)
    → Table r w.reserved
    → Slots (after_begin id w (r, t))
begin-Slots id w counted r h = Table-Slots _ h
begin-Slots id w uncounted r h = Table-Slots _ h
begin-Slots id w (refused e) r h = Table-Slots _ h

pub Step-Slots :
    {w w' : World}
    → ((id : String) → w.connected id ≡ true → lookup id w.runtime.meta ≡ none)
    → Slots w
    → Step w w'
    → Slots w'
unfolding begin finish reap mark_closing unmark_closing stop_reaper shut
Step-Slots {w} f h reserves = reserve-Slots w h
Step-Slots {w} f h (gives_up l) = gives_up-Slots w l h
Step-Slots f h (issues id n) = Table-Slots _ (held-Table h)
Step-Slots {w} f h (commits id host title now c l) = commit-Slots id host title now w l (f id c) h
Step-Slots {w} f h (announces id i) =
    Table-Slots _ (on_closed-Table id w.runtime w.reserved (held-Table h))
Step-Slots {w} f h (drops id) =
    Table-Slots _ (drop_and_mark-Table id w.runtime w.reserved (held-Table h))
Step-Slots {w} f h (marks id i c) =
    Table-Slots _ (sets-Table w.runtime w.reserved w.runtime.tombstones _ (held-Table h))
Step-Slots {w} f h (unmarks id) =
    Table-Slots _ (sets-Table w.runtime w.reserved w.runtime.tombstones _ (held-Table h))
Step-Slots {w} f h (begins id now) =
    begin-Slots id w _ _ (begin_found-Table id now w.reserved w.runtime _ refl (held-Table h))
Step-Slots {w} f h (finishes id now l) =
    Table-Slots _ (finish_found-Table id now w.reserved w.runtime _ refl (held-Table h))
Step-Slots {w} f h (reaps now) =
    Table-Slots _ (reap_loop-Table now w.reserved w.runtime.order w.runtime (held-Table h))
Step-Slots {w} f h starts_reaper =
    Table-Slots _ (start_reaper-Table w.runtime w.reserved (held-Table h))
Step-Slots {w} f h stops_reaper =
    Table-Slots _
      (reaper-Table w.runtime w.reserved w.runtime.closed false (λ c. refl) (held-Table h))
Step-Slots {w} f h shuts =
    Table-Slots _ (reaper-Table w.runtime w.reserved true false (λ c. refl) (held-Table h))
