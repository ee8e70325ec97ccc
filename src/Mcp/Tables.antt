-- ===== src/Mcp/Tables.antt =====
-- The table of the sessions, under each section.
use node_shell.Base.{
  ℕ, ◌+◌, ◌-◌, ◌≤◌, ◌<◌, ◌≡◌, refl, ap, ◌∙◌, String, Bool, true, false, List, [], ◌∷◌, ◌++◌, Option,
  none, some, lookup, insert, contains, distinct, is_map, is_some, length, if◌then◌else◌, arith,
  eq_iff, if_cases, lookup-insert, lookup-delete, is_map-insert, is_map-delete, length-insert,
  length-delete, contains-append, contains-remove_first, distinct-remove_first, distinct-append_one,
}
use node_shell.Mcp.State.{Meta, Runtime}
use node_shell.Mcp.Sections.{
  drop_locked, new_meta, Ticket, begin_found, started, finish_found, ended, is_idle, mark_found,
  mark_reaping, reap_loop,
}

-- The part of the runtime's state that the slots are about.
pub record Table (r : Runtime) (reserved : ℕ) : Type 0 where
  pub mapped : is_map r.meta ≡ true
  pub ordered : distinct r.order ≡ true
  pub listed : (id : String) → contains id r.order ≡ is_some (lookup id r.meta)
  pub booked : r.pending ≡ reserved
  pub limited : length r.meta + r.pending ≤ r.max_sessions
  pub shut_reaper : r.closed ≡ true → r.reaper ≡ false

pub replaced-Table :
    (r : Runtime) (n : ℕ) (id : String) (m m' : Meta)
    → Table r n
    → lookup id r.meta ≡ some m
    → Table (record r { meta = insert id m' r.meta }) n
replaced-Table r n id m m' h e = record {
  mapped = is_map-insert id m' r.meta h.mapped;
  ordered = h.ordered;
  listed = λ j. ground (arith, h.listed j, lookup-insert id j m' r.meta, eq_iff id j);
  booked = h.booked;
  limited = ground (arith, length-insert id m' r.meta, h.limited);
  shut_reaper = h.shut_reaper;
}

pub sets-Table :
    (r : Runtime) (n : ℕ) (tombstones local_closing : String → Bool)
    → Table r n
    → Table (record r { tombstones = tombstones; local_closing = local_closing }) n
sets-Table r n tombstones local_closing h = record {
  mapped = h.mapped;
  ordered = h.ordered;
  listed = h.listed;
  booked = h.booked;
  limited = h.limited;
  shut_reaper = h.shut_reaper;
}

pub drop_locked-Table :
    (r : Runtime) (n : ℕ) (id : String)
    → Table r n
    → is_some (lookup id r.meta) ≡ true
    → Table (drop_locked id r) n
unfolding drop_locked
drop_locked-Table r n id h e = record {
  mapped = is_map-delete id r.meta h.mapped;
  ordered = distinct-remove_first id r.order h.ordered;
  listed = λ j. ground (
    arith,
    h.listed j,
    lookup-delete id j r.meta,
    contains-remove_first id j r.order h.ordered,
    eq_iff id j,
  );
  booked = h.booked;
  limited = omega (arith, length-delete id r.meta h.mapped e, h.limited);
  shut_reaper = h.shut_reaper;
}

pub begin_found-Table :
    (id : String) (now n : ℕ) (r : Runtime) (o : Option Meta)
    → lookup id r.meta ≡ o
    → Table r n
    → Table (begin_found id now r o).0 n
begin_found-Table id now n r none e h = h
begin_found-Table id now n r (some m) e h =
    if_cases (λ (p : Runtime × Ticket). Table p.0 n) m.reaping _ _ (λ x. h)
      (λ x. replaced-Table r n id m (started now m) h e)

pub finish_found-Table :
    (id : String) (now n : ℕ) (r : Runtime) (o : Option Meta)
    → lookup id r.meta ≡ o
    → Table r n
    → Table (finish_found id now r o) n
finish_found-Table id now n r none e h = h
finish_found-Table id now n r (some m) e h = replaced-Table r n id m (ended now m) h e

pub mark_found-Table :
    (id : String) (n : ℕ) (r : Runtime) (o : Option Meta)
    → lookup id r.meta ≡ o
    → Table r n
    → Table (mark_found id r o) n
mark_found-Table id n r none e h = h
mark_found-Table id n r (some m) e h = replaced-Table r n id m (record m { reaping = true }) h e

pub reap_loop-Table :
    (now n : ℕ) (ids : List String) (r : Runtime) → Table r n → Table (reap_loop now ids r).0 n
unfolding reap_loop mark_reaping
reap_loop-Table now n [] r h = h
reap_loop-Table now n (id ∷ ids) r h =
    let idle = is_idle now r.idle_timeout (lookup id r.meta) in
    reap_loop-Table now n ids (if idle then mark_reaping id r else r) (
      if_cases (λ (s : Runtime). Table s n) idle _ _
        (λ x. mark_found-Table id n r (lookup id r.meta) refl h) (λ x. h))

pub registered-Table :
    (id host title : String) (now n : ℕ) (r : Runtime)
    → 0 < n
    → Table r n
    → lookup id r.meta ≡ none
    → Table
        (record r {
          meta = insert id (new_meta id host title now) r.meta;
          order = r.order ++ id ∷ [];
          pending = r.pending - 1;
        })
        (n - 1)
unfolding contains
registered-Table id host title now n r l h e = record {
  mapped = is_map-insert id (new_meta id host title now) r.meta h.mapped;
  ordered = distinct-append_one id r.order h.ordered (h.listed id ∙ ap is_some e);
  listed = λ j. ground (
    arith,
    h.listed j,
    lookup-insert id j (new_meta id host title now) r.meta,
    contains-append j r.order (id ∷ []),
    eq_iff id j,
  );
  booked = omega (arith, h.booked);
  limited =
      ground (arith, length-insert id (new_meta id host title now) r.meta, h.limited, h.booked);
  shut_reaper = h.shut_reaper;
}
