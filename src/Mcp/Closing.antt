-- ===== src/Mcp/Closing.antt =====
-- What `disconnectSession` and `DisposeAll` leave.
use node_shell.Base.{
  ◌≡◌, refl, ap, ◌∙◌, String, Bool, true, false, List, [], ◌∷◌, Option, none, some, Dict, lookup,
  ◌==◌, if◌then◌else◌, arith, eq_iff, if_cases, lookup-delete, Bool-cases, inl, inr, is_some,
  contains, distinct, contains-remove_first, distinct-remove_first,
}
use node_shell.Mcp.State.{Runtime, put_in, take_out}
use node_shell.Mcp.Sections.{on_closed, unmark_closing, drop_locked, drop_and_mark, shut}
use node_shell.Mcp.Services.{
  SessionManager, Deps, Scene, closed_event, disconnect_by, dispose_by, disconnect_session,
  tear_down, disconnect_each, dispose_all,
}

-- The list of ids is the list of the sessions, each once.
pub record Ordered (r : Runtime) : Type 0 where
  pub once : distinct r.order ≡ true
  pub listed : (id : String) → contains id r.order ≡ is_some (lookup id r.meta)

-- The session is gone, and nothing else of the table has changed.
record Gone (id : String) (r r' : Runtime) : Type 0 where
  ordered : Ordered r'
  left : (j : String) → lookup j r'.meta ≡ (if id == j then none else lookup j r.meta)
  tombs : (j : String) → r'.tombstones j ≡ r.tombstones j
  shut_too : r'.closed ≡ r.closed

drop_locked-Ordered : (id : String) (r : Runtime) → Ordered r → Ordered (drop_locked id r)
unfolding drop_locked
drop_locked-Ordered id r h = record {
  once = distinct-remove_first id r.order h.once;
  listed = λ j. ground (
    arith,
    h.listed j,
    lookup-delete id j r.meta,
    contains-remove_first id j r.order h.once,
    eq_iff id j,
  );
}

marked-Gone :
    (id : String) (r r' : Runtime) (closing : String → Bool)
    → Gone id r r'
    → Gone id r (record r' { local_closing = closing })
marked-Gone id r r' closing h = record {
  ordered = record { once = h.ordered.once; listed = h.ordered.listed };
  left = h.left;
  tombs = h.tombs;
  shut_too = h.shut_too;
}

-- The event of a session that is being closed from here.
on_closed-Gone :
    (id : String) (r r' : Runtime)
    → Gone id r r'
    → r'.local_closing id ≡ true
    → Gone id r (on_closed id r').0
unfolding on_closed
on_closed-Gone id r r' h c =
    if_cases (λ (p : Runtime × Bool). Gone id r p.0) (is_some (lookup id r'.meta)) _ _
      (λ k. absurd (ground (arith, h.left id, eq_iff id id)))
      (λ k.
        if_cases (λ (p : Runtime × Bool). Gone id r p.0) (r'.local_closing id) _ _
          (λ e. marked-Gone id r r' (take_out id r'.local_closing) h) (λ e. absurd (ground arith)))

unknown-Gone :
    (id : String) (r : Runtime) → Ordered r → is_some (lookup id r.meta) ≡ false → Gone id r r
unknown-Gone id r h e = record {
  ordered = h;
  left = λ j. ground (arith, eq_iff id j);
  tombs = λ j. refl;
  shut_too = refl;
}

dropped-Gone : (id : String) (r : Runtime) → Ordered r → Gone id r (drop_locked id r)
unfolding drop_locked
dropped-Gone id r h = record {
  ordered = drop_locked-Ordered id r h;
  left = λ j. lookup-delete id j r.meta;
  tombs = λ j. refl;
  shut_too = refl;
}

module _ {S : Type 0} (d : Deps S) where
  disconnect_by-Gone :
      (o : Option (SessionManager S)) (id : String) (r : Runtime) (c : Scene S)
      → Gone id r c.runtime
      → c.runtime.local_closing id ≡ true
      → Gone id r (disconnect_by d o id c).runtime
  unfolding closed_event
  disconnect_by-Gone none id r c h e = h
  disconnect_by-Gone (some m) id r c h e =
      if_cases (λ (c' : Scene S). Gone id r c'.runtime) (m.disconnect id c.outside).1 _ _
        (λ x. on_closed-Gone id r c.runtime h e) (λ x. h)

  tear_down-Gone :
      (id : String) (r : Runtime) (c : Scene S)
      → Gone id r c.runtime
      → c.runtime.local_closing id ≡ true
      → Gone id r (tear_down d id c).runtime
  unfolding unmark_closing
  tear_down-Gone id r c h e = marked-Gone id r _ _ (
      disconnect_by-Gone d.manager id r (record c { outside = dispose_by d d.sftp id c.outside }) h
        e)

  disconnect_session-Gone :
      (id : String) (c : Scene S)
      → Ordered c.runtime
      → Gone id c.runtime (disconnect_session d id c).runtime
  unfolding disconnect_session drop_and_mark
  disconnect_session-Gone id c h = elim (Bool-cases (is_some (lookup id c.runtime.meta))) [
    | inl known ↦ rw known (
        tear_down-Gone id c.runtime
          (record c {
            runtime = record (drop_locked id c.runtime) {
              local_closing = put_in id c.runtime.local_closing;
            };
          })
          (marked-Gone id c.runtime _ (put_in id c.runtime.local_closing)
            (dropped-Gone id c.runtime h))
          (ground (arith, eq_iff id id)))
    | inr absent ↦ rw absent (unknown-Gone id c.runtime h absent)
  ]

  -- The sessions of a list of ids are gone.
  record AllGone (ids : List String) (r r' : Runtime) : Type 0 where
    ordered : Ordered r'
    left : (j : String) → lookup j r'.meta ≡ (if contains j ids then none else lookup j r.meta)
    tombs : (j : String) → r'.tombstones j ≡ r.tombstones j
    shut_too : r'.closed ≡ r.closed

  then-AllGone :
      (id : String) (ids : List String) (r r' r'' : Runtime)
      → Gone id r r'
      → AllGone ids r' r''
      → AllGone (id ∷ ids) r r''
  unfolding contains
  then-AllGone id ids r r' r'' g h = record {
    ordered = h.ordered;
    left = λ j. ground (arith, h.left j, g.left j, eq_iff id j);
    tombs = λ j. h.tombs j ∙ g.tombs j;
    shut_too = h.shut_too ∙ g.shut_too;
  }

  disconnect_each-AllGone :
      (ids : List String) (c : Scene S)
      → Ordered c.runtime
      → AllGone ids c.runtime (disconnect_each d ids c).runtime
  unfolding disconnect_each contains
  disconnect_each-AllGone [] c h = record {
    ordered = h;
    left = λ j. refl;
    tombs = λ j. refl;
    shut_too = refl;
  }
  disconnect_each-AllGone (id ∷ ids) c h =
      let g = disconnect_session-Gone id c h in
      then-AllGone id ids c.runtime (disconnect_session d id c).runtime _ g
        (disconnect_each-AllGone ids (disconnect_session d id c) g.ordered)

no_keys : {V : Type 0} (m : Dict V) → ((j : String) → lookup j m ≡ none) → m ≡ []
unfolding lookup
no_keys [] h = refl
no_keys ((k, v) ∷ m) h = absurd (ground (arith, h k, eq_iff k k))

no_members : (ids : List String) → ((j : String) → contains j ids ≡ false) → ids ≡ []
unfolding contains
no_members [] h = refl
no_members (k ∷ ids) h = absurd (ground (arith, h k, eq_iff k k))

-- `DisposeAll` leaves no session, and refuses every later one; the ends of the sessions that it
-- closes leave no tombstone, whether or not the manager announces them.
pub dispose_all-empties :
    {S : Type 0} (d : Deps S) (c : Scene S)
    → Ordered c.runtime
    → let r = (dispose_all d c).runtime in
      (r.meta ≡ [])
      × (r.order ≡ [])
      × (r.closed ≡ true)
      × ((id : String) → r.tombstones id ≡ c.runtime.tombstones id)
unfolding dispose_all shut
dispose_all-empties d c h =
    let s = record c.runtime { closed = true; reaper = false } in
    let g =
      disconnect_each-AllGone d c.runtime.order (record c { runtime = s })
        (record { once = h.once; listed = h.listed }) in
    let gone = no_keys _ (λ j. ground (arith, g.left j, h.listed j)) in
    (
      gone,
      no_members _ (λ j. g.ordered.listed j ∙ ap is_some (ap (lookup j) gone)),
      g.shut_too,
      g.tombs,
    )
