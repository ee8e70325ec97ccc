-- ===== src/Mcp/Reaping.antt =====
-- A session that the reaper has selected, under any later sections.
use node_shell.Base.{
  ℕ, ◌≡◌, refl, ap, ◌∙◌, String, Bool, true, false, Option, none, some, lookup, if◌then◌else◌,
  arith, eq_iff, if_cases, lookup-insert, lookup-delete, Error, List, [], ◌∷◌, is_some, leb, length,
  ◌+◌, ◌&&◌, not,
}
use node_shell.Mcp.State.{Meta, Runtime, take_out}
use node_shell.Mcp.Sections.{
  reserve, commit, on_closed, drop_and_mark, drop_locked, Ticket, uncounted, refused, not_found,
  new_meta, begin_found, started, finish_found, ended, reap_loop, is_idle,
}
use node_shell.Mcp.World.{World, after_reserve, after_commit, after_begin}
use node_shell.Mcp.Reaped.{mark, marked-lookup, reap_round}

-- Not there, or selected by the reaper.
abbrev pub gone_or_reaping : Option Meta → Bool
gone_or_reaping none = true
gone_or_reaping (some m) = m.reaping

-- The session was issued, no connect has still to register it, and it is gone or selected.
pub record Out (id : String) (w : World) : Type 0 where
  pub known : w.issued id ≡ true
  pub registered : w.connected id ≡ false
  pub marked : gone_or_reaping (lookup id w.runtime.meta) ≡ true

module _ (id : String) {w : World} (h : Out id w) where
  pub same-Out :
      (w' : World)
      → w'.issued ≡ w.issued
      → w'.connected ≡ w.connected
      → gone_or_reaping (lookup id w'.runtime.meta) ≡ true
      → Out id w'
  same-Out w' i c m = record {
    known = ap (λ f. f id) i ∙ h.known;
    registered = ap (λ f. f id) c ∙ h.registered;
    marked = m;
  }

  pub reserve-Out : Out id (after_reserve w (reserve w.runtime))
  unfolding reserve
  reserve-Out =
      if_cases (λ (p : Runtime × Option Error). Out id (after_reserve w p)) w.runtime.closed _ _
        (λ x. same-Out (record w { runtime = w.runtime }) refl refl h.marked)
        (λ x.
          if_cases (λ (p : Runtime × Option Error). Out id (after_reserve w p))
            (leb w.runtime.max_sessions (length w.runtime.meta + w.runtime.pending)) _ _
            (λ y. same-Out (record w { runtime = w.runtime }) refl refl h.marked)
            (λ y.
              same-Out
                (record w {
                  runtime = record w.runtime { pending = w.runtime.pending + 1 };
                  reserved = w.reserved + 1;
                })
                refl refl h.marked))

  pub commit-Out :
      (j host title : String) (now : ℕ)
      → w.connected j ≡ true
      → Out id (after_commit j w (commit j host title now w.runtime))
  unfolding commit
  commit-Out j host title now c =
      if_cases P w.runtime.closed _ _ (λ x. still h.marked)
        (λ x.
          if_cases P (w.runtime.tombstones j) _ _ (λ y. still h.marked)
            (λ y. still (
              ground (
                arith,
                lookup-insert j id (new_meta j host title now) w.runtime.meta,
                eq_iff j id,
                h.marked,
                h.registered,
                c,
              ))))
    where
      P : Runtime × Option Error → Type 0
      P p = Out id (after_commit j w p)

      still :
          {r : Runtime} {n : ℕ}
          → gone_or_reaping (lookup id r.meta) ≡ true
          → Out id (record w { runtime = r; reserved = n; connected = take_out j w.connected })
      still m = record { known = h.known; registered = ground (arith, h.registered); marked = m }

  dropped : (j : String) → gone_or_reaping (lookup id (drop_locked j w.runtime).meta) ≡ true
  unfolding drop_locked
  dropped j = ground (arith, lookup-delete j id w.runtime.meta, h.marked)

  begun-Out :
      (j : String) (b : Bool)
      → Out id (after_begin j w (w.runtime, if b then uncounted else refused (not_found j)))
  begun-Out j true = same-Out (record w { runtime = w.runtime }) refl refl h.marked
  begun-Out j false = same-Out (record w { runtime = w.runtime }) refl refl h.marked

  pub begin-Out :
      (j : String) (now : ℕ) (o : Option Meta)
      → lookup j w.runtime.meta ≡ o
      → Out id (after_begin j w (begin_found j now w.runtime o))
  begin-Out j now none e = begun-Out j (w.runtime.guest && not w.runtime.closed)
  begin-Out j now (some m) e =
      if_cases (λ (p : Runtime × Ticket). Out id (after_begin j w p)) m.reaping _ _
        (λ x. same-Out (record w { runtime = w.runtime }) refl refl h.marked)
        (λ x. record {
          known = h.known;
          registered = h.registered;
          marked =
              ground
                (arith, lookup-insert j id (started now m) w.runtime.meta, eq_iff j id, h.marked);
        })

  pub finish-marked :
      (j : String) (now : ℕ) (o : Option Meta)
      → lookup j w.runtime.meta ≡ o
      → gone_or_reaping (lookup id (finish_found j now w.runtime o).meta) ≡ true
  finish-marked j now none e = h.marked
  finish-marked j now (some m) e =
      ground (arith, lookup-insert j id (ended now m) w.runtime.meta, eq_iff j id, h.marked)

  abbrev MarkedIn : Runtime × Bool → Type 0
  MarkedIn p = gone_or_reaping (lookup id p.0.meta) ≡ true

  pub closed-marked :
      (j : String) → gone_or_reaping (lookup id (on_closed j w.runtime).0.meta) ≡ true
  unfolding on_closed
  closed-marked j =
      if_cases MarkedIn (is_some (lookup j w.runtime.meta)) _ _ (λ x. dropped j)
        (λ x. if_cases MarkedIn (w.runtime.local_closing j) _ _ (λ y. h.marked) (λ y. h.marked))

  pub drop-marked :
      (j : String) → gone_or_reaping (lookup id (drop_and_mark j w.runtime).0.meta) ≡ true
  unfolding drop_and_mark
  drop-marked j =
      if_cases MarkedIn (is_some (lookup j w.runtime.meta)) _ _ (λ x. dropped j) (λ x. h.marked)

mark-marked : (o : Option Meta) → gone_or_reaping o ≡ true → gone_or_reaping (mark o) ≡ true
mark-marked none e = e
mark-marked (some m) e = refl

reap_round-marked :
    (b : Bool) (j id : String) (r : Runtime)
    → gone_or_reaping (lookup id r.meta) ≡ true
    → gone_or_reaping (lookup id (reap_round b j r).meta) ≡ true
reap_round-marked false j id r e = e
reap_round-marked true j id r e =
    ground (arith, marked-lookup j id r, eq_iff j id, mark-marked (lookup j r.meta))

pub reap_loop-marked :
    (now : ℕ) (ids : List String) (r : Runtime) (id : String)
    → gone_or_reaping (lookup id r.meta) ≡ true
    → gone_or_reaping (lookup id (reap_loop now ids r).0.meta) ≡ true
unfolding reap_loop
reap_loop-marked now [] r id e = e
reap_loop-marked now (j ∷ ids) r id e =
    let idle = is_idle now r.idle_timeout (lookup j r.meta) in
    reap_loop-marked now ids (reap_round idle j r) id (reap_round-marked idle j id r e)
