-- ===== src/Mcp/Reaped.antt =====
-- The sessions that the reaper selects.
use node_shell.Base.{
  ℕ, ◌≡◌, refl, String, Bool, true, false, ◌&&◌, List, [], ◌∷◌, Option, none, some, lookup, ◌==◌,
  if◌then◌else◌, arith, eq_iff, if_cases, lookup-insert, Bool-cases, inl, inr, contains,
}
use node_shell.Mcp.State.{Meta, Runtime}
use node_shell.Mcp.Sections.{is_idle, mark_found, mark_reaping, reap_loop}
use node_shell.Mcp.World.{counts_all}

abbrev pub reaping_of : Option Meta → Bool
reaping_of none = false
reaping_of (some m) = m.reaping

abbrev pub mark : Option Meta → Option Meta
mark none = none
mark (some m) = some (record m { reaping = true })

mark_found-lookup :
    (id j : String) (r : Runtime) (o : Option Meta)
    → lookup id r.meta ≡ o
    → lookup j (mark_found id r o).meta ≡ (if id == j then mark o else lookup j r.meta)
mark_found-lookup id j r none e = ground (arith, eq_iff id j)
mark_found-lookup id j r (some m) e = lookup-insert id j (record m { reaping = true }) r.meta

pub marked-lookup :
    (id j : String) (r : Runtime)
    → lookup j (mark_reaping id r).meta
      ≡ (if id == j then mark (lookup id r.meta) else lookup j r.meta)
unfolding mark_reaping
marked-lookup id j r = mark_found-lookup id j r (lookup id r.meta) refl

idle-reaping :
    (now timeout : ℕ) (o : Option Meta) → is_idle now timeout o ≡ true → reaping_of (mark o) ≡ true
idle-reaping now timeout none e = absurd (ground arith)
idle-reaping now timeout (some m) e = refl

mark-reaping : (o : Option Meta) → reaping_of o ≡ true → reaping_of (mark o) ≡ true
mark-reaping none e = e
mark-reaping (some m) e = refl

mark-idle : (now timeout : ℕ) (o : Option Meta) → is_idle now timeout (mark o) ≡ false
mark-idle now timeout none = refl
mark-idle now timeout (some m) = ground arith

mark_reaping-timeout :
    (id : String) (r : Runtime) → (mark_reaping id r).idle_timeout ≡ r.idle_timeout
unfolding mark_reaping
mark_reaping-timeout id r = kept (lookup id r.meta)
  where
    kept : (o : Option Meta) → (mark_found id r o).idle_timeout ≡ r.idle_timeout
    kept none = refl
    kept (some m) = refl

-- One round of the loop, for the session at hand and for any other.
record Round (now : ℕ) (id j : String) (r r' : Runtime) : Type 0 where
  stays : reaping_of (lookup j r.meta) ≡ true → reaping_of (lookup j r'.meta) ≡ true
  picks :
      (id == j) ≡ true
      → is_idle now r.idle_timeout (lookup id r.meta) ≡ true
      → reaping_of (lookup j r'.meta) ≡ true
  idle_before :
      is_idle now r'.idle_timeout (lookup j r'.meta) ≡ true
      → is_idle now r.idle_timeout (lookup j r.meta) ≡ true

abbrev pub reap_round : Bool → String → Runtime → Runtime
reap_round idle id r = if idle then mark_reaping id r else r

reap_round-Round :
    (now : ℕ) (id j : String) (r : Runtime)
    → Round now id j r (reap_round (is_idle now r.idle_timeout (lookup id r.meta)) id r)
reap_round-Round now id j r =
    if_cases (Round now id j r) (is_idle now r.idle_timeout (lookup id r.meta)) _ _
      (λ e. record {
        stays =
            λ k. ground (arith, marked-lookup id j r, eq_iff id j, mark-reaping (lookup id r.meta));
        picks = λ k l. ground (
          arith,
          marked-lookup id j r,
          eq_iff id j,
          idle-reaping now r.idle_timeout (lookup id r.meta),
        );
        idle_before = λ k. ground (
          arith,
          marked-lookup id j r,
          eq_iff id j,
          mark-idle now r.idle_timeout (lookup id r.meta),
          mark_reaping-timeout id r,
        );
      })
      (λ e. record { stays = λ k. k; picks = λ k l. absurd (ground arith); idle_before = λ k. k })

reap_loop-stays :
    (now : ℕ) (ids : List String) (r : Runtime) (j : String)
    → reaping_of (lookup j r.meta) ≡ true
    → reaping_of (lookup j (reap_loop now ids r).0.meta) ≡ true
unfolding reap_loop
reap_loop-stays now [] r j e = e
reap_loop-stays now (id ∷ ids) r j e =
    reap_loop-stays now ids (reap_round (is_idle now r.idle_timeout (lookup id r.meta)) id r) j
      ((reap_round-Round now id j r).stays e)

-- A session that the loop selects was idle when it began, and is marked when it ends.
pub reap_loop-selects :
    (now : ℕ) (ids : List String) (r : Runtime) (j : String)
    → contains j (reap_loop now ids r).1 ≡ true
    → (is_idle now r.idle_timeout (lookup j r.meta) ≡ true)
      × (reaping_of (lookup j (reap_loop now ids r).0.meta) ≡ true)
unfolding reap_loop contains
reap_loop-selects now [] r j e = absurd (ground arith)
reap_loop-selects now (id ∷ ids) r j e =
    let idle = is_idle now r.idle_timeout (lookup id r.meta) in
    let r' = reap_round idle id r in
    let one = reap_round-Round now id j r in
    let stay = reap_loop-stays now ids r' j in
    let later = reap_loop-selects now ids r' j in
    elim (Bool-cases (idle && (id == j))) [
      | inl here ↦ (ground (arith, eq_iff id j), stay (one.picks (ground arith) (ground arith)))
      | inr not_here ↦ let l = later (ground (arith, eq_iff id j)) in (one.idle_before l.0, l.1)
    ]

pub counted-idle :
    (now timeout n : ℕ) (o : Option Meta)
    → counts_all o n ≡ true
    → is_idle now timeout o ≡ true
    → n ≡ 0
counted-idle now timeout n none c i = absurd (ground arith)
counted-idle now timeout n (some m) c i = ground arith
