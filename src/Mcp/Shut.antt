-- ===== src/Mcp/Shut.antt =====
-- The runtime behind `DisposeAll`, under any order of the sections.
use node_shell.Base.{
  ℕ, ◌≡◌, refl, String, Bool, true, ◌||◌, List, [], ◌∷◌, Option, none, some, lookup, insert, ltb,
  if◌then◌else◌, arith, eq_iff, if_cases, lookup-insert, lookup-delete, is_some, Error,
}
use node_shell.Mcp.State.{Meta, Runtime}
use node_shell.Mcp.Sections.{
  reserve, release_reserve, drop_locked, commit, on_closed, drop_and_mark, mark_closing,
  unmark_closing, Ticket, counted, uncounted, refused, begin, begin_found, started, finish,
  finish_found, ended, is_idle, mark_found, mark_reaping, reap_loop, reap, start_reaper,
  stop_reaper, shut,
}
use node_shell.Mcp.World.{
  World, after_reserve, after_commit, after_begin, Step, Reach, here, next, reserves, gives_up,
  issues, commits, announces, drops, marks, unmarks, begins, finishes, reaps, starts_reaper,
  stops_reaper, shuts,
}

-- A shut runtime that stays shut and gains no session.
pub record StaysShut (r r' : Runtime) : Type 0 where
  pub shut_too : r'.closed ≡ true
  pub fewer : (id : String) → is_some (lookup id r'.meta) ≡ true → is_some (lookup id r.meta) ≡ true

same-StaysShut : (r : Runtime) → r.closed ≡ true → StaysShut r r
same-StaysShut r c = record { shut_too = c; fewer = λ id e. e }

replaced-StaysShut :
    (r : Runtime) (id : String) (m m' : Meta)
    → r.closed ≡ true
    → lookup id r.meta ≡ some m
    → StaysShut r (record r { meta = insert id m' r.meta })
replaced-StaysShut r id m m' c e = record {
  shut_too = c;
  fewer = λ j k. ground (arith, lookup-insert id j m' r.meta, eq_iff id j);
}

dropped-StaysShut : (r : Runtime) (id : String) → r.closed ≡ true → StaysShut r (drop_locked id r)
unfolding drop_locked
dropped-StaysShut r id c = record {
  shut_too = c;
  fewer = λ j k. ground (arith, lookup-delete id j r.meta);
}

sets-StaysShut :
    (r r' : Runtime) (closing tombs : String → Bool)
    → StaysShut r r'
    → StaysShut r (record r' { local_closing = closing; tombstones = tombs })
sets-StaysShut r r' closing tombs h = record { shut_too = h.shut_too; fewer = h.fewer }

begin_found-StaysShut :
    (id : String) (now : ℕ) (r : Runtime) (o : Option Meta)
    → r.closed ≡ true
    → lookup id r.meta ≡ o
    → StaysShut r (begin_found id now r o).0
begin_found-StaysShut id now r none c e = same-StaysShut r c
begin_found-StaysShut id now r (some m) c e =
    if_cases (λ (p : Runtime × Ticket). StaysShut r p.0) m.reaping _ _ (λ x. same-StaysShut r c)
      (λ x. replaced-StaysShut r id m (started now m) c e)

finish_found-StaysShut :
    (id : String) (now : ℕ) (r : Runtime) (o : Option Meta)
    → r.closed ≡ true
    → lookup id r.meta ≡ o
    → StaysShut r (finish_found id now r o)
finish_found-StaysShut id now r none c e = same-StaysShut r c
finish_found-StaysShut id now r (some m) c e = replaced-StaysShut r id m (ended now m) c e

mark_found-StaysShut :
    (id : String) (r : Runtime) (o : Option Meta)
    → r.closed ≡ true
    → lookup id r.meta ≡ o
    → StaysShut r (mark_found id r o)
mark_found-StaysShut id r none c e = same-StaysShut r c
mark_found-StaysShut id r (some m) c e = replaced-StaysShut r id m (record m { reaping = true }) c e

StaysShut-trans : (r r' r'' : Runtime) → StaysShut r r' → StaysShut r' r'' → StaysShut r r''
StaysShut-trans r r' r'' h h' = record {
  shut_too = h'.shut_too;
  fewer = λ id e. h.fewer id (h'.fewer id e);
}

reap_loop-StaysShut :
    (now : ℕ) (ids : List String) (r : Runtime)
    → r.closed ≡ true
    → StaysShut r (reap_loop now ids r).0
unfolding reap_loop mark_reaping
reap_loop-StaysShut now [] r c = same-StaysShut r c
reap_loop-StaysShut now (id ∷ ids) r c =
    let idle = is_idle now r.idle_timeout (lookup id r.meta) in
    let r' = if idle then mark_reaping id r else r in
    let h : StaysShut r r' =
      if_cases (StaysShut r) idle _ _ (λ x. mark_found-StaysShut id r (lookup id r.meta) c refl)
        (λ x. same-StaysShut r c) in
    StaysShut-trans r r' (reap_loop now ids r').0 h (reap_loop-StaysShut now ids r' h.shut_too)

begun :
    (w : World) (id : String) (p : Runtime × Ticket)
    → StaysShut w.runtime p.0
    → StaysShut w.runtime (after_begin id w p).runtime
begun w id (r, counted) h = h
begun w id (r, uncounted) h = h
begun w id (r, refused e) h = h

-- A step of a shut runtime.
pub Step-StaysShut :
    {w w' : World} → w.runtime.closed ≡ true → Step w w' → StaysShut w.runtime w'.runtime
unfolding begin finish reap mark_closing unmark_closing stop_reaper shut start_reaper reserve
    release_reserve commit on_closed drop_and_mark
Step-StaysShut {w} c reserves =
    if_cases (λ (p : Runtime × Option Error). StaysShut w.runtime (after_reserve w p).runtime)
      w.runtime.closed _ _ (λ x. same-StaysShut w.runtime c) (λ x. absurd (ground arith))
Step-StaysShut {w} c (gives_up l) =
    if_cases (StaysShut w.runtime) (ltb 0 w.runtime.pending) _ _
      (λ x. record { shut_too = c; fewer = λ id e. e }) (λ x. same-StaysShut w.runtime c)
Step-StaysShut {w} c (issues id n) = same-StaysShut w.runtime c
Step-StaysShut {w} c (commits id host title now i l) =
    if_cases (λ (p : Runtime × Option Error). StaysShut w.runtime (after_commit id w p).runtime)
      w.runtime.closed _ _ (λ x. same-StaysShut w.runtime c) (λ x. absurd (ground arith))
Step-StaysShut {w} c (announces id i) =
    if_cases (λ (p : Runtime × Bool). StaysShut w.runtime p.0) (is_some (lookup id w.runtime.meta))
      _ _ (λ k. sets-StaysShut w.runtime _ _ _ (dropped-StaysShut w.runtime id c))
      (λ k.
        if_cases (λ (p : Runtime × Bool). StaysShut w.runtime p.0) (w.runtime.local_closing id) _ _
          (λ x. sets-StaysShut w.runtime _ _ _ (same-StaysShut w.runtime c))
          (λ x. sets-StaysShut w.runtime _ _ _ (same-StaysShut w.runtime c)))
Step-StaysShut {w} c (drops id) =
    if_cases (λ (p : Runtime × Bool). StaysShut w.runtime p.0) (is_some (lookup id w.runtime.meta))
      _ _ (λ k. sets-StaysShut w.runtime _ _ _ (dropped-StaysShut w.runtime id c))
      (λ k. same-StaysShut w.runtime c)
Step-StaysShut {w} c (marks id i n) = sets-StaysShut w.runtime _ _ _ (same-StaysShut w.runtime c)
Step-StaysShut {w} c (unmarks id) = sets-StaysShut w.runtime _ _ _ (same-StaysShut w.runtime c)
Step-StaysShut {w} c (begins id now) =
    begun w id _ (begin_found-StaysShut id now w.runtime (lookup id w.runtime.meta) c refl)
Step-StaysShut {w} c (finishes id now l) =
    finish_found-StaysShut id now w.runtime (lookup id w.runtime.meta) c refl
Step-StaysShut {w} c (reaps now) = reap_loop-StaysShut now w.runtime.order w.runtime c
Step-StaysShut {w} c starts_reaper =
    if_cases (StaysShut w.runtime) (w.runtime.reaper || w.runtime.closed) _ _
      (λ x. same-StaysShut w.runtime c) (λ x. record { shut_too = c; fewer = λ id e. e })
Step-StaysShut {w} c stops_reaper = record { shut_too = c; fewer = λ id e. e }
Step-StaysShut {w} c shuts = record { shut_too = refl; fewer = λ id e. e }

-- A runtime that `DisposeAll` has shut stays shut, whatever its goroutines do, and gains no session: a
-- connect that is under way ends without one.
pub Reach-StaysShut :
    {w w' : World} → w.runtime.closed ≡ true → Reach w w' → StaysShut w.runtime w'.runtime
Reach-StaysShut {w} c here = same-StaysShut w.runtime c
Reach-StaysShut {w} c (next {v} p s) =
    let h = Reach-StaysShut c p in
    StaysShut-trans w.runtime v.runtime _ h (Step-StaysShut h.shut_too s)
