-- ===== src/Mcp/Busy.antt =====
-- The operations under way on the sessions, under any order of the sections.
use node_shell.Base.{
  ℕ, ◌+◌, ◌≡◌, refl, ap, String, Bool, true, false, not, ◌&&◌, ◌||◌, List, [], ◌∷◌, Option, none,
  some, lookup, insert, is_some, length, leb, ltb, ◌==◌, if◌then◌else◌, Error, arith, eq_iff,
  if_cases, lookup-insert, lookup-delete,
}
use node_shell.Mcp.State.{Meta, Runtime, take_out}
use node_shell.Mcp.Sections.{
  reserve, release_reserve, drop_locked, new_meta, commit, on_closed, drop_and_mark, mark_closing,
  unmark_closing, Ticket, begin, begin_found, started, finish, finish_found, ended, is_idle,
  mark_found, mark_reaping, reap_loop, reap, start_reaper, stop_reaper, shut,
}
use node_shell.Mcp.World.{
  World, after_reserve, after_commit, after_begin, Step, Placed, counts_all, reserves, gives_up,
  issues, commits, announces, drops, marks, unmarks, begins, finishes, reaps, starts_reaper,
  stops_reaper, shuts, add_at, sub_at,
}

abbrev Counts : Runtime → (String → ℕ) → String → Type 0
Counts r operations j = counts_all (lookup j r.meta) (operations j) ≡ true

replaced-Counts :
    (r : Runtime) (operations operations' : String → ℕ) (id j : String) (m m' : Meta)
    → lookup id r.meta ≡ some m
    → ((other : String) → (id == other) ≡ false → operations' other ≡ operations other)
    → (counts_all (some m) (operations id) ≡ true → counts_all (some m') (operations' id) ≡ true)
    → Counts r operations id
    → Counts r operations j
    → Counts (record r { meta = insert id m' r.meta }) operations' j
replaced-Counts r operations operations' id j m m' e f g a h = ground (
  arith,
  lookup-insert id j m' r.meta,
  eq_iff id j,
  f j,
  ap (λ o. counts_all o (operations id)) e,
)

dropped-Counts :
    (r : Runtime) (operations : String → ℕ) (id j : String)
    → Counts r operations j
    → Counts (drop_locked id r) operations j
unfolding drop_locked
dropped-Counts r operations id j h = ground (arith, lookup-delete id j r.meta)

begin-Counts :
    (id : String) (now : ℕ) (w : World) (j : String) (o : Option Meta)
    → lookup id w.runtime.meta ≡ o
    → Counts w.runtime w.operations id
    → Counts w.runtime w.operations j
    → let w' = after_begin id w (begin_found id now w.runtime o) in
      Counts w'.runtime w'.operations j
begin-Counts id now w j none e a h =
    if_cases
      (λ (t : Ticket).
        let w' = after_begin id w (w.runtime, t) in Counts w'.runtime w'.operations j)
      (w.runtime.guest && not w.runtime.closed) _ _ (λ x. h) (λ x. h)
begin-Counts id now w j (some m) e a h =
    if_cases
      (λ (p : Runtime × Ticket). let w' = after_begin id w p in Counts w'.runtime w'.operations j)
      m.reaping _ _ (λ x. h)
      (λ x.
        replaced-Counts w.runtime w.operations (add_at id w.operations) id j m (started now m) e
          (λ other d. ground arith) (λ c. ground (arith, eq_iff id id)) a h)

finish-Counts :
    (id : String) (now : ℕ) (r : Runtime) (operations : String → ℕ) (j : String) (o : Option Meta)
    → lookup id r.meta ≡ o
    → Counts r operations id
    → Counts r operations j
    → Counts (finish_found id now r o) (sub_at id operations) j
finish-Counts id now r operations j none e a h = ground (arith, eq_iff id j)
finish-Counts id now r operations j (some m) e a h =
    replaced-Counts r operations (sub_at id operations) id j m (ended now m) e
      (λ other d. ground arith) (λ c. ground (arith, eq_iff id id)) a h

mark_found-Counts :
    (id : String) (r : Runtime) (operations : String → ℕ) (j : String) (o : Option Meta)
    (now timeout : ℕ)
    → lookup id r.meta ≡ o
    → is_idle now timeout o ≡ true
    → Counts r operations id
    → Counts r operations j
    → Counts (mark_found id r o) operations j
mark_found-Counts id r operations j none now timeout e i a h = h
mark_found-Counts id r operations j (some m) now timeout e i a h =
    replaced-Counts r operations operations id j m (record m { reaping = true }) e (λ other d. refl)
      (λ c. ground arith) a h

reap_loop-Counts :
    (now : ℕ) (ids : List String) (r : Runtime) (operations : String → ℕ)
    → ((j : String) → Counts r operations j)
    → (j : String) → Counts (reap_loop now ids r).0 operations j
unfolding reap_loop mark_reaping
reap_loop-Counts now [] r operations h j = h j
reap_loop-Counts now (id ∷ ids) r operations h j =
    let idle = is_idle now r.idle_timeout (lookup id r.meta) in
    reap_loop-Counts now ids (if idle then mark_reaping id r else r) operations
      (λ i.
        if_cases (λ (s : Runtime). Counts s operations i) idle _ _
          (λ x.
            mark_found-Counts id r operations i (lookup id r.meta) now r.idle_timeout refl x (h id)
              (h i))
          (λ x. h i))
      j

commit-Counts :
    (id host title : String) (now : ℕ) (w : World) (j : String)
    → w.operations id ≡ 0
    → Counts w.runtime w.operations j
    → let w' = after_commit id w (commit id host title now w.runtime) in
      Counts w'.runtime w'.operations j
unfolding commit
commit-Counts id host title now w j z h =
    let holds : Runtime × Option Error → Type 0 =
      λ p. let w' = after_commit id w p in Counts w'.runtime w'.operations j in
    if_cases holds w.runtime.closed _ _ (λ x. h)
      (λ x.
        if_cases holds (w.runtime.tombstones id) _ _ (λ t. h)
          (λ t.
            ground
              (arith, lookup-insert id j (new_meta id host title now) w.runtime.meta, eq_iff id j)))

reserve-Counts :
    (w : World) (j : String)
    → Counts w.runtime w.operations j
    → let w' = after_reserve w (reserve w.runtime) in Counts w'.runtime w'.operations j
unfolding reserve
reserve-Counts w j h =
    let holds : Runtime × Option Error → Type 0 =
      λ p. let w' = after_reserve w p in Counts w'.runtime w'.operations j in
    if_cases holds w.runtime.closed _ _ (λ c. h)
      (λ c.
        if_cases holds (leb w.runtime.max_sessions (length w.runtime.meta + w.runtime.pending)) _ _
          (λ x. h) (λ x. h))

on_closed-Counts :
    (id : String) (r : Runtime) (operations : String → ℕ) (j : String)
    → Counts r operations j
    → Counts (on_closed id r).0 operations j
unfolding on_closed
on_closed-Counts id r operations j h =
    let holds : Runtime × Bool → Type 0 = λ p. Counts p.0 operations j in
    if_cases holds (is_some (lookup id r.meta)) _ _
      (λ k.
        dropped-Counts (record r { local_closing = take_out id r.local_closing }) operations id j h)
      (λ k. if_cases holds (r.local_closing id) _ _ (λ c. h) (λ c. h))

drop_and_mark-Counts :
    (id : String) (r : Runtime) (operations : String → ℕ) (j : String)
    → Counts r operations j
    → Counts (drop_and_mark id r).0 operations j
unfolding drop_and_mark
drop_and_mark-Counts id r operations j h =
    if_cases (λ (p : Runtime × Bool). Counts p.0 operations j) (is_some (lookup id r.meta)) _ _
      (λ k. dropped-Counts r operations id j h) (λ k. h)

pub Step-Counts :
    {w w' : World}
    → ((id : String) → Placed w id)
    → ((id : String) → Counts w.runtime w.operations id)
    → Step w w'
    → (j : String) → Counts w'.runtime w'.operations j
unfolding begin finish reap mark_closing unmark_closing stop_reaper shut release_reserve
    start_reaper
Step-Counts {w} p h reserves j = reserve-Counts w j (h j)
Step-Counts {w} p h (gives_up l) j =
    if_cases (λ (r : Runtime). Counts r w.operations j) (ltb 0 w.runtime.pending) _ _ (λ x. h j)
      (λ x. h j)
Step-Counts p h (issues id n) j = h j
Step-Counts {w} p h (commits id host title now c l) j =
    let a = p id in commit-Counts id host title now w j (ground (arith, a.waiting)) (h j)
Step-Counts {w} p h (announces id i) j = on_closed-Counts id w.runtime w.operations j (h j)
Step-Counts {w} p h (drops id) j = drop_and_mark-Counts id w.runtime w.operations j (h j)
Step-Counts p h (marks id i c) j = h j
Step-Counts p h (unmarks id) j = h j
Step-Counts {w} p h (begins id now) j =
    begin-Counts id now w j (lookup id w.runtime.meta) refl (h id) (h j)
Step-Counts {w} p h (finishes id now l) j =
    finish-Counts id now w.runtime w.operations j (lookup id w.runtime.meta) refl (h id) (h j)
Step-Counts {w} p h (reaps now) j = reap_loop-Counts now w.runtime.order w.runtime w.operations h j
Step-Counts {w} p h starts_reaper j =
    if_cases (λ (r : Runtime). Counts r w.operations j) (w.runtime.reaper || w.runtime.closed) _ _
      (λ x. h j) (λ x. h j)
Step-Counts p h stops_reaper j = h j
Step-Counts p h shuts j = h j
