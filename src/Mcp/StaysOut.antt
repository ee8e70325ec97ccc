-- ===== src/Mcp/StaysOut.antt =====
-- What the reaper has selected stays refused, whatever sections follow.
use node_shell.Base.{
  ℕ, ◌≡◌, refl, String, Bool, true, Option, none, some, lookup, arith, eq_iff, if_cases, Bool-cases,
  inl, inr, is_some, ltb, ◌||◌, ◌-◌, ◌&&◌, not, contains, ℤ, ◌⊎◌,
}
use node_shell.Mcp.State.{Meta, Runtime, new_runtime, put_in}
use node_shell.Mcp.Sections.{
  release_reserve, on_closed, drop_and_mark, mark_closing, unmark_closing, refused, not_found,
  begin, begin_found, finish, reap, is_idle, start_reaper, stop_reaper, shut,
}
use node_shell.Mcp.World.{
  World, new_world, Step, Reach, here, next, reserves, gives_up, issues, commits, announces, drops,
  marks, unmarks, begins, finishes, reaps, starts_reaper, stops_reaper, shuts,
}
use node_shell.Mcp.Sound.{Reach-IsSound}
use node_shell.Mcp.Reaped.{reaping_of, counted-idle, reap_loop-selects}
use node_shell.Mcp.Reaping.{
  gone_or_reaping, Out, same-Out, reserve-Out, commit-Out, begin-Out, finish-marked, closed-marked,
  drop-marked, reap_loop-marked,
}

module _ (id : String) where
  Step-Out : {w w' : World} → Out id w → Step w w' → Out id w'
  unfolding release_reserve mark_closing unmark_closing begin finish reap start_reaper stop_reaper
      shut
  Step-Out h reserves = reserve-Out id h
  Step-Out {w} h (gives_up l) =
      same-Out id h (record w { runtime = release_reserve w.runtime; reserved = w.reserved - 1 })
        refl refl
        (if_cases (λ (r : Runtime). gone_or_reaping (lookup id r.meta) ≡ true)
          (ltb 0 w.runtime.pending) _ _ (λ x. h.marked) (λ x. h.marked))
  Step-Out h (issues j e) = record {
    known = ground (arith, h.known);
    registered = ground (arith, eq_iff j id, h.registered, h.known, e);
    marked = h.marked;
  }
  Step-Out h (commits j host title now c l) = commit-Out id h j host title now c
  Step-Out {w} h (announces j e) =
      same-Out id h
        (record w { runtime = (on_closed j w.runtime).0; announced = put_in j w.announced }) refl
        refl (closed-marked id h j)
  Step-Out {w} h (drops j) =
      same-Out id h (record w { runtime = (drop_and_mark j w.runtime).0 }) refl refl
        (drop-marked id h j)
  Step-Out h (marks j e c) = record {
    known = h.known;
    registered = h.registered;
    marked = h.marked;
  }
  Step-Out h (unmarks j) = record { known = h.known; registered = h.registered; marked = h.marked }
  Step-Out {w} h (begins j now) = begin-Out id h j now (lookup j w.runtime.meta) refl
  Step-Out {w} h (finishes j now l) = record {
    known = h.known;
    registered = h.registered;
    marked = finish-marked id h j now (lookup j w.runtime.meta) refl;
  }
  Step-Out {w} h (reaps now) = record {
    known = h.known;
    registered = h.registered;
    marked = reap_loop-marked now w.runtime.order w.runtime id h.marked;
  }
  Step-Out {w} h starts_reaper = record {
    known = h.known;
    registered = h.registered;
    marked =
        if_cases (λ (r : Runtime). gone_or_reaping (lookup id r.meta) ≡ true)
          (w.runtime.reaper || w.runtime.closed) _ _ (λ x. h.marked) (λ x. h.marked);
  }
  Step-Out h stops_reaper = record { known = h.known; registered = h.registered; marked = h.marked }
  Step-Out h shuts = record { known = h.known; registered = h.registered; marked = h.marked }

  Reach-Out : {w w' : World} → Out id w → Reach w w' → Out id w'
  Reach-Out h here = h
  Reach-Out h (next p s) = Step-Out (Reach-Out h p) s

  -- What a further operation on the session meets.
  Out-refuses :
      (later : ℕ) (v : World) (o : Option Meta)
      → gone_or_reaping o ≡ true
      → ((begin_found id later v.runtime o).1 ≡ refused (not_found id))
        ⊎ ((v.runtime.guest ≡ true) × (o ≡ none))
  Out-refuses later v none e = elim (Bool-cases (v.runtime.guest && not v.runtime.closed)) [
    | inl x ↦ inr (ground arith, refl)
    | inr x ↦ inl (rw x refl)
  ]
  Out-refuses later v (some m) e = inl (rw e refl)

idle-known : (now timeout : ℕ) (o : Option Meta) → is_idle now timeout o ≡ true → is_some o ≡ true
idle-known now timeout none e = absurd (ground arith)
idle-known now timeout (some m) e = refl

reaping-marked : (o : Option Meta) → reaping_of o ≡ true → gone_or_reaping o ≡ true
reaping-marked none e = refl
reaping-marked (some m) e = e

-- Behind the section of the reaper.
abbrev pub reaped : ℕ → World → World
reaped now w = record w { runtime = (reap now w.runtime).0 }

-- A session that the reaper selects, in a runtime that any sections have brought about, has no
-- operation under way; and whatever sections follow, none begins on it: one is refused as if there
-- were no such session, or it is an operation of a guest runtime, on an id that is the runtime's own
-- no more.
pub Reach-reaps :
    (max idle : ℤ) (guest : Bool) {w v : World} (now : ℕ) (id : String)
    → Reach (new_world (new_runtime max idle guest)) w
    → contains id (reap now w.runtime).1 ≡ true
    → Reach (reaped now w) v
    → (w.operations id ≡ 0)
      × ((later : ℕ)
          → ((begin id later v.runtime).1 ≡ refused (not_found id))
            ⊎ ((v.runtime.guest ≡ true) × (lookup id v.runtime.meta ≡ none)))
unfolding reap begin
Reach-reaps max idle guest {w} {v} now id p e q =
    let sound = Reach-IsSound max idle guest p in
    let s = reap_loop-selects now w.runtime.order w.runtime id e in
    let k = (sound.placed id).registered (idle-known now _ (lookup id w.runtime.meta) s.0) in
    let behind : Out id (reaped now w) = record {
      known = k.0;
      registered = k.1;
      marked = reaping-marked (lookup id (reaped now w).runtime.meta) s.1;
    } in
    (
      counted-idle now w.runtime.idle_timeout (w.operations id) _ (sound.counts id) s.0,
      λ later. Out-refuses id later v (lookup id v.runtime.meta) (Reach-Out id behind q).marked,
    )
