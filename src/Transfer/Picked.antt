-- ===== src/Transfer/Picked.antt =====
-- What `pick` returns: the first queued task whose session is free.
use node_shell.Base.{
  ℕ, ◌<◌, ◌≡◌, refl, ap, String, true, some, none, List, [], ◌∷◌, Dict, lookup, contains,
  remove_first, length, eq_iff, arith, suc, Option-cases, inl, inr, eq_refl,
}
use mathlib.Core.Path.{subst}
use mathlib.Core.Option.{some-injective}
use node_shell.Transfer.State.{Task, max_session, running_of}
use node_shell.Transfer.Schedule.{Pick, runnable, pick}

pub record IsPick (tasks : Dict Task) (sessions : Dict ℕ) (queue : List String) (p : Pick)
    : Type 0 where
  pub can_run : runnable tasks sessions p.id ≡ some p.task
  pub member : contains p.id queue ≡ true
  pub rest : p.rest ≡ remove_first p.id queue
  pub shorter : length queue ≡ suc (length p.rest)

pub runnable-found :
    (tasks : Dict Task) (sessions : Dict ℕ) (id : String) (t : Task)
    → runnable tasks sessions id ≡ some t
    → (lookup id tasks ≡ some t) × (running_of t.session_id sessions < max_session)
unfolding runnable
runnable-found tasks sessions id t h = ground arith

IsPick-cons :
    (tasks : Dict Task) (sessions : Dict ℕ) (id : String) (queue : List String) (t : Task)
    → runnable tasks sessions id ≡ some t
    → IsPick tasks sessions (id ∷ queue) (record { id = id; task = t; rest = queue })
unfolding contains remove_first
IsPick-cons tasks sessions id queue t e = record {
  can_run = e;
  member = rw eq_refl;
  rest = rw eq_refl;
  shorter = refl;
}

IsPick-skip :
    (tasks : Dict Task) (sessions : Dict ℕ) (id : String) (queue : List String) (q : Pick)
    → runnable tasks sessions id ≡ none
    → IsPick tasks sessions queue q
    → IsPick tasks sessions (id ∷ queue) (record q { rest = id ∷ q.rest })
unfolding contains remove_first
IsPick-skip tasks sessions id queue q e h = record {
  can_run = h.can_run;
  member = ground (arith, h.member);
  rest = ground (arith, h.rest, h.can_run, eq_iff id q.id);
  shorter = ap suc h.shorter;
}

pub pick-IsPick :
    (tasks : Dict Task) (sessions : Dict ℕ) (queue : List String) (p : Pick)
    → pick tasks sessions queue ≡ some p
    → IsPick tasks sessions queue p
unfolding pick
pick-IsPick tasks sessions [] p h = cc
pick-IsPick tasks sessions (id ∷ queue) p h = elim (Option-cases (runnable tasks sessions id)) [
  | inl busy ↦ elim (Option-cases (pick tasks sessions queue)) [
    | inl e ↦ cc
    | inr (q, e) ↦
        subst (IsPick tasks sessions (id ∷ queue)) (some-injective _ _ (rw (busy, e, pick) at h))
          (IsPick-skip tasks sessions id queue q busy (pick-IsPick tasks sessions queue q e))
  ]
  | inr (t, e) ↦
      subst (IsPick tasks sessions (id ∷ queue)) (some-injective _ _ (rw (e, pick) at h))
        (IsPick-cons tasks sessions id queue t e)
]
