-- ===== src/Transfer/Progress.antt =====
-- The scheduler leaves no queued task waiting without cause, and takes them in queue order.
use mathlib.Core.Path.{subst}
use mathlib.Core.Option.{some-injective}
use node_shell.Base.{
  ℕ, zero, suc, ◌≡◌, ◌≤◌, ◌⊎◌, inl, inr, refl, ap, String, false, some, none, List, [], ◌∷◌, ◌++◌,
  Dict, length, arith, Option-cases, if_cases, ltb,
}
use node_shell.Transfer.State.{Task, TransferTaskDto, Manager, max_global}
use node_shell.Transfer.Schedule.{Pick, runnable, pick, launch, schedule_loop, schedule_locked}
use node_shell.Transfer.Picked.{pick-IsPick}

-- Nothing of a queue is runnable.
abbrev pub Blocked : Dict Task → Dict ℕ → List String → Type 0
Blocked tasks sessions [] = Unit
Blocked tasks sessions (id ∷ queue) =
    (runnable tasks sessions id ≡ none) × Blocked tasks sessions queue

pick-Blocked :
    (tasks : Dict Task) (sessions : Dict ℕ) (queue : List String)
    → pick tasks sessions queue ≡ none
    → Blocked tasks sessions queue
unfolding pick
pick-Blocked tasks sessions [] h = tt
pick-Blocked tasks sessions (id ∷ queue) h = elim (Option-cases (runnable tasks sessions id)) [
  | inl e ↦ (e, pick-Blocked tasks sessions queue (ground arith))
  | inr (t, e) ↦ cc (rw (e, pick) at h)
]

-- The scheduler stops only at the global cap, or where no queued task's session is free.
abbrev pub Saturated : Manager → Type 0
Saturated m = (max_global ≤ m.running_global) ⊎ Blocked m.tasks m.running_session m.queue

Blocked-nil :
    (tasks : Dict Task) (sessions : Dict ℕ) (queue : List String)
    → length queue ≤ 0
    → Blocked tasks sessions queue
Blocked-nil tasks sessions [] h = tt
Blocked-nil tasks sessions (id ∷ queue) h = absurd (omega arith)

schedule_loop-Saturated :
    (fuel : ℕ) (clock : ℕ → ℕ) (m : Manager)
    → length m.queue ≤ fuel
    → Saturated (schedule_loop fuel clock m).0
unfolding schedule_loop
schedule_loop-Saturated zero clock m h = inr (Blocked-nil m.tasks m.running_session m.queue h)
schedule_loop-Saturated (suc fuel) clock m h =
    if_cases (λ (r : Manager × List TransferTaskDto). Saturated r.0)
      (ltb m.running_global max_global) _ _
      (λ room. elim (Option-cases (pick m.tasks m.running_session m.queue)) [
        | inl e ↦ rw (e, schedule_loop) (inr (pick-Blocked m.tasks m.running_session m.queue e))
        | inr (p, e) ↦
            rw (e, schedule_loop)
              (schedule_loop-Saturated fuel clock (launch (clock fuel) p m)
                (unfold launch in omega (arith, pick-IsPick m.tasks m.running_session m.queue p e)))
      ])
      (λ full. inl (ground arith))

-- An open manager's scheduling ends with three transfers under way, or with every queued task's
-- session at its cap: the queue's length is fuel enough, and no task that could start is left.
pub schedule_locked-Saturated :
    (clock : ℕ → ℕ) (m : Manager) → m.closed ≡ false → Saturated (schedule_locked clock m).0
unfolding schedule_locked
schedule_locked-Saturated clock m o =
    simp o (schedule_loop-Saturated (length m.queue) clock m (omega arith))

-- What a pick says of the queue.
pub record IsFirst (tasks : Dict Task) (sessions : Dict ℕ) (queue : List String) (p : Pick)
    : Type 0 where
  pub before : List String
  pub after : List String
  pub order : queue ≡ before ++ p.id ∷ after
  pub rest : p.rest ≡ before ++ after
  pub blocked : Blocked tasks sessions before
  pub can_run : runnable tasks sessions p.id ≡ some p.task

-- The task that starts next is the first of the queue whose session is free; those in front of it
-- are all held back by their session's cap, and keep their order, as do those behind it.
pub pick-IsFirst :
    (tasks : Dict Task) (sessions : Dict ℕ) (queue : List String) (p : Pick)
    → pick tasks sessions queue ≡ some p
    → IsFirst tasks sessions queue p
unfolding pick
pick-IsFirst tasks sessions [] p h = cc
pick-IsFirst tasks sessions (id ∷ queue) p h = elim (Option-cases (runnable tasks sessions id)) [
  | inl busy ↦ elim (Option-cases (pick tasks sessions queue)) [
    | inl e ↦ cc
    | inr (q, e) ↦
        let f = pick-IsFirst tasks sessions queue q e in
        subst (IsFirst tasks sessions (id ∷ queue)) (some-injective _ _ (rw (busy, e, pick) at h))
          (record {
            before = id ∷ f.before;
            after = f.after;
            order = ap (λ l. id ∷ l) f.order;
            rest = ap (λ l. id ∷ l) f.rest;
            blocked = (busy, f.blocked);
            can_run = f.can_run;
          })
  ]
  | inr (t, e) ↦
      subst (IsFirst tasks sessions (id ∷ queue)) (some-injective _ _ (rw (e, pick) at h)) (record {
        before = [];
        after = queue;
        order = refl;
        rest = refl;
        blocked = tt;
        can_run = e;
      })
]
