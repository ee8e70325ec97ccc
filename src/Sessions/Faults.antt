-- ===== src/Sessions/Faults.antt =====
-- The first fault of a session, under any order of the sections.
use mathlib.Core.Path.{subst}
use node_shell.Base.{
  ◌≡◌, refl, sym, ap, ◌∙◌, ◌⊎◌, inl, inr, String, Bool, true, false, Option, none, some, [], ◌∷◌,
  lookup, insert, Result, Error, ◌==◌, arith, eq_iff, if_cases, lookup-insert, Bool-cases,
}
use node_shell.Sessions.State.{
  Conn, Session, Phase, running, ending, removed, told, ended, quieting, quiet, Manager,
  new_manager,
}
use node_shell.Sessions.Ends.{
  record_fault, change, change_found, faulted, in_phase, begun, begin_end, begin_of, phase_of,
  unlist, unlist_of, report, report_of, tell, announce, announce_of,
}
use node_shell.Sessions.Connect.{enter, leave, register, new_session}
use node_shell.Sessions.Calls.{cancel_connect, close_gate}
use node_shell.Sessions.World.{
  Step, Reach, here, next, told_errors, is_ended, has_closed, errors_of, enters, leaves, cancels,
  opens, closes, registers, delivers, faults, ends, quiets, unlists, reports, announces, shuts,
}
use node_shell.Sessions.Lifecycle.{continues-IsTold, Reach-IsTold}

-- The error has not been told yet.
abbrev pub unreported : Phase → Bool
unreported (told x) = false
unreported (ended x) = false
unreported _ = true

-- A session with a first fault, which is what was told, if anything was.
record Keeps (e : Error) (s : Session) : Type 0 where
  fault : s.first_fault ≡ some e
  right : (told_errors s.phase ≡ e ∷ []) ⊎ (unreported s.phase ≡ true)

record Faulty (e : Error) (id : String) (m : Manager) : Type 0 where
  session : Session
  held : lookup id m.objects ≡ some session
  keeps : Keeps e session

module _ (e : Error) (id : String) where
  -- The objects are as they were.
  same-Faulty : (m m' : Manager) → m'.objects ≡ m.objects → Faulty e id m → Faulty e id m'
  same-Faulty m m' o h = record {
    session = h.session;
    held = ap (lookup id) o ∙ h.held;
    keeps = h.keeps;
  }

  -- A change of a session that keeps the fault, or of another session.
  changed-Faulty :
      (j : String) (s' : Session) (m m' : Manager)
      → m'.objects ≡ insert j s' m.objects
      → ((j == id) ≡ true → Keeps e s')
      → Faulty e id m
      → Faulty e id m'
  changed-Faulty j s' m m' o k h = elim (Bool-cases (j == id)) [
    | inl same ↦ record {
      session = s';
      held = ap (lookup id) o ∙ (lookup-insert j id s' m.objects ∙ rw same refl);
      keeps = k same;
    }
    | inr other ↦ record {
      session = h.session;
      held = ap (lookup id) o ∙ (lookup-insert j id s' m.objects ∙ rw other h.held);
      keeps = h.keeps;
    }
  ]

  -- What is known of the session that changes, if it is the one.
  kept_of :
      (j : String) (s : Session) (m : Manager)
      → lookup j m.objects ≡ some s
      → Faulty e id m
      → (j == id) ≡ true
      → Keeps e s
  kept_of j s m l h same =
      subst (Keeps e)
        (some_inj
          (sym h.held ∙ (ap (λ k. lookup k m.objects) (sym (ground (arith, eq_iff j id))) ∙ l)))
        h.keeps
    where
      some_inj : some h.session ≡ some s → h.session ≡ s
      some_inj p = ground arith

  fault-Faulty :
      (j : String) (x : Error) (m : Manager) (o : Option Session)
      → lookup j m.objects ≡ o
      → Faulty e id m
      → Faulty e id (change_found j (faulted x) m o)
  fault-Faulty j x m none l h = h
  fault-Faulty j x m (some s) l h =
      changed-Faulty j (faulted x s) m _ refl (λ same. still (kept_of j s m l h same)) h
    where
      still : Keeps e s → Keeps e (faulted x s)
      still k = record { fault = rw k.fault refl; right = k.right }

  -- A change of the phase to one that has told nothing yet.
  moved-Faulty :
      (j : String) (s s' : Session) (m m' : Manager)
      → lookup j m.objects ≡ some s
      → m'.objects ≡ insert j s' m.objects
      → s'.first_fault ≡ s.first_fault
      → (told_errors s'.phase ≡ told_errors s.phase) ⊎ (unreported s'.phase ≡ true)
      → (unreported s.phase ≡ true → unreported s'.phase ≡ true)
      → Faulty e id m
      → Faulty e id m'
  moved-Faulty j s s' m m' l o f t u h =
      changed-Faulty j s' m m' o (λ same. still (kept_of j s m l h same)) h
    where
      still : Keeps e s → Keeps e s'
      still k = record {
        fault = f ∙ k.fault;
        right = elim k.right [
          | inr p ↦ inr (u p)
          | inl p ↦ elim t [ inl q ↦ inl (q ∙ p) | inr q ↦ inr q ]
        ];
      }

  begin-Faulty :
      (j : String) (q p : Phase) (m : Manager) (o : Option Session)
      → unreported q ≡ true
      → lookup j m.objects ≡ o
      → Faulty e id m
      → Faulty e id (begin_of j q m o p)
  begin-Faulty j q running m none u l h = same-Faulty m _ refl h
  begin-Faulty j q running m (some s) u l h =
      moved-Faulty j s (begun q s) m _ l refl refl (inr u) (λ k. u) h
  begin-Faulty j q ending m o u l h = h
  begin-Faulty j q removed m o u l h = h
  begin-Faulty j q (told x) m o u l h = h
  begin-Faulty j q (ended x) m o u l h = h
  begin-Faulty j q quieting m o u l h = h
  begin-Faulty j q quiet m o u l h = h

  unlist-Faulty :
      (j : String) (p : Phase) (m : Manager) (o : Option Session)
      → lookup j m.objects ≡ o
      → Faulty e id m
      → Faulty e id (unlist_of j m o p)
  unlist-Faulty j running m o l h = h
  unlist-Faulty j ending m none l h = same-Faulty m _ refl h
  unlist-Faulty j ending m (some s) l h =
      moved-Faulty j s (in_phase removed s) m _ l refl refl (inr refl) (λ k. refl) h
  unlist-Faulty j removed m o l h = h
  unlist-Faulty j (told x) m o l h = h
  unlist-Faulty j (ended x) m o l h = h
  unlist-Faulty j quieting m none l h = same-Faulty m _ refl h
  unlist-Faulty j quieting m (some s) l h =
      moved-Faulty j s (in_phase quiet s) m _ l refl refl (inr refl) (λ k. refl) h
  unlist-Faulty j quiet m o l h = h

  tell-Faulty :
      (j : String) (x : Option Error) (m : Manager) → Faulty e id m → Faulty e id (tell j x m)
  tell-Faulty j none m h = h
  tell-Faulty j (some x) m h = same-Faulty m _ refl h

  report-Faulty :
      (j : String) (p : Phase) (m : Manager) (o : Option Session)
      → lookup j m.objects ≡ o
      → Faulty e id m
      → Faulty e id (report_of j m o p)
  report-Faulty j running m o l h = h
  report-Faulty j ending m o l h = h
  report-Faulty j removed m none l h = h
  report-Faulty j removed m (some s) l h =
      let s' = in_phase (told s.first_fault) s in
      tell-Faulty j s.first_fault (record m { objects = insert j s' m.objects })
        (changed-Faulty j s' m _ refl (λ same. told_now (kept_of j s m l h same)) h)
    where
      told_now : Keeps e s → Keeps e (in_phase (told s.first_fault) s)
      told_now k = record { fault = k.fault; right = inl (ap (λ x. told_errors (told x)) k.fault) }
  report-Faulty j (told x) m o l h = h
  report-Faulty j (ended x) m o l h = h
  report-Faulty j quieting m o l h = h
  report-Faulty j quiet m o l h = h

  announce-Faulty :
      (j : String) (p : Phase) (m : Manager) (o : Option Session)
      → lookup j m.objects ≡ o
      → phase_of o ≡ p
      → Faulty e id m
      → Faulty e id (announce_of j m o p)
  announce-Faulty j running m o l q h = h
  announce-Faulty j ending m o l q h = h
  announce-Faulty j removed m o l q h = h
  announce-Faulty j (told x) m none l q h = same-Faulty m _ refl h
  announce-Faulty j (told x) m (some s) l q h =
      same-Faulty (record m { objects = insert j (in_phase (ended x) s) m.objects }) _ refl
        (moved-Faulty j s (in_phase (ended x) s) m _ l refl refl
          (inl (same_told x ∙ sym (ap told_errors q)))
          (λ u. absurd (ground (arith, ap unreported q))) h)
    where
      same_told : (y : Option Error) → told_errors (ended y) ≡ told_errors (told y)
      same_told none = refl
      same_told (some z) = refl
  announce-Faulty j (ended x) m o l q h = h
  announce-Faulty j quieting m o l q h = h
  announce-Faulty j quiet m o l q h = h

  register-Faulty :
      (j host_id : String) (conn : Conn) (m : Manager)
      → lookup j m.objects ≡ none
      → Faulty e id m
      → Faulty e id (register j host_id conn m).0
  unfolding register
  register-Faulty j host_id conn m l h =
      if_cases (λ (p : Manager × Result String). Faulty e id p.0) m.closing _ _
        (λ c. same-Faulty m _ refl h)
        (λ c.
          changed-Faulty j (new_session host_id conn) m _ refl
            (λ same.
              absurd
                (ground (arith, eq_iff j id, h.held, ap (λ k. lookup k m.objects) (key_of same))))
            h)
    where
      key_of : (j == id) ≡ true → j ≡ id
      key_of same = ground (arith, eq_iff j id)

  Step-Faulty : {m m' : Manager} → Faulty e id m → Step m m' → Faulty e id m'
  unfolding enter leave cancel_connect close_gate record_fault change begin_end unlist report
      announce
  Step-Faulty {m} h (enters c) = same-Faulty m _ refl h
  Step-Faulty {m} h (leaves c) = same-Faulty m _ refl h
  Step-Faulty {m} h cancels = same-Faulty m _ refl h
  Step-Faulty {m} h opens = same-Faulty m _ refl h
  Step-Faulty {m} h closes = same-Faulty m _ refl h
  Step-Faulty {m} h (registers j host_id conn l) = register-Faulty j host_id conn m l h
  Step-Faulty {m} h (delivers j d) = same-Faulty m _ refl h
  Step-Faulty {m} h (faults j x) = fault-Faulty j x m (lookup j m.objects) refl h
  Step-Faulty {m} h (ends j) = begin-Faulty j ending _ m (lookup j m.objects) refl refl h
  Step-Faulty {m} h (quiets j) = begin-Faulty j quieting _ m (lookup j m.objects) refl refl h
  Step-Faulty {m} h (unlists j) = unlist-Faulty j _ m (lookup j m.objects) refl h
  Step-Faulty {m} h (reports j) = report-Faulty j _ m (lookup j m.objects) refl h
  Step-Faulty {m} h (announces j) = announce-Faulty j _ m (lookup j m.objects) refl refl h
  Step-Faulty {m} h shuts = same-Faulty m _ refl h

  Reach-Faulty : {m m' : Manager} → Faulty e id m → Reach m m' → Faulty e id m'
  Reach-Faulty h here = h
  Reach-Faulty h (next p s) = Step-Faulty (Reach-Faulty h p) s

ended-reported : (p : Phase) → is_ended p ≡ true → unreported p ≡ false
ended-reported (ended x) e = refl
ended-reported running e = absurd (ground arith)
ended-reported ending e = absurd (ground arith)
ended-reported removed e = absurd (ground arith)
ended-reported (told x) e = absurd (ground arith)
ended-reported quieting e = absurd (ground arith)
ended-reported quiet e = absurd (ground arith)

-- Where a session has a first fault that is not told yet, then whatever the goroutines do, and whichever
-- call ends the session, the event that it is closed comes with one error event, which tells that fault.
pub Reach-fault :
    {m m' : Manager} (e : Error) (id : String) (s : Session)
    → Reach new_manager m
    → lookup id m.objects ≡ some s
    → s.first_fault ≡ some e
    → unreported s.phase ≡ true
    → Reach m m'
    → has_closed id m'.events ≡ true
    → errors_of id m'.events ≡ e ∷ []
Reach-fault e id s p l f u q c =
    let facts = (continues-IsTold (Reach-IsTold p) q).all_told id in
    let last =
      Reach-Faulty e id
        (record { session = s; held = l; keeps = record { fault = f; right = inr u } }) q in
    let over =
      ended-reported last.session.phase
        (ap is_ended (ap phase_of (sym last.held)) ∙ (sym facts.closed ∙ c)) in
    facts.errors
    ∙ (ap told_errors (ap phase_of last.held)
        ∙ elim last.keeps.right [ inl r ↦ r | inr n ↦ absurd (ground arith) ])
