-- ===== src/Sessions/Causes.antt =====
-- internal/sessions/sessions.go: the error that `finish` tells is the session's first fault.
use mathlib.Core.Path.{subst}
use node_shell.Base.{
  ◌≡◌, refl, sym, ap, ◌∙◌, ◌⊎◌, inl, inr, String, Option, none, some, Dict, lookup, insert,
  lookup-insert, ◌==◌, Error, Result, if_cases,
}
use node_shell.Sessions.State.{
  Conn, Session, Phase, running, ending, removed, told, ended, quieting, quiet, Manager,
}
use node_shell.Sessions.Ends.{
  record_fault, change, change_found, first_of, faulted, in_phase, begun, begin_end, begin_of,
  phase_of, unlist, unlist_of, report, report_of, tell, announce, announce_of,
}
use node_shell.Sessions.Connect.{enter, leave, register, new_session}
use node_shell.Sessions.Calls.{cancel_connect, close_gate}
use node_shell.Sessions.World.{
  Step, enters, leaves, cancels, opens, closes, registers, delivers, faults, ends, quiets, unlists,
  reports, announces, shuts,
}

abbrev pub told_of : Phase → Option Error
told_of (told e) = e
told_of (ended e) = e
told_of _ = none

-- No error has been told of the session, or its first fault.
abbrev pub Caused : Option Session → Type 0
Caused none = Unit
Caused (some s) = (told_of s.phase ≡ none) ⊎ (told_of s.phase ≡ s.first_fault)

abbrev pub AllCaused : Dict Session → Type 0
AllCaused d = (j : String) → Caused (lookup j d)

insert-Caused :
    (id : String) (s : Session) (d : Dict Session)
    → Caused (some s)
    → AllCaused d
    → AllCaused (insert id s d)
insert-Caused id s d c h j =
    subst Caused (sym (lookup-insert id j s d)) (if_cases Caused (id == j) _ _ (λ x. c) (λ x. h j))

change-Caused :
    (id : String) (f : Session → Session) (m : Manager) (o : Option Session)
    → ((s : Session) → o ≡ some s → Caused (some (f s)))
    → AllCaused m.objects
    → AllCaused (change_found id f m o).objects
change-Caused id f m none c h = h
change-Caused id f m (some s) c h = insert-Caused id (f s) m.objects (c s refl) h

first-Caused :
    (e : Error) (t o : Option Error) → (t ≡ none) ⊎ (t ≡ o) → (t ≡ none) ⊎ (t ≡ first_of e o)
first-Caused e t none (inl c) = inl c
first-Caused e t none (inr c) = inl c
first-Caused e t (some x) c = c

module _ (id : String) (m : Manager) (h : AllCaused m.objects) where
  fault-Caused :
      (e : Error) (o : Option Session)
      → lookup id m.objects ≡ o
      → AllCaused (change_found id (faulted e) m o).objects
  fault-Caused e o p =
      change-Caused id (faulted e) m o
        (λ s q. first-Caused e (told_of s.phase) s.first_fault (subst Caused (p ∙ q) (h id))) h

  begin-Caused :
      (q : Phase) (o : Option Session) (p : Phase)
      → told_of q ≡ none
      → AllCaused (begin_of id q m o p).objects
  begin-Caused q o running t = change-Caused id (begun q) m o (λ s e. inl t) h
  begin-Caused q o ending t = h
  begin-Caused q o removed t = h
  begin-Caused q o (told x) t = h
  begin-Caused q o (ended x) t = h
  begin-Caused q o quieting t = h
  begin-Caused q o quiet t = h

  unlist-Caused : (o : Option Session) (p : Phase) → AllCaused (unlist_of id m o p).objects
  unlist-Caused o running = h
  unlist-Caused o ending = change-Caused id (in_phase removed) m o (λ s e. inl refl) h
  unlist-Caused o removed = h
  unlist-Caused o (told x) = h
  unlist-Caused o (ended x) = h
  unlist-Caused o quieting = change-Caused id (in_phase quiet) m o (λ s e. inl refl) h
  unlist-Caused o quiet = h

  tell-Caused :
      (s : Session) (x : Option Error)
      → AllCaused
          (tell id x
            (record m { objects = insert id (in_phase (told s.first_fault) s) m.objects })).objects
  tell-Caused s none = insert-Caused id (in_phase (told s.first_fault) s) m.objects (inr refl) h
  tell-Caused s (some x) = insert-Caused id (in_phase (told s.first_fault) s) m.objects (inr refl) h

  report-Caused : (o : Option Session) (p : Phase) → AllCaused (report_of id m o p).objects
  report-Caused o running = h
  report-Caused o ending = h
  report-Caused none removed = h
  report-Caused (some s) removed = tell-Caused s s.first_fault
  report-Caused o (told x) = h
  report-Caused o (ended x) = h
  report-Caused o quieting = h
  report-Caused o quiet = h

  announce-Caused :
      (o : Option Session) (p : Phase)
      → lookup id m.objects ≡ o
      → phase_of o ≡ p
      → AllCaused (announce_of id m o p).objects
  announce-Caused o running e q = h
  announce-Caused o ending e q = h
  announce-Caused o removed e q = h
  announce-Caused o (told x) e q =
      change-Caused id (in_phase (ended x)) m o
        (λ s f.
          let now_told : told_of s.phase ≡ x = ap told_of (ap phase_of (sym f) ∙ q) in
          subst (λ t. (t ≡ none) ⊎ (t ≡ s.first_fault)) now_told (subst Caused (e ∙ f) (h id)))
        h
  announce-Caused o (ended x) e q = h
  announce-Caused o quieting e q = h
  announce-Caused o quiet e q = h

  register-Caused :
      (host_id : String) (conn : Conn) → AllCaused (register id host_id conn m).0.objects
  unfolding register
  register-Caused host_id conn =
      if_cases (λ (p : Manager × Result String). AllCaused p.0.objects) m.closing _ _ (λ x. h)
        (λ x. insert-Caused id (new_session host_id conn) m.objects (inl refl) h)

pub Step-Caused : {m m' : Manager} → AllCaused m.objects → Step m m' → AllCaused m'.objects
unfolding enter leave cancel_connect close_gate record_fault change begin_end unlist report announce
Step-Caused h (enters c) = h
Step-Caused h (leaves c) = h
Step-Caused h cancels = h
Step-Caused h opens = h
Step-Caused h closes = h
Step-Caused {m} h (registers id host_id conn e) = register-Caused id m h host_id conn
Step-Caused h (delivers id d) = h
Step-Caused {m} h (faults id e) = fault-Caused id m h e (lookup id m.objects) refl
Step-Caused {m} h (ends id) =
    begin-Caused id m h ending (lookup id m.objects) (phase_of (lookup id m.objects)) refl
Step-Caused {m} h (quiets id) =
    begin-Caused id m h quieting (lookup id m.objects) (phase_of (lookup id m.objects)) refl
Step-Caused {m} h (unlists id) =
    unlist-Caused id m h (lookup id m.objects) (phase_of (lookup id m.objects))
Step-Caused {m} h (reports id) =
    report-Caused id m h (lookup id m.objects) (phase_of (lookup id m.objects))
Step-Caused {m} h (announces id) =
    announce-Caused id m h (lookup id m.objects) (phase_of (lookup id m.objects)) refl refl
Step-Caused h shuts = h
