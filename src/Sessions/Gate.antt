-- ===== src/Sessions/Gate.antt =====
-- The manager behind `DisposeAll`, under any order of the sections.
use node_shell.Base.{
  ◌≡◌, refl, String, true, Option, List, [], ◌∷◌, lookup, Result, contains, remove_first, Error,
  arith, if_cases,
}
use node_shell.Sessions.State.{Conn, Session, Phase, ending, quieting, Manager}
use node_shell.Sessions.Ends.{
  record_fault, change, change_found, faulted, begin_end, begin_of, unlist, unlist_of, report,
  report_of, announce, announce_of,
}
use node_shell.Sessions.Connect.{enter, leave, register}
use node_shell.Sessions.Calls.{cancel_connect, close_gate}
use node_shell.Sessions.World.{
  Step, Reach, here, next, enters, leaves, cancels, opens, closes, registers, delivers, faults,
  ends, quiets, unlists, reports, announces, shuts,
}

-- The gate is closed, and the map holds no session that it did not hold.
pub record Gated (m m' : Manager) : Type 0 where
  pub shut_too : m'.closing ≡ true
  pub fewer : (id : String) → contains id m'.sessions ≡ true → contains id m.sessions ≡ true

contains-removed :
    (k j : String) (xs : List String) → contains j (remove_first k xs) ≡ true → contains j xs ≡ true
unfolding contains remove_first
contains-removed k j [] h = h
contains-removed k j (x ∷ xs) h = ground (arith, contains-removed k j xs)

Gated-trans : (m m' m'' : Manager) → Gated m m' → Gated m' m'' → Gated m m''
Gated-trans m m' m'' h k = record {
  shut_too = k.shut_too;
  fewer = λ id e. h.fewer id (k.fewer id e);
}

begin-Gated :
    (id : String) (q : Phase) (m : Manager) (o : Option Session) (p : Phase)
    → m.closing ≡ true
    → Gated m (begin_of id q m o p)
begin-Gated id q m o p c = record { shut_too = ground arith; fewer = λ j e. ground arith }

unlist-Gated :
    (id : String) (m : Manager) (o : Option Session) (p : Phase)
    → m.closing ≡ true
    → Gated m (unlist_of id m o p)
unlist-Gated id m o p c = record {
  shut_too = ground arith;
  fewer = λ j e. ground (arith, contains-removed id j m.sessions);
}

report-Gated :
    (id : String) (m : Manager) (o : Option Session) (p : Phase)
    → m.closing ≡ true
    → Gated m (report_of id m o p)
report-Gated id m o p c = record { shut_too = ground arith; fewer = λ j e. ground arith }

announce-Gated :
    (id : String) (m : Manager) (o : Option Session) (p : Phase)
    → m.closing ≡ true
    → Gated m (announce_of id m o p)
announce-Gated id m o p c = record { shut_too = ground arith; fewer = λ j e. ground arith }

fault-Gated :
    (id : String) (x : Error) (m : Manager) (o : Option Session)
    → m.closing ≡ true
    → Gated m (change_found id (faulted x) m o)
fault-Gated id x m o c = record { shut_too = ground arith; fewer = λ j e. ground arith }

register-Gated :
    (id host_id : String) (conn : Conn) (m : Manager)
    → m.closing ≡ true
    → Gated m (register id host_id conn m).0
unfolding register
register-Gated id host_id conn m c =
    if_cases (λ (p : Manager × Result String). Gated m p.0) m.closing _ _
      (λ x. record { shut_too = c; fewer = λ j e. e }) (λ x. absurd (ground arith))

Step-Gated : {m m' : Manager} → m.closing ≡ true → Step m m' → Gated m m'
unfolding enter leave cancel_connect close_gate record_fault change begin_end unlist report announce
Step-Gated {m} c (enters x) = record { shut_too = c; fewer = λ j e. e }
Step-Gated {m} c (leaves x) = record { shut_too = c; fewer = λ j e. e }
Step-Gated {m} c cancels = record { shut_too = c; fewer = λ j e. e }
Step-Gated {m} c opens = record { shut_too = c; fewer = λ j e. e }
Step-Gated {m} c closes = record { shut_too = c; fewer = λ j e. e }
Step-Gated {m} c (registers j host_id conn l) = register-Gated j host_id conn m c
Step-Gated {m} c (delivers j d) = record { shut_too = c; fewer = λ j e. e }
Step-Gated {m} c (faults j x) = fault-Gated j x m (lookup j m.objects) c
Step-Gated {m} c (ends j) = begin-Gated j ending m (lookup j m.objects) _ c
Step-Gated {m} c (quiets j) = begin-Gated j quieting m (lookup j m.objects) _ c
Step-Gated {m} c (unlists j) = unlist-Gated j m (lookup j m.objects) _ c
Step-Gated {m} c (reports j) = report-Gated j m (lookup j m.objects) _ c
Step-Gated {m} c (announces j) = announce-Gated j m (lookup j m.objects) _ c
Step-Gated {m} c shuts = record { shut_too = refl; fewer = λ j e. e }

-- Behind the gate that DisposeAll closes, no session is ever registered any more, whatever connects are
-- still under way, and the gate stays closed.
pub Reach-Gated : {m m' : Manager} → m.closing ≡ true → Reach m m' → Gated m m'
Reach-Gated c here = record { shut_too = c; fewer = λ j e. e }
Reach-Gated {m} c (next {n} p s) =
    let h = Reach-Gated c p in Gated-trans m n _ h (Step-Gated h.shut_too s)
