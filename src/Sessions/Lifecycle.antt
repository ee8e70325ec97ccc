-- ===== src/Sessions/Lifecycle.antt =====
-- The manager among its goroutines: every state that they reach.
use node_shell.Base.{
  ◌≡◌, refl, ap, ◌∙◌, String, true, false, Option, none, some, [], lookup, insert, Result, contains,
  distinct, distinct-remove_first, Error, arith, if_cases,
}
use node_shell.Sessions.State.{
  Conn, Session, Phase, running, ending, removed, told, ended, quieting, quiet, Manager,
  new_manager,
}
use node_shell.Sessions.Ends.{
  record_fault, change, change_found, faulted, in_phase, begin_end, begin_of, phase_of, unlist,
  unlist_of, report, report_of, tell, announce, announce_of,
}
use node_shell.Sessions.Connect.{enter, leave, register}
use node_shell.Sessions.Calls.{cancel_connect, close_gate}
use node_shell.Sessions.World.{
  Step, Reach, here, next, Told, told_errors, is_ended, is_listed, has_closed, silent_after,
  errors_of, enters, leaves, cancels, opens, closes, registers, delivers, faults, ends, quiets,
  unlists, reports, announces, shuts,
}
use node_shell.Sessions.Told.{same-Told, fault-Told, begin-Told, unlist-Told}
use node_shell.Sessions.Causes.{AllCaused, Step-Caused}
use node_shell.Sessions.Once.{report-Told, announce-Told, register-Told, delivers-Told}

pub record IsTold (m : Manager) : Type 0 where
  pub once : distinct m.sessions ≡ true
  pub all_told : (id : String) → Told m id
  pub causes : AllCaused m.objects

new_manager-IsTold : IsTold new_manager
unfolding new_manager silent_after has_closed errors_of distinct contains lookup
new_manager-IsTold = record {
  once = refl;
  all_told = λ id. record { silent = refl; closed = refl; errors = refl; listed = refl };
  causes = λ id. tt;
}

begin_end-Told :
    (id j : String) (q : Phase) (m : Manager) (o : Option Session)
    → lookup id m.objects ≡ o
    → (told_errors q ≡ []) × (is_ended q ≡ false) × (is_listed q ≡ true)
    → Told m j
    → Told (begin_of id q m o (phase_of o)) j
begin_end-Told id j q m none e t h = h
begin_end-Told id j q m (some s) e t h = begin-Told id j q s.phase m s e refl t h

unlisted_end-Told :
    (id j : String) (m : Manager) (o : Option Session)
    → lookup id m.objects ≡ o
    → distinct m.sessions ≡ true
    → Told m j
    → Told (unlist_of id m o (phase_of o)) j
unlisted_end-Told id j m none e d h = h
unlisted_end-Told id j m (some s) e d h = unlist-Told id j s.phase m s e refl d h

reported_end-Told :
    (id j : String) (m : Manager) (o : Option Session)
    → lookup id m.objects ≡ o
    → Told m j
    → Told (report_of id m o (phase_of o)) j
reported_end-Told id j m none e h = h
reported_end-Told id j m (some s) e h = report-Told id j s.phase m s e refl h

announced_end-Told :
    (id j : String) (m : Manager) (o : Option Session)
    → lookup id m.objects ≡ o
    → Told m j
    → Told (announce_of id m o (phase_of o)) j
announced_end-Told id j m none e h = h
announced_end-Told id j m (some s) e h = announce-Told id j s.phase m s e refl h

Step-Told : {m m' : Manager} → IsTold m → Step m m' → (j : String) → Told m' j
unfolding enter leave cancel_connect close_gate record_fault change begin_end unlist report announce
Step-Told {m} h (enters c) j = same-Told m _ j refl refl refl (h.all_told j)
Step-Told {m} h (leaves c) j = same-Told m _ j refl refl refl (h.all_told j)
Step-Told {m} h cancels j = same-Told m _ j refl refl refl (h.all_told j)
Step-Told {m} h opens j = same-Told m _ j refl refl refl (h.all_told j)
Step-Told {m} h closes j = same-Told m _ j refl refl refl (h.all_told j)
Step-Told {m} h (registers id host_id conn e) j = register-Told id host_id conn m j e (h.all_told j)
Step-Told {m} h (delivers id d) j = delivers-Told id j m d (h.all_told j)
Step-Told {m} h (faults id e) j = fault-Told id j e m (lookup id m.objects) refl (h.all_told j)
Step-Told {m} h (ends id) j =
    begin_end-Told id j ending m (lookup id m.objects) refl (refl, refl, refl) (h.all_told j)
Step-Told {m} h (quiets id) j =
    begin_end-Told id j quieting m (lookup id m.objects) refl (refl, refl, refl) (h.all_told j)
Step-Told {m} h (unlists id) j =
    unlisted_end-Told id j m (lookup id m.objects) refl h.once (h.all_told j)
Step-Told {m} h (reports id) j = reported_end-Told id j m (lookup id m.objects) refl (h.all_told j)
Step-Told {m} h (announces id) j =
    announced_end-Told id j m (lookup id m.objects) refl (h.all_told j)
Step-Told {m} h shuts j = same-Told m _ j refl refl refl (h.all_told j)

change-distinct :
    (id : String) (f : Session → Session) (m : Manager) (o : Option Session)
    → distinct m.sessions ≡ true
    → distinct (change_found id f m o).sessions ≡ true
change-distinct id f m none d = d
change-distinct id f m (some s) d = d

begin-distinct :
    (id : String) (q : Phase) (m : Manager) (o : Option Session) (p : Phase)
    → distinct m.sessions ≡ true
    → distinct (begin_of id q m o p).sessions ≡ true
begin-distinct id q m o running d = change-distinct id _ m o d
begin-distinct id q m o ending d = d
begin-distinct id q m o removed d = d
begin-distinct id q m o (told x) d = d
begin-distinct id q m o (ended x) d = d
begin-distinct id q m o quieting d = d
begin-distinct id q m o quiet d = d

unlist-distinct :
    (id : String) (m : Manager) (o : Option Session) (p : Phase)
    → distinct m.sessions ≡ true
    → distinct (unlist_of id m o p).sessions ≡ true
unlist-distinct id m o running d = d
unlist-distinct id m o ending d = distinct-remove_first id m.sessions d
unlist-distinct id m o removed d = d
unlist-distinct id m o (told x) d = d
unlist-distinct id m o (ended x) d = d
unlist-distinct id m o quieting d = distinct-remove_first id m.sessions d
unlist-distinct id m o quiet d = d

report-distinct :
    (id : String) (m : Manager) (o : Option Session) (p : Phase)
    → distinct m.sessions ≡ true
    → distinct (report_of id m o p).sessions ≡ true
report-distinct id m o running d = d
report-distinct id m o ending d = d
report-distinct id m none removed d = d
report-distinct id m (some s) removed d = told_distinct s.first_fault
  where
    told_distinct :
        (x : Option Error)
        → distinct
            (tell id x (record m {
              objects = insert id (in_phase (told s.first_fault) s) m.objects;
            })).sessions
          ≡ true
    told_distinct none = d
    told_distinct (some x) = d
report-distinct id m o (told x) d = d
report-distinct id m o (ended x) d = d
report-distinct id m o quieting d = d
report-distinct id m o quiet d = d

announce-distinct :
    (id : String) (m : Manager) (o : Option Session) (p : Phase)
    → distinct m.sessions ≡ true
    → distinct (announce_of id m o p).sessions ≡ true
announce-distinct id m o running d = d
announce-distinct id m o ending d = d
announce-distinct id m o removed d = d
announce-distinct id m o (told x) d = change-distinct id _ m o d
announce-distinct id m o (ended x) d = d
announce-distinct id m o quieting d = d
announce-distinct id m o quiet d = d

register-distinct :
    (id host_id : String) (conn : Conn) (m : Manager)
    → distinct m.sessions ≡ true
    → contains id m.sessions ≡ false
    → distinct (register id host_id conn m).0.sessions ≡ true
unfolding register distinct
register-distinct id host_id conn m d c =
    if_cases (λ (p : Manager × Result String). distinct p.0.sessions ≡ true) m.closing _ _ (λ x. d)
      (λ x. ground arith)

Step-distinct : {m m' : Manager} → IsTold m → Step m m' → distinct m'.sessions ≡ true
unfolding enter leave cancel_connect close_gate record_fault change begin_end unlist report announce
Step-distinct h (enters c) = h.once
Step-distinct h (leaves c) = h.once
Step-distinct h cancels = h.once
Step-distinct h opens = h.once
Step-distinct h closes = h.once
Step-distinct {m} h (registers id host_id conn e) =
    let t = h.all_told id in
    register-distinct id host_id conn m h.once (t.listed ∙ ap is_listed (ap phase_of e))
Step-distinct h (delivers id d) = h.once
Step-distinct {m} h (faults id e) = change-distinct id (faulted e) m (lookup id m.objects) h.once
Step-distinct {m} h (ends id) = begin-distinct id ending m _ (phase_of (lookup id m.objects)) h.once
Step-distinct {m} h (quiets id) =
    begin-distinct id quieting m _ (phase_of (lookup id m.objects)) h.once
Step-distinct {m} h (unlists id) = unlist-distinct id m _ (phase_of (lookup id m.objects)) h.once
Step-distinct {m} h (reports id) =
    report-distinct id m (lookup id m.objects) (phase_of (lookup id m.objects)) h.once
Step-distinct {m} h (announces id) =
    announce-distinct id m (lookup id m.objects) (phase_of (lookup id m.objects)) h.once
Step-distinct h shuts = h.once

pub continues-IsTold : {m m' : Manager} → IsTold m → Reach m m' → IsTold m'
continues-IsTold h here = h
continues-IsTold h (next p s) =
    let k = continues-IsTold h p in
    record { once = Step-distinct k s; all_told = Step-Told k s; causes = Step-Caused k.causes s }

-- Whatever the order of the sections: nothing of a session follows the event that it is closed, so that
-- this event comes once, and it has come exactly when the last section of the session's end has run; a
-- session has had no error event before the section of its end that reports, and from then on one, with
-- its first fault, or none, as that section chose; and the map holds, each once, the sessions that are
-- registered and whose end has not taken them off.
pub Reach-IsTold : {m : Manager} → Reach new_manager m → IsTold m
Reach-IsTold p = continues-IsTold new_manager-IsTold p
