-- ===== src/Agent/Runs/Alone.antt =====
-- The invariant of the runs, under any order of the sections.
use node_shell.Base.{ap, lookup, arith}
use node_shell.Agent.History.{reconcile}
use node_shell.Agent.Conversations.{
  new_service, reconciled, Service, cancel_of, abort, write_messages, append_produced,
  reconcile_run, send_checked, close_done,
}
use node_shell.Agent.Runs.{
  Step, Reach, Inv, is_live, accepts, aborts, clears, disposes, disposes_all, compacts, appends,
  reconciles, checks, sends, releases, finishes, closes, here, next,
}
use node_shell.Agent.Runs.Tame.{
  Tame-Inv, Tame-trans, cancel_run-Tame, dispose-Tame, dispose_all-Tame, check_current-Tame,
  send-Tame, close_read-Tame, read_done-Tame, release-Tame, set_phase-Tame, write_compacted-Tame,
  write_messages-Tame,
}
use node_shell.Agent.Runs.Started.{accept-Inv, clear-Inv}

Step-Inv : {s t : Service} → Step s t → Inv s → Inv t
unfolding abort append_produced reconcile_run send_checked close_done
Step-Inv {s} (accepts session prompt) h = accept-Inv session prompt s h
Step-Inv {s} (aborts session) h =
    Tame-Inv (cancel_run-Tame (cancel_of (lookup session s.convs) s) s) h
Step-Inv {s} (clears session) h = clear-Inv session s h
Step-Inv {s} (disposes session) h = Tame-Inv (dispose-Tame session s) h
Step-Inv {s} disposes_all h = Tame-Inv (dispose_all-Tame s) h
Step-Inv {s} (compacts r msgs l e) h = Tame-Inv (write_compacted-Tame r msgs s) h
Step-Inv {s} (appends r produced l e) h = Tame-Inv (write_messages-Tame _ _ s) h
Step-Inv {s} (reconciles r l e) h =
    let p = (s.runs r).conversation in
    let msgs = reconcile (s.heap p).messages in
    Tame-Inv
      (Tame-trans (write_messages-Tame p msgs s)
        (set_phase-Tame r reconciled (write_messages p msgs s) (λ v. ap is_live e)))
      h
Step-Inv {s} (checks r event l e) h = Tame-Inv (check_current-Tame r event s) h
Step-Inv {s} (sends r l e) h = Tame-Inv (send-Tame r (s.checked r) s) h
Step-Inv {s} (releases r l e) h = Tame-Inv (release-Tame r s h l e) h
Step-Inv {s} (finishes r l e) h = Tame-Inv (read_done-Tame r s) h
Step-Inv {s} (closes r l e) h = Tame-Inv (close_read-Tame r (s.to_close r) s) h

-- Whatever the order of the sections, from a service that meets the invariant on: no conversation is
-- driven by two runs, no conversation belongs to two sessions, and the conversation that a live run
-- drives is marked as running for as long as its session has it.
pub Reach-alone : {s t : Service} → Reach s t → Inv s → Inv t
Reach-alone here h = h
Reach-alone (next r st) h = Step-Inv st (Reach-alone r h)

pub new_service-Inv : Inv new_service
unfolding new_service lookup
new_service-Inv = record {
  allocated = λ x p e. cc;
  owned = λ x y p e f. cc;
  known = λ r l. absurd (omega (arith, l));
  own_session = λ r x l e. cc;
  marked = λ r x l v e. cc;
  alone = λ q r l k u v c. absurd (omega (arith, l));
}
