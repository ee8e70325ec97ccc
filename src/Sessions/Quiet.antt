-- ===== src/Sessions/Quiet.antt =====
-- What `end` and `DisposeAll` leave.
use mathlib.Core.List.{append_assoc}
use node_shell.Base.{
  ◌-◌, ◌≡◌, refl, ap, ◌∙◌, String, true, false, Option, none, some, List, [], ◌∷◌, ◌++◌, Dict,
  lookup, insert, Error, arith, contains, remove_first, distinct, ◌==◌, eq_iff, eq_refl,
  lookup-insert,
}
use node_shell.Sessions.State.{
  Session, Phase, running, ending, removed, told, quieting, quiet, Event, closed_event, error_event,
  Manager,
}
use node_shell.Sessions.Ends.{
  begin_end, begin_of, phase_of, begun, in_phase, unlist, unlist_of, unlisted, dispose_quiet,
  change_found, report, report_of, announce, announce_of, tell, finish, end_session, record_fault,
  change, faulted, first_of,
}
use node_shell.Sessions.Calls.{cancel_connect, close_gate, dispose_each, dispose_all}

-- Every session of the map is running.
abbrev pub AllRunning : List String → Dict Session → Type 0
AllRunning ids objects =
    (id : String) → contains id ids ≡ true → phase_of (lookup id objects) ≡ running

-- The sections of an end, where they have their turn.
abbrev begun_manager : String → Phase → Session → Manager → Manager
begun_manager id q s m = record m {
  objects = insert id (begun q s) m.objects;
  open_conns = m.open_conns - 1;
}

begin_end-runs :
    (id : String) (q : Phase) (s : Session) (m : Manager)
    → lookup id m.objects ≡ some s
    → s.phase ≡ running
    → begin_end id q m ≡ begun_manager id q s m
unfolding begin_end
begin_end-runs id q s m e p =
    ap (λ o. begin_of id q m o (phase_of o)) e ∙ ap (begin_of id q m (some s)) p

unlist-runs :
    (id : String) (s : Session) (m : Manager) (q : Phase)
    → lookup id m.objects ≡ some s
    → s.phase ≡ q
    → unlist id m ≡ unlist_of id m (some s) q
unfolding unlist
unlist-runs id s m q e p =
    ap (λ o. unlist_of id m o (phase_of o)) e ∙ ap (unlist_of id m (some s)) p

found_insert : (id : String) (s : Session) (d : Dict Session) → lookup id (insert id s d) ≡ some s
found_insert id s d = lookup-insert id id s d ∙ rw (eq_refl id) refl

dispose_quiet-runs :
    (id : String) (s : Session) (m : Manager)
    → lookup id m.objects ≡ some s
    → s.phase ≡ running
    → dispose_quiet id m
      ≡ unlisted id quiet (begun_manager id quieting s m) (some (begun quieting s))
unfolding dispose_quiet
dispose_quiet-runs id s m e p =
    ap (unlist id) (begin_end-runs id quieting s m e p)
    ∙ unlist-runs id (begun quieting s) (begun_manager id quieting s m) quieting
        (found_insert id (begun quieting s) m.objects) refl

-- Another session is as it was.
quiet-others :
    (id j : String) (s : Session) (m : Manager)
    → (id == j) ≡ false
    → lookup j (unlisted id quiet (begun_manager id quieting s m) (some (begun quieting s))).objects
      ≡ lookup j m.objects
quiet-others id j s m d = ground (
  arith,
  lookup-insert id j (in_phase quiet (begun quieting s)) (insert id (begun quieting s) m.objects),
  lookup-insert id j (begun quieting s) m.objects,
)

phase_some :
    (o : Option Session) → phase_of o ≡ running → (s : Session) × (o ≡ some s) × (s.phase ≡ running)
phase_some none p = absurd (ground arith)
phase_some (some s) p = (s, refl, p)

dispose_each-quiet :
    (ids : List String) (m : Manager)
    → m.sessions ≡ ids
    → distinct ids ≡ true
    → AllRunning ids m.objects
    → ((dispose_each ids m).sessions ≡ [])
      × ((dispose_each ids m).events ≡ m.events)
      × ((dispose_each ids m).closing ≡ m.closing)
unfolding dispose_each distinct contains remove_first
dispose_each-quiet [] m e d a = (e, refl, refl)
dispose_each-quiet (id ∷ ids) m e d a =
    let (s, l, p) = phase_some (lookup id m.objects) (a id (ground (arith, eq_refl id))) in
    let m' = unlisted id quiet (begun_manager id quieting s m) (some (begun quieting s)) in
    let eq : dispose_quiet id m ≡ m' = dispose_quiet-runs id s m l p in
    let rest =
      dispose_each-quiet ids m' (ap (remove_first id) e ∙ ground (arith, eq_refl id)) (ground arith)
        (λ j c.
          ap phase_of (quiet-others id j s m (ground (arith, eq_iff id j))) ∙ a j (ground arith)) in
    (
      ap (λ n. (dispose_each ids n).sessions) eq ∙ rest.0,
      ap (λ n. (dispose_each ids n).events) eq ∙ rest.1,
      ap (λ n. (dispose_each ids n).closing) eq ∙ rest.2,
    )

-- Where every session of the map is running, DisposeAll leaves none, emits nothing, and closes the gate.
pub dispose_all-quiet :
    (m : Manager)
    → distinct m.sessions ≡ true
    → AllRunning m.sessions m.objects
    → ((dispose_all m).sessions ≡ [])
      × ((dispose_all m).events ≡ m.events)
      × ((dispose_all m).closing ≡ true)
unfolding dispose_all close_gate cancel_connect
dispose_all-quiet m d a = dispose_each-quiet m.sessions (close_gate (cancel_connect m)) refl d a

report-runs :
    (id : String) (s : Session) (m : Manager)
    → lookup id m.objects ≡ some s
    → s.phase ≡ removed
    → report id m ≡ report_of id m (some s) removed
unfolding report
report-runs id s m e p = ap (λ o. report_of id m o (phase_of o)) e ∙ ap (report_of id m (some s)) p

announce-runs :
    (id : String) (s : Session) (m : Manager) (f : Option Error)
    → lookup id m.objects ≡ some s
    → s.phase ≡ told f
    → announce id m ≡ announce_of id m (some s) (told f)
unfolding announce
announce-runs id s m f e p =
    ap (λ o. announce_of id m o (phase_of o)) e ∙ ap (announce_of id m (some s)) p

-- What the end of a session tells.
abbrev pub end_events : String → Option Error → List Event
end_events id none = closed_event id ∷ []
end_events id (some e) = error_event id e ∷ closed_event id ∷ []

told_manager :
    (id : String) (s : Session) (o : Option Error) (m : Manager)
    → lookup id (tell id o (record m { objects = insert id s m.objects })).objects ≡ some s
told_manager id s none m = found_insert id s m.objects
told_manager id s (some e) m = found_insert id s m.objects

finish-told :
    (id : String) (s : Session) (o : Option Error) (m : Manager)
    → (announce_of id
        (tell id o (record m { objects = insert id (in_phase (told o) s) m.objects }))
        (some (in_phase (told o) s))
        (told o)).events
      ≡ m.events ++ end_events id o
finish-told id s none m = refl
finish-told id s (some e) m = append_assoc m.events (error_event id e ∷ []) (closed_event id ∷ [])

finish-sessions :
    (id : String) (s : Session) (o : Option Error) (m : Manager)
    → (announce_of id
        (tell id o (record m { objects = insert id (in_phase (told o) s) m.objects }))
        (some (in_phase (told o) s))
        (told o)).sessions
      ≡ m.sessions
finish-sessions id s none m = refl
finish-sessions id s (some e) m = refl

finish-runs :
    (id : String) (s : Session) (m : Manager)
    → lookup id m.objects ≡ some s
    → s.phase ≡ running
    → ((finish id m).events ≡ m.events ++ end_events id s.first_fault)
      × ((finish id m).sessions ≡ remove_first id m.sessions)
unfolding finish
finish-runs id s m e p =
    let s2 = begun ending s in
    let m2 = begun_manager id ending s m in
    let s3 = in_phase removed s2 in
    let m3 = unlisted id removed m2 (some s2) in
    let s4 = in_phase (told s.first_fault) s3 in
    let m4 = tell id s.first_fault (record m3 { objects = insert id s4 m3.objects }) in
    let eq : announce id (report id (unlist id (begin_end id ending m)))
        ≡ announce_of id m4 (some s4) (told s.first_fault) =
      ap (λ n. announce id (report id (unlist id n))) (begin_end-runs id ending s m e p)
      ∙ (ap (λ n. announce id (report id n))
            (unlist-runs id s2 m2 ending (found_insert id s2 m.objects) refl)
          ∙ (ap (announce id) (report-runs id s3 m3 (found_insert id s3 m2.objects) refl)
              ∙ announce-runs id s4 m4 s.first_fault (told_manager id s4 s.first_fault m3) refl)) in
    (
      ap (λ n. n.events) eq ∙ finish-told id s3 s.first_fault m3,
      ap (λ n. n.sessions) eq ∙ finish-sessions id s3 s.first_fault m3,
    )

abbrev pub fault_of : Option Error → Option Error → Option Error
fault_of none first = first
fault_of (some e) first = first_of e first

-- The end of a running session takes it off the map and emits one closing event, behind one error event
-- if there was a fault: the first that was recorded, or else the one that the end came with.
pub end_session-tells :
    (id : String) (e : Option Error) (s : Session) (m : Manager)
    → lookup id m.objects ≡ some s
    → s.phase ≡ running
    → ((end_session id e m).events ≡ m.events ++ end_events id (fault_of e s.first_fault))
      × ((end_session id e m).sessions ≡ remove_first id m.sessions)
unfolding end_session record_fault change
end_session-tells id none s m l p = finish-runs id s m l p
end_session-tells id (some e) s m l p =
    let m' = record m { objects = insert id (faulted e s) m.objects } in
    let eq : change_found id (faulted e) m (lookup id m.objects) ≡ m' =
      ap (change_found id (faulted e) m) l in
    let run = finish-runs id (faulted e s) m' (found_insert id (faulted e s) m.objects) p in
    (ap (λ n. (finish id n).events) eq ∙ run.0, ap (λ n. (finish id n).sessions) eq ∙ run.1)
