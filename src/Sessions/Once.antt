-- ===== src/Sessions/Once.antt =====
-- The end of a session, once, under any order of the sections.
use mathlib.Core.Path.{subst}
use mathlib.Core.List.{append-nil}
use node_shell.Base.{
  ◌≡◌, refl, sym, ap, ◌∙◌, String, Bool, true, false, ◌&&◌, Option, none, some, [], ◌++◌, Dict,
  lookup, insert, Result, contains, Error, ◌==◌, arith, eq_iff, eq_refl, if◌then◌else◌, if_cases,
  lookup-insert, Bool-cases, inl, inr,
}
use node_shell.Sessions.State.{
  Conn, Session, Phase, running, ending, removed, told, ended, quieting, quiet, Event, data_event,
  closed_event, error_event, Manager, emit,
}
use node_shell.Sessions.Ends.{in_phase, phase_of, report_of, tell, announce_of}
use node_shell.Sessions.Connect.{register, new_session}
use node_shell.Sessions.World.{
  Told, delivering, told_errors, is_ended, is_listed, about, closing_of, error_of, has_closed,
  errors_of,
}
use node_shell.Sessions.Trace.{has_closed-append, silent_after-append, errors_of-append}
use node_shell.Sessions.Told.{same-Told, moved-Told}

-- An event of another session, whose phase may change.
other-Told :
    (id j : String) (s' : Session) (v : Event) (m : Manager)
    → (id == j) ≡ false
    → (about j v ≡ false) × (closing_of j v ≡ false) × (error_of j v ≡ [])
    → Told m j
    → Told (emit v (record m { objects = insert id s' m.objects })) j
other-Told id j s' v m d (a, c, e) h =
    let at : lookup j (insert id s' m.objects) ≡ lookup j m.objects =
      lookup-insert id j s' m.objects ∙ rw d refl in
    record {
      silent = silent_after-append j m.events v h.silent (ground arith);
      closed =
          has_closed-append j m.events v ∙ ground (arith, ap is_ended (ap phase_of at), h.closed);
      errors =
          errors_of-append j m.events v
          ∙ (ap (λ es. errors_of j m.events ++ es) e
              ∙ (append-nil (errors_of j m.events)
                  ∙ (h.errors ∙ ap told_errors (ap phase_of (sym at)))));
      listed = h.listed ∙ ap is_listed (ap phase_of (sym at));
    }

-- An event of a session that moves on, and that was not told to be closed.
own-Told :
    (id : String) (s s' : Session) (v : Event) (m : Manager)
    → lookup id m.objects ≡ some s
    → is_ended s.phase ≡ false
    → closing_of id v ≡ is_ended s'.phase
    → told_errors s'.phase ≡ told_errors s.phase ++ error_of id v
    → is_listed s'.phase ≡ is_listed s.phase
    → Told m id
    → Told (emit v (record m { objects = insert id s' m.objects })) id
own-Told id s s' v m e ie c te il h =
    let at : lookup id (insert id s' m.objects) ≡ some s' =
      lookup-insert id id s' m.objects ∙ rw (eq_refl id) refl in
    let was : has_closed id m.events ≡ false = h.closed ∙ (ap is_ended (ap phase_of e) ∙ ie) in
    record {
      silent = silent_after-append id m.events v h.silent (ground arith);
      closed = has_closed-append id m.events v ∙ ground (arith, ap is_ended (ap phase_of at));
      errors =
          errors_of-append id m.events v
          ∙ (ap (λ es. es ++ error_of id v) (h.errors ∙ ap told_errors (ap phase_of e))
              ∙ (sym te ∙ ap told_errors (ap phase_of (sym at))));
      listed =
          h.listed
          ∙ (ap is_listed (ap phase_of e) ∙ (sym il ∙ ap is_listed (ap phase_of (sym at))));
    }

emitted-Told :
    (id j : String) (s s' : Session) (v : Event) (m : Manager)
    → lookup id m.objects ≡ some s
    → is_ended s.phase ≡ false
    → ((id == j) ≡ false → (about j v ≡ false) × (closing_of j v ≡ false) × (error_of j v ≡ []))
    → closing_of id v ≡ is_ended s'.phase
    → told_errors s'.phase ≡ told_errors s.phase ++ error_of id v
    → is_listed s'.phase ≡ is_listed s.phase
    → Told m j
    → Told (emit v (record m { objects = insert id s' m.objects })) j
emitted-Told id j s s' v m e ie f c te il h = elim (Bool-cases (id == j)) [
  | inl same ↦
      let at : id ≡ j = ground (arith, eq_iff id j) in
      subst (λ k. Told (emit v (record m { objects = insert id s' m.objects })) k) at
        (own-Told id s s' v m e ie c te il (subst (Told m) (sym at) h))
  | inr other ↦ other-Told id j s' v m other (f other) h
]

pub report-Told :
    (id j : String) (p : Phase) (m : Manager) (s : Session)
    → lookup id m.objects ≡ some s
    → s.phase ≡ p
    → Told m j
    → Told (report_of id m (some s) p) j
report-Told id j running m s e p h = h
report-Told id j ending m s e p h = h
report-Told id j removed m s e p h = told_fault s.first_fault
  where
    told_fault :
        (o : Option Error)
        → Told (tell id o (record m { objects = insert id (in_phase (told o) s) m.objects })) j
    told_fault none =
        moved-Told id j s (in_phase (told none) s) m _ e refl refl refl (sym (ap told_errors p))
          (sym (ap is_ended p)) (sym (ap is_listed p)) h
    told_fault (some x) =
        emitted-Told id j s (in_phase (told (some x)) s) (error_event id x) m e (ap is_ended p)
          (λ d. ground arith) refl (ground (arith, ap told_errors p, eq_refl id))
          (sym (ap is_listed p)) h
report-Told id j (told x) m s e p h = h
report-Told id j (ended x) m s e p h = h
report-Told id j quieting m s e p h = h
report-Told id j quiet m s e p h = h

pub announce-Told :
    (id j : String) (p : Phase) (m : Manager) (s : Session)
    → lookup id m.objects ≡ some s
    → s.phase ≡ p
    → Told m j
    → Told (announce_of id m (some s) p) j
announce-Told id j running m s e p h = h
announce-Told id j ending m s e p h = h
announce-Told id j removed m s e p h = h
announce-Told id j (told x) m s e p h =
    emitted-Told id j s (in_phase (ended x) s) (closed_event id) m e (ap is_ended p)
      (λ d. ground arith) (eq_refl id)
      (same_errors x
        ∙ (sym (append-nil (told_errors (told x))) ∙ ap (λ k. told_errors k ++ []) (sym p)))
      (sym (ap is_listed p)) h
  where
    same_errors : (o : Option Error) → told_errors (ended o) ≡ told_errors (told o)
    same_errors none = refl
    same_errors (some y) = refl
announce-Told id j (ended x) m s e p h = h
announce-Told id j quieting m s e p h = h
announce-Told id j quiet m s e p h = h

fits_new :
    {A : Type 0} (g : Phase → A) (s : Session) (id j : String) (d : Dict Session)
    → lookup id d ≡ none
    → g s.phase ≡ g quiet
    → g (phase_of (lookup j (insert id s d))) ≡ g (phase_of (lookup j d))
fits_new g s id j d e p =
    ap (λ x. g (phase_of x)) (lookup-insert id j s d)
    ∙ new_at (id == j) (lookup j d) (λ b. ground (arith, eq_iff id j))
  where
    new_at :
        (b : Bool) (o : Option Session)
        → (b ≡ true → o ≡ none)
        → g (phase_of (if b then some s else o)) ≡ g (phase_of o)
    new_at true o h = p ∙ ap (λ x. g (phase_of x)) (sym (h refl))
    new_at false o h = refl

pub register-Told :
    (id host_id : String) (conn : Conn) (m : Manager) (j : String)
    → lookup id m.objects ≡ none
    → Told m j
    → Told (register id host_id conn m).0 j
unfolding register contains
register-Told id host_id conn m j e h =
    if_cases (λ (p : Manager × Result String). Told p.0 j) m.closing _ _
      (λ c. same-Told m _ j refl refl refl h)
      (λ c. record {
        silent = h.silent;
        closed =
            h.closed ∙ sym (fits_new is_ended (new_session host_id conn) id j m.objects e refl);
        errors =
            h.errors ∙ sym (fits_new told_errors (new_session host_id conn) id j m.objects e refl);
        listed =
            ground (
              arith,
              h.listed,
              lookup-insert id j (new_session host_id conn) m.objects,
              eq_iff id j,
            );
      })

delivering-unended : (p : Phase) → delivering p ≡ true → is_ended p ≡ false
delivering-unended running e = refl
delivering-unended ending e = refl
delivering-unended removed e = refl
delivering-unended (told x) e = refl
delivering-unended (ended x) e = absurd (ground arith)
delivering-unended quieting e = refl
delivering-unended quiet e = refl

pub delivers-Told :
    (id j : String) (m : Manager)
    → delivering (phase_of (lookup id m.objects)) ≡ true
    → Told m j
    → Told (emit (data_event id) m) j
delivers-Told id j m d h =
    let open_yet = delivering-unended (phase_of (lookup id m.objects)) d in
    let not_yet : (has_closed j m.events && (id == j)) ≡ false = elim (Bool-cases (id == j)) [
      | inl same ↦
          let at : id ≡ j = ground (arith, eq_iff id j) in
          ground (arith, h.closed, ap (λ k. is_ended (phase_of (lookup k m.objects))) at)
      | inr other ↦ ground arith
    ] in
    record {
      silent = silent_after-append j m.events (data_event id) h.silent not_yet;
      closed = has_closed-append j m.events (data_event id) ∙ ground (arith, h.closed);
      errors =
          errors_of-append j m.events (data_event id)
          ∙ (append-nil (errors_of j m.events) ∙ h.errors);
      listed = h.listed;
    }
