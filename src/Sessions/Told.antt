-- ===== src/Sessions/Told.antt =====
-- What is told of a session, by the sections that change its phase.

use node_shell.Base.{
  ◌≡◌, refl, sym, ap, ◌∙◌, String, Bool, true, false, Option, none, some, List, [], Dict, lookup,
  insert, contains, distinct, Error, ◌==◌, arith, eq_iff, if◌then◌else◌, lookup-insert,
  contains-remove_first,
}
use node_shell.Sessions.State.{
  Session, Phase, running, ending, removed, told, ended, quieting, quiet, Manager,
}
use node_shell.Sessions.Ends.{
  faulted, change_found, begin_of, begun, in_phase, phase_of, unlist_of, unlisted,
}
use node_shell.Sessions.World.{
  Told, told_errors, is_ended, is_listed, has_closed, silent_after, errors_of,
}

-- The manager that differs in nothing that the trace of a session speaks of.
pub same-Told :
    (m m' : Manager) (j : String)
    → (m'.events ≡ m.events)
    → (phase_of (lookup j m'.objects) ≡ phase_of (lookup j m.objects))
    → (contains j m'.sessions ≡ contains j m.sessions)
    → Told m j
    → Told m' j
same-Told m m' j e p c h = record {
  silent = ap (silent_after j) e ∙ h.silent;
  closed = ap (has_closed j) e ∙ (h.closed ∙ sym (ap is_ended p));
  errors = ap (errors_of j) e ∙ (h.errors ∙ sym (ap told_errors p));
  listed = c ∙ (h.listed ∙ sym (ap is_listed p));
}

-- What a test says of the phase of any session, when one of them has another phase.
module _ {A : Type 0} (g : Phase → A) (s s' : Session) where
  fits_at :
      (b : Bool) (o : Option Session)
      → (b ≡ true → o ≡ some s)
      → g s'.phase ≡ g s.phase
      → g (phase_of (if b then some s' else o)) ≡ g (phase_of o)
  fits_at true o h p = p ∙ ap (λ x. g (phase_of x)) (sym (h refl))
  fits_at false o h p = refl

  fits :
      (id j : String) (d : Dict Session)
      → lookup id d ≡ some s
      → g s'.phase ≡ g s.phase
      → g (phase_of (lookup j (insert id s' d))) ≡ g (phase_of (lookup j d))
  fits id j d e p =
      ap (λ x. g (phase_of x)) (lookup-insert id j s' d)
      ∙ fits_at (id == j) (lookup j d) (λ b. ground (arith, eq_iff id j)) p

-- A phase that is listed as the one before it, and where nothing more is told.
pub moved-Told :
    (id j : String) (s s' : Session) (m m' : Manager)
    → lookup id m.objects ≡ some s
    → m'.objects ≡ insert id s' m.objects
    → m'.events ≡ m.events
    → m'.sessions ≡ m.sessions
    → told_errors s'.phase ≡ told_errors s.phase
    → is_ended s'.phase ≡ is_ended s.phase
    → is_listed s'.phase ≡ is_listed s.phase
    → Told m j
    → Told m' j
moved-Told id j s s' m m' e o v c te ie il h =
    let at : (A : Type 0) (g : Phase → A)
        → g s'.phase ≡ g s.phase
        → g (phase_of (lookup j m'.objects)) ≡ g (phase_of (lookup j m.objects)) =
      λ A g p. ap (λ d. g (phase_of (lookup j d))) o ∙ fits g s s' id j m.objects e p in
    record {
      silent = ap (silent_after j) v ∙ h.silent;
      closed = ap (has_closed j) v ∙ (h.closed ∙ sym (at Bool is_ended ie));
      errors = ap (errors_of j) v ∙ (h.errors ∙ sym (at (List Error) told_errors te));
      listed = ap (contains j) c ∙ (h.listed ∙ sym (at Bool is_listed il));
    }

pub fault-Told :
    (id j : String) (e : Error) (m : Manager) (o : Option Session)
    → lookup id m.objects ≡ o
    → Told m j
    → Told (change_found id (faulted e) m o) j
fault-Told id j e m none p h = h
fault-Told id j e m (some s) p h =
    moved-Told id j s (faulted e s) m _ p refl refl refl refl refl refl h

pub begin-Told :
    (id j : String) (q p : Phase) (m : Manager) (s : Session)
    → lookup id m.objects ≡ some s
    → s.phase ≡ p
    → (told_errors q ≡ []) × (is_ended q ≡ false) × (is_listed q ≡ true)
    → Told m j
    → Told (begin_of id q m (some s) p) j
begin-Told id j q running m s e p (te, ie, il) h =
    moved-Told id j s (begun q s) m _ e refl refl refl (te ∙ sym (ap told_errors p))
      (ie ∙ sym (ap is_ended p)) (il ∙ sym (ap is_listed p)) h
begin-Told id j q ending m s e p t h = h
begin-Told id j q removed m s e p t h = h
begin-Told id j q (told x) m s e p t h = h
begin-Told id j q (ended x) m s e p t h = h
begin-Told id j q quieting m s e p t h = h
begin-Told id j q quiet m s e p t h = h

-- A session that is taken off the map.
pub unlisted-Told :
    (id j : String) (q : Phase) (m : Manager) (s : Session)
    → lookup id m.objects ≡ some s
    → distinct m.sessions ≡ true
    → told_errors q ≡ told_errors s.phase
    → is_ended q ≡ is_ended s.phase
    → is_listed q ≡ false
    → Told m j
    → Told (unlisted id q m (some s)) j
unlisted-Told id j q m s e d te ie il h = record {
  silent = h.silent;
  closed = h.closed ∙ sym (fits is_ended s (in_phase q s) id j m.objects e ie);
  errors = h.errors ∙ sym (fits told_errors s (in_phase q s) id j m.objects e te);
  listed =
      contains-remove_first id j m.sessions d
      ∙ ground (arith, lookup-insert id j (in_phase q s) m.objects, eq_iff id j);
}

pub unlist-Told :
    (id j : String) (p : Phase) (m : Manager) (s : Session)
    → lookup id m.objects ≡ some s
    → s.phase ≡ p
    → distinct m.sessions ≡ true
    → Told m j
    → Told (unlist_of id m (some s) p) j
unlist-Told id j running m s e p d h = h
unlist-Told id j ending m s e p d h =
    unlisted-Told id j removed m s e d (sym (ap told_errors p)) (sym (ap is_ended p)) refl h
unlist-Told id j removed m s e p d h = h
unlist-Told id j (told x) m s e p d h = h
unlist-Told id j (ended x) m s e p d h = h
unlist-Told id j quieting m s e p d h =
    unlisted-Told id j quiet m s e d (sym (ap told_errors p)) (sym (ap is_ended p)) refl h
unlist-Told id j quiet m s e p d h = h
