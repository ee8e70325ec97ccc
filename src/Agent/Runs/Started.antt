-- ===== src/Agent/Runs/Started.antt =====
-- The invariant of the runs, under the sections that start a run or a conversation.
use node_shell.Base.{
  ℕ, suc, ◌<◌, ◌≡◌, ◌≢◌, refl, sym, ap, ◌∙◌, String, true, false, Option, none, some, lookup,
  insert, lookup-insert, eqb, Error, arith, eq_iff, if_cases, inl, inr, Bool-cases,
}
use node_shell.Agent.Conversations.{
  driving, Run, Service, put, empty_conversation, open_from, started, start, accept, clear_found,
  clear,
}
use node_shell.Agent.Runs.{Inv, is_live}
use node_shell.Agent.Runs.Tame.{Tame-Inv, cancel_run-Tame}

abbrev pub opened : String → Service → Service
opened session s = record s {
  convs = insert session s.next_conv s.convs;
  heap = put s.next_conv empty_conversation s.heap;
  next_conv = suc s.next_conv;
}

pub opened-Inv : (session : String) (s : Service) → Inv s → Inv (opened session s)
opened-Inv session s h = record {
  allocated = λ x p e. ground (arith, lookup-insert session x s.next_conv s.convs, h.allocated x p);
  owned = λ x y p e f. ground (
    arith,
    lookup-insert session x s.next_conv s.convs,
    lookup-insert session y s.next_conv s.convs,
    h.allocated x p,
    h.allocated y p,
    h.owned x y p,
    eq_iff session x,
    eq_iff session y,
  );
  known = λ r l. omega (arith, h.known r l);
  own_session = λ r x l e.
      ground (arith, lookup-insert session x s.next_conv s.convs, h.known r l, h.own_session r x l);
  marked = λ r x l v e.
      ground (arith, lookup-insert session x s.next_conv s.convs, h.known r l, h.marked r x l v);
  alone = h.alone;
}

abbrev pub run_of : String → ℕ → Run
run_of session p = record {
  session_id = session;
  conversation = p;
  cancelled = false;
  phase = driving;
}

module _ (session prompt : String) (p : ℕ) (s : Service) (h : Inv s)
    (e : lookup session s.convs ≡ some p) (idle : (s.heap p).running ≡ false) where
  idle_conversation :
      (q : ℕ) → q < s.next_run → is_live (s.runs q).phase ≡ true → (s.runs q).conversation ≢ p
  idle_conversation q l v c =
      let m = h.marked q session l v (e ∙ ap some (sym c)) in
      let m' : (s.heap p).running ≡ true = ap (λ a. (s.heap a).running) (sym c) ∙ m in cc

  started-Inv : Inv (started session prompt p s)
  started-Inv = record {
    allocated = h.allocated;
    owned = h.owned;
    known = λ r l. elim (Bool-cases (eqb s.next_run r)) [
      | inl x ↦ rw x (h.allocated session p e)
      | inr x ↦ rw x (h.known r (ground arith))
    ];
    own_session = λ r x l f. elim (Bool-cases (eqb s.next_run r)) [
      | inl y ↦ rw y (h.owned session x p e (rw y at f))
      | inr y ↦ rw y (h.own_session r x (ground arith) (rw y at f))
    ];
    marked = λ r x l v f. elim (Bool-cases (eqb s.next_run r)) [
      | inl y ↦ rw y (ground arith)
      | inr y ↦ (let m = h.marked r x (ground arith) (rw y at v) (rw y at f) in rw y (ground arith))
    ];
    alone = λ q r l k u v c. elim (Bool-cases (eqb s.next_run q)) [
      | inl x ↦ elim (Bool-cases (eqb s.next_run r)) [
        | inl y ↦ ground arith
        | inr y ↦ absurd (idle_conversation r (ground arith) (rw y at v) (sym (rw (x, y) at c)))
      ]
      | inr x ↦ elim (Bool-cases (eqb s.next_run r)) [
        | inl y ↦ absurd (idle_conversation q (ground arith) (rw x at u) (rw (x, y) at c))
        | inr y ↦ h.alone q r (ground arith) (ground arith) (rw x at u) (rw y at v) (rw (x, y) at c)
      ]
    ];
  }

pub accept-Inv : (session prompt : String) (s : Service) → Inv s → Inv (accept session prompt s).0
unfolding accept
accept-Inv session prompt s h =
    if_cases (λ (r : Service × Option Error). Inv r.0) s.closed _ _ (λ x. h)
      (λ x. by (lookup session s.convs) refl)
  where
    begin :
        (p : ℕ) (t : Service)
        → Inv t
        → lookup session t.convs ≡ some p
        → Inv (start session prompt (p, t)).0
    begin p t k e =
        if_cases (λ (r : Service × Option Error). Inv r.0) (t.heap p).running _ _ (λ y. k)
          (λ y. started-Inv session prompt p t k e y)

    by :
        (o : Option ℕ)
        → lookup session s.convs ≡ o
        → Inv (start session prompt (open_from session o s)).0
    by (some p) e = begin p s h e
    by none e =
        begin s.next_conv (opened session s) (opened-Inv session s h) (
          ground (arith, lookup-insert session session s.next_conv s.convs, eq_iff session session))

pub clear-Inv : (session : String) (s : Service) → Inv s → Inv (clear session s)
unfolding clear
clear-Inv session s h = by (lookup session s.convs)
  where
    by : (o : Option ℕ) → Inv (clear_found session o s)
    by none = h
    by (some p) =
        Tame-Inv (cancel_run-Tame (s.heap p).cancel (opened session s)) (opened-Inv session s h)
