-- ===== src/Agent/Runs/Tame.antt =====
-- The invariant of the runs, under the sections that add no conversation and no run.
use node_shell.Base.{
  ℕ, ◌<◌, ◌≡◌, refl, sym, ap, ◌∙◌, String, true, Option, none, some, List, [], ◌∷◌, Dict, lookup,
  delete, lookup-delete, eqb, arith, if_cases, inl, inr, Bool-cases,
}
use node_shell.Agent.Message.{ChatMessage}
use node_shell.Agent.Conversations.{
  Phase, reconciled, released, Event, Service, cancel_run, cancel_of, dispose, cancel_all,
  dispose_all, is_current, write_messages, write_compacted, set_phase, check_current, send,
  read_done, close_read, release,
}
use node_shell.Agent.Emission.{close_cases}
use node_shell.Agent.Runs.{Inv, is_live}

-- A change that adds no conversation and no run, and takes no mark from a conversation in use.
pub record Tame (s t : Service) : Type 0 where
  pub convs_of : (x : String) (p : ℕ) → lookup x t.convs ≡ some p → lookup x s.convs ≡ some p
  pub conv_count : t.next_conv ≡ s.next_conv
  pub run_count : t.next_run ≡ s.next_run
  pub conversation_of : (r : ℕ) → (t.runs r).conversation ≡ (s.runs r).conversation
  pub session_of : (r : ℕ) → (t.runs r).session_id ≡ (s.runs r).session_id
  pub live_of : (r : ℕ) → is_live (t.runs r).phase ≡ true → is_live (s.runs r).phase ≡ true
  pub running_of :
      (r : ℕ)
      → r < s.next_run
      → is_live (t.runs r).phase ≡ true
      → (s.heap (s.runs r).conversation).running ≡ true
      → (t.heap (s.runs r).conversation).running ≡ true

pub Tame-Inv : {s t : Service} → Tame s t → Inv s → Inv t
Tame-Inv {s} {t} c h = record {
  allocated = λ x p e. omega (arith, c.conv_count, h.allocated x p (c.convs_of x p e));
  owned = λ x y p e f. h.owned x y p (c.convs_of x p e) (c.convs_of y p f);
  known = λ r l.
      let q = c.conversation_of r in
      let k = h.known r (omega (arith, l, c.run_count)) in omega (arith, q, k, c.conv_count);
  own_session = λ r x l e.
      c.session_of r
      ∙ h.own_session r x (omega (arith, l, c.run_count))
          (c.convs_of x (t.runs r).conversation e ∙ ap some (c.conversation_of r));
  marked = λ r x l v e.
      let l' : r < s.next_run = omega (arith, l, c.run_count) in
      let m =
        h.marked r x l' (c.live_of r v)
          (c.convs_of x (t.runs r).conversation e ∙ ap some (c.conversation_of r)) in
      ap (λ p. (t.heap p).running) (c.conversation_of r) ∙ c.running_of r l' v m;
  alone = λ q r l k u v e.
      h.alone q r (omega (arith, l, c.run_count)) (omega (arith, k, c.run_count)) (c.live_of q u)
        (c.live_of r v) (sym (c.conversation_of q) ∙ e ∙ c.conversation_of r);
}

pub Tame-refl : (s : Service) → Tame s s
Tame-refl s = record {
  convs_of = λ x p e. e;
  conv_count = refl;
  run_count = refl;
  conversation_of = λ r. refl;
  session_of = λ r. refl;
  live_of = λ r v. v;
  running_of = λ r l v m. m;
}

pub cancel_run-Tame : (o : Option ℕ) (s : Service) → Tame s (cancel_run o s)
cancel_run-Tame none s = Tame-refl s
cancel_run-Tame (some k) s = record {
  convs_of = λ x p e. e;
  conv_count = refl;
  run_count = refl;
  conversation_of = λ r. ground arith;
  session_of = λ r. ground arith;
  live_of = λ r v. ground arith;
  running_of = λ r l v m. m;
}

pub Tame-trans : {s t u : Service} → Tame s t → Tame t u → Tame s u
Tame-trans {s} {t} {u} a b = record {
  convs_of = λ x p e. a.convs_of x p (b.convs_of x p e);
  conv_count = b.conv_count ∙ a.conv_count;
  run_count = b.run_count ∙ a.run_count;
  conversation_of = λ r. b.conversation_of r ∙ a.conversation_of r;
  session_of = λ r. b.session_of r ∙ a.session_of r;
  live_of = λ r v. a.live_of r (b.live_of r v);
  running_of = λ r l v m.
      let e = a.conversation_of r in
      let n = a.running_of r l (b.live_of r v) m in
      ap (λ p. (u.heap p).running) (sym e)
      ∙ b.running_of r (omega (arith, l, a.run_count)) v (ap (λ p. (t.heap p).running) e ∙ n);
}

pub dispose-Tame : (session : String) (s : Service) → Tame s (dispose session s)
unfolding dispose
dispose-Tame session s =
    Tame-trans
      (record {
        convs_of = λ x p e. ground (arith, lookup-delete session x s.convs);
        conv_count = refl;
        run_count = refl;
        conversation_of = λ r. refl;
        session_of = λ r. refl;
        live_of = λ r v. v;
        running_of = λ r l v m. m;
      })
      (cancel_run-Tame (cancel_of (lookup session s.convs) s)
        (record s { convs = delete session s.convs }))

pub cancel_all-Tame : (convs : Dict ℕ) (s : Service) → Tame s (cancel_all convs s)
unfolding cancel_all
cancel_all-Tame [] s = Tame-refl s
cancel_all-Tame ((session, p) ∷ convs) s =
    Tame-trans (cancel_run-Tame (s.heap p).cancel s)
      (cancel_all-Tame convs (cancel_run (s.heap p).cancel s))

pub dispose_all-Tame : (s : Service) → Tame s (dispose_all s)
unfolding dispose_all lookup
dispose_all-Tame s =
    Tame-trans
      (record {
        convs_of = λ x p e. cc;
        conv_count = refl;
        run_count = refl;
        conversation_of = λ r. refl;
        session_of = λ r. refl;
        live_of = λ r v. v;
        running_of = λ r l v m. m;
      })
      (cancel_all-Tame s.convs (record s { closed = true; convs = [] }))

pub write_messages-Tame :
    (p : ℕ) (msgs : List ChatMessage) (s : Service) → Tame s (write_messages p msgs s)
write_messages-Tame p msgs s = record {
  convs_of = λ x q e. e;
  conv_count = refl;
  run_count = refl;
  conversation_of = λ r. refl;
  session_of = λ r. refl;
  live_of = λ r v. v;
  running_of = λ r l v m. ground arith;
}

pub write_compacted-Tame :
    (r : ℕ) (msgs : List ChatMessage) (s : Service) → Tame s (write_compacted r msgs s)
unfolding write_compacted
write_compacted-Tame r [] s = Tame-refl s
write_compacted-Tame r (m ∷ ms) s =
    if_cases (Tame s) (is_current r s) _ _
      (λ x. write_messages-Tame (s.runs r).conversation (m ∷ ms) s) (λ x. Tame-refl s)

-- A later phase, which is live only where the former is.
pub set_phase-Tame :
    (r : ℕ) (phase : Phase) (s : Service)
    → (is_live phase ≡ true → is_live (s.runs r).phase ≡ true)
    → Tame s (set_phase r phase s)
set_phase-Tame r phase s later = record {
  convs_of = λ x q e. e;
  conv_count = refl;
  run_count = refl;
  conversation_of = λ q. ground arith;
  session_of = λ q. ground arith;
  live_of = λ q v. elim (Bool-cases (eqb r q)) [
    | inl x ↦
        (let e : r ≡ q = ground arith in
          ap (λ j. is_live (s.runs j).phase) (sym e) ∙ later (rw x at v))
    | inr x ↦ rw x at v
  ];
  running_of = λ q l v m. m;
}

-- A change of nothing but the events, the checks and the channels.
pub same-Tame :
    (s t : Service)
    → t.convs ≡ s.convs
    → t.heap ≡ s.heap
    → t.runs ≡ s.runs
    → (t.next_conv ≡ s.next_conv) × (t.next_run ≡ s.next_run)
    → Tame s t
same-Tame s t c h u (n, k) = record {
  convs_of = λ x p e. ap (lookup x) (sym c) ∙ e;
  conv_count = n;
  run_count = k;
  conversation_of = λ r. ap (λ f. (f r).conversation) u;
  session_of = λ r. ap (λ f. (f r).session_id) u;
  live_of = λ r v. ap (λ f. is_live (f r).phase) (sym u) ∙ v;
  running_of = λ r l v m. ap (λ f. (f (s.runs r).conversation).running) h ∙ m;
}

pub check_current-Tame : (r : ℕ) (event : Event) (s : Service) → Tame s (check_current r event s)
unfolding check_current
check_current-Tame r event s = same-Tame s _ refl refl refl (refl, refl)

pub send-Tame : (r : ℕ) (o : Option Event) (s : Service) → Tame s (send r o s)
send-Tame r none s = Tame-refl s
send-Tame r (some event) s = same-Tame s _ refl refl refl (refl, refl)

pub read_done-Tame : (r : ℕ) (s : Service) → Tame s (read_done r s)
unfolding read_done
read_done-Tame r s = record {
  convs_of = λ x q e. e;
  conv_count = refl;
  run_count = refl;
  conversation_of = λ q. ground arith;
  session_of = λ q. ground arith;
  live_of = λ q v. ground arith;
  running_of = λ q l v m. m;
}

pub close_read-Tame : (r : ℕ) (o : Option ℕ) (s : Service) → Tame s (close_read r o s)
close_read-Tame r o s =
    close_cases (Tame s) r o s (Tame-refl s) (λ k. same-Tame s _ refl refl refl (refl, refl))
      (λ k. same-Tame s _ refl refl refl (refl, refl))

pub release-Tame :
    (r : ℕ) (s : Service)
    → Inv s
    → r < s.next_run
    → (s.runs r).phase ≡ reconciled
    → Tame s (release r s)
unfolding release
release-Tame r s h l e =
    if_cases (λ (t : Service). Tame s (set_phase r released t)) (is_current r s) _ _
      (λ x. record {
        convs_of = λ y p e. e;
        conv_count = refl;
        run_count = refl;
        conversation_of = λ q. ground arith;
        session_of = λ q. ground arith;
        live_of = λ q v. ground arith;
        running_of = λ q k v m.
            elim (Bool-cases (eqb (s.runs r).conversation (s.runs q).conversation)) [
              | inl y ↦
                  let live_q : is_live (s.runs q).phase ≡ true = ground arith in
                  let live_r : is_live (s.runs r).phase ≡ true = ap is_live e in
                  let z : r ≡ q = h.alone r q l k live_r live_q (ground arith) in
                  absurd (ground arith)
              | inr y ↦ rw y m
            ];
      })
      (λ x. set_phase-Tame r released s (λ v. cc))
