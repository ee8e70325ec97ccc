-- ===== src/Agent/Runs.antt =====
-- The runs of the conversations under concurrency: any order of their locked sections.
use node_shell.Base.{
  ℕ, suc, ◌<◌, ◌≡◌, ◌≢◌, refl, sym, ap, ◌∙◌, String, Bool, true, false, not, ◌&&◌, Option, none,
  some, List, [], ◌∷◌, Dict, lookup, insert, delete, lookup-insert, lookup-delete, eqb, Error,
  arith, eq_iff, if_cases, inl, inr, Bool-cases,
}
use node_shell.Agent.Message.{ChatMessage}
use node_shell.Agent.History.{reconcile}
use node_shell.Agent.Conversations.{
  new_service, Phase, driving, reconciled, released, over, Run, Event, Service, put,
  empty_conversation, open_from, started, start, accept, cancel_run, cancel_of, abort, clear_found,
  clear, dispose, cancel_all, dispose_all, is_current, write_messages, write_compacted,
  append_produced, set_phase, reconcile_run, check_current, send_checked, release, read_done,
  close_done,
}
pub mod Tame
pub mod Started
pub mod Alone

-- A section of a caller or of a run's goroutine.
pub data Step (s : Service) : Service → Type 0 where
  accepts : (session prompt : String) → Step s (accept session prompt s).0
  aborts : (session : String) → Step s (abort session s)
  clears : (session : String) → Step s (clear session s)
  disposes : (session : String) → Step s (dispose session s)
  disposes_all : Step s (dispose_all s)
  compacts :
      (r : ℕ) (msgs : List ChatMessage)
      → r < s.next_run
      → (s.runs r).phase ≡ driving
      → Step s (write_compacted r msgs s)
  appends :
      (r : ℕ) (produced : List ChatMessage)
      → r < s.next_run
      → (s.runs r).phase ≡ driving
      → Step s (append_produced r produced s)
  reconciles : (r : ℕ) → r < s.next_run → (s.runs r).phase ≡ driving → Step s (reconcile_run r s)
  checks :
      (r : ℕ) (event : Event)
      → r < s.next_run
      → (s.runs r).phase ≢ over
      → Step s (check_current r event s)
  sends : (r : ℕ) → r < s.next_run → (s.runs r).phase ≢ over → Step s (send_checked r s)
  releases : (r : ℕ) → r < s.next_run → (s.runs r).phase ≡ reconciled → Step s (release r s)
  finishes : (r : ℕ) → r < s.next_run → (s.runs r).phase ≡ released → Step s (read_done r s)
  closes : (r : ℕ) → r < s.next_run → (s.runs r).phase ≡ over → Step s (close_done r s)

pub data Reach (s : Service) : Service → Type 0 where
  here : Reach s s
  next : {t t' : Service} → Reach s t → Step t t' → Reach s t'

-- A run that still owns its conversation.
abbrev pub is_live : Phase → Bool
is_live driving = true
is_live reconciled = true
is_live released = false
is_live over = false

-- Conversations belong to one session, runs to the session of their conversation, and a conversation
-- that a live run drives is marked so and has no other.
pub record Inv (s : Service) : Type 0 where
  pub allocated : (x : String) (p : ℕ) → lookup x s.convs ≡ some p → p < s.next_conv
  pub owned : (x y : String) (p : ℕ) → lookup x s.convs ≡ some p → lookup y s.convs ≡ some p → x ≡ y
  pub known : (r : ℕ) → r < s.next_run → (s.runs r).conversation < s.next_conv
  pub own_session :
      (r : ℕ) (x : String)
      → r < s.next_run
      → lookup x s.convs ≡ some (s.runs r).conversation
      → (s.runs r).session_id ≡ x
  pub marked :
      (r : ℕ) (x : String)
      → r < s.next_run
      → is_live (s.runs r).phase ≡ true
      → lookup x s.convs ≡ some (s.runs r).conversation
      → (s.heap (s.runs r).conversation).running ≡ true
  pub alone :
      (q r : ℕ)
      → q < s.next_run
      → r < s.next_run
      → is_live (s.runs q).phase ≡ true
      → is_live (s.runs r).phase ≡ true
      → (s.runs q).conversation ≡ (s.runs r).conversation
      → q ≡ r
