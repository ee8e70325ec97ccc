-- ===== src/Agent/Conversations.antt =====
-- internal/agent/agent.go: the conversations of the sessions and their runs. A conversation is a shared
-- object: `convs` holds its address, and a run holds the address of the one that it was started for.
use Prim.Native.String.{◌++◌ as ◌+++◌, len}
use node_shell.Base.{
  ℕ, suc, String, Bool, true, false, not, ◌&&◌, ◌||◌, Option, none, some, List, [], ◌∷◌, ◌++◌, ℤ,
  Dict, lookup, insert, delete, ltb, eqb, ◌==◌, if◌then◌else◌, Error,
}
use node_shell.Apperror.{session_not_found, unknown}
use node_shell.Std.Strings.{trim_space}
use node_shell.Agent.Message.{ChatMessage, user, message}
use node_shell.Agent.History.{trim_history, append_all, reconcile}
use node_shell.Agent.Budget.{context_limit, estimate_context_tokens}

pub record Config : Type 0 where
  pub base_url : String
  pub model : String
  pub api_key : String
  pub context_window : ℤ
  pub thinking_strength : String
  pub context_compression : String

-- `cancel` is the run whose context the stored function ends; `done` a channel, by the run that it was
-- made for.
pub record Conversation : Type 0 where
  pub messages : List ChatMessage
  pub running : Bool
  pub cancel : Option ℕ
  pub done : Option ℕ

-- Where a run stands: it drives the prompt, it has reconciled the transcript, it has released the
-- conversation, or its goroutine is over.
pub data Phase : Type 0 where
  driving reconciled released over : Phase

pub record Run : Type 0 where
  pub session_id : String
  pub conversation : ℕ
  pub cancelled : Bool
  pub phase : Phase

pub data Event : Type 0 where
  delta tool_finished error : String → Event
  done_event : String → Bool → Event

-- Beside what a service keeps: for each run, the event that has passed the check of `emitIfCurrent` and
-- is not emitted yet, and the channel that its deferred function has read and not closed yet; the
-- channels that are closed; and whether one was closed twice, which panics.
pub record Service : Type 0 where
  pub convs : Dict ℕ
  pub heap : ℕ → Conversation
  pub next_conv : ℕ
  pub runs : ℕ → Run
  pub next_run : ℕ
  pub closed : Bool
  pub events : List Event
  pub checked : ℕ → Option Event
  pub to_close : ℕ → Option ℕ
  pub closed_channels : ℕ → Bool
  pub panicked : Bool

-- An assignment through an address.
abbrev pub put {ℓ} : {A : Type ℓ} → ℕ → A → (ℕ → A) → ℕ → A
put k value f j = if eqb k j then value else f j

abbrev pub empty_conversation : Conversation
empty_conversation = record { messages = []; running = false; cancel = none; done = none }

-- `New`, of what a service keeps.
unfoldable pub new_service : Service
new_service = record {
  convs = [];
  heap = λ p. empty_conversation;
  next_conv = 0;
  runs = λ r. record { session_id = ""; conversation = 0; cancelled = false; phase = over };
  next_run = 0;
  closed = false;
  events = [];
  checked = λ r. none;
  to_close = λ r. none;
  closed_channels = λ r. false;
  panicked = false;
}

abbrev pub max_prompt_bytes : ℕ
max_prompt_bytes = 32768

abbrev host_of : String → String
host_of host = if host == "" then "the connected host" else host

unfoldable pub system_prompt : String → String
unfolding trim_space
system_prompt title =
    "You are the assistant built into NodeShell, an SSH client.\nYou are working on the remote host \""
    +++ (host_of (trim_space title)
        +++ ("\" through an SSH session the user already opened.\nUse the tools to inspect or change that remote host. You cannot see the user's local machine, and every path you pass to a tool is a remote path.\n"
            +++ ("Prefer read-only commands first, and state what a command will change before running anything destructive.\nCommands run non-interactively: they cannot prompt, page or wait for input.\n"
                +++ "Keep answers short and concrete, and reply in the language the user writes in.")))

abbrev agent_error : String → Error
agent_error text = record { code = unknown; message = text }

-- The tests of `Prompt` in front of the lock, on the trimmed text.
unfoldable pub preflight : String → String → String → Config → Option Error
unfolding trim_space context_limit estimate_context_tokens system_prompt
preflight session title prompt cfg =
    if session == ""
    then some (record { code = session_not_found; message = "Session not found" })
    else if prompt == ""
    then some (agent_error "Prompt is empty")
    else if ltb max_prompt_bytes (len prompt)
    then some (agent_error "Prompt is too long")
    else if trim_space cfg.api_key == ""
        || trim_space cfg.model == ""
        || trim_space cfg.base_url == ""
    then some (agent_error "Agent is not configured")
    else if ltb 0 (context_limit cfg.context_window)
        && ltb (context_limit cfg.context_window)
            (estimate_context_tokens (system_prompt title) (message user prompt ∷ []))
    then some (agent_error "Prompt does not fit the context window")
    else none

-- A session without a conversation gets an empty one.
abbrev pub open_from : String → Option ℕ → Service → ℕ × Service
open_from session (some p) s = (p, s)
open_from session none s = (
  s.next_conv,
  record s {
    convs = insert session s.next_conv s.convs;
    heap = put s.next_conv empty_conversation s.heap;
    next_conv = suc s.next_conv;
  },
)

-- The run of a prompt is set up, and its goroutine started.
abbrev pub started : String → String → ℕ → Service → Service
started session prompt p s = record s {
  heap =
      put p
        (record {
          messages = trim_history ((s.heap p).messages ++ message user prompt ∷ []);
          running = true;
          cancel = some s.next_run;
          done = some s.next_run;
        })
        s.heap;
  runs =
      put s.next_run
        (record { session_id = session; conversation = p; cancelled = false; phase = driving })
        s.runs;
  next_run = suc s.next_run;
}

abbrev pub start : String → String → ℕ × Service → Service × Option Error
start session prompt (p, s) =
    if (s.heap p).running
    then (s, some (agent_error "Agent is still working on the previous message"))
    else (started session prompt p s, none)

-- The locked section of `Prompt`.
unfoldable pub accept : String → String → Service → Service × Option Error
unfolding lookup insert trim_history
accept session prompt s =
    if s.closed
    then (s, some (agent_error "Agent is shutting down"))
    else start session prompt (open_from session (lookup session s.convs) s)

abbrev pub after_preflight : Option Error → String → String → Service → Service × Option Error
after_preflight (some e) session prompt s = (s, some e)
after_preflight none session prompt s = accept session prompt s

unfoldable pub prompt : String → String → String → Config → Service → Service × Option Error
unfolding trim_space preflight accept
prompt session title text cfg s =
    after_preflight (preflight session title (trim_space text) cfg) session (trim_space text) s

-- A cancel function ends the context of its run.
abbrev pub cancel_run : Option ℕ → Service → Service
cancel_run none s = s
cancel_run (some r) s = record s { runs = put r (record (s.runs r) { cancelled = true }) s.runs }

abbrev pub cancel_of : Option ℕ → Service → Option ℕ
cancel_of none s = none
cancel_of (some p) s = (s.heap p).cancel

unfoldable pub abort : String → Service → Service
unfolding lookup
abort session s = cancel_run (cancel_of (lookup session s.convs) s) s

abbrev pub clear_found : String → Option ℕ → Service → Service
clear_found session none s = s
clear_found session (some p) s = cancel_run (s.heap p).cancel (record s {
  convs = insert session s.next_conv s.convs;
  heap = put s.next_conv empty_conversation s.heap;
  next_conv = suc s.next_conv;
})

unfoldable pub clear : String → Service → Service
unfolding lookup insert
clear session s = clear_found session (lookup session s.convs) s

-- `Dispose` and `DisposeAll`, up to the waits for the runs.
unfoldable pub dispose : String → Service → Service
unfolding lookup delete
dispose session s =
    cancel_run (cancel_of (lookup session s.convs) s) (record s { convs = delete session s.convs })

unfoldable pub cancel_all : Dict ℕ → Service → Service
cancel_all [] s = s
cancel_all ((session, p) ∷ convs) s = cancel_all convs (cancel_run (s.heap p).cancel s)

unfoldable pub dispose_all : Service → Service
unfolding cancel_all
dispose_all s = cancel_all s.convs (record s { closed = true; convs = [] })

-- Whether the wait of `joinRun` for a conversation is over.
unfoldable pub joined : ℕ → Service → Bool
joined p s = elim (s.heap p).done [ none ↦ true | some k ↦ s.closed_channels k ]

-- Whether the session's conversation is the run's.
abbrev pub same : ℕ → Option ℕ → Bool
same p none = false
same p (some q) = eqb q p

unfoldable pub is_current : ℕ → Service → Bool
unfolding lookup
is_current r s = same (s.runs r).conversation (lookup (s.runs r).session_id s.convs)

abbrev pub write_messages : ℕ → List ChatMessage → Service → Service
write_messages p msgs s = record s { heap = put p (record (s.heap p) { messages = msgs }) s.heap }

-- The locked section of `prepareContext`, with the compacted transcript.
unfoldable pub write_compacted : ℕ → List ChatMessage → Service → Service
unfolding is_current
write_compacted r [] s = s
write_compacted r (m ∷ ms) s =
    if is_current r s then write_messages (s.runs r).conversation (m ∷ ms) s else s

unfoldable pub append_produced : ℕ → List ChatMessage → Service → Service
unfolding append_all
append_produced r produced s =
    write_messages (s.runs r).conversation
      (append_all (s.heap (s.runs r).conversation).messages produced) s

abbrev pub set_phase : ℕ → Phase → Service → Service
set_phase r phase s = record s { runs = put r (record (s.runs r) { phase = phase }) s.runs }

unfoldable pub reconcile_run : ℕ → Service → Service
unfolding reconcile
reconcile_run r s =
    set_phase r reconciled (
      write_messages (s.runs r).conversation (reconcile (s.heap (s.runs r).conversation).messages)
        s)

-- The locked section of `emitIfCurrent`.
unfoldable pub check_current : ℕ → Event → Service → Service
unfolding is_current
check_current r event s = record s {
  checked = put r (if not s.closed && is_current r s then some event else none) s.checked;
}

abbrev pub send : ℕ → Option Event → Service → Service
send r none s = s
send r (some event) s = record s { events = s.events ++ event ∷ []; checked = put r none s.checked }

-- The emission behind the section, without the lock.
unfoldable pub send_checked : ℕ → Service → Service
send_checked r s = send r (s.checked r) s

unfoldable pub emit_if_current : ℕ → Event → Service → Service
unfolding check_current send_checked
emit_if_current r event s = send_checked r (check_current r event s)

-- The last locked section of `run`.
unfoldable pub release : ℕ → Service → Service
unfolding is_current
release r s = set_phase r released (
    if is_current r s
    then record s {
      heap =
          put (s.runs r).conversation
            (record (s.heap (s.runs r).conversation) { running = false; cancel = none }) s.heap;
    }
    else s)

-- The locked section of the deferred function of `run`, and the cancel in front of it: it reads the
-- channel that the conversation has now.
unfoldable pub read_done : ℕ → Service → Service
read_done r s = record s {
  runs = put r (record (s.runs r) { cancelled = true; phase = over }) s.runs;
  to_close = put r (s.heap (s.runs r).conversation).done s.to_close;
}

abbrev pub close_channel : ℕ → Service → Service
close_channel k s =
    if s.closed_channels k
    then record s { panicked = true }
    else record s { closed_channels = put k true s.closed_channels }

abbrev pub close_read : ℕ → Option ℕ → Service → Service
close_read r none s = s
close_read r (some k) s = close_channel k (record s { to_close = put r none s.to_close })

-- The close behind it, without the lock.
unfoldable pub close_done : ℕ → Service → Service
close_done r s = close_read r (s.to_close r) s

-- The deferred function of `run`.
unfoldable pub finish : ℕ → Service → Service
unfolding read_done close_done
finish r s = close_done r (read_done r s)
