-- ===== src/Agent/Eino.antt =====
-- internal/agent/eino_runner.go: the attempts of a run, over the events that the Eino agent yields.
use node_shell.Base.{Bool, Option, none, some, List, [], ◌∷◌, ◌++◌, Error, if◌then◌else◌}
use node_shell.Agent.Message.{ChatMessage}
use node_shell.Agent.Conversations.{Config, Event}

-- What `runEino` ends with: the messages that the agent produced, an error or none, and the events that
-- its handlers gave to `emitIfCurrent` on the way.
pub record Reply : Type 0 where
  pub produced : List ChatMessage
  pub failure : Option Error
  pub shown : List Event

-- What the iterator of the Eino runner yields: an error, an event without a message, or what
-- `consumeMessageOutput` makes of one with a message. `E` has the errors of the run.
pub data EinoEvent {ℓ} (E : Type ℓ) : Type ℓ where
  failed : E → EinoEvent E
  quiet : EinoEvent E
  output : Option ChatMessage → Option E → EinoEvent E

-- One attempt: an error before the runner starts, or the runner's events; and what is shown.
pub record Attempt {ℓ} (E : Type ℓ) : Type ℓ where
  pub refused : Option E
  pub events : List (EinoEvent E)
  pub shown : List Event

-- `reasoningRejected` and `mapRunError`, for the configuration and the limit of iterations.
pub record Failures {ℓ} (E : Type ℓ) : Type ℓ where
  pub rejected : E → Bool
  pub mapped : Config → E → Error

abbrev pub without_reasoning : Config → Config
without_reasoning cfg = record cfg { thinking_strength = "auto" }

module _ {ℓ} {E : Type ℓ} where
  abbrev pub with_message :
      Option ChatMessage → List ChatMessage × Option E → List ChatMessage × Option E
  with_message none (produced, e) = (produced, e)
  with_message (some m) (produced, e) = (m ∷ produced, e)

  -- The loop over the events.
  unfoldable pub collect : List (EinoEvent E) → List ChatMessage × Option E
  collect [] = ([], none)
  collect (failed e ∷ events) = ([], some e)
  collect (quiet ∷ events) = collect events
  collect (output m none ∷ events) = with_message m (collect events)
  collect (output m (some e) ∷ events) = with_message m ([], some e)

  abbrev pub attempt_from : Option E → List (EinoEvent E) → List ChatMessage × Option E
  attempt_from none events = collect events
  attempt_from (some e) events = ([], some e)

  -- `runEinoAttempt`.
  unfoldable pub attempted : Attempt E → List ChatMessage × Option E
  unfolding collect
  attempted a = attempt_from a.refused a.events

  abbrev pub mapped_failure : Failures E → Config → Option E → Option Error
  mapped_failure failures cfg none = none
  mapped_failure failures cfg (some e) = some (failures.mapped cfg e)

  abbrev pub second_reply : Failures E → Config → List Event → List ChatMessage × Option E → Reply
  second_reply failures cfg shown (produced, e) = record {
    produced = produced;
    failure = mapped_failure failures (without_reasoning cfg) e;
    shown = shown;
  }

  abbrev pub first_reply :
      Failures E → Config → List Event → Reply → List ChatMessage × Option E → Reply
  first_reply failures cfg shown retry (produced, none) = record {
    produced = produced;
    failure = none;
    shown = shown;
  }
  first_reply failures cfg shown retry ([], some e) =
      if failures.rejected e
      then retry
      else record { produced = []; failure = some (failures.mapped cfg e); shown = shown }
  first_reply failures cfg shown retry (m ∷ ms, some e) = record {
    produced = m ∷ ms;
    failure = some (failures.mapped cfg e);
    shown = shown;
  }

  -- `runEino`: an attempt that produced nothing, and was refused for the reasoning parameter, is made
  -- again without it.
  unfoldable pub run_eino : Failures E → Config → Attempt E → Attempt E → Reply
  unfolding attempted
  run_eino failures cfg first second =
      first_reply failures cfg first.shown
        (second_reply failures cfg (first.shown ++ second.shown) (attempted second))
        (attempted first)
