-- ===== src/Agent/RunTests.antt =====
-- The theorems about runs at a service with one session.
use node_shell.Base.{◌≡◌, ◌<◌, refl, false, true, some, [], ◌∷◌, lookup, insert, arith}
use node_shell.Agent.Message.{assistant, message}
use node_shell.Agent.Conversations.{
  Service, new_service, accept, clear, is_current, release, reconcile_run, finish, read_done,
  close_done, joined, send_checked, check_current, delta,
}
use node_shell.Agent.Runs.{accepts, clears, Reach, here, next, Inv}
use node_shell.Agent.Runs.Alone.{Reach-alone, new_service-Inv}
use node_shell.Agent.Isolation.{Untouched, work, producing, work-Untouched}

abbrev asked : Service
asked = (accept "s1" "hello" new_service).0

abbrev cleared : Service
cleared = clear "s1" asked

run_cleared : Reach new_service cleared
run_cleared = next (next here (accepts "s1" "hello")) (clears "s1")

Reach-alone_example : Inv cleared
Reach-alone_example = Reach-alone run_cleared new_service-Inv

first_run : 0 < cleared.next_run
unfolding clear accept new_service lookup insert
first_run = omega arith

first_run_stale : is_current 0 cleared ≡ false
unfolding clear accept new_service lookup insert is_current
first_run_stale = refl

work-Untouched_example :
    Untouched 0 cleared (work (producing (message assistant "hi" ∷ [])) 0 cleared)
work-Untouched_example =
    work-Untouched 0 cleared (Reach-alone run_cleared new_service-Inv) first_run first_run_stale
      (producing (message assistant "hi" ∷ []))

second_prompt_rejected :
    (accept "s1" "again" asked).1
    ≡ some (record { code = "UNKNOWN"; message = "Agent is still working on the previous message" })
unfolding accept new_service lookup insert
second_prompt_rejected = refl

-- A prompt that is taken between the release of a run and its deferred function.
abbrev again : Service
again = (accept "s1" "again" (release 0 (reconcile_run 0 asked))).0

abbrev both_over : Service
both_over = finish 1 (release 1 (reconcile_run 1 (finish 0 again)))

-- The deferred function of the first run closes the channel of the second, which closes it again.
closed_twice : (joined 0 (finish 0 again) ≡ true) × (both_over.panicked ≡ true)
unfolding release reconcile_run accept new_service lookup insert is_current finish read_done
    close_done joined
closed_twice = (refl, refl)

-- An event that has passed its check is emitted behind a clear.
abbrev sent_late : Service
sent_late = send_checked 0 (clear "s1" (check_current 0 (delta "hi") asked))

late_event : (is_current 0 sent_late ≡ false) × (sent_late.events ≡ delta "hi" ∷ [])
unfolding send_checked check_current is_current clear accept new_service lookup insert
late_event = (refl, refl)
