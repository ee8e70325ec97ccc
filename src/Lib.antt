-- ===== src/Lib.antt =====
-- Verification of the core of NodeShell, a desktop SSH client. The Go packages under internal/ hold
-- its services; internal/app wires them to the window. A transfer is queued by the file browser and
-- run by the task centre; a tool call of the assistant, or of an external agent through the MCP
-- server, passes the permission service before it runs; the assistant's conversation is compacted
-- before a request that would not fit its model's window.
--
-- The parts, their files, and how they correspond to the code:
--
-- - Base: Boolean tests, lists, maps and results that the parts share. A Go map is an association
--   list (Base/Maps); a pair of a value and an error is a `Result` (Base/Results); Go's signed
--   integers are `ℤ` where the code tests their sign (Base/Int), and native numbers where the code
--   keeps them at 0 or above.
-- - Std: what the code calls of Go's packages `path`, `strings` and `fmt`.
-- - Apperror: internal/apperror/apperror.go, the whitelist of codes and the formatter.
-- - Transfer: internal/sftpservice/transfer_manager.go. State has the records and the enums; Schedule
--   has `scheduleLocked` and `schedule`; Enqueue has `EnqueueUpload` and `EnqueueDownload`; Methods
--   has `Cancel`, `Retry`, `Clear`, `ClearCompleted` and `Dispose`; Running has the progress callback
--   and the end of `runTask`. Reach has the step relation, with one step for each section under the
--   lock, so that any interleaving of goroutines is a sequence of its steps. Emitted events are kept
--   in the state, in order. Goroutines are the entries of `runs`. The loop of `scheduleLocked` runs on
--   the queue's length as fuel: each round takes one id off the queue.
-- - Permission: internal/permission. Policy and Service have permission.go; Channel has channel.go,
--   where an ask and its answer are sections under the lock, and a channel with a buffer of one is an
--   optional decision.
-- - Agent: internal/agent. Message has the types of convert.go; History has the cap and the
--   reconciliation of agent.go; Budget and Compaction have context.go. Accepted says which transcripts
--   a provider takes, by the number of results that follow a turn with calls. Conversations has the
--   store of agent.go: a conversation is a shared object, with an address that a session and a run may
--   both hold, so that a cleared session and a run under way part. Runs has the step relation of its
--   sections: an emission follows its check without the lock, and the deferred function of a run closes
--   the channel that it has read. Answered and Settled have the transcripts in which each call has a result, and Replies
--   what the agent may add to one. Eino has the attempts of eino_runner.go, over the events that the
--   agent of the library Eino yields; Drive has the goroutine of a run, `prepareContext`, `loop` and
--   `run`, where no other section comes between its own; Performs takes it apart into the sections,
--   and Exchange follows it to its end.
-- - Batcher: internal/sessions/batcher.go. Utf8 has the cut points; State the buffer, the queue and the
--   thresholds; Flush the methods. A wait on the condition variable releases the lock, so that a
--   method that has to wait ends with the outcome `waits`, and its rest is a call of its own. The
--   loops run on one more than the pending bytes as fuel, since each round takes at least one.
--   Sections has the step relation.
-- - Stores: AtomicFile has internal/atomicfile/atomicfile.go, with the six attempts of the rename
--   and a removal of the temporary file that may fail;
--   KnownHosts has internal/knownhosts/knownhosts.go, and Hosts internal/hosts/hosts.go. A file is
--   what it reads as: absent, unreadable, corrupt, or a value, and JSON reads back what it wrote.
-- - Mcp: internal/mcpcli. State and Sections have the runtime of runtime.go, one function for each
--   section under its lock; World has the step relation of the goroutines that use it, with what the
--   session manager promises: it issues an id once, and announces only ends of sessions that it
--   issued. Services has the interfaces of the session manager and the SFTP service, as records of
--   functions on a state of theirs, and the methods that end sessions; Connect has `ConnectHost` and
--   the lists; Files has `RunCommand`, `sftpOp` and the five file tools, where a call that is cut off
--   runs before or behind the end of its client. Arguments and Call have tools.go: the values of a
--   decoded JSON object, the arguments that each case reads, the consent that it asks for, and the call.
--   A runtime without an authorizer is a call with no gate, which asks nobody.
-- - Sessions: internal/sessions/sessions.go. State has the manager, where `objects` keeps a session that
--   was taken off the map, as the pumps do; Ends has `end` and `disposeQuiet`, whose body under `endOnce`
--   is one function for each of its steps, since a racing fault may come between them; Connect and Calls
--   have the other methods, with the answers of the network as arguments. World has the step relation.
-- - Tunnel: internal/tunnel. Address and Parse have parse.go, with what it takes of Go's packages net,
--   strconv and strings; Service has service.go, whose listeners are closed behind the sections that take
--   their tunnels off; the open ones are counted; Listeners has the step relation of its sections. An order of Go's map is that of the association list.
-- - Settings: internal/settings/settings.go. Floats has float64, exactly, as whole numbers over powers of
--   two; Texts the normalizers of single values, Json the coercions, Providers the list and the default,
--   File the document, and Store `Get` and `Set`. A JSON text is the value that it parses to, and the
--   parsers of numbers in texts are the record `Numbers`; a nil list is an empty one.
--
-- What a file takes from outside the repository, or from a package that is not modelled, is a
-- parameter: the guard of the home directory and `os.Stat` (the record `Files`), the answers of the
-- system calls of a write (`System`), the clock, the source of UUIDs, the answers of a gate, the
-- text of a summary, and what errors.go makes of an error of the agent (the record `Failures`). The
-- comparison with 0.8 of the window is made in whole numbers, which agrees with the floating point
-- one below 2 ^ 50.
--
-- Not modelled: the tools that the assistant calls and the conversion of its messages; the JSON-RPC
-- server of mcpcli and its wiring (server.go, mcp.go); `GetTasks`, which sorts a snapshot; the wait of
-- three seconds in `Dispose`, which only delays its return; the native message box; the network, the
-- window and the operating system's key store; the replacement of invalid bytes in a chunk and the
-- batcher's counters; the syntax of JSON in the file of settings; the reads of the pumps and the
-- copying of bytes through a forward; and, so far, the packages mcpregistration, credentials,
-- localpathguard, monitor, sshclient, fonts and app, and sftpservice but for its task centre.
mod Base
pub mod Apperror
pub mod Std
pub mod Transfer
pub mod Permission
pub mod Agent
pub mod Batcher
pub mod Stores
pub mod Mcp
pub mod Sessions
pub mod Settings
pub mod Tunnel
