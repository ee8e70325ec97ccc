-- ===== src/Mcp/Sections.antt =====
-- internal/mcpcli/runtime.go: the sections under the lock.
use Prim.Native.String.{◌++◌ as ◌+++◌}
use node_shell.Base.{
  ℕ, ◌+◌, ◌-◌, String, Bool, true, false, not, ◌&&◌, ◌||◌, List, [], ◌∷◌, ◌++◌, Option, none, some,
  lookup, insert, delete, remove_first, length, ltb, leb, if◌then◌else◌, Error, is_some, pos,
}
use node_shell.Apperror.{cancelled, session_not_found, unknown}
use node_shell.Std.Format.{decimal}
use node_shell.Mcp.State.{Meta, Runtime, put_in, take_out}

abbrev pub shut_down : Error
shut_down = record { code = cancelled; message = "Runtime is shut down" }

abbrev pub limit_error : ℕ → Error
limit_error max = record {
  code = "MCP_SESSION_LIMIT";
  message = "Too many MCP sessions (max " +++ (decimal (pos max) +++ "); disconnect one first");
}

unfoldable pub reserve : Runtime → Runtime × Option Error
unfolding decimal
reserve r =
    if r.closed
    then (r, some shut_down)
    else if leb r.max_sessions (length r.meta + r.pending)
    then (r, some (limit_error r.max_sessions))
    else (record r { pending = r.pending + 1 }, none)

unfoldable pub release_reserve : Runtime → Runtime
release_reserve r = if ltb 0 r.pending then record r { pending = r.pending - 1 } else r

unfoldable pub drop_locked : String → Runtime → Runtime
unfolding delete remove_first
drop_locked id r = record r { meta = delete id r.meta; order = remove_first id r.order }

abbrev pub new_meta : String → String → String → ℕ → Meta
new_meta id host title now = record {
  session_id = id;
  host_id = host;
  title = title;
  last_used = now;
  busy_count = 0;
  reaping = false;
}

-- The last section of `ConnectHost`, for the session that the manager returned.
unfoldable pub commit : String → String → String → ℕ → Runtime → Runtime × Option Error
unfolding insert
commit id host title now r =
    if r.closed
    then (r, some shut_down)
    else if r.tombstones id
    then (
      record r { tombstones = take_out id r.tombstones },
      some (record { code = unknown; message = "Connection closed during setup" }),
    )
    else (
      record r {
        meta = insert id (new_meta id host title now) r.meta;
        order = r.order ++ id ∷ [];
        pending = r.pending - 1;
      },
      none,
    )

-- The section of `onClosed`, and whether the session was known.
unfoldable pub on_closed : String → Runtime → Runtime × Bool
unfolding lookup drop_locked
on_closed id r =
    let known = is_some (lookup id r.meta) in
    let closing = r.local_closing id in
    let r' = record r { local_closing = take_out id r.local_closing } in
    if known
    then (drop_locked id r', true)
    else if closing
    then (r', false)
    else (record r' { tombstones = put_in id r'.tombstones }, false)

-- The first section of `disconnectSession`.
unfoldable pub drop_and_mark : String → Runtime → Runtime × Bool
unfolding lookup drop_locked
drop_and_mark id r =
    if is_some (lookup id r.meta)
    then (record (drop_locked id r) { local_closing = put_in id r.local_closing }, true)
    else (r, false)

-- A mark of a session that is being closed from here, before and behind the manager's call.
unfoldable pub mark_closing : String → Runtime → Runtime
mark_closing id r = record r { local_closing = put_in id r.local_closing }

unfoldable pub unmark_closing : String → Runtime → Runtime
unmark_closing id r = record r { local_closing = take_out id r.local_closing }

abbrev pub not_found : String → Error
not_found id = record { code = session_not_found; message = "Session not found: " +++ id }

-- An operation under way: on a session of the runtime, or on a guest session, which it does not count.
pub data Ticket : Type 0 where
  counted uncounted : Ticket
  refused : Error → Ticket

abbrev pub started : ℕ → Meta → Meta
started now m = record m { busy_count = m.busy_count + 1; last_used = now }

abbrev pub begin_found : String → ℕ → Runtime → Option Meta → Runtime × Ticket
begin_found id now r none =
    (r, if r.guest && not r.closed then uncounted else refused (not_found id))
begin_found id now r (some m) =
    if m.reaping
    then (r, refused (not_found id))
    else (record r { meta = insert id (started now m) r.meta }, counted)

unfoldable pub begin : String → ℕ → Runtime → Runtime × Ticket
unfolding lookup insert
begin id now r = begin_found id now r (lookup id r.meta)

abbrev pub ended : ℕ → Meta → Meta
ended now m = record m { busy_count = m.busy_count - 1; last_used = now }

abbrev pub finish_found : String → ℕ → Runtime → Option Meta → Runtime
finish_found id now r none = r
finish_found id now r (some m) = record r { meta = insert id (ended now m) r.meta }

-- The function that `begin` returns for a counted operation.
unfoldable pub finish : String → ℕ → Runtime → Runtime
unfolding lookup insert
finish id now r = finish_found id now r (lookup id r.meta)

-- Whether the reaper selects a session.
abbrev pub is_idle : ℕ → ℕ → Option Meta → Bool
is_idle now timeout none = false
is_idle now timeout (some m) =
    not (ltb 0 m.busy_count || m.reaping) && leb (m.last_used + timeout) now

abbrev pub mark_found : String → Runtime → Option Meta → Runtime
mark_found id r none = r
mark_found id r (some m) = record r { meta = insert id (record m { reaping = true }) r.meta }

unfoldable pub mark_reaping : String → Runtime → Runtime
unfolding lookup insert
mark_reaping id r = mark_found id r (lookup id r.meta)

-- The loop of `Reap`: the runtime with the selected sessions marked, and their ids.
unfoldable pub reap_loop : ℕ → List String → Runtime → Runtime × List String
unfolding lookup mark_reaping
reap_loop now [] r = (r, [])
reap_loop now (id ∷ ids) r =
    let idle = is_idle now r.idle_timeout (lookup id r.meta) in
    let rest = reap_loop now ids (if idle then mark_reaping id r else r) in
    (rest.0, if idle then id ∷ rest.1 else rest.1)

unfoldable pub reap : ℕ → Runtime → Runtime × List String
unfolding reap_loop
reap now r = reap_loop now r.order r

-- The sections of the reap loop's owner, and the gate of `DisposeAll` with the ids to disconnect.
unfoldable pub start_reaper : Runtime → Runtime
start_reaper r = if r.reaper || r.closed then r else record r { reaper = true }

unfoldable pub stop_reaper : Runtime → Runtime
stop_reaper r = record r { reaper = false }

unfoldable pub shut : Runtime → Runtime × List String
shut r = (record r { closed = true; reaper = false }, r.order)
