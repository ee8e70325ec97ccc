-- ===== src/Mcp/Services.antt =====
-- internal/mcpcli/runtime.go: the services that the runtime calls, and its methods over sessions.

use node_shell.Base.{
  ℕ, String, Bool, List, [], ◌∷◌, Option, none, some, if◌then◌else◌, Error, Result,
}
use node_shell.Stores.Hosts.{HostConfig}
use node_shell.Mcp.State.{Runtime}
use node_shell.Mcp.Sections.{on_closed, drop_and_mark, mark_closing, unmark_closing, reap, shut}

pub record Entry : Type 0 where
  pub name : String
  pub path : String
  pub is_directory : Bool
  pub size : ℕ
  pub modify_time : ℕ

-- The interfaces `SessionManager` and `SFTP`, on a state of the services. `disconnect` also says
-- whether the manager emits the event that the session is closed.
pub record SessionManager (S : Type 0) : Type 0 where
  pub connect : String → String → Bool → S → S × Result String
  pub disconnect : String → S → S × Bool
  pub exec : String → String → ℕ → S → S × Result String

pub record Sftp (S : Type 0) : Type 0 where
  pub chdir : String → String → S → S × Result String
  pub cwd : String → S → S × Result String
  pub list : String → String → S → S × Result (List Entry)
  pub read_text : String → String → ℕ → S → S × Result (String × String)
  pub write_text : String → String → String → ℕ → S → S × Result String
  pub upload_as : String → String → String → S → S × Option Error
  pub download : String → String → String → S → S × Option Error
  pub dispose : String → S → S
  pub interrupt : String → S → S

-- What a runtime is wired to. A nil service is none; `forget` is the gate's `ForgetSession`, if it has one.
pub record Deps (S : Type 0) : Type 0 where
  pub hosts : S → Result (List HostConfig)
  pub get_by_id : String → S → Result (Option HostConfig)
  pub manager : Option (SessionManager S)
  pub sftp : Option (Sftp S)
  pub forget : Option (String → S → S)

pub record Scene (S : Type 0) : Type 0 where
  pub runtime : Runtime
  pub outside : S

module _ {S : Type 0} (d : Deps S) where
  abbrev pub dispose_by : Option (Sftp S) → String → S → S
  dispose_by none id s = s
  dispose_by (some files) id s = files.dispose id s

  abbrev pub interrupt_by : Option (Sftp S) → String → S → S
  interrupt_by none id s = s
  interrupt_by (some files) id s = files.interrupt id s

  abbrev pub forget_by : Option (String → S → S) → String → S → S
  forget_by none id s = s
  forget_by (some f) id s = f id s

  -- `onClosed`, with the calls behind its section.
  unfoldable pub closed_event : String → Scene S → Scene S
  unfolding on_closed
  closed_event id c =
      let p = on_closed id c.runtime in
      let s = if p.1 then dispose_by d.sftp id c.outside else c.outside in
      record { runtime = p.0; outside = forget_by d.forget id s }

  -- The manager's `Disconnect`, and the event that it emits before it returns.
  abbrev pub disconnect_by : Option (SessionManager S) → String → Scene S → Scene S
  disconnect_by none id c = c
  disconnect_by (some m) id c =
      let p = m.disconnect id c.outside in
      let c' = record c { outside = p.0 } in if p.1 then closed_event id c' else c'

  -- The part of `disconnectSession` behind its first section.
  abbrev pub tear_down : String → Scene S → Scene S
  tear_down id c =
      let c' = disconnect_by d.manager id (record c { outside = dispose_by d.sftp id c.outside }) in
      record c' { runtime = unmark_closing id c'.runtime }

  unfoldable pub disconnect_session : String → Scene S → Scene S
  unfolding drop_and_mark unmark_closing closed_event
  disconnect_session id c =
      let p = drop_and_mark id c.runtime in
      if p.1 then tear_down id (record c { runtime = p.0 }) else c

  abbrev pub discard_by : Option (SessionManager S) → String → Scene S → Scene S
  discard_by none id c = c
  discard_by (some m) id c =
      let c' = disconnect_by (some m) id (record c { runtime = mark_closing id c.runtime }) in
      record c' { runtime = unmark_closing id c'.runtime }

  -- `discardLateConnect`.
  unfoldable pub discard_late : String → Scene S → Scene S
  unfolding mark_closing unmark_closing closed_event
  discard_late id c =
      discard_by d.manager id (record c { outside = dispose_by d.sftp id c.outside })

  unfoldable pub disconnect_each : List String → Scene S → Scene S
  unfolding disconnect_session
  disconnect_each [] c = c
  disconnect_each (id ∷ ids) c = disconnect_each ids (disconnect_session id c)

  -- `Reap`: its ids are the sessions closed.
  unfoldable pub reap_all : ℕ → Scene S → Scene S × List String
  unfolding reap disconnect_each
  reap_all now c =
      let p = reap now c.runtime in (disconnect_each p.1 (record c { runtime = p.0 }), p.1)

  -- `DisposeAll`.
  unfoldable pub dispose_all : Scene S → Scene S
  unfolding shut disconnect_each
  dispose_all c = let p = shut c.runtime in disconnect_each p.1 (record c { runtime = p.0 })
