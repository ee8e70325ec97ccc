-- ===== src/Mcp/Files.antt =====
-- internal/mcpcli/runtime.go: `RunCommand`, `sftpOp` and the five tools on remote files.

use node_shell.Base.{
  ℕ, ℤ, ◌*◌, String, Bool, List, Option, none, some, Error, Result, ok, err, ◌==◌, if◌then◌else◌,
}
use node_shell.Apperror.{unknown, cancelled}
use node_shell.Mcp.State.{Runtime, clamp_timeout}
use node_shell.Mcp.Sections.{Ticket, counted, uncounted, refused, begin, finish}
use node_shell.Mcp.Services.{SessionManager, Sftp, Entry, Deps, Scene, dispose_by, interrupt_by}

abbrev pub max_file_bytes : ℕ
max_file_bytes = 512 * 1024

abbrev pub coded_unknown : String → Error
coded_unknown message = record { code = unknown; message = message }

-- How the select of `sftpOp` falls: the worker's result first, or the end of the context, with the
-- worker's call before or behind the client's end.
pub data Race : Type 0 where
  result_first run_then_cancel cancel_then_run : Race

pub record Listing : Type 0 where
  pub cwd : String
  pub entries : List Entry

-- When an operation begins and when it ends, by the clock, and how its select falls.
pub record Timing : Type 0 where
  pub now : ℕ
  pub later : ℕ
  pub race : Race

-- A call of the services, under the error that it may answer.
abbrev pub Work : Type 0 → Type 0 → Type 0
Work S A = S → S × Result A

abbrev pub op_cancelled : Error
op_cancelled = record { code = cancelled; message = "Operation cancelled" }

abbrev pub named : String → Option String
named name = if name == "" then none else some name

abbrev pub cut_off : {S : Type 0} → Deps S → Bool → String → S → S
cut_off d guest id s = if guest then interrupt_by d d.sftp id s else dispose_by d d.sftp id s

module _ {S : Type 0} (d : Deps S) {A : Type 0} where
  -- A tool's `begin`, its work and the deferred end.
  abbrev pub held : String → ℕ → Work S A → S → Runtime × Ticket → Scene S × Result A
  held id later work s (r, refused e) = (record { runtime = r; outside = s }, err e)
  held id later work s (r, uncounted) =
      let p = work s in (record { runtime = r; outside = p.0 }, p.1)
  held id later work s (r, counted) =
      let p = work s in (record { runtime = finish id later r; outside = p.0 }, p.1)

  unfoldable pub during : String → ℕ → ℕ → Work S A → Scene S → Scene S × Result A
  unfolding begin finish
  during id now later work c = held id later work c.outside (begin id now c.runtime)

  unfoldable pub sftp_op : Bool → Race → String → Work S A → S → S × Result A
  sftp_op guest result_first id run s = run s
  sftp_op guest run_then_cancel id run s = (cut_off d guest id (run s).0, err op_cancelled)
  sftp_op guest cancel_then_run id run s = ((run (cut_off d guest id s)).0, err op_cancelled)

  abbrev pub file_work :
      Option (Sftp S) → Bool → Race → String → (Sftp S → Work S A) → S → S × Result A
  file_work none guest race id run s = (s, err (coded_unknown "SFTP is not initialised"))
  file_work (some files) guest race id run s = sftp_op guest race id (run files) s

  -- The shape of the five tools on files.
  unfoldable pub file_tool : Timing → String → (Sftp S → Work S A) → Scene S → Scene S × Result A
  unfolding during sftp_op
  file_tool t id run c = during id t.now t.later (file_work d.sftp c.runtime.guest t.race id run) c

module _ {S : Type 0} where
  abbrev pub after : {A B : Type 0} → (S → A → S × Result B) → S × Result A → S × Result B
  after k (s, err e) = (s, err e)
  after k (s, ok a) = k s a

  abbrev pub replied : {A B : Type 0} → (A → B) → S × Result A → S × Result B
  replied f (s, err e) = (s, err e)
  replied f (s, ok a) = (s, ok (f a))

  abbrev pub finished : {B : Type 0} → B → S × Option Error → S × Result B
  finished b (s, some e) = (s, err e)
  finished b (s, none) = (s, ok b)

  abbrev pub list_at : Sftp S → String → String → S → S × Result Listing
  list_at files id path s =
      after
        (λ s' cwd.
          replied (λ entries. record { cwd = cwd; entries = entries }) (files.list id path s'))
        (files.cwd id s)

  -- The function that `sftpList` runs.
  unfoldable pub list_run : String → String → Bool → Sftp S → S → S × Result Listing
  list_run id path chdir files s =
      if chdir
      then (if path == ""
          then list_at files id "" s
          else after (λ s' dir. list_at files id "" s') (files.chdir id path s))
      else list_at files id path s

  abbrev pub exec_by : Option (SessionManager S) → String → String → ℕ → S → S × Result String
  exec_by none id command ms s = (s, err (coded_unknown "Session manager is not initialised"))
  exec_by (some m) id command ms s = m.exec id command ms s

  unfoldable pub run_command :
      Deps S → Timing → String → String → ℤ → Scene S → Scene S × Result String
  unfolding during clamp_timeout
  run_command d t id command ms c =
      during d id t.now t.later (exec_by d.manager id command (clamp_timeout ms)) c

  unfoldable pub sftp_list :
      Deps S → Timing → String → String → Bool → Scene S → Scene S × Result Listing
  unfolding file_tool list_run
  sftp_list d t id path chdir c = file_tool d t id (list_run id path chdir) c

  unfoldable pub sftp_read :
      Deps S → Timing → String → String → Scene S → Scene S × Result (String × String)
  unfolding file_tool
  sftp_read d t id path c = file_tool d t id (λ files s. files.read_text id path max_file_bytes s) c

  unfoldable pub sftp_write :
      Deps S → Timing → String → String → String → Scene S → Scene S × Result String
  unfolding file_tool
  sftp_write d t id path content c =
      file_tool d t id (λ files s. files.write_text id path content max_file_bytes s) c

  -- The result of an upload is its local path and its remote name, if one was given.
  unfoldable pub sftp_upload :
      Deps S
      → Timing
      → String
      → String
      → String
      → Scene S
      → Scene S × Result (String × Option String)
  unfolding file_tool
  sftp_upload d t id local name c =
      file_tool d t id (λ files s. finished (local, named name) (files.upload_as id local name s)) c

  -- The result of a download is its remote path and its local path.
  unfoldable pub sftp_download :
      Deps S → Timing → String → String → String → Scene S → Scene S × Result (String × String)
  unfolding file_tool
  sftp_download d t id remote local c =
      file_tool d t id (λ files s. finished (remote, local) (files.download id remote local s)) c
