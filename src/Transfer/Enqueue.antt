-- ===== src/Transfer/Enqueue.antt =====
-- `EnqueueUpload` and `EnqueueDownload`. A method returns the new state beside its results. `clock k`
-- and `ids k` are the readings of the clock and of the UUID source that a call makes with k items left.
use node_shell.Base.{
  ℕ, String, Bool, ◌||◌, Option, none, some, List, [], ◌∷◌, ◌++◌, ℤ, pos, insert, length, ◌==◌,
  if◌then◌else◌, Error, Result, ok, err, ◌>>=◌, map,
}
use node_shell.Apperror.{unknown}
use node_shell.Std.Paths.{join, base}
use node_shell.Transfer.State.{upload, download, queued, Task, to_dto, Manager, emit_all}
use node_shell.Transfer.Schedule.{schedule}

-- What the manager asks of the local file system: the guard of the home directory (whose errors it
-- passes on), and `os.Stat`.
pub record FileInfo : Type 0 where
  pub is_dir : Bool
  pub size : ℤ

pub record Files : Type 0 where
  pub resolve_existing : String → Result String
  pub resolve_target : String → Result String
  pub stat : String → Option FileInfo

abbrev pub failure : String → Error
failure message = record { code = unknown; message = message }

abbrev pub stat_file : Option FileInfo → Result FileInfo
stat_file none = err (failure "Failed to inspect the local file")
stat_file (some info) = ok info

pub record ValidFile : Type 0 where
  pub safe_path : String
  pub name : String
  pub size : ℤ

abbrev pub prepend {ℓ} : {A : Type ℓ} → A → Result (List A) → Result (List A)
prepend a r = do as' ← r; ok (a ∷ as')

-- The first loop of `EnqueueUpload`.
unfoldable pub validate : Files → List String → Result (List ValidFile)
unfolding base
validate files [] = ok []
validate files (p ∷ ps) =
    let rest = validate files ps in
    if p == "" then rest else (do
      safe ← files.resolve_existing p
      info ← stat_file (files.stat safe)
      if info.is_dir
          then rest
          else prepend (record { safe_path = safe; name = base safe; size = info.size }) rest)

abbrev pub blank_task : Task
blank_task = record {
  id = "";
  session_id = "";
  session_title = "";
  direction = upload;
  name = "";
  remote_dir = "";
  remote_path = "";
  local_path = "";
  transferred = pos 0;
  total = pos 0;
  state = queued;
  error = "";
  created_at = 0;
  started_at = 0;
  finished_at = 0;
  retry_of = "";
  cancel = none;
}

unfoldable pub enqueue : Task → Manager → Manager
unfolding insert
enqueue t m = record m { tasks = insert t.id t m.tasks; queue = m.queue ++ t.id ∷ [] }

abbrev pub upload_task : String → String → String → ℕ → String → ValidFile → Task
upload_task session title dir now id v = record blank_task {
  id = id;
  session_id = session;
  session_title = title;
  name = v.name;
  remote_dir = dir;
  remote_path = join dir v.name;
  local_path = v.safe_path;
  total = v.size;
  created_at = now;
}

-- The tasks of the second loop of `EnqueueUpload`, in order.
unfoldable pub upload_tasks :
    String → String → String → ℕ → (ℕ → String) → List ValidFile → List Task
upload_tasks session title dir now ids [] = []
upload_tasks session title dir now ids (v ∷ vs) =
    upload_task session title dir now (ids (length vs)) v
    ∷ upload_tasks session title dir now ids vs

unfoldable pub enqueue_all : List Task → Manager → Manager
unfolding enqueue
enqueue_all [] m = m
enqueue_all (t ∷ ts) m = enqueue_all ts (enqueue t m)

abbrev pub closed_error : Error
closed_error = failure "Transfer manager is closed"

-- The locked section and what follows it, for any list of new tasks.
unfoldable pub submit : (ℕ → ℕ) → List Task → Manager → Manager
unfolding enqueue_all schedule to_dto
submit clock ts m = schedule clock (emit_all (map to_dto ts) (enqueue_all ts m))

abbrev pub task_id : Task → String
task_id t = t.id

abbrev pub enqueue_valid :
    String
    → String
    → String
    → ℕ
    → (ℕ → ℕ)
    → (ℕ → String)
    → List ValidFile
    → Manager
    → Manager × Result (List String)
enqueue_valid session title dir now clock ids [] m = (m, ok [])
enqueue_valid session title dir now clock ids (v ∷ vs) m =
    let ts = upload_tasks session title dir now ids (v ∷ vs) in
    if m.closed then (m, err closed_error) else (submit clock ts m, ok (map task_id ts))

abbrev pub on_valid :
    (List ValidFile → Manager → Manager × Result (List String))
    → Result (List ValidFile)
    → Manager
    → Manager × Result (List String)
on_valid k (err e) m = (m, err e)
on_valid k (ok vs) m = k vs m

-- `base` is filepath.Base where the separator is `/`.
unfoldable pub enqueue_upload :
    Files
    → String
    → String
    → String
    → List String
    → ℕ
    → (ℕ → ℕ)
    → (ℕ → String)
    → Manager
    → Manager × Result (List String)
unfolding validate upload_tasks submit
enqueue_upload files session title dir paths now clock ids m =
    on_valid (enqueue_valid session title dir now clock ids) (validate files paths) m

abbrev pub download_task : String → String → String → String → String → ℕ → String → Task
download_task session title remote name local now id = record blank_task {
  id = id;
  session_id = session;
  session_title = title;
  direction = download;
  name = name;
  remote_path = remote;
  local_path = local;
  created_at = now;
}

abbrev pub on_target :
    (String → Manager → Manager × Result String) → Result String → Manager → Manager × Result String
on_target k (err e) m = (m, err e)
on_target k (ok safe) m = k safe m

abbrev pub download_to :
    String
    → String
    → String
    → String
    → ℕ
    → (ℕ → ℕ)
    → String
    → String
    → Manager
    → Manager × Result String
download_to session title remote name now clock id safe m =
    if name == "" || name == "/" || name == "."
    then (m, err (failure "Download remote path is invalid"))
    else if m.closed
    then (m, err closed_error)
    else (submit clock (download_task session title remote name safe now id ∷ []) m, ok id)

unfoldable pub enqueue_download :
    Files
    → String
    → String
    → String
    → String
    → ℕ
    → (ℕ → ℕ)
    → String
    → Manager
    → Manager × Result String
unfolding submit base
enqueue_download files session title remote local now clock id m =
    on_target (download_to session title remote (base remote) now clock id)
      (files.resolve_target local) m
