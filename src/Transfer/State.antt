-- ===== src/Transfer/State.antt =====
-- internal/sftpservice/transfer_manager.go: the tasks, their public shape, and the manager's state.
use node_shell.Base.{
  ℕ, String, Bool, false, Option, none, some, List, [], ◌∷◌, ◌++◌, ℤ, Dict, lookup,
}

pub data Direction : Type 0 where
  upload download : Direction

pub data State : Type 0 where
  queued running finalizing succeeded failed cancelled : State

-- `cancel` is the task's cancel function: none before a launch, then whether its context is done.
-- Sizes are `int64`; the times are milliseconds since 1970, 0 where unset.
pub record Task : Type 0 where
  pub id : String
  pub session_id : String
  pub session_title : String
  pub direction : Direction
  pub name : String
  pub remote_dir : String
  pub remote_path : String
  pub local_path : String
  pub transferred : ℤ
  pub total : ℤ
  pub state : State
  pub error : String
  pub created_at : ℕ
  pub started_at : ℕ
  pub finished_at : ℕ
  pub retry_of : String
  pub cancel : Option Bool

pub record TransferTaskDto : Type 0 where
  pub task_id : String
  pub session_id : String
  pub session_title : String
  pub direction : Direction
  pub name : String
  pub remote_path : String
  pub transferred : ℤ
  pub total : ℤ
  pub state : State
  pub error : String
  pub created_at : ℕ
  pub started_at : ℕ
  pub finished_at : ℕ
  pub retry_of : String

unfoldable pub to_dto : Task → TransferTaskDto
to_dto t = record {
  task_id = t.id;
  session_id = t.session_id;
  session_title = t.session_title;
  direction = t.direction;
  name = t.name;
  remote_path = t.remote_path;
  transferred = t.transferred;
  total = t.total;
  state = t.state;
  error = t.error;
  created_at = t.created_at;
  started_at = t.started_at;
  finished_at = t.finished_at;
  retry_of = t.retry_of;
}

-- `runs` holds the goroutines of `runTask`, which the wait group counts: the id of each one's task
-- and the task's session. `emitted` is what the sink has been given, oldest first.
pub record Manager : Type 0 where
  pub tasks : Dict Task
  pub queue : List String
  pub running_global : ℕ
  pub running_session : Dict ℕ
  pub closed : Bool
  pub runs : Dict String
  pub emitted : List TransferTaskDto

abbrev pub max_global : ℕ
max_global = 3

abbrev pub max_session : ℕ
max_session = 1

abbrev pub new_manager : Manager
new_manager = record {
  tasks = [];
  queue = [];
  running_global = 0;
  running_session = [];
  closed = false;
  runs = [];
  emitted = [];
}

-- Go's read of a counter map: 0 where the key is missing.
abbrev pub counter : Option ℕ → ℕ
counter none = 0
counter (some n) = n

unfoldable pub running_of : String → Dict ℕ → ℕ
unfolding lookup
running_of s m = counter (lookup s m)

abbrev pub emit : TransferTaskDto → Manager → Manager
emit dto m = record m { emitted = m.emitted ++ dto ∷ [] }

abbrev pub emit_all : List TransferTaskDto → Manager → Manager
emit_all dtos m = record m { emitted = m.emitted ++ dtos }
