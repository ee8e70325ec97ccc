-- ===== src/Transfer/Closed.antt =====
-- What the steps of a manager that is closed leave.
use node_shell.Base.{◌≡◌, String, true, some, [], lookup}
use node_shell.Transfer.State.{Manager}
use node_shell.Transfer.Methods.{dropped, signal, cancel_found, retry_found}
use node_shell.Transfer.Methods

-- A later state of a closed manager: closed, with nothing queued and no further transfer.
abbrev pub StillClosed : Manager → Manager → Type 0
StillClosed m n =
    (n.closed ≡ true)
    × (n.queue ≡ [])
    × ((id s : String) → lookup id n.runs ≡ some s → lookup id m.runs ≡ some s)
