-- ===== src/Mcp/Opened.antt =====
-- What `ConnectHost` leaves of the reservations.
use node_shell.Base.{ℕ, ◌≡◌}
use node_shell.Mcp.Services.{Deps}
use node_shell.Mcp.Connect.{ConnectResult, Answer}

module _ {S : Type 0} (d : Deps S) where
  abbrev Restored : ℕ → Answer d ConnectResult → Type 0
  Restored n a = a.0.runtime.pending ≡ n
