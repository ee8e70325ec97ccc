-- ===== src/Transfer/Counts.antt =====
-- Runs counted by session, and the counter map's laws.
use node_shell.Base.{
  ℕ, suc, ◌+◌, ◌-◌, String, ◌≡◌, true, some, [], ◌∷◌, Dict, lookup, insert, delete, is_map, ◌==◌,
  eq_iff, if◌then◌else◌, arith, lookup-insert, lookup-delete, delete-absent,
}
use node_shell.Transfer.State.{running_of}
use node_shell.Transfer.Running.{release}

-- How many runs are of a session.
unfoldable pub count : String → Dict String → ℕ
count s [] = 0
count s ((id, r) ∷ runs) = let n = count s runs in if r == s then suc n else n

pub count-delete :
    (s id r : String) (runs : Dict String)
    → is_map runs ≡ true
    → lookup id runs ≡ some r
    → count s runs ≡ count s (delete id runs) + (if r == s then 1 else 0)
unfolding count delete lookup is_map
count-delete s id r [] d h = cc
count-delete s id r ((i, q) ∷ runs) d h =
    ground (arith, count-delete s id r runs, delete-absent id runs, eq_iff i id)

pub running_of-insert :
    (s j : String) (n : ℕ) (sessions : Dict ℕ)
    → running_of j (insert s n sessions) ≡ (if s == j then n else running_of j sessions)
unfolding running_of
running_of-insert s j n sessions = ground (arith, lookup-insert s j n sessions)

pub running_of-release :
    (s j : String) (sessions : Dict ℕ)
    → running_of j (release s sessions)
      ≡ (if s == j then running_of s sessions - 1 else running_of j sessions)
unfolding release running_of
running_of-release s j sessions = ground (
  arith,
  lookup-insert s j (running_of s sessions - 1) sessions,
  lookup-delete s j (insert s (running_of s sessions - 1) sessions),
)
