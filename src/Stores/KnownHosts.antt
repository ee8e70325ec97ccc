-- ===== src/Stores/KnownHosts.antt =====
-- internal/knownhosts/knownhosts.go: the fingerprints of verified hosts.
use Prim.Native.String.{◌++◌ as ◌+++◌}
use node_shell.Base.{
  String, Option, none, some, [], ℤ, Dict, lookup, insert, ◌==◌, if◌then◌else◌, Error, Result, ok,
  err,
}
use node_shell.Apperror.{config_read_failed, config_write_failed, unknown}
use node_shell.Std.Format.{decimal}
use node_shell.Stores.AtomicFile.{
  Content, absent, corrupt, unreadable, holds, Folder, System, write_json,
}

-- `cache` is none until the store is loaded; a file that holds null leaves it so.
pub record Store : Type 0 where
  pub folder : Folder (Dict String)
  pub cache : Option (Dict String)

pub data CheckResult : Type 0 where
  unknown_host matches : CheckResult
  changed : String → CheckResult

unfoldable pub key : String → ℤ → String
unfolding decimal
key host port = host +++ (":" +++ decimal port)

abbrev pub read_error : String → Error
read_error message = record { code = config_read_failed; message = message }

unfoldable pub read : Content (Dict String) → Result (Option (Dict String))
read absent = ok (some [])
read (unreadable error) = err (read_error "Failed to read known hosts")
read corrupt = err (read_error "Known hosts file is corrupt")
read (holds value) = ok value

abbrev pub keep_read : Result (Option (Dict String)) → Store → Store × Option Error
keep_read (err e) s = (s, some e)
keep_read (ok cache) s = (record s { cache = cache }, none)

unfoldable pub load : Store → Store × Option Error
unfolding read
load s = keep_read (read s.folder.target) s

-- The first lines of `Check` and `Remember`.
abbrev pub ensure_from : Option (Dict String) → Store → Store × Option Error
ensure_from (some cache) s = (s, none)
ensure_from none s = keep_read (read s.folder.target) s

unfoldable pub ensure : Store → Store × Option Error
unfolding read
ensure s = ensure_from s.cache s

-- A nil map reads as an empty one.
abbrev pub entries : Option (Dict String) → Dict String
entries none = []
entries (some cache) = cache

abbrev pub verdict : String → Option String → CheckResult
verdict fingerprint none = unknown_host
verdict fingerprint (some previous) = if previous == fingerprint then matches else changed previous

unfoldable pub check_locked : String → ℤ → String → Store → CheckResult
unfolding lookup key
check_locked host port fingerprint s =
    verdict fingerprint (lookup (key host port) (entries s.cache))

abbrev pub check_loaded : String → ℤ → String → Store × Option Error → Store × Result CheckResult
check_loaded host port fingerprint (s, some e) = (s, err e)
check_loaded host port fingerprint (s, none) = (s, ok (check_locked host port fingerprint s))

unfoldable pub check : String → ℤ → String → Store → Store × Result CheckResult
unfolding ensure check_locked
check host port fingerprint s = check_loaded host port fingerprint (ensure s)

abbrev not_loaded : Error
not_loaded = record { code = unknown; message = "KnownHosts cache not loaded; call load() first" }

abbrev pub sync_from : String → ℤ → String → Store → Option (Dict String) → Result CheckResult
sync_from host port fingerprint s none = err not_loaded
sync_from host port fingerprint s (some cache) = ok (check_locked host port fingerprint s)

unfoldable pub check_sync : String → ℤ → String → Store → Result CheckResult
unfolding check_locked
check_sync host port fingerprint s = sync_from host port fingerprint s s.cache

abbrev pub written :
    Dict String → Store → Folder (Dict String) × Option String → Store × Option Error
written next s (folder, none) = (record s { folder = folder; cache = some next }, none)
written next s (folder, some error) = (
  record s { folder = folder },
  some (record { code = config_write_failed; message = "Failed to write known hosts" }),
)

abbrev pub remember_loaded :
    System → String → ℤ → String → Store × Option Error → Store × Option Error
remember_loaded os host port fingerprint (s, some e) = (s, some e)
remember_loaded os host port fingerprint (s, none) =
    let next = insert (key host port) fingerprint (entries s.cache) in
    written next s (write_json os next s.folder)

-- `Remember`: a copy of the cache takes the fingerprint, and is the cache once it is written.
unfoldable pub remember : System → String → ℤ → String → Store → Store × Option Error
unfolding ensure insert key write_json
remember os host port fingerprint s = remember_loaded os host port fingerprint (ensure s)
