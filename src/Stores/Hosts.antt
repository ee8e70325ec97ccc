-- ===== src/Stores/Hosts.antt =====
-- internal/hosts/hosts.go: the saved hosts.
use Prim.Native.String.{◌++◌ as ◌+++◌}
use node_shell.Base.{
  String, Bool, Option, none, some, List, [], ◌∷◌, ◌++◌, ℤ, ◌==◌, if◌then◌else◌, Error, Result, ok,
  err,
}
use node_shell.Apperror.{config_read_failed, config_write_failed, unknown}
use node_shell.Stores.AtomicFile.{
  Content, absent, corrupt, unreadable, holds, Folder, System, write_json,
}

pub record HostConfig : Type 0 where
  pub id : String
  pub name : String
  pub host : String
  pub port : ℤ
  pub username : String
  pub auth_method : String
  pub private_key_path : String
  pub credentials_prompted : Bool
  pub credentials_saved : Bool

pub record HostInput : Type 0 where
  pub name : String
  pub host : String
  pub port : ℤ
  pub username : String
  pub auth_method : String
  pub private_key_path : String
  pub credentials_prompted : Bool
  pub credentials_saved : Bool

-- A field that is none is left as it is.
pub record Patch : Type 0 where
  pub name : Option String
  pub host : Option String
  pub port : Option ℤ
  pub username : Option String
  pub auth_method : Option String
  pub private_key_path : Option String
  pub credentials_prompted : Option Bool
  pub credentials_saved : Option Bool

pub record HostStore : Type 0 where
  pub folder : Folder (List HostConfig)
  pub cache : Option (List HostConfig)

abbrev config_error : String → String → Error
config_error code message = record { code = code; message = message }

-- A file without a list of hosts is corrupt.
unfoldable pub load_file : Content (List HostConfig) → Result (List HostConfig)
load_file absent = ok []
load_file (unreadable error) = err (config_error config_read_failed error)
load_file corrupt = err (config_error config_read_failed "Hosts file is corrupt")
load_file (holds none) = err (config_error config_read_failed "Hosts file is corrupt")
load_file (holds (some hosts)) = ok hosts

abbrev pub cached : Option (List HostConfig) → HostStore → Result (List HostConfig)
cached (some hosts) s = ok hosts
cached none s = load_file s.folder.target

-- `ensureLoaded`: the hosts that the store then holds in memory.
unfoldable pub ensure_loaded : HostStore → Result (List HostConfig)
unfolding load_file
ensure_loaded s = cached s.cache s

abbrev pub loaded : HostStore → List HostConfig → HostStore
loaded s hosts = record s { cache = some hosts }

abbrev pub list_loaded : HostStore → Result (List HostConfig) → HostStore × Result (List HostConfig)
list_loaded s (err e) = (s, err e)
list_loaded s (ok hosts) = (loaded s hosts, ok hosts)

unfoldable pub list : HostStore → HostStore × Result (List HostConfig)
unfolding ensure_loaded
list s = list_loaded s (ensure_loaded s)

-- The first host of an id.
unfoldable pub find : String → List HostConfig → Option HostConfig
find id [] = none
find id (h ∷ hs) = let rest = find id hs in if h.id == id then some h else rest

abbrev pub find_loaded :
    String → HostStore → Result (List HostConfig) → HostStore × Result (Option HostConfig)
find_loaded id s (err e) = (s, err e)
find_loaded id s (ok hosts) = (loaded s hosts, ok (find id hosts))

unfoldable pub get_by_id : String → HostStore → HostStore × Result (Option HostConfig)
unfolding ensure_loaded find
get_by_id id s = find_loaded id s (ensure_loaded s)

-- `writeLocked`: the hosts are in the cache whether or not they can be written.
abbrev pub written_hosts :
    List HostConfig → Folder (List HostConfig) × Option String → HostStore × Option Error
written_hosts hosts (folder, none) = (record { folder = folder; cache = some hosts }, none)
written_hosts hosts (folder, some error) =
    (record { folder = folder; cache = some hosts }, some (config_error config_write_failed error))

unfoldable pub save : System → List HostConfig → HostStore → HostStore × Option Error
unfolding write_json
save os hosts s = written_hosts hosts (write_json os hosts s.folder)

abbrev pub new_host : String → HostInput → HostConfig
new_host id input = record {
  id = id;
  name = input.name;
  host = input.host;
  port = input.port;
  username = input.username;
  auth_method = input.auth_method;
  private_key_path = input.private_key_path;
  credentials_prompted = input.credentials_prompted;
  credentials_saved = input.credentials_saved;
}

-- A value that a write gives, unless it fails.
abbrev pub returning {ℓ} : {A : Type ℓ} → A → HostStore × Option Error → HostStore × Result A
returning a (s, none) = (s, ok a)
returning a (s, some e) = (s, err e)

abbrev pub create_loaded :
    System
    → String
    → HostInput
    → HostStore
    → Result (List HostConfig)
    → HostStore × Result HostConfig
create_loaded os id input s (err e) = (s, err e)
create_loaded os id input s (ok hosts) =
    returning (new_host id input) (save os (hosts ++ new_host id input ∷ []) s)

-- `Create`, with the UUID that it draws.
unfoldable pub create : System → String → HostInput → HostStore → HostStore × Result HostConfig
unfolding ensure_loaded save
create os id input s = create_loaded os id input s (ensure_loaded s)

abbrev or_else {ℓ} : {A : Type ℓ} → Option A → A → A
or_else none old = old
or_else (some new) old = new

unfoldable pub apply_patch : HostConfig → Patch → HostConfig
apply_patch h p = record {
  id = h.id;
  name = or_else p.name h.name;
  host = or_else p.host h.host;
  port = or_else p.port h.port;
  username = or_else p.username h.username;
  auth_method = or_else p.auth_method h.auth_method;
  private_key_path = or_else p.private_key_path h.private_key_path;
  credentials_prompted = or_else p.credentials_prompted h.credentials_prompted;
  credentials_saved = or_else p.credentials_saved h.credentials_saved;
}

-- The first host of the id is the patched one.
unfoldable pub set_host : String → HostConfig → List HostConfig → List HostConfig
set_host id updated [] = []
set_host id updated (h ∷ hs) =
    let rest = set_host id updated hs in if h.id == id then updated ∷ hs else h ∷ rest

abbrev pub patched : String → HostConfig → Patch → HostConfig
patched id h patch = apply_patch (record h { id = id }) patch

abbrev pub update_found :
    System
    → String
    → Patch
    → HostStore
    → List HostConfig
    → Option HostConfig
    → HostStore × Result HostConfig
update_found os id patch s hosts none =
    (loaded s hosts, err (config_error unknown ("Host not found: " +++ id)))
update_found os id patch s hosts (some h) =
    returning (patched id h patch) (save os (set_host id (patched id h patch) hosts) s)

abbrev pub update_loaded :
    System → String → Patch → HostStore → Result (List HostConfig) → HostStore × Result HostConfig
update_loaded os id patch s (err e) = (s, err e)
update_loaded os id patch s (ok hosts) = update_found os id patch s hosts (find id hosts)

unfoldable pub update : System → String → Patch → HostStore → HostStore × Result HostConfig
unfolding ensure_loaded find apply_patch set_host save
update os id patch s = update_loaded os id patch s (ensure_loaded s)

unfoldable pub without : String → List HostConfig → List HostConfig
without id [] = []
without id (h ∷ hs) = let rest = without id hs in if h.id == id then rest else h ∷ rest

abbrev pub remove_loaded :
    System → String → HostStore → Result (List HostConfig) → HostStore × Option Error
remove_loaded os id s (err e) = (s, some e)
remove_loaded os id s (ok hosts) = save os (without id hosts) s

unfoldable pub remove : System → String → HostStore → HostStore × Option Error
unfolding ensure_loaded without save
remove os id s = remove_loaded os id s (ensure_loaded s)
