-- ===== src/Stores/Tests.antt =====
-- The theorems about the stores at small files.
use node_shell.Base.{
  ◌≡◌, ◌⊎◌, refl, String, false, none, some, [], pos, ℤ, Error, ok, insert, if◌then◌else◌, arith,
  ltb,
}
use node_shell.Std.Format.{decimal, digits}
use node_shell.Stores.AtomicFile.{
  absent, Folder, System, replace, replace_loop, write_json, IsAtomic, write_json-IsAtomic,
  replace-none,
}
use node_shell.Stores.KnownHosts.{Store, key, check, remember, ensure, read}
use node_shell.Stores.Hosts.{HostInput, HostStore, ensure_loaded, load_file, find, get_by_id}
use node_shell.Stores.Changes.{creates, perform, after, get_by_id-perform, perform-durable}
use node_shell.Stores.Trust.{remember-refuses, remember-durable}

-- A system whose first rename fails, and one whose disk is full.
abbrev retrying : System
retrying = record {
  make_dir = none;
  create_temp = none;
  write = none;
  sync = none;
  close = none;
  rename = λ k. if ltb k 1 then some "access denied" else none;
  remove = none;
}

abbrev full : System
full = record retrying { write = some "disk full" }

abbrev nothing {ℓ} : {A : Type ℓ} → Folder A
nothing = record { target = absent; temp = none; leftover = [] }

abbrev trust : Store
trust = record { folder = nothing; cache = none }

abbrev hosts : HostStore
hosts = record { folder = nothing; cache = none }

abbrev web : HostInput
web = record {
  name = "web";
  host = "10.0.0.1";
  port = pos 22;
  username = "root";
  auth_method = "password";
  private_key_path = "";
  credentials_prompted = false;
  credentials_saved = false;
}

key_text : key "10.0.0.1" (pos 2222) ≡ "10.0.0.1:2222"
unfolding key decimal digits
key_text = refl

write_json-IsAtomic_example : IsAtomic {A = String} none "v" nothing (write_json full "v" nothing)
write_json-IsAtomic_example = write_json-IsAtomic full "v" nothing refl

replace-none_example : replace retrying.rename ≡ none
replace-none_example = replace-none retrying.rename 1 (omega arith) refl

remembered : (remember retrying "h" (pos 22) "f1" trust).1 ≡ none
unfolding remember ensure read insert write_json replace replace_loop key decimal digits
remembered = refl

remember-durable_example :
    (check "h"
      (pos 22)
      "f1"
      (record (remember retrying "h" (pos 22) "f1" trust).0 { cache = none })).1
    ≡ (check "h" (pos 22) "f1" (remember retrying "h" (pos 22) "f1" trust).0).1
remember-durable_example =
    remember-durable retrying "h" (pos 22) "f1" trust refl "h" (pos 22) "f1" remembered

not_remembered :
    (remember full "h" (pos 22) "f1" trust).1
    ≡ some (record { code = "CONFIG_WRITE_FAILED"; message = "Failed to write known hosts" })
unfolding remember ensure read insert write_json replace replace_loop key decimal digits
not_remembered = refl

remember-refuses_example :
    ((remember full "h" (pos 22) "f1" trust).0.folder.target ≡ absent)
    × ((host' : String) (port' : ℤ) (fingerprint' : String)
        → (check host' port' fingerprint' (remember full "h" (pos 22) "f1" trust).0).1
          ≡ (check host' port' fingerprint' trust).1)
remember-refuses_example = remember-refuses full "h" (pos 22) "f1" trust refl _ not_remembered

no_hosts : ensure_loaded hosts ≡ ok []
unfolding ensure_loaded load_file
no_hosts = refl

get_by_id-perform_example :
    (get_by_id "u1" (perform full (creates "u1" web) hosts).0).1
    ≡ ok (after (creates "u1" web) "u1" [])
get_by_id-perform_example =
    get_by_id-perform full hosts [] refl (creates "u1" web) "u1" no_hosts (unfold find in refl)

perform-durable_example :
    (((perform retrying (creates "u1" web) hosts).1 ≡ none)
      × ((get_by_id "u1" (record (perform retrying (creates "u1" web) hosts).0 { cache = none })).1
          ≡ ok (after (creates "u1" web) "u1" [])))
    ⊎ ((e : Error) × ((perform retrying (creates "u1" web) hosts).1 ≡ some e)
        × ((perform retrying (creates "u1" web) hosts).0.folder.target ≡ absent))
perform-durable_example =
    perform-durable retrying hosts [] refl (creates "u1" web) "u1" no_hosts (unfold find in refl)
