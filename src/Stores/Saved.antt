-- ===== src/Stores/Saved.antt =====
-- What the operations on hosts change, in memory and in the file.
use node_shell.Base.{
  String, Option, none, some, List, [], ◌∷◌, ◌++◌, ◌==◌, if◌then◌else◌, Error, ◌≡◌, refl, arith,
  eq_iff,
}
use node_shell.Stores.AtomicFile.{
  holds, Folder, System, IsAtomic, written, failed, write_json-IsAtomic,
}
use node_shell.Stores.Hosts.{HostConfig, HostStore, find, save, written_hosts, set_host, without}

pub find-append_one :
    (id : String) (hs : List HostConfig) (h : HostConfig)
    → find h.id hs ≡ none
    → find id (hs ++ h ∷ []) ≡ (if h.id == id then some h else find id hs)
unfolding find
find-append_one id [] h fresh = refl
find-append_one id (g ∷ hs) h fresh =
    ground (arith, find-append_one id hs h, eq_iff g.id id, eq_iff h.id id, eq_iff g.id h.id)

pub find-set_host :
    (id other : String) (hs : List HostConfig) (h updated : HostConfig)
    → updated.id ≡ id
    → find id hs ≡ some h
    → find other (set_host id updated hs) ≡ (if id == other then some updated else find other hs)
unfolding find set_host
find-set_host id other [] h updated e f = cc
find-set_host id other (g ∷ hs) h updated e f = ground (
  arith,
  find-set_host id other hs h updated,
  eq_iff g.id id,
  eq_iff g.id other,
  eq_iff id other,
  eq_iff updated.id other,
)

pub find-without :
    (id other : String) (hs : List HostConfig)
    → find other (without id hs) ≡ (if id == other then none else find other hs)
unfolding find without
find-without id other [] = ground arith
find-without id other (g ∷ hs) =
    ground (arith, find-without id other hs, eq_iff g.id id, eq_iff g.id other, eq_iff id other)

-- What a save ends with: the hosts are in memory, and they are in the file too or the file is as it
-- was and the call fails.
pub data Saved (hosts : List HostConfig) (s : HostStore) : HostStore × Option Error → Type 0 where
  on_disk :
      (folder : Folder (List HostConfig))
      → folder.target ≡ holds (some hosts)
      → Saved hosts s (record { folder = folder; cache = some hosts }, none)
  in_memory :
      (folder : Folder (List HostConfig)) (e : Error)
      → folder.target ≡ s.folder.target
      → Saved hosts s (record { folder = folder; cache = some hosts }, some e)

pub save-Saved :
    (os : System) (hosts : List HostConfig) (s : HostStore)
    → s.folder.temp ≡ none
    → Saved hosts s (save os hosts s)
unfolding save
save-Saved os hosts s clean = by (write_json-IsAtomic os hosts s.folder clean)
  where
    by :
        {p : Folder (List HostConfig) × Option String}
        → IsAtomic os.remove hosts s.folder p
        → Saved hosts s (written_hosts hosts p)
    by written = on_disk _ refl
    by (failed error same c l) = in_memory _ _ same
