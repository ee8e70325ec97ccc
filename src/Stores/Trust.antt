-- ===== src/Stores/Trust.antt =====
-- Which hosts the store of fingerprints trusts, in memory and behind a restart.
use node_shell.Base.{
  String, Option, none, some, ℤ, Dict, lookup, insert, ◌==◌, if◌then◌else◌, Error, Result, ok, err,
  ◌≡◌, refl, ap, ◌∙◌, lookup-insert,
}
use node_shell.Stores.AtomicFile.{
  holds, Folder, System, IsAtomic, written, failed, write_json-IsAtomic,
}
use node_shell.Stores.KnownHosts
use node_shell.Stores.KnownHosts.{
  Store, CheckResult, key, read, keep_read, ensure_from, ensure, entries, verdict, check_locked,
  check_loaded, check, check_sync, remember_loaded, remember,
}

abbrev Fingerprints : Type 0
Fingerprints = Dict String

-- What a call of `Remember` ends with, where the store `t` is the one with the cache read.
data Remembered (next : Fingerprints) (t : Store) : Store × Option Error → Type 0 where
  trusted :
      (folder : Folder Fingerprints)
      → folder.target ≡ holds (some next)
      → Remembered next t (record { folder = folder; cache = some next }, none)
  refused :
      (folder : Folder Fingerprints) (e : Error)
      → folder.target ≡ t.folder.target
      → Remembered next t (record t { folder = folder }, some e)

written-Remembered :
    (next : Fingerprints) (t : Store) {removal : Option String}
    {p : Folder Fingerprints × Option String}
    → IsAtomic removal next t.folder p
    → Remembered next t (KnownHosts.written next t p)
written-Remembered next t written = trusted _ refl
written-Remembered next t (failed error same clean left) = refused _ _ same

ensure_from-folder : (o : Option Fingerprints) (s : Store) → (ensure_from o s).0.folder ≡ s.folder
ensure_from-folder (some cache) s = refl
ensure_from-folder none s = kept (read s.folder.target)
  where
    kept : (r : Result (Option Fingerprints)) → (keep_read r s).0.folder ≡ s.folder
    kept (ok c) = refl
    kept (err e) = refl

module _ (os : System) (host : String) (port : ℤ) (fingerprint : String) where
  remember_loaded-Remembered :
      (r : Store × Option Error)
      → r.0.folder.temp ≡ none
      → Remembered
          (insert (key host port) fingerprint (entries r.0.cache))
          r.0
          (remember_loaded os host port fingerprint r)
  remember_loaded-Remembered (t, some e) clean = refused t.folder e refl
  remember_loaded-Remembered (t, none) clean =
      written-Remembered (insert (key host port) fingerprint (entries t.cache)) t (
        write_json-IsAtomic os (insert (key host port) fingerprint (entries t.cache)) t.folder
          clean)

  remember-Remembered :
      (s : Store)
      → s.folder.temp ≡ none
      → Remembered
          (insert (key host port) fingerprint (entries (ensure s).0.cache))
          (ensure s).0
          (remember os host port fingerprint s)
  unfolding remember ensure
  remember-Remembered s clean =
      remember_loaded-Remembered (ensure_from s.cache s)
        (ap (λ (f : Folder Fingerprints). f.temp) (ensure_from-folder s.cache s) ∙ clean)

-- The verdict of a check, where the file still reads as when the cache was ensured.
ensured-check :
    (s : Store) (folder : Folder Fingerprints) (host : String) (port : ℤ) (fingerprint : String)
    → folder.target ≡ (ensure s).0.folder.target
    → (check host port fingerprint (record (ensure s).0 { folder = folder })).1
      ≡ (check host port fingerprint s).1
unfolding check ensure check_locked
ensured-check s folder host port fingerprint same = by_cache s.folder s.cache same
  where
    by_read :
        (f : Folder Fingerprints) (r : Result (Option Fingerprints))
        → read folder.target ≡ r
        → (check_loaded host port fingerprint (
            ensure_from
              (keep_read r (record { folder = f; cache = none })).0.cache
              (record (keep_read r (record { folder = f; cache = none })).0 { folder = folder }))).1
          ≡ (check_loaded host port fingerprint
              (keep_read r (record { folder = f; cache = none }))).1
    by_read f (err e) q = rw q refl
    by_read f (ok none) q = rw q refl
    by_read f (ok (some c)) q = refl

    by_cache :
        (f : Folder Fingerprints) (c : Option Fingerprints)
        → folder.target ≡ (ensure_from c (record { folder = f; cache = c })).0.folder.target
        → (check_loaded host port fingerprint (
            ensure_from
              (ensure_from c (record { folder = f; cache = c })).0.cache
              (record (ensure_from c (record { folder = f; cache = c })).0 { folder = folder }))).1
          ≡ (check_loaded host port fingerprint
              (ensure_from c (record { folder = f; cache = c }))).1
    by_cache f (some c) same' = refl
    by_cache f none same' = by_read f (read f.target) (
        ap read (
          same'
          ∙ ap (λ (g : Folder Fingerprints). g.target)
              (ensure_from-folder none (record { folder = f; cache = none }))))

module _ (os : System) (host : String) (port : ℤ) (fingerprint : String) (s : Store)
    (clean : s.folder.temp ≡ none) where
  -- Where `Remember` reports no error, every check that follows answers by the fingerprint remembered
  -- for that host and port, and as before for every other key.
  pub remember-check :
      (host' : String) (port' : ℤ) (fingerprint' : String)
      → (remember os host port fingerprint s).1 ≡ none
      → check_sync host' port' fingerprint' (remember os host port fingerprint s).0
        ≡ ok (
            verdict fingerprint' (
              if key host port == key host' port'
              then some fingerprint
              else lookup (key host' port') (entries (ensure s).0.cache)))
  unfolding check_sync check_locked
  remember-check host' port' fingerprint' =
      by (remember-Remembered os host port fingerprint s clean)
    where
      by :
          {r : Store × Option Error}
          → Remembered
              (insert (key host port) fingerprint (entries (ensure s).0.cache))
              (ensure s).0
              r
          → r.1 ≡ none
          → KnownHosts.sync_from host' port' fingerprint' r.0 r.0.cache
            ≡ ok (
                verdict fingerprint' (
                  if key host port == key host' port'
                  then some fingerprint
                  else lookup (key host' port') (entries (ensure s).0.cache)))
      by (trusted folder e) n =
          ap (λ o. ok (verdict fingerprint' o))
            (lookup-insert (key host port) (key host' port') fingerprint
              (entries (ensure s).0.cache))
      by (refused folder e same) n = cc

  -- Where it reports an error, nothing is trusted that was not before: every check answers as it would
  -- have, and the file is as it was.
  pub remember-refuses :
      (e : Error)
      → (remember os host port fingerprint s).1 ≡ some e
      → ((remember os host port fingerprint s).0.folder.target ≡ s.folder.target)
        × ((host' : String) (port' : ℤ) (fingerprint' : String)
            → (check host' port' fingerprint' (remember os host port fingerprint s).0).1
              ≡ (check host' port' fingerprint' s).1)
  remember-refuses e = by (remember-Remembered os host port fingerprint s clean)
    where
      unfolded : (ensure s).0.folder ≡ s.folder
      unfolded = unfold ensure in ensure_from-folder s.cache s

      by :
          {r : Store × Option Error}
          → Remembered
              (insert (key host port) fingerprint (entries (ensure s).0.cache))
              (ensure s).0
              r
          → r.1 ≡ some e
          → (r.0.folder.target ≡ s.folder.target)
            × ((host' : String) (port' : ℤ) (fingerprint' : String)
                → (check host' port' fingerprint' r.0).1 ≡ (check host' port' fingerprint' s).1)
      by (trusted folder e') n = cc
      by (refused folder e' same) n = (
        same ∙ ap (λ (g : Folder Fingerprints). g.target) unfolded,
        λ host' port' fingerprint'. ensured-check s folder host' port' fingerprint' same,
      )

  -- Where it reports no error, a store that is opened anew on the file answers every check as the
  -- store in memory does.
  pub remember-durable :
      (host' : String) (port' : ℤ) (fingerprint' : String)
      → (remember os host port fingerprint s).1 ≡ none
      → (check host' port' fingerprint'
          (record (remember os host port fingerprint s).0 { cache = none })).1
        ≡ (check host' port' fingerprint' (remember os host port fingerprint s).0).1
  unfolding check ensure read check_locked
  remember-durable host' port' fingerprint' =
      by (remember-Remembered os host port fingerprint s clean)
    where
      by :
          {r : Store × Option Error}
          → Remembered
              (insert (key host port) fingerprint (entries (ensure s).0.cache))
              (ensure s).0
              r
          → r.1 ≡ none
          → (check host' port' fingerprint' (record r.0 { cache = none })).1
            ≡ (check host' port' fingerprint' r.0).1
      by (trusted folder e) n = rw e refl
      by (refused folder e same) n = cc
