-- ===== src/Stores/Changes.antt =====
-- The operations on hosts as a whole: what they leave in memory, and what a restart finds.
use node_shell.Base.{
  String, Option, none, some, List, [], ◌∷◌, ◌++◌, ◌==◌, if◌then◌else◌, Error, Result, ok, err, ◌≡◌,
  refl, ap, inl, inr, ◌⊎◌,
}
use node_shell.Stores.AtomicFile.{System}
use node_shell.Stores.Hosts.{
  HostConfig, HostInput, Patch, HostStore, load_file, cached, ensure_loaded, find, get_by_id,
  find_loaded, loaded, save, new_host, returning, create, apply_patch, patched, set_host, update,
  update_found, without, remove,
}
use node_shell.Stores.Saved.{
  Saved, on_disk, in_memory, save-Saved, find-append_one, find-set_host, find-without,
}

pub data Change : Type 0 where
  creates : String → HostInput → Change
  updates : String → Patch → Change
  removes : String → Change

abbrev pub drop_value {ℓ} : {A : Type ℓ} → HostStore × Result A → HostStore × Option Error
drop_value (s, ok a) = (s, none)
drop_value (s, err e) = (s, some e)

abbrev pub perform : System → Change → HostStore → HostStore × Option Error
perform os (creates id input) s = drop_value (create os id input s)
perform os (updates id patch) s = drop_value (update os id patch s)
perform os (removes id) s = remove os id s

-- The answer of a lookup behind a change, given the hosts before it. A patch of an unknown id changes
-- nothing.
abbrev pub after : Change → String → List HostConfig → Option HostConfig
after (creates id input) other hosts =
    if id == other then some (new_host id input) else find other hosts
after (updates id patch) other hosts = elim (find id hosts) [
  | none ↦ find other hosts
  | some h ↦ if id == other then some (patched id h patch) else find other hosts
]
after (removes id) other hosts = if id == other then none else find other hosts

-- The ids that a change draws are new.
abbrev pub IsFresh : Change → List HostConfig → Type 0
IsFresh (creates id input) hosts = find id hosts ≡ none
IsFresh _ hosts = Unit

-- What a change ends with, of a store that holds `hosts`: it has saved others, or it has failed and
-- keeps them.
data Changed (hosts : List HostConfig) (s : HostStore) (answer : String → Option HostConfig)
    : HostStore × Option Error → Type 0 where
  saves :
      {r : HostStore × Option Error} (hosts' : List HostConfig)
      → ((other : String) → find other hosts' ≡ answer other)
      → Saved hosts' s r
      → Changed hosts s answer r
  keeps :
      (e : Error)
      → ((other : String) → find other hosts ≡ answer other)
      → Changed hosts s answer (loaded s hosts, some e)

dropped-returning {ℓ} :
    {A : Type ℓ} (a : A) (r : HostStore × Option Error) → drop_value (returning a r) ≡ r
dropped-returning a (s, none) = refl
dropped-returning a (s, some e) = refl

module _ (os : System) (s : HostStore) (hosts : List HostConfig)
    (clean : s.folder.temp ≡ none) where
  update_found-Changed :
      (id : String) (patch : Patch) (o : Option HostConfig)
      → find id hosts ≡ o
      → Changed hosts s
          (λ other. after (updates id patch) other hosts)
          (drop_value (update_found os id patch s hosts o))
  unfolding apply_patch
  update_found-Changed id patch none e = keeps _ (λ other. rw (e, after) refl)
  update_found-Changed id patch (some h) e =
      rw
        (dropped-returning (patched id h patch)
          (save os (set_host id (patched id h patch) hosts) s))
        (saves (set_host id (patched id h patch) hosts)
          (λ other. rw (e, after) (find-set_host id other hosts h (patched id h patch) refl e))
          (save-Saved os (set_host id (patched id h patch) hosts) s clean))

  perform-Changed :
      (c : Change)
      → ensure_loaded s ≡ ok hosts
      → IsFresh c hosts
      → Changed hosts s (λ other. after c other hosts) (perform os c s)
  unfolding create update remove
  perform-Changed (creates id input) e fresh =
      rw (e, dropped-returning (new_host id input) (save os (hosts ++ new_host id input ∷ []) s))
        (saves (hosts ++ new_host id input ∷ [])
          (λ other. find-append_one other hosts (new_host id input) fresh)
          (save-Saved os (hosts ++ new_host id input ∷ []) s clean))
  perform-Changed (updates id patch) e fresh =
      rw e (update_found-Changed id patch (find id hosts) refl)
  perform-Changed (removes id) e fresh = rw e (
      saves (without id hosts) (λ other. find-without id other hosts)
        (save-Saved os (without id hosts) s clean))

  -- Whether or not it can be written, a change is what the store answers by from then on: the host of
  -- the changed id is the new one, the patched one or gone, and every other host is as it was.
  pub get_by_id-perform :
      (c : Change) (other : String)
      → ensure_loaded s ≡ ok hosts
      → IsFresh c hosts
      → (get_by_id other (perform os c s).0).1 ≡ ok (after c other hosts)
  unfolding get_by_id ensure_loaded
  get_by_id-perform c other e fresh = by (perform-Changed c e fresh)
    where
      by :
          {r : HostStore × Option Error}
          → Changed hosts s (λ i. after c i hosts) r
          → (find_loaded other r.0 (cached r.0.cache r.0)).1 ≡ ok (after c other hosts)
      by (saves hosts' answers (on_disk folder t)) = ap ok (answers other)
      by (saves hosts' answers (in_memory folder e' t)) = ap ok (answers other)
      by (keeps e' answers) = ap ok (answers other)

  -- A change that reports no error is found by a store that is opened anew on the file; behind one
  -- that reports an error, the file is as it was.
  pub perform-durable :
      (c : Change) (other : String)
      → ensure_loaded s ≡ ok hosts
      → IsFresh c hosts
      → (((perform os c s).1 ≡ none)
          × ((get_by_id other (record (perform os c s).0 { cache = none })).1
              ≡ ok (after c other hosts)))
        ⊎ ((e : Error) × ((perform os c s).1 ≡ some e)
            × ((perform os c s).0.folder.target ≡ s.folder.target))
  unfolding get_by_id ensure_loaded load_file
  perform-durable c other e fresh = by (perform-Changed c e fresh)
    where
      by :
          {r : HostStore × Option Error}
          → Changed hosts s (λ i. after c i hosts) r
          → ((r.1 ≡ none)
              × ((find_loaded other (record r.0 { cache = none }) (load_file r.0.folder.target)).1
                  ≡ ok (after c other hosts)))
            ⊎ ((e' : Error) × (r.1 ≡ some e') × (r.0.folder.target ≡ s.folder.target))
      by (saves hosts' answers (on_disk folder t)) = inl (refl, rw t (ap ok (answers other)))
      by (saves hosts' answers (in_memory folder e' t)) = inr (e', refl, t)
      by (keeps e' answers) = inr (e', refl, refl)
