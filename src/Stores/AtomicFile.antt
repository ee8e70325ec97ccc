-- ===== src/Stores/AtomicFile.antt =====
-- internal/atomicfile/atomicfile.go: the write of a file by a temporary file and a rename.
use node_shell.Base.{
  ℕ, zero, suc, ◌+◌, ◌≤◌, ◌<◌, ◌≡◌, refl, String, Option, none, some, inl, inr, arith, Option-cases,
  Bool-cases, ltb, sym, List, ◌∷◌, ◌⊎◌, is_some, ap, true,
}

-- A file: not there, not readable, no text of the expected shape, or a value, where `none` is JSON's
-- null.
pub data Content {ℓ} (A : Type ℓ) : Type ℓ where
  absent corrupt : Content A
  unreadable : String → Content A
  holds : Option A → Content A

-- The file; the temporary file of a write under way, of which only that write knows the name; and those
-- of earlier writes that could not be removed, whose names nobody knows any more.
pub record Folder {ℓ} (A : Type ℓ) : Type ℓ where
  pub target : Content A
  pub temp : Option (Option A)
  pub leftover : List (Option A)

-- The answers of the operating system to the calls of one write: an error's text, or none.
pub record System : Type 0 where
  pub make_dir : Option String
  pub create_temp : Option String
  pub write : Option String
  pub sync : Option String
  pub close : Option String
  pub rename : ℕ → Option String
  pub remove : Option String

-- The loop of `replace`, with the attempts left, the next attempt and the last error.
unfoldable pub replace_loop : ℕ → ℕ → (ℕ → Option String) → Option String → Option String
replace_loop zero attempt rename error = error
replace_loop (suc left) attempt rename error =
    let later = replace_loop left (suc attempt) rename in
    elim (rename attempt) [ none ↦ none | some e ↦ later (some e) ]

unfoldable pub replace : (ℕ → Option String) → Option String
unfolding replace_loop
replace rename = replace_loop 6 0 rename none

module _ {ℓ} {A : Type ℓ} where
  abbrev stays : Option (Option A) → List (Option A) → List (Option A)
  stays none left = left
  stays (some contents) left = contents ∷ left

  -- The deferred cleanup of a write that is not done: the removal may fail, and its error is dropped.
  abbrev clean_up : Option String → Folder A → Folder A
  clean_up none f = record f { temp = none }
  clean_up (some ignored) f = record f { temp = none; leftover = stays f.temp f.leftover }

  abbrev abort : Option String → String → Folder A → Folder A × Option String
  abort removal error f = (clean_up removal f, some error)

  -- A call of the system: its error ends the write.
  abbrev try :
      Option String
      → Option String
      → (Folder A → Folder A × Option String)
      → Folder A
      → Folder A × Option String
  try removal none k f = k f
  try removal (some error) k f = abort removal error f

  -- The rename over the target.
  abbrev publish : Option String → A → Option String → Folder A → Folder A × Option String
  publish removal value none f = (record f { target = holds (some value); temp = none }, none)
  publish removal value (some error) f = abort removal error f

  abbrev begin : Folder A → Folder A
  begin f = record f { temp = some none }

  abbrev fill : A → Folder A → Folder A
  fill value f = record f { temp = some (some value) }

  -- `Write`, of a value whose text `WriteJSON` has made.
  abbrev make_temp :
      Option String
      → Option String
      → (Folder A → Folder A × Option String)
      → Folder A
      → Folder A × Option String
  make_temp none none k f = k (begin f)
  make_temp none (some error) k f = (f, some error)
  make_temp (some error) created k f = (f, some error)

  abbrev publish_synced : System → A → Folder A → Folder A × Option String
  publish_synced os value f =
      try os.remove os.sync (try os.remove os.close (publish os.remove value (replace os.rename)))
        (fill value f)

  unfoldable pub write_json : System → A → Folder A → Folder A × Option String
  unfolding replace
  write_json os value f =
      make_temp os.make_dir os.create_temp (try os.remove os.write (publish_synced os value)) f

  -- What a write that is atomic may end with, by what its removal of the temporary file answers: the
  -- value is in the file, and no error; or an error, and the file as it was. No temporary file of it
  -- stays, unless it fails and so does the removal.
  pub data IsAtomic (removal : Option String) (value : A) (f : Folder A)
      : Folder A × Option String → Type ℓ where
    written : IsAtomic removal value f (record f { target = holds (some value); temp = none }, none)
    failed :
        (error : String) {g : Folder A}
        → g.target ≡ f.target
        → g.temp ≡ none
        → (g.leftover ≡ f.leftover) ⊎ (is_some removal ≡ true)
        → IsAtomic removal value f (g, some error)

  module _ (removal : Option String) (value : A) (f : Folder A) where
    abort-IsAtomic :
        (o : Option String) (error : String) (g : Folder A)
        → removal ≡ o
        → g.target ≡ f.target
        → g.leftover ≡ f.leftover
        → IsAtomic removal value f (abort o error g)
    abort-IsAtomic none error g e same left = failed error same refl (inl left)
    abort-IsAtomic (some x) error g e same left = failed error same refl (inr (ap is_some e))

    publish-IsAtomic :
        (o : Option String)
        → IsAtomic removal value f (publish removal value o (fill value (begin f)))
    publish-IsAtomic none = written
    publish-IsAtomic (some error) =
        abort-IsAtomic removal error (fill value (begin f)) refl refl refl

    try-IsAtomic :
        (g : Folder A) (o : Option String) (k : Folder A → Folder A × Option String)
        → g.target ≡ f.target
        → g.leftover ≡ f.leftover
        → IsAtomic removal value f (k g)
        → IsAtomic removal value f (try removal o k g)
    try-IsAtomic g none k same left h = h
    try-IsAtomic g (some error) k same left h = abort-IsAtomic removal error g refl same left

    make_temp-IsAtomic :
        (a b : Option String) (k : Folder A → Folder A × Option String)
        → f.temp ≡ none
        → IsAtomic removal value f (k (begin f))
        → IsAtomic removal value f (make_temp a b k f)
    make_temp-IsAtomic none none k clean h = h
    make_temp-IsAtomic none (some error) k clean h = failed error refl clean (inl refl)
    make_temp-IsAtomic (some error) b k clean h = failed error refl clean (inl refl)

  -- Where no other write is under way, a write is done whole or not at all, whatever calls of the system
  -- fail: it reports no error and the file holds the value, or it reports an error and the file is as it
  -- was. It leaves no temporary file, unless it fails and so does the removal of that file.
  pub write_json-IsAtomic :
      (os : System) (value : A) (f : Folder A)
      → f.temp ≡ none
      → IsAtomic os.remove value f (write_json os value f)
  unfolding write_json
  write_json-IsAtomic os value f clean =
      let filled = fill value (begin f) in
      let publishing = publish os.remove value (replace os.rename) in
      make_temp-IsAtomic os.remove value f os.make_dir os.create_temp
        (try os.remove os.write (publish_synced os value)) clean
        (try-IsAtomic os.remove value f (begin f) os.write (publish_synced os value) refl refl (
          try-IsAtomic os.remove value f filled os.sync (try os.remove os.close publishing) refl
            refl
            (try-IsAtomic os.remove value f filled os.close publishing refl refl
              (publish-IsAtomic os.remove value f (replace os.rename)))))

replace_loop-none :
    (rename : ℕ → Option String) (left attempt : ℕ) (last : Option String) (k : ℕ)
    → attempt ≤ k
    → k < attempt + left
    → rename k ≡ none
    → replace_loop left attempt rename last ≡ none
unfolding replace_loop
replace_loop-none rename zero attempt last k a b e = absurd (omega (arith, a, b))
replace_loop-none rename (suc left) attempt last k a b e = elim (Option-cases (rename attempt)) [
  | inl x ↦ rw (x, replace_loop) refl
  | inr (error, x) ↦
      let later : suc attempt ≤ k = elim (Bool-cases (ltb attempt k)) [
        | inl y ↦ ground arith
        | inr y ↦
            (let q : attempt ≡ k = ground arith in
              let z : rename k ≡ some error = rw (sym q) x in cc)
      ] in
      rw (x, replace_loop)
        (replace_loop-none rename left (suc attempt) (some error) k later (omega (arith, b)) e)
]

-- A rename that fails for a while is tried again: the replacement succeeds if one of the first six
-- attempts does.
pub replace-none :
    (rename : ℕ → Option String) (k : ℕ) → k < 6 → rename k ≡ none → replace rename ≡ none
unfolding replace
replace-none rename k l e = replace_loop-none rename 6 0 none k (omega arith) (omega (arith, l)) e
