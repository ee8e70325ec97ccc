-- ===== src/Base/Maps.antt =====
-- A Go map with text keys, as an association list: read, write, delete.
use Prim.Native.String.{String}
use mathlib.Core.Path.{◌≡◌, refl}
use mathlib.Core.Bool.{Bool, true, false, not, ◌&&◌}
use mathlib.Core.Option.{Option, none, some}
use mathlib.Core.List.{List, [], ◌∷◌}
use native.Mathlib.Omega.{arith}
use text.Mathlib.Text.{◌==◌}
use text.Mathlib.TextEquality.{eq_iff}
use Prim.Native.Nat.{suc}
use node_shell.Base.Tests.{if◌then◌else◌}
use node_shell.Base.Lists.{length}

abbrev pub Dict {ℓ} : Type ℓ → Type ℓ
Dict V = List (String × V)

module _ {ℓ} {V : Type ℓ} where
  unfoldable pub lookup : String → Dict V → Option V
  lookup wanted [] = none
  lookup wanted ((key, value) ∷ rest) =
      let later = lookup wanted rest in if key == wanted then some value else later

  -- An assignment: in place where the key is there, and else at the end.
  unfoldable pub insert : String → V → Dict V → Dict V
  insert new value [] = (new, value) ∷ []
  insert new value ((key, old) ∷ rest) =
      let later = insert new value rest in
      if key == new then (new, value) ∷ rest else (key, old) ∷ later

  unfoldable pub delete : String → Dict V → Dict V
  delete k [] = []
  delete k ((j, v) ∷ m) = let rest = delete k m in if j == k then rest else (j, v) ∷ rest

  -- Deletion of every entry that fails a test, as a range loop that deletes does.
  unfoldable pub keep : (String → V → Bool) → Dict V → Dict V
  keep p [] = []
  keep p ((j, v) ∷ m) = let rest = keep p m in if p j v then (j, v) ∷ rest else rest

  abbrev pub is_some : Option V → Bool
  is_some none = false
  is_some (some v) = true

  -- No key stands twice.
  unfoldable pub is_map : Dict V → Bool
  unfolding lookup
  is_map [] = true
  is_map ((j, v) ∷ m) = not (is_some (lookup j m)) && is_map m

  pub lookup-insert :
      (new wanted : String) (value : V) (entries : Dict V)
      → lookup wanted (insert new value entries)
        ≡ (if new == wanted then some value else lookup wanted entries)
  unfolding insert lookup
  lookup-insert new wanted value [] = ground arith
  lookup-insert new wanted value ((key, old) ∷ rest) = ground (
    arith,
    lookup-insert new wanted value rest,
    eq_iff key new,
    eq_iff new wanted,
    eq_iff key wanted,
  )

  pub lookup-delete :
      (k j : String) (m : Dict V) → lookup j (delete k m) ≡ (if k == j then none else lookup j m)
  unfolding lookup delete
  lookup-delete k j [] = ground arith
  lookup-delete k j ((i, w) ∷ m) =
      ground (arith, lookup-delete k j m, eq_iff i k, eq_iff i j, eq_iff k j)

  pub is_map-delete : (k : String) (m : Dict V) → is_map m ≡ true → is_map (delete k m) ≡ true
  unfolding is_map delete
  is_map-delete k [] h = refl
  is_map-delete k ((i, w) ∷ m) h =
      ground (arith, is_map-delete k m, lookup-delete k i m, eq_iff i k, eq_iff k i)

  pub delete-absent : (k : String) (m : Dict V) → lookup k m ≡ none → delete k m ≡ m
  unfolding lookup delete
  delete-absent k [] h = refl
  delete-absent k ((i, w) ∷ m) h = ground (arith, delete-absent k m)

  pub length-delete :
      (k : String) (m : Dict V)
      → is_map m ≡ true
      → is_some (lookup k m) ≡ true
      → length m ≡ suc (length (delete k m))
  unfolding is_map delete lookup
  length-delete k [] d h = cc
  length-delete k ((i, w) ∷ m) d h =
      ground (arith, length-delete k m, delete-absent k m, eq_iff i k)

  pub is_map-insert :
      (k : String) (v : V) (m : Dict V) → is_map m ≡ true → is_map (insert k v m) ≡ true
  unfolding is_map insert lookup
  is_map-insert k v [] h = refl
  is_map-insert k v ((i, w) ∷ m) h =
      ground (arith, is_map-insert k v m, lookup-insert k i v m, eq_iff i k, eq_iff k i)

  abbrev pub kept : (String → V → Bool) → String → Option V → Option V
  kept p k none = none
  kept p k (some v) = if p k v then some v else none

  pub lookup-keep :
      (p : String → V → Bool) (k : String) (m : Dict V)
      → is_map m ≡ true
      → lookup k (keep p m) ≡ kept p k (lookup k m)
  unfolding is_map keep lookup
  lookup-keep p k [] h = refl
  lookup-keep p k ((i, w) ∷ m) h = ground (arith, lookup-keep p k m, eq_iff i k)

  pub is_map-keep :
      (p : String → V → Bool) (m : Dict V) → is_map m ≡ true → is_map (keep p m) ≡ true
  unfolding is_map keep lookup
  is_map-keep p [] h = refl
  is_map-keep p ((i, w) ∷ m) h = ground (arith, is_map-keep p m, lookup-keep p i m)

  pub length-insert :
      (k : String) (v : V) (m : Dict V)
      → length (insert k v m) ≡ (if is_some (lookup k m) then length m else suc (length m))
  unfolding insert lookup
  length-insert k v [] = refl
  length-insert k v ((i, w) ∷ m) = ground (arith, length-insert k v m)
