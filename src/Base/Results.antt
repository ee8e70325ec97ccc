-- ===== src/Base/Results.antt =====
-- Go's `(T, error)` returns: a value, or an error with the code and the message it carries.
use Prim.Native.String.{String}

pub record Error : Type 0 where
  pub code : String
  pub message : String

pub data Result {ℓ} (A : Type ℓ) : Type ℓ where
  ok : A → Result A
  err : Error → Result A

infixl 10 ◌>>=◌
abbrev pub ◌>>=◌ {ℓ κ} : {A : Type ℓ} {B : Type κ} → Result A → (A → Result B) → Result B
ok a >>= f = f a
err e >>= f = err e
