-- ===== src/Error.antt =====
-- src/error.rs: the error kinds; the text of a message is not modelled. `crash` is no error of the
-- program: it stands for a panic, and for a recursion that does not come back within the fuel.
use skvs.Prelude.{Option, none, some}

pub data SkvsError : Type 0 where
  config io serialization sql_parse constraint_violation unsupported : SkvsError
  transaction schema storage trigger view json fts : SkvsError
  crash : SkvsError

pub data Result {ℓ} (A : Type ℓ) : Type ℓ where
  ok : A → Result A
  err : SkvsError → Result A

infixl 5 ◌>>=◌
abbrev pub ◌>>=◌ {ℓ κ} : {A : Type ℓ} {B : Type κ} → Result A → (A → Result B) → Result B
ok a >>= f = f a
err e >>= f = err e

-- `ok_or`
abbrev pub ok_or {ℓ} : {A : Type ℓ} → Option A → SkvsError → Result A
ok_or none e = err e
ok_or (some a) e = ok a
