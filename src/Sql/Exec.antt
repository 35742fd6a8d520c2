-- ===== src/Sql/Exec.antt =====
-- Statements as actions on the state: a result, and the state that is left in either case.
use skvs.Error.{SkvsError, Result, ok, err}
use skvs.Prelude.{List, [], ◌∷◌}
use skvs.State.{KvsState}
use skvs.Sql.Env.{Exec}

module _ {ℓ} {A : Type ℓ} where
  abbrev pub pure : A → Exec A
  pure a s = (ok a, s)

  abbrev pub raise : SkvsError → Exec A
  raise e s = (err e, s)

  abbrev pub lift : Result A → Exec A
  lift r s = (r, s)

  abbrev pub gets : (KvsState → A) → Exec A
  gets f s = (ok (f s), s)

  -- A read of the state that may fail.
  abbrev pub asks : (KvsState → Result A) → Exec A
  asks f s = (f s, s)

abbrev pub modify : (KvsState → KvsState) → Exec (Unit {0})
modify f s = (ok tt, f s)

module _ {ℓ κ} {A : Type ℓ} {B : Type κ} where
  abbrev pub continue : Result A → (A → Exec B) → Exec B
  continue (ok a) f s = f a s
  continue (err e) f s = (err e, s)

  infixl 5 ◌>>=◌
  abbrev pub ◌>>=◌ : Exec A → (A → Exec B) → Exec B
  ◌>>=◌ m f s = let (r, s') = m s in continue r f s'

infixl 5 ◌>>◌
abbrev pub ◌>>◌ {κ} : {B : Type κ} → Exec (Unit {0}) → Exec B → Exec B
m >> n = m >>= λ _. n

-- `for a in list { f(a)?; }`
unfoldable pub for_each {ℓ} : {A : Type ℓ} → (A → Exec (Unit {0})) → List A → Exec (Unit {0})
for_each f [] s = (ok tt, s)
for_each f (a ∷ as') s = let rest = for_each f as' in continue (f a s).0 (λ _. rest) (f a s).1
