-- ===== src/Prelude/Eq.antt =====
-- Equality of keys as an interface, with the instances that the program's maps use.
use Prim.Native.Nat.{ℕ}
use Prim.Native.String.{String}
use mathlib.Core.Path.{◌≡◌, refl}
use mathlib.Core.Logic.{◌↔◌}
use mathlib.Core.Bool.{Bool, true, false, ◌&&◌}
use mathlib.Core.List.{List, [], ◌∷◌}
use native.Mathlib.Omega.{arith}
use text.Mathlib.Text.{◌==◌ as str_eq}
use text.Mathlib.TextEquality.{eq_iff}
use skvs.Prelude.Tests.{nat_beq, nat_beq_iff}

-- Whether two keys are the same one.
pub record KeyEq {ℓ} (K : Type ℓ) : Type ℓ where
  pub same_key : K → K → Bool
  pub same_key_iff : (j k : K) → (same_key j k ≡ true) ↔ (j ≡ k)

infix 50 ◌==◌
abbrev pub ◌==◌ {ℓ} : {K : Type ℓ} ⦃keq : KeyEq K⦄ → K → K → Bool
◌==◌ ⦃keq⦄ = keq.same_key

instance abbrev pub string_eq : KeyEq String
string_eq = record { same_key = str_eq; same_key_iff = eq_iff }

instance abbrev pub nat_eq : KeyEq ℕ
nat_eq = record { same_key = nat_beq; same_key_iff = nat_beq_iff }

module _ {ℓ} {A : Type ℓ} ⦃e : KeyEq A⦄ where
  pub ==-refl : (a : A) → (a == a) ≡ true
  ==-refl a = (e.same_key_iff a a).1 refl

  abbrev pub list_beq : List A → List A → Bool
  list_beq [] [] = true
  list_beq (x ∷ xs) (y ∷ ys) = x == y && list_beq xs ys
  list_beq _ _ = false

  pub list_beq_iff : (xs ys : List A) → (list_beq xs ys ≡ true) ↔ (xs ≡ ys)
  list_beq_iff [] [] = ground arith
  list_beq_iff [] (y ∷ ys) = ground arith
  list_beq_iff (x ∷ xs) [] = ground arith
  list_beq_iff (x ∷ xs) (y ∷ ys) = ground (arith, e.same_key_iff x y, list_beq_iff xs ys)

instance abbrev pub bytes_eq : KeyEq (List ℕ)
bytes_eq = record { same_key = list_beq; same_key_iff = list_beq_iff }

abbrev pub path_beq : ℕ × String × String → ℕ × String × String → Bool
path_beq (d, t, k) (d', t', k') = nat_beq d d' && str_eq t t' && str_eq k k'

pub path_beq_iff : (p q : ℕ × String × String) → (path_beq p q ≡ true) ↔ (p ≡ q)
path_beq_iff (d, t, k) (d', t', k') = ground (arith, nat_beq_iff d d', eq_iff t t', eq_iff k k')

instance abbrev pub path_eq : KeyEq (ℕ × String × String)
path_eq = record { same_key = path_beq; same_key_iff = path_beq_iff }

abbrev pub name_beq : String × String → String × String → Bool
name_beq (s, t) (s', t') = str_eq s s' && str_eq t t'

pub name_beq_iff : (p q : String × String) → (name_beq p q ≡ true) ↔ (p ≡ q)
name_beq_iff (s, t) (s', t') = ground (arith, eq_iff s s', eq_iff t t')

instance abbrev pub name_eq : KeyEq (String × String)
name_eq = record { same_key = name_beq; same_key_iff = name_beq_iff }
