-- ===== src/Value/Order.antt =====
-- src/schema.rs: `Value::compare` is a total order on the values without reals.
use Prim.Native.Nat.{compare, Ordering}
use Prim.Native.String.{compare as str_compare, then}
use Prim.Native.String.compare.{nil-cons, cons-nil, cons-cons}
use Prim.Native.Char.{Char, code}
use package.text.Mathlib.TextEquality.{codes_equal}
use skvs.Prelude.{ℕ, String, Bool, true, false, ◌≡◌, refl, ◌∙◌, List, [], ◌∷◌, arith}
use skvs.Externs.{Externs}
use skvs.Value.{Value, null, integer, real, text, blob, compare_bytes, compare_values}

abbrev pub flip : Ordering → Ordering
flip Ordering.lt = Ordering.gt
flip Ordering.eq = Ordering.eq
flip Ordering.gt = Ordering.lt

-- A value that is not a real.
abbrev pub is_plain : Value → Bool
is_plain (real _) = false
is_plain _ = true

nat_flip : (a b : ℕ) → compare b a ≡ flip (compare a b)
nat_flip a b = ground arith

str_nil-cons : (d : Char) (t : String) → str_compare String.[] (String.◌∷◌ d t) ≡ Ordering.lt
str_nil-cons d t = nil-cons d t

str_cons-nil : (d : Char) (t : String) → str_compare (String.◌∷◌ d t) String.[] ≡ Ordering.gt
str_cons-nil d t = cons-nil d t

str_cons-cons :
    (c d : Char) (s t : String)
    → str_compare (String.◌∷◌ c s) (String.◌∷◌ d t) ≡ elim (compare (code c) (code d)) [
      | Ordering.lt ↦ Ordering.lt
      | Ordering.eq ↦ str_compare s t
      | Ordering.gt ↦ Ordering.gt
    ]
str_cons-cons c d s t = path ∙ ground arith
  where
    path :
        str_compare (String.◌∷◌ c s) (String.◌∷◌ d t)
        ≡ then (compare (code c) (code d)) (str_compare s t)
    path = cons-cons c d s t

str_flip : (s t : String) → str_compare t s ≡ flip (str_compare s t)
str_flip String.[] String.[] = refl
str_flip String.[] (String.◌∷◌ d t) = ground (arith, str_nil-cons d t, str_cons-nil d t)
str_flip (String.◌∷◌ c s) String.[] = ground (arith, str_nil-cons c s, str_cons-nil c s)
str_flip (String.◌∷◌ c s) (String.◌∷◌ d t) =
    ground (arith, str_flip s t, str_cons-cons c d s t, str_cons-cons d c t s)

bytes_flip : (s t : List ℕ) → compare_bytes t s ≡ flip (compare_bytes s t)
bytes_flip [] [] = refl
bytes_flip [] (b ∷ t) = refl
bytes_flip (a ∷ s) [] = refl
bytes_flip (a ∷ s) (b ∷ t) = ground (arith, bytes_flip s t, nat_flip a b)

str_eq : (s t : String) → str_compare s t ≡ Ordering.eq → s ≡ t
str_eq String.[] String.[] h = refl
str_eq String.[] (String.◌∷◌ d t) h = absurd (ground (arith, str_nil-cons d t))
str_eq (String.◌∷◌ c s) String.[] h = absurd (ground (arith, str_cons-nil c s))
str_eq (String.◌∷◌ c s) (String.◌∷◌ d t) h =
    ground (arith, str_eq s t, codes_equal c d, str_cons-cons c d s t)

bytes_eq : (s t : List ℕ) → compare_bytes s t ≡ Ordering.eq → s ≡ t
bytes_eq [] [] h = refl
bytes_eq [] (b ∷ t) h = ground arith
bytes_eq (a ∷ s) [] h = ground arith
bytes_eq (a ∷ s) (b ∷ t) h = ground (arith, bytes_eq s t)

str_trans :
    (s t u : String)
    → str_compare s t ≡ Ordering.lt
    → str_compare t u ≡ Ordering.lt
    → str_compare s u ≡ Ordering.lt
str_trans String.[] t String.[] h k = ground (arith, str_flip t String.[], h, k)
str_trans String.[] t (String.◌∷◌ e u) h k = str_nil-cons e u
str_trans (String.◌∷◌ c s) String.[] u h k = absurd (ground (arith, str_cons-nil c s))
str_trans (String.◌∷◌ c s) (String.◌∷◌ d t) String.[] h k =
    absurd (ground (arith, str_cons-nil d t))
str_trans (String.◌∷◌ c s) (String.◌∷◌ d t) (String.◌∷◌ e u) h k = ground (
  arith,
  str_trans s t u,
  str_cons-cons c d s t,
  str_cons-cons d e t u,
  str_cons-cons c e s u,
  codes_equal c d,
  codes_equal d e,
)

bytes_trans :
    (s t u : List ℕ)
    → compare_bytes s t ≡ Ordering.lt
    → compare_bytes t u ≡ Ordering.lt
    → compare_bytes s u ≡ Ordering.lt
bytes_trans [] [] u h k = ground arith
bytes_trans [] (b ∷ t) [] h k = ground arith
bytes_trans [] (b ∷ t) (c ∷ u) h k = refl
bytes_trans (a ∷ s) [] u h k = ground arith
bytes_trans (a ∷ s) (b ∷ t) [] h k = ground arith
bytes_trans (a ∷ s) (b ∷ t) (c ∷ u) h k = ground (arith, bytes_trans s t u)

module _ (x : Externs) where
  -- The comparison of two values without reals is turned around when the values are exchanged.
  pub compare_values-flip :
      (a b : Value)
      → is_plain a ≡ true
      → is_plain b ≡ true
      → compare_values x b a ≡ flip (compare_values x a b)
  unfolding compare_values
  compare_values-flip null null h k = ground arith
  compare_values-flip null (integer ib) h k = ground arith
  compare_values-flip null (real fb) h k = ground arith
  compare_values-flip null (text sb) h k = ground arith
  compare_values-flip null (blob ub) h k = ground arith
  compare_values-flip (integer ia) null h k = ground arith
  compare_values-flip (integer ia) (integer ib) h k = ground arith
  compare_values-flip (integer ia) (real fb) h k = ground arith
  compare_values-flip (integer ia) (text sb) h k = ground arith
  compare_values-flip (integer ia) (blob ub) h k = ground arith
  compare_values-flip (real fa) null h k = ground arith
  compare_values-flip (real fa) (integer ib) h k = ground arith
  compare_values-flip (real fa) (real fb) h k = ground arith
  compare_values-flip (real fa) (text sb) h k = ground arith
  compare_values-flip (real fa) (blob ub) h k = ground arith
  compare_values-flip (text sa) null h k = ground arith
  compare_values-flip (text sa) (integer ib) h k = ground arith
  compare_values-flip (text sa) (real fb) h k = ground arith
  compare_values-flip (text sa) (text sb) h k = ground (arith, str_flip sa sb)
  compare_values-flip (text sa) (blob ub) h k = ground arith
  compare_values-flip (blob ua) null h k = ground arith
  compare_values-flip (blob ua) (integer ib) h k = ground arith
  compare_values-flip (blob ua) (real fb) h k = ground arith
  compare_values-flip (blob ua) (text sb) h k = ground arith
  compare_values-flip (blob ua) (blob ub) h k = ground (arith, bytes_flip ua ub)

  -- Two values without reals that compare as equal are the same value.
  pub compare_values-eq :
      (a b : Value)
      → is_plain a ≡ true
      → is_plain b ≡ true
      → compare_values x a b ≡ Ordering.eq
      → a ≡ b
  unfolding compare_values
  compare_values-eq null null h k e = ground arith
  compare_values-eq null (integer ib) h k e = ground arith
  compare_values-eq null (real fb) h k e = ground arith
  compare_values-eq null (text sb) h k e = ground arith
  compare_values-eq null (blob ub) h k e = ground arith
  compare_values-eq (integer ia) null h k e = ground arith
  compare_values-eq (integer ia) (integer ib) h k e = ground arith
  compare_values-eq (integer ia) (real fb) h k e = ground arith
  compare_values-eq (integer ia) (text sb) h k e = ground arith
  compare_values-eq (integer ia) (blob ub) h k e = ground arith
  compare_values-eq (real fa) null h k e = ground arith
  compare_values-eq (real fa) (integer ib) h k e = ground arith
  compare_values-eq (real fa) (real fb) h k e = ground arith
  compare_values-eq (real fa) (text sb) h k e = ground arith
  compare_values-eq (real fa) (blob ub) h k e = ground arith
  compare_values-eq (text sa) null h k e = ground arith
  compare_values-eq (text sa) (integer ib) h k e = ground arith
  compare_values-eq (text sa) (real fb) h k e = ground arith
  compare_values-eq (text sa) (text sb) h k e = ground (arith, str_eq sa sb)
  compare_values-eq (text sa) (blob ub) h k e = ground arith
  compare_values-eq (blob ua) null h k e = ground arith
  compare_values-eq (blob ua) (integer ib) h k e = ground arith
  compare_values-eq (blob ua) (real fb) h k e = ground arith
  compare_values-eq (blob ua) (text sb) h k e = ground arith
  compare_values-eq (blob ua) (blob ub) h k e = ground (arith, bytes_eq ua ub)

  -- Of three values without reals, one that is less than the second is less than the third if the
  -- second is.
  pub compare_values_trans :
      (a b c : Value)
      → is_plain a ≡ true
      → is_plain b ≡ true
      → is_plain c ≡ true
      → compare_values x a b ≡ Ordering.lt
      → compare_values x b c ≡ Ordering.lt
      → compare_values x a c ≡ Ordering.lt
  unfolding compare_values
  compare_values_trans (real a) b c h k l e f = ground arith
  compare_values_trans a (real b) c h k l e f = ground arith
  compare_values_trans a b (real c) h k l e f = ground arith
  compare_values_trans (integer a) (integer b) (integer c) h k l e f = ground arith
  compare_values_trans (text a) (text b) (text c) h k l e f = ground (arith, str_trans a b c)
  compare_values_trans (blob a) (blob b) (blob c) h k l e f = ground (arith, bytes_trans a b c)
  compare_values_trans a b c h k l e f = ground arith
