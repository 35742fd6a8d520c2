-- ===== src/Value/Equal.antt =====
-- src/schema.rs: the derived equality of values against the order behind the indexes.
use package.text.Mathlib.TextEquality.{eq_iff}
use skvs.Prelude.{
  true, ◌≡◌, refl, sym, ap, ◌∙◌, inl, inr, nat_eq, string_eq, bytes_eq, Bool-cases, list_beq_iff,
  arith,
}
use skvs.Prelude.Int.{int_beq_iff}
use skvs.Value.{Value, null, integer, real, text, blob, value_eq}
use skvs.Value.Order.{is_plain}
use skvs.Externs.{Externs}
use skvs.Index.Ids.{same, same-eq, same_refl}

module _ (x : Externs) where
  value_eq-eq :
      (v w : Value) → is_plain v ≡ true → is_plain w ≡ true → value_eq x v w ≡ true → v ≡ w
  unfolding value_eq
  value_eq-eq null null p q h = refl
  value_eq-eq (integer a) (integer b) p q h = ap integer ((int_beq_iff a b).0 h)
  value_eq-eq (text a) (text b) p q h = ap text ((eq_iff a b).0 h)
  value_eq-eq (blob a) (blob b) p q h = ap blob ((list_beq_iff a b).0 h)
  value_eq-eq (real a) w p q h = ground arith
  value_eq-eq v (real b) p q h = ground arith
  value_eq-eq null (integer b) p q h = ground arith
  value_eq-eq null (text b) p q h = ground arith
  value_eq-eq null (blob b) p q h = ground arith
  value_eq-eq (integer a) null p q h = ground arith
  value_eq-eq (integer a) (text b) p q h = ground arith
  value_eq-eq (integer a) (blob b) p q h = ground arith
  value_eq-eq (text a) null p q h = ground arith
  value_eq-eq (text a) (integer b) p q h = ground arith
  value_eq-eq (text a) (blob b) p q h = ground arith
  value_eq-eq (blob a) null p q h = ground arith
  value_eq-eq (blob a) (integer b) p q h = ground arith
  value_eq-eq (blob a) (text b) p q h = ground arith

  value_eq_refl : (v : Value) → is_plain v ≡ true → value_eq x v v ≡ true
  unfolding value_eq
  value_eq_refl null p = refl
  value_eq_refl (integer a) p = (int_beq_iff a a).1 refl
  value_eq_refl (real a) p = ground arith
  value_eq_refl (text a) p = (eq_iff a a).1 refl
  value_eq_refl (blob a) p = (list_beq_iff a a).1 refl

  -- Without reals the two equalities of the program are one.
  pub value_eq-same :
      (v w : Value) → is_plain v ≡ true → is_plain w ≡ true → value_eq x v w ≡ same x v w
  value_eq-same v w p q = elim (Bool-cases (value_eq x v w)) [
    | inl e ↦ e ∙ sym (rw (sym (value_eq-eq v w p q e)) (same_refl x v p))
    | inr e ↦ elim (Bool-cases (same x v w)) [
      | inl k ↦
          absurd (
            ground (arith, ap (λ u. value_eq x v u) (sym (same-eq x v w p q k)), value_eq_refl v p))
      | inr k ↦ e ∙ sym k
    ]
  ]
