-- ===== src/Value.antt =====
-- src/schema.rs: the runtime values, their two equalities and their order.
pub mod Order
pub mod Equal
use Prim.Native.Nat.{compare, Ordering}
use Prim.Native.String.{compare as str_compare}
use skvs.Prelude.{
  ℕ, String, Bool, true, false, not, ◌&&◌, Option, none, some, List, [], ◌∷◌, ltb, nat_beq, ◌==◌,
  string_eq, bytes_eq, unwrap_or, if◌then◌else◌,
}
use skvs.Prelude.Int.{ℤ, pos, compare_ℤ, int_beq}
use skvs.Prelude.Map.{Map}
use skvs.Externs.{Externs, F64, is_equal}

pub data Value : Type 0 where
  null : Value
  integer : ℤ → Value
  real : F64 → Value
  text : String → Value
  blob : List ℕ → Value

-- `Row` is an `IndexMap<String, Value>`, a `RowId` a `u64`.
abbrev pub Row : Type 0
Row = Map String Value

abbrev pub RowId : Type 0
RowId = ℕ

abbrev pub type_rank : Value → ℕ
type_rank null = 0
type_rank (integer _) = 1
type_rank (real _) = 1
type_rank (text _) = 2
type_rank (blob _) = 3

-- `Vec<u8>::cmp`
abbrev pub compare_bytes : List ℕ → List ℕ → Ordering
compare_bytes [] [] = Ordering.eq
compare_bytes [] (_ ∷ _) = Ordering.lt
compare_bytes (_ ∷ _) [] = Ordering.gt
compare_bytes (a ∷ as') (b ∷ bs) = elim (compare a b) [
  | Ordering.lt ↦ Ordering.lt
  | Ordering.eq ↦ compare_bytes as' bs
  | Ordering.gt ↦ Ordering.gt
]

abbrev pub is_null : Value → Bool
is_null null = true
is_null _ = false

module _ (x : Externs) where
  unfoldable pub compare_values : Value → Value → Ordering
  compare_values null null = Ordering.eq
  compare_values null _ = Ordering.lt
  compare_values _ null = Ordering.gt
  compare_values (integer a) (integer b) = compare_ℤ a b
  compare_values (real a) (real b) = unwrap_or (x.partial_cmp a b) Ordering.eq
  compare_values (integer a) (real b) = unwrap_or (x.partial_cmp (x.f64_of_i64 a) b) Ordering.eq
  compare_values (real a) (integer b) = unwrap_or (x.partial_cmp a (x.f64_of_i64 b)) Ordering.eq
  compare_values (text a) (text b) = str_compare a b
  compare_values (blob a) (blob b) = compare_bytes a b
  compare_values a b = compare (type_rank a) (type_rank b)

  -- The derived `PartialEq`.
  unfoldable pub value_eq : Value → Value → Bool
  value_eq null null = true
  value_eq (integer a) (integer b) = int_beq a b
  value_eq (real a) (real b) = is_equal (x.partial_cmp a b)
  value_eq (text a) (text b) = a == b
  value_eq (blob a) (blob b) = a == b
  value_eq _ _ = false

  -- src/expr.rs: SQLite-style truthiness.
  unfoldable pub truthy : Value → Bool
  truthy null = false
  truthy (integer i) = not (int_beq i (pos 0))
  truthy (real f) = not (is_equal (x.partial_cmp f 0))
  truthy (text s) = not (s == "")
  truthy (blob []) = false
  truthy (blob _) = true
