-- ===== src/Expr/Arithmetic.antt =====
-- src/expr.rs: arithmetic, coercions to f64 and to text.
use Prim.Native.String.{◌++◌}
use Prim.Native.Nat.{◌-◌, ◌^◌}
use skvs.Prelude.{String, Bool, true, false, ◌&&◌, Option, none, some, unwrap_or, if◌then◌else◌}
use skvs.Prelude.Int.{pos, rem_i64}
use skvs.Externs.{Externs, F64, is_equal, is_less}
use skvs.Text.{i64_to_string}
use skvs.Value.{Value, null, integer, real, text, blob}
use skvs.Expr.Ast.{BinaryOperator}

abbrev pub bool_val : Bool → Value
bool_val true = integer (pos 1)
bool_val false = integer (pos 0)

abbrev pub both_int : Value → Value → Bool
both_int (integer _) (integer _) = true
both_int _ _ = false

module _ (x : Externs) where
  unfoldable pub to_f64 : Value → Option F64
  to_f64 (integer i) = some (x.f64_of_i64 i)
  to_f64 (real f) = some f
  to_f64 _ = none

  unfoldable pub to_display_string : Value → String
  to_display_string null = ""
  to_display_string (integer i) = i64_to_string i
  to_display_string (real f) = x.f64_to_string f
  to_display_string (text s) = s
  to_display_string (blob b) = "x'" ++ x.hex_encode b ++ "'"

  unfoldable pub numeric_result : F64 → Bool → Value
  numeric_result f prefer_int =
      if prefer_int
        && is_equal (x.partial_cmp (x.f64_fract f) 0)
        && is_less (x.partial_cmp (x.f64_abs f) (x.f64_of_i64 (pos (2 ^ 63 - 1))))
      then integer (x.i64_of_f64 f)
      else real f

  modulo : Value → Value → F64 → F64 → Value
  modulo (integer li) (integer ri) lf rf = integer (unwrap_or (rem_i64 li ri) x.after_panic)
  modulo l r lf rf = real (x.f64_rem lf rf)

  compute : Value → BinaryOperator → Value → F64 → F64 → Value
  unfolding numeric_result modulo
  compute l BinaryOperator.plus r lf rf = numeric_result (x.f64_add lf rf) (both_int l r)
  compute l BinaryOperator.minus r lf rf = numeric_result (x.f64_sub lf rf) (both_int l r)
  compute l BinaryOperator.multiply r lf rf = numeric_result (x.f64_mul lf rf) (both_int l r)
  compute l BinaryOperator.divide r lf rf =
      if is_equal (x.partial_cmp rf 0) then null else numeric_result (x.f64_div lf rf) false
  compute l BinaryOperator.modulo r lf rf =
      if is_equal (x.partial_cmp rf 0) then null else modulo l r lf rf
  compute l _ r lf rf = null

  unfoldable pub arithmetic : Value → BinaryOperator → Value → Value
  unfolding to_f64 compute
  arithmetic l op r = elim (to_f64 l) [
    | none ↦ null
    | some lf ↦ elim (to_f64 r) [ none ↦ null | some rf ↦ compute l op r lf rf ]
  ]
