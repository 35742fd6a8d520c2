-- ===== src/Expr/Eval.antt =====
-- src/expr.rs: `count_placeholders` and `eval`. The index of the next `?` parameter is threaded
-- through: an evaluator takes it and returns the value with the index after it.
pub mod Offsets
use Prim.Native.Nat.{Ordering}
use skvs.Prelude.{
  ℕ, ◌+◌, String, Bool, true, false, not, ◌&&◌, Option, none, some, List, [], ◌∷◌, unwrap_or,
  get_elem?, if◌then◌else◌,
}
use skvs.Prelude.Int.{ℤ, pos, neg_i64}
use skvs.Prelude.Map.{lookup}
use skvs.Prelude.{string_eq}
use skvs.Externs.{Externs}
use skvs.Text.{join, parse_i64}
use skvs.Value.{Value, Row, null, integer, real, text, is_null, compare_values, value_eq, truthy}
use skvs.Expr.Ast
use skvs.Expr.Ast.{Expr, Args, Whens, OptExpr, SqlValue, UnaryOperator, BinaryOperator}
use skvs.Expr.Like.{sql_like_match}
use skvs.Expr.Arithmetic.{bool_val, to_display_string, arithmetic}
use skvs.Expr.Function.{call}
use Prim.Native.String.{◌++◌ as append}

unfoldable mutual
  pub count_placeholders : Expr → ℕ
  count_placeholders (Expr.identifier _) = 0
  count_placeholders (Expr.compound_identifier _) = 0
  count_placeholders (Expr.value SqlValue.placeholder) = 1
  count_placeholders (Expr.value _) = 0
  count_placeholders (Expr.nested e) = count_placeholders e
  count_placeholders (Expr.unary_op _ e) = count_placeholders e
  count_placeholders (Expr.binary_op l _ r) = count_placeholders l + count_placeholders r
  count_placeholders (Expr.is_null e) = count_placeholders e
  count_placeholders (Expr.is_not_null e) = count_placeholders e
  count_placeholders (Expr.between e _ lo hi) =
      count_placeholders e + count_placeholders lo + count_placeholders hi
  count_placeholders (Expr.in_list e list _) = count_placeholders e + count_args list
  count_placeholders (Expr.like _ e p) = count_placeholders e + count_placeholders p
  count_placeholders (Expr.ilike _ e p) = count_placeholders e + count_placeholders p
  count_placeholders (Expr.case operand whens else_result) =
      count_opt operand + count_whens whens + count_opt else_result
  count_placeholders (Expr.function _ _ args) = count_args args
  count_placeholders (Expr.other _) = 0

  pub count_args : Args → ℕ
  count_args Args.no_args = 0
  count_args (Args.arg e rest) = count_placeholders e + count_args rest
  count_args (Args.named _ e rest) = count_placeholders e + count_args rest
  count_args (Args.wildcard rest) = count_args rest
  count_args (Args.other_arg rest) = count_args rest

  pub count_whens : Whens → ℕ
  count_whens Whens.no_whens = 0
  count_whens (Whens.when c r rest) = count_placeholders c + count_placeholders r + count_whens rest

  pub count_opt : OptExpr → ℕ
  count_opt OptExpr.absent = 0
  count_opt (OptExpr.present e) = count_placeholders e

abbrev pub Evaluator : Type 0
Evaluator = ℕ → Value × ℕ

-- A test that also threads the index.
abbrev pub Tester : Type 0
Tester = ℕ → Bool × ℕ

-- `ctx.row`
abbrev pub lookup_column : Option Row → String → Value
lookup_column none name = null
lookup_column (some r) name = unwrap_or (lookup name r) null

abbrev pub last_part : List String → Option String
last_part [] = none
last_part (p ∷ []) = some p
last_part (p ∷ q ∷ ps) = last_part (q ∷ ps)

abbrev pub find_in : Option Row → String → Option Value
find_in none name = none
find_in (some r) name = lookup name r

unfoldable pub lookup_compound : Option Row → List String → Value
unfolding join
lookup_compound ctx parts = elim (find_in ctx (join "." parts)) [
  | some v ↦ v
  | none ↦ elim (last_part parts) [ none ↦ null | some p ↦ lookup_column ctx p ]
]

module _ (x : Externs) where
  abbrev number_literal : String → Value
  number_literal n = elim (parse_i64 n) [
    | some i ↦ integer i
    | none ↦ elim (x.f64_parse n) [ some f ↦ real f | none ↦ null ]
  ]

  unfoldable pub eval_literal : List Value → SqlValue → Evaluator
  eval_literal params (SqlValue.number n) i = (number_literal n, i)
  eval_literal params (SqlValue.single_quoted_string s) i = (text s, i)
  eval_literal params (SqlValue.double_quoted_string s) i = (text s, i)
  eval_literal params SqlValue.null i = (null, i)
  eval_literal params (SqlValue.boolean b) i = (bool_val b, i)
  eval_literal params SqlValue.placeholder i = (unwrap_or (get_elem? params i) null, i + 1)
  eval_literal params SqlValue.other i = (null, i)

  abbrev pub minus_value : Value → Value
  minus_value (integer i) = integer (neg_i64 i)
  minus_value (real f) = real (x.f64_neg f)
  minus_value v = v

  unfoldable pub unary : UnaryOperator → Value → Value
  unary UnaryOperator.minus v = minus_value v
  unary UnaryOperator.plus v = v
  unary UnaryOperator.not v = bool_val (not (truthy x v))
  unary UnaryOperator.other v = v

  abbrev pub is_lt : Ordering → Bool
  is_lt Ordering.lt = true
  is_lt _ = false

  abbrev pub is_gt : Ordering → Bool
  is_gt Ordering.gt = true
  is_gt _ = false

  -- The operators that evaluate both sides first.
  unfoldable pub strict_binary : BinaryOperator → Value → Value → Value
  strict_binary BinaryOperator.eq l r = bool_val (value_eq x l r)
  strict_binary BinaryOperator.not_eq l r = bool_val (not (value_eq x l r))
  strict_binary BinaryOperator.gt l r = bool_val (is_gt (compare_values x l r))
  strict_binary BinaryOperator.lt l r = bool_val (is_lt (compare_values x l r))
  strict_binary BinaryOperator.gt_eq l r = bool_val (not (is_lt (compare_values x l r)))
  strict_binary BinaryOperator.lt_eq l r = bool_val (not (is_gt (compare_values x l r)))
  strict_binary BinaryOperator.string_concat l r =
      text (append (to_display_string x l) (to_display_string x r))
  strict_binary BinaryOperator.plus l r = arithmetic x l BinaryOperator.plus r
  strict_binary BinaryOperator.minus l r = arithmetic x l BinaryOperator.minus r
  strict_binary BinaryOperator.multiply l r = arithmetic x l BinaryOperator.multiply r
  strict_binary BinaryOperator.divide l r = arithmetic x l BinaryOperator.divide r
  strict_binary BinaryOperator.modulo l r = arithmetic x l BinaryOperator.modulo r
  strict_binary _ l r = null

  -- AND leaves its right side alone when the left is false; OR evaluates it in either case.
  unfoldable pub eval_binary_op : BinaryOperator → Evaluator → Evaluator → Evaluator
  eval_binary_op BinaryOperator.and left right i =
      let (l, j) = left i in
      if truthy x l
      then (let (r, k) = right j in (bool_val (truthy x r), k))
      else (bool_val false, j)
  eval_binary_op BinaryOperator.or left right i =
      let (l, j) = left i in
      let (r, k) = right j in if truthy x l then (bool_val true, k) else (bool_val (truthy x r), k)
  eval_binary_op op left right i =
      let (l, j) = left i in let (r, k) = right j in (strict_binary op l r, k)

  unfoldable pub in_range : Value → Value → Value → Bool
  in_range v lo hi = not (is_lt (compare_values x v lo)) && not (is_gt (compare_values x v hi))

  unfoldable pub like_values : Bool → Value → Value → Bool
  like_values ci (text s) (text pat) = sql_like_match x s pat ci
  like_values ci _ _ = false

  abbrev xor : Bool → Bool → Bool
  xor true b = not b
  xor false b = b

  -- One arm of a CASE: the operand is evaluated again for every arm.
  abbrev arm_matches : Option Evaluator → Evaluator → Tester
  arm_matches none cond i = let (c, j) = cond i in (truthy x c, j)
  arm_matches (some op) cond i = let (o, j) = op i in let (c, k) = cond j in (value_eq x o c, k)

  module _ (ctx : Option Row) (params : List Value) where
    unfoldable mutual
      pub eval : Expr → Evaluator
      eval (Expr.identifier name) i = (lookup_column ctx name, i)
      eval (Expr.compound_identifier parts) i = (lookup_compound ctx parts, i)
      eval (Expr.value v) i = eval_literal params v i
      eval (Expr.nested e) i = eval e i
      eval (Expr.unary_op op e) i = let (v, j) = eval e i in (unary op v, j)
      eval (Expr.binary_op l op r) i = eval_binary_op op (eval l) (eval r) i
      eval (Expr.is_null e) i = let (v, j) = eval e i in (bool_val (is_null v), j)
      eval (Expr.is_not_null e) i = let (v, j) = eval e i in (bool_val (not (is_null v)), j)
      eval (Expr.between e negated low high) i =
          let (v, j) = eval e i in
          let (lo, k) = eval low j in
          let (hi, l) = eval high k in (bool_val (xor negated (in_range v lo hi)), l)
      eval (Expr.in_list e list negated) i =
          let (v, j) = eval e i in
          let (found, k) = eval_any v list j in (bool_val (xor negated found), k)
      eval (Expr.like negated e pattern) i =
          let (v, j) = eval e i in
          let (p, k) = eval pattern j in (bool_val (xor negated (like_values false v p)), k)
      eval (Expr.ilike negated e pattern) i =
          let (v, j) = eval e i in
          let (p, k) = eval pattern j in (bool_val (xor negated (like_values true v p)), k)
      eval (Expr.case operand whens else_result) i =
          eval_whens (eval_opt operand) (eval_else else_result) whens i
      eval (Expr.function name _ args) i =
          let (vs, j) = eval_args args i in (call x (x.to_lowercase name) vs, j)
      eval (Expr.other _) i = (null, i)

      -- `list.iter().any(...)` stops at the first match.
      pub eval_any : Value → Args → Tester
      eval_any v Args.no_args i = (false, i)
      eval_any v (Args.arg e rest) i =
          let (w, j) = eval e i in
          let others = eval_any v rest j in if value_eq x w v then (true, j) else others
      eval_any v (Args.named _ e rest) i =
          let (w, j) = eval e i in
          let others = eval_any v rest j in if value_eq x w v then (true, j) else others
      eval_any v (Args.wildcard rest) i = eval_any v rest i
      eval_any v (Args.other_arg rest) i = eval_any v rest i

      pub eval_args : Args → ℕ → List Value × ℕ
      eval_args Args.no_args i = ([], i)
      eval_args (Args.arg e rest) i =
          let (v, j) = eval e i in let (vs, k) = eval_args rest j in (v ∷ vs, k)
      eval_args (Args.named _ e rest) i =
          let (v, j) = eval e i in let (vs, k) = eval_args rest j in (v ∷ vs, k)
      eval_args (Args.wildcard rest) i = let (vs, k) = eval_args rest i in (null ∷ vs, k)
      eval_args (Args.other_arg rest) i = let (vs, k) = eval_args rest i in (null ∷ vs, k)

      pub eval_whens : Option Evaluator → Evaluator → Whens → Evaluator
      eval_whens op other Whens.no_whens i = other i
      eval_whens op other (Whens.when c r rest) i =
          let (hit, j) = arm_matches op (eval c) i in
          let result = eval r j in
          let others = eval_whens op other rest j in if hit then result else others

      pub eval_opt : OptExpr → Option Evaluator
      eval_opt OptExpr.absent = none
      eval_opt (OptExpr.present e) = some (eval e)

      pub eval_else : OptExpr → Evaluator
      eval_else OptExpr.absent i = (null, i)
      eval_else (OptExpr.present e) i = eval e i
