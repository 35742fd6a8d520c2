-- ===== src/Expr/Eval/Offsets.antt =====
-- src/expr.rs: how many parameters an evaluation counts, against `count_placeholders`, on which the
-- UPDATE statement relies to find the parameters of its WHERE clause.
use skvs.Prelude.{ℕ, ◌+◌, ◌<◌, Bool, true, false, ◌&&◌, ◌≡◌, Option, List, arith}
use skvs.Externs.{Externs}
use skvs.Value.{Value, Row, truthy}
use skvs.Expr.Ast.{Expr, Args, SqlValue, BinaryOperator}
use skvs.Expr.Eval.{eval, eval_literal, eval_binary_op, eval_args, count_placeholders, count_args}

abbrev is_and : BinaryOperator → Bool
is_and BinaryOperator.and = true
is_and _ = false

-- No AND, no IN and no CASE: no part that an evaluation may pass over or repeat.
unfoldable mutual
  pub is_straight : Expr → Bool
  is_straight (Expr.identifier _) = true
  is_straight (Expr.compound_identifier _) = true
  is_straight (Expr.value _) = true
  is_straight (Expr.nested e) = is_straight e
  is_straight (Expr.unary_op _ e) = is_straight e
  is_straight (Expr.binary_op l BinaryOperator.and r) = false
  is_straight (Expr.binary_op l _ r) = is_straight l && is_straight r
  is_straight (Expr.is_null e) = is_straight e
  is_straight (Expr.is_not_null e) = is_straight e
  is_straight (Expr.between e _ lo hi) = is_straight e && is_straight lo && is_straight hi
  is_straight (Expr.in_list _ _ _) = false
  is_straight (Expr.like _ e p) = is_straight e && is_straight p
  is_straight (Expr.ilike _ e p) = is_straight e && is_straight p
  is_straight (Expr.case _ _ _) = false
  is_straight (Expr.function _ _ args) = are_straight args
  is_straight (Expr.other _) = true

  pub are_straight : Args → Bool
  are_straight Args.no_args = true
  are_straight (Args.arg e rest) = is_straight e && are_straight rest
  are_straight (Args.named _ e rest) = is_straight e && are_straight rest
  are_straight (Args.wildcard rest) = are_straight rest
  are_straight (Args.other_arg rest) = are_straight rest

module _ (x : Externs) (ctx : Option Row) (params : List Value) where
  index-eval_literal :
      (v : SqlValue) (i : ℕ) → (eval_literal x params v i).1 ≡ i + count_placeholders (Expr.value v)
  unfolding eval_literal count_placeholders
  index-eval_literal (SqlValue.number n) i = omega arith
  index-eval_literal _ i = omega arith

  mutual
    unfolding eval eval_binary_op count_placeholders is_straight

    index-eval_aux :
        (e : Expr) (i : ℕ)
        → is_straight e ≡ true
        → (eval x ctx params e i).1 ≡ i + count_placeholders e
    index-eval_aux (Expr.identifier _) i h = omega arith
    index-eval_aux (Expr.compound_identifier _) i h = omega arith
    index-eval_aux (Expr.value v) i h = index-eval_literal v i
    index-eval_aux (Expr.nested e) i h = index-eval_aux e i h
    index-eval_aux (Expr.unary_op _ e) i h = index-eval_aux e i h
    index-eval_aux (Expr.binary_op l BinaryOperator.and r) i h = cc
    index-eval_aux (Expr.binary_op l _ r) i h =
        ground (arith, index-eval_aux l i, index-eval_aux r (eval x ctx params l i).1)
    index-eval_aux (Expr.is_null e) i h = index-eval_aux e i h
    index-eval_aux (Expr.is_not_null e) i h = index-eval_aux e i h
    index-eval_aux (Expr.between e _ lo hi) i h =
        let j = (eval x ctx params e i).1 in
        ground (
          arith,
          index-eval_aux e i,
          index-eval_aux lo j,
          index-eval_aux hi (eval x ctx params lo j).1,
        )
    index-eval_aux (Expr.in_list _ _ _) i h = cc
    index-eval_aux (Expr.like _ e p) i h =
        ground (arith, index-eval_aux e i, index-eval_aux p (eval x ctx params e i).1)
    index-eval_aux (Expr.ilike _ e p) i h =
        ground (arith, index-eval_aux e i, index-eval_aux p (eval x ctx params e i).1)
    index-eval_aux (Expr.case _ _ _) i h = cc
    index-eval_aux (Expr.function _ _ args) i h = index-eval_args args i h
    index-eval_aux (Expr.other _) i h = omega arith

    index-eval_args :
        (args : Args) (i : ℕ)
        → are_straight args ≡ true
        → (eval_args x ctx params args i).1 ≡ i + count_args args
    index-eval_args Args.no_args i h = omega arith
    index-eval_args (Args.arg e rest) i h =
        ground (arith, index-eval_aux e i, index-eval_args rest (eval x ctx params e i).1)
    index-eval_args (Args.named _ e rest) i h =
        ground (arith, index-eval_aux e i, index-eval_args rest (eval x ctx params e i).1)
    index-eval_args (Args.wildcard rest) i h = index-eval_args rest i h
    index-eval_args (Args.other_arg rest) i h = index-eval_args rest i h

  -- An expression without AND, IN and CASE counts exactly its placeholders, from every index, on
  -- every row and with any parameters.
  pub index-eval :
      (e : Expr) (i : ℕ)
      → is_straight e ≡ true
      → (eval x ctx params e i).1 ≡ i + count_placeholders e
  index-eval e i h = index-eval_aux e i h

  -- Where the left side of an AND is false, the evaluation of the AND ends at an index below the
  -- one that count_placeholders promises, if the left side has no AND, IN and CASE and the right
  -- side has a placeholder.
  pub index-eval-lt :
      (l r : Expr) (i : ℕ)
      → is_straight l ≡ true
      → truthy x (eval x ctx params l i).0 ≡ false
      → 0 < count_placeholders r
      → (eval x ctx params (Expr.binary_op l BinaryOperator.and r) i).1
        < i + count_placeholders (Expr.binary_op l BinaryOperator.and r)
  unfolding eval eval_binary_op count_placeholders
  index-eval-lt l r i s f p = ground (arith, index-eval l i s)
