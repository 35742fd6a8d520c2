-- ===== src/Sql/Select/Shape/Sorted.antt =====
-- src/sql/select.rs: the stable sort by one key after the other against the order of all the keys.
use Prim.Native.Nat.{Ordering}
use mathlib.Core.List.{Perm}
use mathlib.Core.List.Perm
use skvs.Prelude.{
  Bool, true, ◌&&◌, ◌≡◌, refl, sym, ap, ◌∙◌, subst, inl, inr, some, List, [], ◌∷◌, all, arith,
}
use skvs.Value.{Value, Row, compare_values}
use skvs.Value.Order.{is_plain, flip, compare_values-flip, compare_values-eq, compare_values_trans}
use skvs.BTree.Ordered.{Ordering-cases}
use skvs.Expr.Eval.{eval}
use skvs.Sql.Ast.{OrderByExpr}
use skvs.Sql.Env.{Env}
use skvs.Sql.Select.Shape.{compare_rows, apply_order_by}
use skvs.Sql.Select.Shape.Pass.{
  at_most, refined, sorted_by, perm-sort_rows, all-sort_rows, sorted_by-sort_rows,
}

module _ (x : Env) where
  -- The value that a row is sorted by.
  abbrev pub sort_key : OrderByExpr → Row → Value
  sort_key o r = (eval x.externs (some r) [] o.expr 0).0

  abbrev plain_key : OrderByExpr → Row → Bool
  plain_key o r = is_plain (sort_key o r)

  -- None of the keys of a row is a real.
  abbrev pub plain_keys : List OrderByExpr → Row → Bool
  plain_keys [] r = true
  plain_keys (o ∷ os) r = plain_key o r && plain_keys os r

  -- The first key on which the rows differ decides.
  abbrev pub before_by : List OrderByExpr → Row → Row → Bool
  before_by [] a b = true
  before_by (o ∷ os) a b = refined (compare_rows x o a b) (before_by os a b)

  flip-flip : (c : Ordering) → flip (flip c) ≡ c
  flip-flip c = ground arith

  compare_rows-flip :
      (o : OrderByExpr) (a b : Row)
      → plain_key o a ≡ true
      → plain_key o b ≡ true
      → compare_rows x o b a ≡ flip (compare_rows x o a b)
  unfolding compare_rows
  compare_rows-flip o a b i j =
      ground (arith, compare_values-flip x.externs (sort_key o a) (sort_key o b) i j)

  at_most_trans :
      (u v w : Value)
      → is_plain u ≡ true
      → is_plain v ≡ true
      → is_plain w ≡ true
      → at_most (compare_values x.externs u v) ≡ true
      → at_most (compare_values x.externs v w) ≡ true
      → at_most (compare_values x.externs u w) ≡ true
  at_most_trans u v w i j k h l = elim (Ordering-cases (compare_values x.externs u v)) [
    | inl e ↦ elim (Ordering-cases (compare_values x.externs v w)) [
      | inl f ↦ ap at_most (compare_values_trans x.externs u v w i j k e f)
      | inr (inl f) ↦ ap at_most (
          subst (λ z. compare_values x.externs u z ≡ Ordering.lt)
            (compare_values-eq x.externs v w j k f) e)
      | inr (inr f) ↦ ground (arith, l, f)
    ]
    | inr (inl e) ↦
        subst (λ z. at_most (compare_values x.externs z w) ≡ true)
          (sym (compare_values-eq x.externs u v i j e)) l
    | inr (inr e) ↦ ground (arith, h, e)
  ]

  compare_rows_trans :
      (o : OrderByExpr) (a b c : Row)
      → plain_key o a ≡ true
      → plain_key o b ≡ true
      → plain_key o c ≡ true
      → at_most (compare_rows x o a b) ≡ true
      → at_most (compare_rows x o b c) ≡ true
      → at_most (compare_rows x o a c) ≡ true
  unfolding compare_rows
  compare_rows_trans o a b c i j k h l =
      let u = sort_key o a in
      let v = sort_key o b in
      let w = sort_key o c in
      ground (
        arith,
        compare_values-flip x.externs u v i j,
        compare_values-flip x.externs v w j k,
        compare_values-flip x.externs u w i k,
        at_most_trans u v w i j k,
        at_most_trans w v u k j i,
        h,
        l,
      )

  all-plain_keys :
      (o : OrderByExpr) (os : List OrderByExpr) (rows : List Row)
      → all (plain_keys (o ∷ os)) rows ≡ (all (plain_key o) rows && all (plain_keys os) rows)
  all-plain_keys o os [] = refl
  all-plain_keys o os (r ∷ rows) = ground (arith, all-plain_keys o os rows)

  perm-apply_order_by :
      (os : List OrderByExpr) (rows : List Row) → Perm (apply_order_by x os rows) rows
  unfolding apply_order_by
  perm-apply_order_by [] rows = Perm.rfl
  perm-apply_order_by (o ∷ os) rows =
      Perm.trans (perm-sort_rows x (compare_rows x o) (apply_order_by x os rows))
        (perm-apply_order_by os rows)

  all-apply_order_by :
      (p : Row → Bool) (os : List OrderByExpr) (rows : List Row)
      → all p (apply_order_by x os rows) ≡ all p rows
  unfolding apply_order_by
  all-apply_order_by p [] rows = refl
  all-apply_order_by p (o ∷ os) rows =
      all-sort_rows x p (compare_rows x o) (apply_order_by x os rows) ∙ all-apply_order_by p os rows

  sorted_by-no_keys : (rows : List Row) → sorted_by (before_by []) rows ≡ true
  sorted_by-no_keys [] = refl
  sorted_by-no_keys (r ∷ rows) = ground (arith, sorted_by-no_keys rows, all-no_keys r rows)
    where
      all-no_keys : (r : Row) (rows : List Row) → all (before_by [] r) rows ≡ true
      all-no_keys r [] = refl
      all-no_keys r (q ∷ rows) = all-no_keys r rows

  sorted_by-apply_order_by :
      (os : List OrderByExpr) (rows : List Row)
      → all (plain_keys os) rows ≡ true
      → sorted_by (before_by os) (apply_order_by x os rows) ≡ true
  unfolding apply_order_by
  sorted_by-apply_order_by [] rows h = sorted_by-no_keys rows
  sorted_by-apply_order_by (o ∷ os) rows h =
      sorted_by-sort_rows x (compare_rows x o) (before_by os) (plain_key o) (compare_rows-flip o)
        (compare_rows_trans o) (apply_order_by x os rows)
        (all-apply_order_by (plain_key o) os rows ∙ ground (arith, all-plain_keys o os rows, h))
        (sorted_by-apply_order_by os rows (ground (arith, all-plain_keys o os rows, h)))

  -- ORDER BY gives the rows back in another order, in which each stands before the later ones by
  -- the first key on which they differ, in the direction of that key, if no key of a row is a
  -- real.
  pub apply_order_by-sorts :
      (os : List OrderByExpr) (rows : List Row)
      → all (plain_keys os) rows ≡ true
      → Perm (apply_order_by x os rows) rows
        × (sorted_by (before_by os) (apply_order_by x os rows) ≡ true)
  apply_order_by-sorts os rows h = (perm-apply_order_by os rows, sorted_by-apply_order_by os rows h)
