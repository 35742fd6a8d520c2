-- ===== src/Sql/Select/Shape/Pass.antt =====
-- src/sql/select.rs: one pass of a stable sort over rows that are in order already.
use Prim.Native.Nat.{Ordering}
use mathlib.Core.List.{Perm}
use mathlib.Core.List.Perm
use skvs.Prelude.{Bool, true, false, ◌&&◌, ◌≡◌, refl, ap, ◌∙◌, inl, inr, List, [], ◌∷◌, all, arith}
use skvs.Value.{Row}
use skvs.Value.Order.{flip}
use skvs.BTree.Ordered.{Ordering-cases}
use skvs.Sql.Env.{Env}
use skvs.Sql.Select.Shape.{insert_sorted, sort_rows}

abbrev pub at_most : Ordering → Bool
at_most Ordering.gt = false
at_most _ = true

-- `a` before the rows that come after it, by a comparison and where that says equal by a finer one.
abbrev pub refined : Ordering → Bool → Bool
refined Ordering.lt b = true
refined Ordering.eq b = b
refined Ordering.gt b = false

abbrev pub sorted_by : (Row → Row → Bool) → List Row → Bool
sorted_by le [] = true
sorted_by le (r ∷ rows) = all (le r) rows && sorted_by le rows

perm-insert_sorted :
    (x : Env) (cmp : Row → Row → Ordering) (r : Row) (rows : List Row)
    → Perm (insert_sorted x cmp r rows) (r ∷ rows)
unfolding insert_sorted
perm-insert_sorted x cmp r [] = Perm.rfl
perm-insert_sorted x cmp r (q ∷ rows) = elim (Ordering-cases (cmp r q)) [
  | inl e ↦ rw (e, insert_sorted) Perm.rfl
  | inr (inl e) ↦ rw (e, insert_sorted) Perm.rfl
  | inr (inr e) ↦
      rw (e, insert_sorted)
        (Perm.trans (Perm.cons q (perm-insert_sorted x cmp r rows)) (Perm.swap r q rows))
]

pub perm-sort_rows :
    (x : Env) (cmp : Row → Row → Ordering) (rows : List Row) → Perm (sort_rows x cmp rows) rows
unfolding sort_rows
perm-sort_rows x cmp [] = Perm.rfl
perm-sort_rows x cmp (r ∷ rows) =
    Perm.trans (perm-insert_sorted x cmp r (sort_rows x cmp rows))
      (Perm.cons r (perm-sort_rows x cmp rows))

all-insert_sorted :
    (x : Env) (p : Row → Bool) (cmp : Row → Row → Ordering) (r : Row) (rows : List Row)
    → all p (insert_sorted x cmp r rows) ≡ (p r && all p rows)
unfolding insert_sorted
all-insert_sorted x p cmp r [] = refl
all-insert_sorted x p cmp r (q ∷ rows) = ground (arith, all-insert_sorted x p cmp r rows)

pub all-sort_rows :
    (x : Env) (p : Row → Bool) (cmp : Row → Row → Ordering) (rows : List Row)
    → all p (sort_rows x cmp rows) ≡ all p rows
unfolding sort_rows
all-sort_rows x p cmp [] = refl
all-sort_rows x p cmp (r ∷ rows) =
    all-insert_sorted x p cmp r (sort_rows x cmp rows)
    ∙ ap (λ b. p r && b) (all-sort_rows x p cmp rows)

-- One pass by `cmp` over rows in the order `le` leaves them in the order of both.
module _ (x : Env) (cmp : Row → Row → Ordering) (le : Row → Row → Bool) (ok : Row → Bool)
    (turned : (a b : Row) → ok a ≡ true → ok b ≡ true → cmp b a ≡ flip (cmp a b))
    (cmp_trans : (a b c : Row)
      → ok a ≡ true
      → ok b ≡ true
      → ok c ≡ true
      → at_most (cmp a b) ≡ true
      → at_most (cmp b c) ≡ true
      → at_most (cmp a c) ≡ true) where
  abbrev both : Row → Row → Bool
  both a b = refined (cmp a b) (le a b)

  all-both :
      (r q : Row) (rows : List Row)
      → ok r ≡ true
      → ok q ≡ true
      → all ok rows ≡ true
      → at_most (cmp r q) ≡ true
      → all (both q) rows ≡ true
      → all (le r) rows ≡ true
      → all (both r) rows ≡ true
  all-both r q [] i j k a b l = refl
  all-both r q (p ∷ rows) i j k a b l =
      let t = cmp_trans r q p i j (ground (arith, k)) a in
      ground (arith, t, b, l, all-both r q rows i j (ground (arith, k)) a)

  sorted_by-insert_sorted :
      (r : Row) (rows : List Row)
      → ok r ≡ true
      → all ok rows ≡ true
      → all (le r) rows ≡ true
      → sorted_by both rows ≡ true
      → sorted_by both (insert_sorted x cmp r rows) ≡ true
  unfolding insert_sorted
  sorted_by-insert_sorted r [] i k l s = refl
  sorted_by-insert_sorted r (q ∷ rows) i k l s =
      let j : ok q ≡ true = ground (arith, k) in
      let k' : all ok rows ≡ true = ground (arith, k) in
      let l' : all (le r) rows ≡ true = ground (arith, l) in
      let b : all (both q) rows ≡ true = ground (arith, s) in
      ground (
        arith,
        i,
        j,
        l,
        s,
        turned r q i j,
        all-both r q rows i j k',
        all-insert_sorted x (both q) cmp r rows,
        sorted_by-insert_sorted r rows i k' l',
      )

  pub sorted_by-sort_rows :
      (rows : List Row)
      → all ok rows ≡ true
      → sorted_by le rows ≡ true
      → sorted_by both (sort_rows x cmp rows) ≡ true
  unfolding sort_rows
  sorted_by-sort_rows [] k s = refl
  sorted_by-sort_rows (r ∷ rows) k s =
      let k' : all ok rows ≡ true = ground (arith, k) in
      sorted_by-insert_sorted r (sort_rows x cmp rows) (ground (arith, k))
        (all-sort_rows x ok cmp rows ∙ k') (all-sort_rows x (le r) cmp rows ∙ ground (arith, s))
        (sorted_by-sort_rows rows k' (ground (arith, s)))
