-- ===== src/Index/Ids.antt =====
-- src/index.rs: which ids the changes of an index leave under a value.
use Prim.Native.Nat.{Ordering}
use skvs.Prelude.{
  Bool, true, false, not, ◌&&◌, ◌||◌, ◌≡◌, ◌≢◌, refl, sym, ap, subst, inl, inr, none, some, List,
  [], ◌∷◌, keep, unwrap_or, nat_eq, string_eq, nat_beq_iff, ◌==◌, Option-cases, Bool-cases, arith,
  if◌then◌else◌,
}
use skvs.Prelude.{◌++◌ as concat}
use skvs.Externs.{Externs}
use skvs.Value.{Value, RowId, compare_values}
use skvs.Value.Order.{is_plain, compare_values-eq}
use skvs.BTree.{IndexStore, tree_get, tree_put, tree_remove}
use skvs.BTree.Ordered.{
  Sorted, compare_values_refl, tree_put-Sorted, tree_remove-Sorted, tree_get-tree_put,
  tree_get-tree_put_other, tree_get-tree_remove, tree_get-tree_remove_other,
}
use skvs.Index.{contains_id, push_id, add_id, remove_id, put_or_remove}

contains_id-snoc :
    (r q : RowId) (ids : List RowId)
    → contains_id q (concat ids (r ∷ [])) ≡ (r == q || contains_id q ids)
contains_id-snoc r q [] = refl
contains_id-snoc r q (p ∷ ids) = ground (arith, contains_id-snoc r q ids)

contains_id-push_id :
    (r q : RowId) (ids : List RowId) → contains_id q (push_id r ids) ≡ (r == q || contains_id q ids)
contains_id-push_id r q ids = ground (arith, contains_id-snoc r q ids, nat_beq_iff r q)

contains_id-keep :
    (r q : RowId) (ids : List RowId)
    → contains_id q (keep (λ p. not (p == r)) ids) ≡ (contains_id q ids && not (r == q))
contains_id-keep r q [] = refl
contains_id-keep r q (p ∷ ids) =
    ground (arith, contains_id-keep r q ids, nat_beq_iff p q, nat_beq_iff p r, nat_beq_iff r q)

module _ (x : Externs) where
  abbrev pub same : Value → Value → Bool
  same v w = elim (compare_values x v w) [ Ordering.eq ↦ true | _ ↦ false ]

  -- The ids under a value.
  abbrev pub ids_at : Value → IndexStore → List RowId
  ids_at v m = unwrap_or (tree_get x v m) []

  pub same-eq : (v w : Value) → is_plain v ≡ true → is_plain w ≡ true → same v w ≡ true → v ≡ w
  same-eq v w p q e = compare_values-eq x v w p q (ground arith)

  pub same_refl : (v : Value) → is_plain v ≡ true → same v v ≡ true
  same_refl v p = ground (arith, compare_values_refl x v p)

  same-differ : (v w : Value) → is_plain v ≡ true → same v w ≡ false → w ≢ v
  same-differ v w p e h = ground (arith, subst (λ u. same v u ≡ false) h e, same_refl v p)

  ids_at-tree_put :
      (w v : Value) (ids : List RowId) (m : IndexStore)
      → is_plain w ≡ true
      → is_plain v ≡ true
      → Sorted x m
      → ids_at w (tree_put x v ids m) ≡ (if same v w then ids else ids_at w m)
  ids_at-tree_put w v ids m p k s = elim (Bool-cases (same v w)) [
    | inl e ↦ rw e (
        subst (λ u. ids_at u (tree_put x v ids m) ≡ ids) (same-eq v w k p e)
          (ap (λ o. unwrap_or o []) (tree_get-tree_put x v ids m k s)))
    | inr e ↦
        rw e (
          ap (λ o. unwrap_or o [])
            (tree_get-tree_put_other x w v ids m p k s (same-differ v w k e)))
  ]

  -- The ids of one value replaced, or removed with the value.
  ids_at-put_or_remove :
      (w v : Value) (ids : List RowId) (m : IndexStore)
      → is_plain w ≡ true
      → is_plain v ≡ true
      → Sorted x m
      → ids_at w (put_or_remove x v ids m) ≡ (if same v w then ids else ids_at w m)
  ids_at-put_or_remove w v [] m p k s = elim (Bool-cases (same v w)) [
    | inl e ↦ rw e (
        subst (λ u. ids_at u (tree_remove x v m) ≡ []) (same-eq v w k p e)
          (ap (λ o. unwrap_or o []) (tree_get-tree_remove x v m k s)))
    | inr e ↦
        rw e (
          ap (λ o. unwrap_or o []) (tree_get-tree_remove_other x w v m p k s (same-differ v w k e)))
  ]
  ids_at-put_or_remove w v (i ∷ is) m p k s = ids_at-tree_put w v (i ∷ is) m p k s

  pub ids_at-add_id :
      (w v : Value) (r q : RowId) (m : IndexStore)
      → is_plain w ≡ true
      → is_plain v ≡ true
      → Sorted x m
      → contains_id q (ids_at w (add_id x v r m))
        ≡ (contains_id q (ids_at w m) || (same v w && r == q))
  unfolding add_id
  ids_at-add_id w v r q m p k s = elim (Bool-cases (same v w)) [
    | inl e ↦ rw (sym (same-eq v w k p e)) (
        ground (
          arith,
          ids_at-tree_put v v (push_id r (ids_at v m)) m k k s,
          same_refl v k,
          contains_id-push_id r q (ids_at v m),
        ))
    | inr e ↦ ground (arith, ids_at-tree_put w v (push_id r (ids_at v m)) m p k s)
  ]

  pub ids_at-remove_id :
      (w v : Value) (r q : RowId) (m : IndexStore)
      → is_plain w ≡ true
      → is_plain v ≡ true
      → Sorted x m
      → contains_id q (ids_at w (remove_id x v r m))
        ≡ (contains_id q (ids_at w m) && not (same v w && r == q))
  unfolding remove_id
  ids_at-remove_id w v r q m p k s = elim (Option-cases (tree_get x v m)) [
    | inl e ↦
        rw (e, remove_id)
          (elim (Bool-cases (same v w)) [
            | inl h ↦ ground (arith, subst (λ u. tree_get x u m ≡ none) (same-eq v w k p h) e)
            | inr h ↦ ground arith
          ])
    | inr (ids, e) ↦
        let left = keep (λ i. not (i == r)) ids in
        rw (e, remove_id)
          (elim (Bool-cases (same v w)) [
            | inl h ↦ ground (
              arith,
              ids_at-put_or_remove w v left m p k s,
              contains_id-keep r q ids,
              subst (λ u. tree_get x u m ≡ some ids) (same-eq v w k p h) e,
            )
            | inr h ↦ ground (arith, ids_at-put_or_remove w v left m p k s)
          ])
  ]

  put_or_remove-Sorted :
      (v : Value) (ids : List RowId) (m : IndexStore)
      → is_plain v ≡ true
      → Sorted x m
      → Sorted x (put_or_remove x v ids m)
  put_or_remove-Sorted v [] m p s = tree_remove-Sorted x v m s
  put_or_remove-Sorted v (i ∷ is) m p s = tree_put-Sorted x v (i ∷ is) m p s

  pub remove_id-Sorted :
      (v : Value) (r : RowId) (m : IndexStore)
      → is_plain v ≡ true
      → Sorted x m
      → Sorted x (remove_id x v r m)
  unfolding remove_id
  remove_id-Sorted v r m p s = elim (Option-cases (tree_get x v m)) [
    | inl e ↦ rw (e, remove_id) s
    | inr (ids, e) ↦ rw (e, remove_id) (put_or_remove-Sorted v (keep (λ i. not (i == r)) ids) m p s)
  ]
