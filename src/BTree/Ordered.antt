-- ===== src/BTree/Ordered.antt =====
-- src/index.rs: the keys of an index stay in order and apart, and each key has its own list of ids.
use Prim.Native.Nat.{Ordering}
use skvs.Prelude.{true, ◌≡◌, ◌≢◌, refl, subst, none, some, List, [], ◌∷◌, inl, inr, ◌⊎◌, arith, sym}
use skvs.Externs.{Externs}
use skvs.Value.{Value, RowId, compare_values}
use skvs.Value.Order.{is_plain, compare_values-flip, compare_values-eq, compare_values_trans}
use skvs.BTree.{IndexStore, tree_get, tree_put, tree_remove}

pub Ordering-cases : (o : Ordering) → (o ≡ Ordering.lt) ⊎ ((o ≡ Ordering.eq) ⊎ (o ≡ Ordering.gt))
Ordering-cases Ordering.lt = inl refl
Ordering-cases Ordering.eq = inr (inl refl)
Ordering-cases Ordering.gt = inr (inr refl)

module _ (x : Externs) where
  -- `k` stands before every key of the map.
  pub data Least (k : Value) : IndexStore → Type 0 where
    least_nil : Least k []
    least_cons :
        {j : Value} {ids : List RowId} {m : IndexStore}
        → compare_values x k j ≡ Ordering.lt
        → Least k m
        → Least k ((j, ids) ∷ m)

  -- Ascending keys, none of them a real.
  pub data Sorted : IndexStore → Type 0 where
    sorted_nil : Sorted []
    sorted_cons :
        {k : Value} {ids : List RowId} {m : IndexStore}
        → is_plain k ≡ true
        → Least k m
        → Sorted m
        → Sorted ((k, ids) ∷ m)

  pub compare_values_refl : (v : Value) → is_plain v ≡ true → compare_values x v v ≡ Ordering.eq
  compare_values_refl v p = ground (arith, compare_values-flip x v v p p)

  Least-trans :
      (k j : Value) (m : IndexStore)
      → is_plain k ≡ true
      → is_plain j ≡ true
      → compare_values x k j ≡ Ordering.lt
      → Least j m
      → Sorted m
      → Least k m
  Least-trans k j [] p q h l s = least_nil
  Least-trans k j ((i, ids) ∷ m) p q h (least_cons e l) (sorted_cons r _ s) =
      least_cons (compare_values_trans x k j i p q r h e) (Least-trans k j m p q h l s)

  Least-tree_put :
      (a k : Value) (ids : List RowId) (m : IndexStore)
      → compare_values x a k ≡ Ordering.lt
      → Least a m
      → Least a (tree_put x k ids m)
  unfolding tree_put
  Least-tree_put a k ids [] h l = least_cons h least_nil
  Least-tree_put a k ids ((j, js) ∷ m) h (least_cons e l) =
      elim (Ordering-cases (compare_values x k j)) [
        | inl c ↦ rw (c, tree_put) (least_cons h (least_cons e l))
        | inr (inl c) ↦ rw (c, tree_put) (least_cons e l)
        | inr (inr c) ↦ rw (c, tree_put) (least_cons e (Least-tree_put a k ids m h l))
      ]

  -- The keys of a map stay ascending when a key that is no real is put.
  pub tree_put-Sorted :
      (k : Value) (ids : List RowId) (m : IndexStore)
      → is_plain k ≡ true
      → Sorted m
      → Sorted (tree_put x k ids m)
  unfolding tree_put
  tree_put-Sorted k ids [] p s = sorted_cons p least_nil sorted_nil
  tree_put-Sorted k ids ((j, js) ∷ m) p (sorted_cons q l s) =
      elim (Ordering-cases (compare_values x k j)) [
        | inl c ↦
            rw (c, tree_put)
              (sorted_cons p (least_cons c (Least-trans k j m p q c l s)) (sorted_cons q l s))
        | inr (inl c) ↦ rw (c, tree_put) (sorted_cons q l s)
        | inr (inr c) ↦
            rw (c, tree_put)
              (sorted_cons q
                (Least-tree_put j k ids m (ground (arith, compare_values-flip x k j p q)) l)
                (tree_put-Sorted k ids m p s))
      ]

  Least-tree_remove : (a k : Value) (m : IndexStore) → Least a m → Least a (tree_remove x k m)
  unfolding tree_remove
  Least-tree_remove a k [] l = l
  Least-tree_remove a k ((j, js) ∷ m) (least_cons e l) =
      elim (Ordering-cases (compare_values x k j)) [
        | inl c ↦ rw (c, tree_remove) (least_cons e (Least-tree_remove a k m l))
        | inr (inl c) ↦ rw (c, tree_remove) l
        | inr (inr c) ↦ rw (c, tree_remove) (least_cons e (Least-tree_remove a k m l))
      ]

  -- The keys of a map stay ascending when a key is removed.
  pub tree_remove-Sorted : (k : Value) (m : IndexStore) → Sorted m → Sorted (tree_remove x k m)
  unfolding tree_remove
  tree_remove-Sorted k [] s = s
  tree_remove-Sorted k ((j, js) ∷ m) (sorted_cons q l s) =
      elim (Ordering-cases (compare_values x k j)) [
        | inl c ↦
            rw (c, tree_remove)
              (sorted_cons q (Least-tree_remove j k m l) (tree_remove-Sorted k m s))
        | inr (inl c) ↦ rw (c, tree_remove) s
        | inr (inr c) ↦
            rw (c, tree_remove)
              (sorted_cons q (Least-tree_remove j k m l) (tree_remove-Sorted k m s))
      ]

  pub tree_get-Least : (k : Value) (m : IndexStore) → Least k m → tree_get x k m ≡ none
  unfolding tree_get
  tree_get-Least k [] l = refl
  tree_get-Least k ((j, ids) ∷ m) (least_cons e l) = rw (e, tree_get) (tree_get-Least k m l)

  -- A key that is put reads as the ids put.
  pub tree_get-tree_put :
      (k : Value) (ids : List RowId) (m : IndexStore)
      → is_plain k ≡ true
      → Sorted m
      → tree_get x k (tree_put x k ids m) ≡ some ids
  unfolding tree_get tree_put
  tree_get-tree_put k ids [] p s = ground (arith, compare_values_refl k p)
  tree_get-tree_put k ids ((j, js) ∷ m) p (sorted_cons q l s) =
      ground (arith, compare_values_refl k p, tree_get-tree_put k ids m p s)

  -- Every other key reads as before.
  pub tree_get-tree_put_other :
      (k v : Value) (ids : List RowId) (m : IndexStore)
      → is_plain k ≡ true
      → is_plain v ≡ true
      → Sorted m
      → k ≢ v
      → tree_get x k (tree_put x v ids m) ≡ tree_get x k m
  unfolding tree_get tree_put
  tree_get-tree_put_other k v ids [] p q s n = ground (arith, compare_values-eq x k v p q)
  tree_get-tree_put_other k v ids ((j, js) ∷ m) p q (sorted_cons r l s) n = ground (
    arith,
    compare_values-eq x k v p q,
    compare_values-eq x v j q r,
    compare_values-eq x k j p r,
    tree_get-tree_put_other k v ids m p q s n,
  )

  pub tree_get-tree_remove :
      (k : Value) (m : IndexStore)
      → is_plain k ≡ true
      → Sorted m
      → tree_get x k (tree_remove x k m) ≡ none
  unfolding tree_get tree_remove
  tree_get-tree_remove k [] p s = refl
  tree_get-tree_remove k ((j, js) ∷ m) p (sorted_cons q l s) =
      elim (Ordering-cases (compare_values x k j)) [
        | inl c ↦ ground (arith, tree_get-tree_remove k m p s)
        | inr (inl c) ↦
            rw (c, tree_get, tree_remove)
              (tree_get-Least k m (subst (λ v. Least v m) (sym (compare_values-eq x k j p q c)) l))
        | inr (inr c) ↦ ground (arith, tree_get-tree_remove k m p s)
      ]

  pub tree_get-tree_remove_other :
      (k v : Value) (m : IndexStore)
      → is_plain k ≡ true
      → is_plain v ≡ true
      → Sorted m
      → k ≢ v
      → tree_get x k (tree_remove x v m) ≡ tree_get x k m
  unfolding tree_get tree_remove
  tree_get-tree_remove_other k v [] p q s n = refl
  tree_get-tree_remove_other k v ((j, js) ∷ m) p q (sorted_cons r l s) n = ground (
    arith,
    compare_values-eq x v j q r,
    compare_values-eq x k j p r,
    tree_get-tree_remove_other k v m p q s n,
  )
