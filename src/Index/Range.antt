-- ===== src/Index/Range.antt =====
-- src/index.rs: which ids a range of an index gives.
use skvs.Prelude.{
  Bool, true, false, ◌&&◌, ◌||◌, ◌≡◌, refl, ◌∙◌, subst, sym, inl, inr, none, some, List, [], ◌∷◌,
  nat_eq, Bool-cases, arith,
}
use skvs.Prelude.{◌++◌ as concat}
use skvs.Prelude.Map.{lookup}
use skvs.Externs.{Externs}
use skvs.Value.{Value, Row, RowId, compare_values}
use skvs.Value.Order.{is_plain, compare_values-eq}
use skvs.Schema.{IndexDef}
use skvs.State.{Store}
use skvs.BTree.{IndexStore, Bound, above, below, tree_get, tree_range}
use skvs.BTree.Ordered.{Ordering-cases, Sorted, sorted_cons, compare_values_refl, tree_get-Least}
use skvs.Index.{index_value, contains_id}
use skvs.Index.Ids.{same, ids_at, same-eq, same_refl}
use skvs.Index.Mirror.{Mirrors}

contains_id-append :
    (q : RowId) (is js : List RowId)
    → contains_id q (concat is js) ≡ (contains_id q is || contains_id q js)
contains_id-append q [] js = refl
contains_id-append q (i ∷ is) js = ground (arith, contains_id-append q is js)

module _ (x : Externs) where
  abbrev pub in_bounds : Bound → Bound → Value → Bool
  in_bounds lower upper k = above x lower k && below x upper k

  -- A key of the range under which the id is listed.
  record Under (lower upper : Bound) (q : RowId) (m : IndexStore) : Type 0 where
    key : Value
    plain : is_plain key ≡ true
    listed : contains_id q (ids_at x key m) ≡ true
    inside : in_bounds lower upper key ≡ true

  module _ (lower upper : Bound) (q : RowId) where
    ids_at-head :
        (j : Value) (ids : List RowId) (m : IndexStore)
        → is_plain j ≡ true
        → ids_at x j ((j, ids) ∷ m) ≡ ids
    unfolding tree_get
    ids_at-head j ids m p = ground (arith, compare_values_refl x j p)

    -- An id listed under a key of the tail is listed under that key of the whole.
    Under-tail :
        (j : Value) (ids : List RowId) (m : IndexStore)
        → Sorted x ((j, ids) ∷ m)
        → Under lower upper q m
        → Under lower upper q ((j, ids) ∷ m)
    unfolding tree_get
    Under-tail j ids m (sorted_cons p l s) u = record {
      key = u.key;
      plain = u.plain;
      listed = elim (Ordering-cases (compare_values x u.key j)) [
        | inl c ↦ rw (c, tree_get) u.listed
        | inr (inl c) ↦ absurd (
            ground (
              arith,
              tree_get-Least x j m l,
              subst (λ k. contains_id q (ids_at x k m) ≡ true)
                  (compare_values-eq x u.key j u.plain p c) u.listed,
            ))
        | inr (inr c) ↦ rw (c, tree_get) u.listed
      ];
      inside = u.inside;
    }

    Under-tree_range :
        (m : IndexStore)
        → Sorted x m
        → contains_id q (tree_range x lower upper m) ≡ true
        → Under lower upper q m
    unfolding tree_range
    Under-tree_range [] s h = ground arith
    Under-tree_range ((j, ids) ∷ m) (sorted_cons p l s) h =
        elim (Bool-cases (in_bounds lower upper j && contains_id q ids)) [
          | inl e ↦ record {
            key = j;
            plain = p;
            listed = ground (arith, ids_at-head j ids m p);
            inside = ground arith;
          }
          | inr e ↦ Under-tail j ids m (sorted_cons p l s) (
              Under-tree_range m s
                (ground (arith, contains_id-append q ids (tree_range x lower upper m))))
        ]

    tree_range-Under :
        (m : IndexStore) (k : Value)
        → Sorted x m
        → is_plain k ≡ true
        → in_bounds lower upper k ≡ true
        → contains_id q (ids_at x k m) ≡ true
        → contains_id q (tree_range x lower upper m) ≡ true
    unfolding tree_range tree_get
    tree_range-Under [] k s p i h = h
    tree_range-Under ((j, ids) ∷ m) k (sorted_cons r l s) p i h = ground (
      arith,
      contains_id-append q ids (tree_range x lower upper m),
      compare_values-eq x k j p r,
      tree_range-Under m k s p i,
    )

  module _ (idx : IndexDef) (store : Store) (m : IndexStore) (h : Mirrors x idx store m) where
    -- The id of a row is in a range exactly when its value is.
    pub contains_id-tree_range :
        (lower upper : Bound) (q : RowId) (row : Row) (w : Value)
        → lookup q store ≡ some row
        → index_value idx row ≡ some w
        → is_plain w ≡ true
        → contains_id q (tree_range x lower upper m) ≡ in_bounds lower upper w
    contains_id-tree_range lower upper q row w e i p =
        elim (Bool-cases (contains_id q (tree_range x lower upper m))) [
          | inl c ↦
              let u = Under-tree_range lower upper q m h.sorted c in
              let k =
                same-eq x w u.key p u.plain (ground (arith, h.listed u.key q u.plain, u.listed)) in
              c ∙ sym (subst (λ v. in_bounds lower upper v ≡ true) (sym k) u.inside)
          | inr c ↦ ground (
            arith,
            h.listed w q p,
            same_refl x w p,
            tree_range-Under lower upper q m w h.sorted p,
          )
        ]

    pub contains_id-tree_range-none :
        (lower upper : Bound) (q : RowId)
        → lookup q store ≡ none
        → contains_id q (tree_range x lower upper m) ≡ false
    contains_id-tree_range-none lower upper q e =
        elim (Bool-cases (contains_id q (tree_range x lower upper m))) [
          | inl c ↦
              let u = Under-tree_range lower upper q m h.sorted c in
              absurd (ground (arith, h.listed u.key q u.plain, u.listed))
          | inr c ↦ c
        ]

    pub contains_id-ids_at :
        (q : RowId) (row : Row) (w v : Value)
        → lookup q store ≡ some row
        → index_value idx row ≡ some w
        → is_plain v ≡ true
        → contains_id q (ids_at x v m) ≡ same x w v
    contains_id-ids_at q row w v e i p = ground (arith, h.listed v q p)
