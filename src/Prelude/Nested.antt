-- ===== src/Prelude/Nested.antt =====
-- Maps of maps, as the state keeps them: by database, then by table or name.
use mathlib.Core.Path.{◌≡◌, refl}
use mathlib.Core.Bool.{◌&&◌}
use mathlib.Core.Option.{Option, none, some}
use mathlib.Core.List.{[]}
use native.Mathlib.Omega.{arith}
use skvs.Prelude.Tests.{if◌then◌else◌, unwrap_or}
use skvs.Prelude.Eq.{KeyEq, ◌==◌}
use skvs.Prelude.Map.{Map, lookup, insert, remove, lookup-insert, lookup-remove, lookup-nil}

module _ {ℓ κ μ} {K : Type ℓ} {J : Type κ} {V : Type μ} ⦃e : KeyEq K⦄ ⦃d : KeyEq J⦄ where
  -- `get(k).and_then(|m| m.get(j))`
  unfoldable pub get_in : K → J → Map K (Map J V) → Option V
  get_in k j m = elim (lookup k m) [ none ↦ none | some n ↦ lookup j n ]

  -- `entry(k).or_insert_with(new).insert(j, v)`
  unfoldable pub put_in : K → J → V → Map K (Map J V) → Map K (Map J V)
  put_in k j v m = insert k (insert j v (unwrap_or (lookup k m) [])) m

  -- `if let Some(m) = get(k) { m.remove(j) }`
  unfoldable pub del_in : K → J → Map K (Map J V) → Map K (Map J V)
  del_in k j m = elim (lookup k m) [ none ↦ m | some n ↦ insert k (remove j n) m ]

  pub get_in-put_in :
      (k k' : K) (j j' : J) (v : V) (m : Map K (Map J V))
      → get_in k' j' (put_in k j v m) ≡ (if k == k' && j == j' then some v else get_in k' j' m)
  unfolding get_in put_in
  get_in-put_in k k' j j' v m = ground (
    arith,
    lookup-insert k k' (insert j v (unwrap_or (lookup k m) [])) m,
    lookup-insert j j' v (unwrap_or (lookup k m) []),
    lookup-nil {V = V} j',
    e.same_key_iff k k',
  )

  pub get_in-del_in :
      (k k' : K) (j j' : J) (m : Map K (Map J V))
      → get_in k' j' (del_in k j m) ≡ (if k == k' && j == j' then none else get_in k' j' m)
  unfolding get_in del_in
  get_in-del_in k k' j j' m =
      elim (lookup k m)
          as (λ o.
            lookup k m ≡ o
            → get_in k' j' (elim o [ none ↦ m | some n ↦ insert k (remove j n) m ])
              ≡ (if k == k' && j == j' then none else get_in k' j' m)) [
                | none ↦ λ h. ground (arith, e.same_key_iff k k')
                | some n ↦ λ h. ground (
                  arith,
                  lookup-insert k k' (remove j n) m,
                  lookup-remove j j' n,
                  e.same_key_iff k k',
                )
              ]
        refl

pub ruleset nested_laws = (get_in-put_in, get_in-del_in)
