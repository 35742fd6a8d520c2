-- ===== src/Json/Tree.antt =====
-- The JSON values of serde_json. A number is one that `as_i64` returns, or is known by its `as_f64`.
use skvs.Prelude.{ℕ, zero, suc, String, Bool, Option, none, some, ◌==◌, string_eq, if◌then◌else◌}
use skvs.Prelude.Int.{ℤ}

mutual
  pub data Json : Type 0 where
    null : Json
    bool : Bool → Json
    integer : ℤ → Json
    float : ℕ → Json
    string : String → Json
    array : Items → Json
    object : Fields → Json

  pub data Items : Type 0 where
    nil : Items
    cons : Json → Items → Items

  pub data Fields : Type 0 where
    end : Fields
    field : String → Json → Fields → Fields

abbrev pub item : Items → ℕ → Option Json
item nil n = none
item (cons j r) zero = some j
item (cons j r) (suc n) = item r n

abbrev pub set_item : Items → ℕ → Json → Items
set_item nil n v = nil
set_item (cons j r) zero v = cons v r
set_item (cons j r) (suc n) v = cons j (set_item r n v)

abbrev pub get_field : Fields → String → Option Json
get_field end k = none
get_field (field j v r) k = if j == k then some v else get_field r k

abbrev pub set_field : Fields → String → Json → Fields
set_field end k w = field k w end
set_field (field j v r) k w = if j == k then field j w r else field j v (set_field r k w)
