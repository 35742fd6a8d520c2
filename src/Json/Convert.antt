-- ===== src/Json/Convert.antt =====
-- src/json.rs and src/schema.rs: the conversions between JSON values and runtime values.
use skvs.Prelude.{
  ℕ, String, Bool, true, false, Option, none, some, List, [], ◌∷◌, ◌==◌, string_eq, if◌then◌else◌,
}
use skvs.Prelude.Int.{pos}
use skvs.Json.Tree.{Json, Items, nil, cons, Fields, end, field, set_field}
use skvs.Externs.{Externs}
use skvs.Error.{SkvsError, Result, ok, err}
use skvs.Value.{Value}

module _ (x : Externs) where
  unfoldable pub json_value_to_skvs : Json → Value
  json_value_to_skvs Json.null = Value.null
  json_value_to_skvs (Json.bool true) = Value.integer (pos 1)
  json_value_to_skvs (Json.bool false) = Value.integer (pos 0)
  json_value_to_skvs (Json.integer i) = Value.integer i
  json_value_to_skvs (Json.float f) = Value.real f
  json_value_to_skvs (Json.string s) = Value.text s
  json_value_to_skvs (Json.array a) = Value.blob (x.as_bytes (x.json_to_string (Json.array a)))
  json_value_to_skvs (Json.object o) = Value.blob (x.as_bytes (x.json_to_string (Json.object o)))

  abbrev or_base64 : List ℕ → Option Json → Json
  or_base64 b none = Json.string (x.base64_encode b)
  or_base64 b (some j) = j

  unfoldable pub skvs_value_to_json : Value → Json
  skvs_value_to_json Value.null = Json.null
  skvs_value_to_json (Value.integer i) = Json.integer i
  skvs_value_to_json (Value.real f) = if x.f64_is_finite f then Json.float f else Json.null
  skvs_value_to_json (Value.text s) = Json.string s
  skvs_value_to_json (Value.blob b) = or_base64 b (x.json_from_slice b)

  -- `Value::to_json`: what a client receives.
  unfoldable pub to_json : Value → Json
  to_json Value.null = Json.null
  to_json (Value.integer i) = Json.integer i
  to_json (Value.real f) = if x.f64_is_finite f then Json.float f else Json.null
  to_json (Value.text s) = Json.string s
  to_json (Value.blob b) = Json.string (x.base64_encode b)

  abbrev as_blob : Option (List ℕ) → Option Value
  as_blob none = none
  as_blob (some b) = some (Value.blob b)

  -- The one field `__blob__` of an object: a text is base64, anything else is no value.
  abbrev tagged_blob : Json → Option Value
  tagged_blob (Json.string s) = as_blob (x.base64_decode s)
  tagged_blob _ = none

  abbrev from_object : Fields → Option Value
  from_object (field k v end) =
      if k == "__blob__"
      then tagged_blob v
      else some (Value.blob (x.as_bytes (x.json_to_string (Json.object (field k v end)))))
  from_object o = some (Value.blob (x.as_bytes (x.json_to_string (Json.object o))))

  -- `Value::from_json`: a parameter that a client sends.
  unfoldable pub from_json : Json → Option Value
  from_json Json.null = some Value.null
  from_json (Json.bool true) = some (Value.integer (pos 1))
  from_json (Json.bool false) = some (Value.integer (pos 0))
  from_json (Json.integer i) = some (Value.integer i)
  from_json (Json.float f) = some (Value.real f)
  from_json (Json.string s) = some (Value.text s)
  from_json (Json.array a) = some (Value.blob (x.as_bytes (x.json_to_string (Json.array a))))
  from_json (Json.object o) = from_object o

  abbrev to_items : List Value → Items
  to_items [] = nil
  to_items (v ∷ vs) = cons (skvs_value_to_json v) (to_items vs)

  unfoldable pub json_array : List Value → Result String
  json_array values = ok (x.json_to_string (Json.array (to_items values)))

  abbrev insert_all : Fields → List String → List Value → Fields
  insert_all obj (k ∷ ks) (v ∷ vs) = insert_all (set_field obj k (skvs_value_to_json v)) ks vs
  insert_all obj _ _ = obj

  abbrev same_length : List String → List Value → Bool
  same_length [] [] = true
  same_length (k ∷ ks) (v ∷ vs) = same_length ks vs
  same_length _ _ = false

  unfoldable pub json_object : List String → List Value → Result String
  json_object ks vs =
      if same_length ks vs
      then ok (x.json_to_string (Json.object (insert_all end ks vs)))
      else err SkvsError.json
