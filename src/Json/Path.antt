-- ===== src/Json/Path.antt =====
-- src/json.rs: walking and updating a JSON value along a dotted path.
use Prim.Native.Char.{Char, code}
use skvs.Prelude.{
  ℕ, String, Option, none, some, List, [], ◌∷◌, nat_beq, ◌==◌, string_eq, if◌then◌else◌,
}
use skvs.Json.Tree.{Json, item, set_item, get_field, set_field, end}
use skvs.Json.Convert.{json_value_to_skvs, skvs_value_to_json}
use skvs.Externs.{Externs}
use skvs.Error.{SkvsError, Result, ok, err, ◌>>=◌, ok_or}
use skvs.Text.{parse_usize}
use skvs.Value.{Value}

-- `strip_prefix(c).unwrap_or(path)`
abbrev strip_prefix : ℕ → String → String
strip_prefix c String.[] = String.[]
strip_prefix c (String.◌∷◌ d s) = if nat_beq (code d) c then s else String.◌∷◌ d s

-- `split('.')`: always at least one piece.
abbrev push_front : Char → List String → List String
push_front c [] = (String.◌∷◌ c String.[]) ∷ []
push_front c (s ∷ ss) = String.◌∷◌ c s ∷ ss

unfoldable pub split_dots : String → List String
split_dots String.[] = String.[] ∷ []
split_dots (String.◌∷◌ c s) =
    let rest = split_dots s in if nat_beq (code c) b'.' then String.[] ∷ rest else push_front c rest

-- A part is a key, or an index if it is in brackets; an index that is no number is an error.
pub data Step : Type 0 where
  key : String → Step
  index : ℕ → Step
  bad_index : Step

-- All but the last character, if the last is a closing bracket.
abbrev before_bracket : String → Option String
before_bracket String.[] = none
before_bracket (String.◌∷◌ c String.[]) = if nat_beq (code c) b']' then some String.[] else none
before_bracket (String.◌∷◌ c s) = elim (before_bracket s) [
  | none ↦ none
  | some t ↦ some (String.◌∷◌ c t)
]

abbrev as_index : Option ℕ → Step
as_index none = bad_index
as_index (some n) = index n

unfoldable pub step_of : String → Step
step_of String.[] = key String.[]
step_of (String.◌∷◌ c s) =
    if nat_beq (code c) b'['
    then elim (before_bracket s) [ none ↦ key (String.◌∷◌ c s) | some t ↦ as_index (parse_usize t) ]
    else key (String.◌∷◌ c s)

module _ (x : Externs) where
  -- One step of `json_extract`: `none` is the early return of NULL.
  abbrev descend : Step → Json → Result (Option Json)
  descend bad_index j = err SkvsError.json
  descend (index n) (Json.array a) = ok (item a n)
  descend (key k) (Json.object o) = ok (get_field o k)
  descend _ j = ok none

  unfoldable pub walk : List String → Json → Result Value
  walk [] j = ok (json_value_to_skvs x j)
  walk (p ∷ ps) j =
      descend (step_of p) j >>= λ r. elim r [ none ↦ ok Value.null | some k ↦ walk ps k ]

  unfoldable pub json_extract : String → String → Result Value
  json_extract json_str path = do
    val ← ok_or (x.json_from_str json_str) SkvsError.json
    let rest = strip_prefix b'.' (strip_prefix b'$' path)
    if rest == "" then ok (json_value_to_skvs x val) else walk (split_dots rest) val

  abbrev or_empty_object : Option Json → Json
  or_empty_object none = Json.object end
  or_empty_object (some j) = j

  -- The last part replaces; the parts before it descend, creating an object for a missing key.
  abbrev set_last : Step → Json → Json → Result Json
  set_last bad_index v j = err SkvsError.json
  set_last (index n) v (Json.array a) = elim (item a n) [
    | none ↦ err SkvsError.json
    | some _ ↦ ok (Json.array (set_item a n v))
  ]
  set_last (key k) v (Json.object o) = ok (Json.object (set_field o k v))
  set_last _ v j = err SkvsError.json

  abbrev set_inner : Step → (Json → Result Json) → Json → Result Json
  set_inner bad_index go j = err SkvsError.json
  set_inner (index n) go (Json.array a) = elim (item a n) [
    | none ↦ err SkvsError.json
    | some k ↦ go k >>= λ k'. ok (Json.array (set_item a n k'))
  ]
  set_inner (key k) go (Json.object o) =
      go (or_empty_object (get_field o k)) >>= λ k'. ok (Json.object (set_field o k k'))
  set_inner _ go j = err SkvsError.json

  unfoldable pub set_at : List String → Json → Json → Result Json
  set_at [] v j = err SkvsError.json
  set_at (p ∷ []) v j = set_last (step_of p) v j
  set_at (p ∷ q ∷ ps) v j = set_inner (step_of p) (set_at (q ∷ ps) v) j

  unfoldable pub json_set : String → String → Value → Result String
  json_set json_str path new_value = do
    val ← ok_or (x.json_from_str json_str) SkvsError.json
    out ← set_at (split_dots path) (skvs_value_to_json x new_value) val
    ok (x.json_to_string out)
