-- ===== src/Expr/Function.antt =====
-- src/expr.rs: the scalar functions of `eval_function`, over arguments already evaluated.
use skvs.Prelude.{
  ℕ, ◌+◌, ◌-◌, String, not, ◌||◌, Option, none, some, List, [], ◌∷◌, min, ◌==◌, string_eq,
  unwrap_or, length, get_elem?, find, take, drop, nat_beq, leb, if◌then◌else◌,
}
use skvs.Prelude.Int.{ℤ, pos, negsuc, magnitude, wrap_i64}
use skvs.Error.{Result, ok, err}
use skvs.Externs.{Externs}
use skvs.Text.{chars, from_chars}
use skvs.Json.Convert.{json_array, json_object}
use skvs.Json.Path.{json_extract, json_set}
use skvs.Value.{Value, null, integer, real, text, blob, is_null, value_eq}
use skvs.Expr.Arithmetic.{to_f64, to_display_string}

-- `first().cloned().unwrap_or(Value::Null)`
abbrev pub or_null : Option Value → Value
or_null o = unwrap_or o null

abbrev pub ok_value : Result Value → Value
ok_value (ok v) = v
ok_value (err e) = null

abbrev pub ok_text : Result String → Value
ok_text (ok s) = text s
ok_text (err e) = null

abbrev pub on_text : (String → Value) → Option Value → Value
on_text f (some (text s)) = f s
on_text f _ = null

-- A function of a text that leaves any other argument as it is.
abbrev pub map_text : (String → String) → Option Value → Value
map_text f (some (text s)) = text (f s)
map_text f o = or_null o

abbrev pub length_of : Option Value → Value
length_of (some (text s)) = integer (pos (length (chars s)))
length_of (some (blob b)) = integer (pos (length b))
length_of _ = null

abbrev pub type_name : Option Value → String
type_name none = "null"
type_name (some null) = "null"
type_name (some (integer _)) = "integer"
type_name (some (real _)) = "real"
type_name (some (text _)) = "text"
type_name (some (blob _)) = "blob"

-- `substr`: 1-based, and a start that is not positive counts from the end.
abbrev pub start_index : ℕ → Option Value → ℕ
start_index n (some (integer (pos s))) = if nat_beq s 0 then n else s - 1
start_index n (some (integer (negsuc s))) = n - (s + 1)
start_index n _ = 0

abbrev pub piece_length : ℕ → ℕ → Option Value → ℕ
piece_length n start (some (integer (pos l))) = l
piece_length n start (some (integer (negsuc l))) = 0
piece_length n start _ = n - start

unfoldable pub substr : String → Option Value → Option Value → String
substr s from len =
    let cs = chars s in
    let n = length cs in
    let start = start_index n from in
    let stop = min (start + piece_length n start len) n in
    if leb n start then "" else from_chars (drop start (take stop cs))

module _ (x : Externs) where
  abbrev abs_of : Option Value → Value
  abs_of (some (integer i)) = integer (wrap_i64 (pos (magnitude i)))
  abs_of (some (real f)) = real (x.f64_abs f)
  abs_of _ = null

  abbrev places : Option Value → ℤ
  places (some (integer i)) = i
  places _ = pos 0

  abbrev round_of : Option Value → Option Value → Value
  round_of a p = elim (to_f64 x (or_null a)) [
    | none ↦ null
    | some f ↦
        let mult = x.f64_powi10 (places p) in real (x.f64_div (x.f64_round (x.f64_mul f mult)) mult)
  ]

  abbrev hex_of : Option Value → Value
  hex_of (some (blob b)) = text (x.hex_encode b)
  hex_of (some (text s)) = text (x.hex_encode (x.as_bytes s))
  hex_of _ = null

  abbrev replace_of : Option Value → Option Value → Option Value → Value
  replace_of (some (text s)) (some (text from)) (some (text to)) = text (x.replace s from to)
  replace_of _ _ _ = null

  abbrev path_or_root : Option Value → String
  path_or_root (some (text s)) = s
  path_or_root _ = "$"

  abbrev object_key : Value → String
  object_key (text s) = s
  object_key v = to_display_string x v

  abbrev pair_keys : List Value → List String
  pair_keys (k ∷ v ∷ rest) = object_key k ∷ pair_keys rest
  pair_keys _ = []

  abbrev pair_values : List Value → List Value
  pair_values (k ∷ v ∷ rest) = v ∷ pair_values rest
  pair_values _ = []

  abbrev null_if : Value → Value → Value
  null_if a b = if value_eq x a b then null else a

  -- `name` is in lower case already.
  unfoldable pub call : String → List Value → Value
  call name args =
      let a = get_elem? args 0 in
      let b = get_elem? args 1 in
      let c = get_elem? args 2 in
      if name == "json_extract"
      then on_text (λ s. ok_value (json_extract x s (path_or_root b))) a
      else if name == "json_array"
      then ok_text (json_array x args)
      else if name == "json_object"
      then ok_text (json_object x (pair_keys args) (pair_values args))
      else if name == "json_set"
      then on_text (λ s. on_text (λ p. ok_text (json_set x s p (or_null c))) b) a
      else if name == "upper"
      then map_text x.to_uppercase a
      else if name == "lower"
      then map_text x.to_lowercase a
      else if name == "length" || name == "len"
      then length_of a
      else if name == "abs"
      then abs_of a
      else if name == "round"
      then round_of a b
      else if name == "coalesce"
      then or_null (find (λ v. not (is_null v)) args)
      else if name == "ifnull"
      then (if is_null (or_null a) then or_null b else or_null a)
      else if name == "nullif"
      then null_if (or_null a) (or_null b)
      else if name == "trim"
      then map_text x.trim a
      else if name == "ltrim"
      then map_text x.trim_start a
      else if name == "rtrim"
      then map_text x.trim_end a
      else if name == "substr" || name == "substring"
      then on_text (λ s. text (substr s b c)) a
      else if name == "replace"
      then replace_of a b c
      else if name == "typeof"
      then text (type_name a)
      else if name == "hex"
      then hex_of a
      else null
