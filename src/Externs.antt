-- ===== src/Externs.antt =====
-- What the program takes from its environment and does not implement: IEEE arithmetic and the
-- Unicode and formatting routines of the Rust library, the hex, base64 and serde_json crates.
-- An `f64` is its 64-bit pattern; 0 is the pattern of 0.0.
use Prim.Native.Nat.{Ordering}
use skvs.Prelude.{ℕ, String, Bool, Option, some, List, true, false}
use skvs.Prelude.Int.{ℤ}
use skvs.Json.Tree.{Json}

abbrev pub F64 : Type 0
F64 = ℕ

pub record Externs : Type 0 where
  -- f64
  pub partial_cmp : F64 → F64 → Option Ordering
  pub f64_of_i64 : ℤ → F64
  pub i64_of_f64 : F64 → ℤ
  pub f64_add : F64 → F64 → F64
  pub f64_sub : F64 → F64 → F64
  pub f64_mul : F64 → F64 → F64
  pub f64_div : F64 → F64 → F64
  pub f64_rem : F64 → F64 → F64
  pub f64_neg : F64 → F64
  pub f64_abs : F64 → F64
  pub f64_fract : F64 → F64
  pub f64_round : F64 → F64
  pub f64_ln : F64 → F64
  pub f64_powi10 : ℤ → F64
  pub f64_is_finite : F64 → Bool
  pub f64_to_string : F64 → String
  pub f64_parse : String → Option F64
  -- what stands for the result of an i64 remainder that panics: nothing is assumed of it
  pub after_panic : ℤ
  -- str
  pub to_lowercase : String → String
  pub to_uppercase : String → String
  pub trim : String → String
  pub trim_start : String → String
  pub trim_end : String → String
  pub replace : String → String → String → String
  pub as_bytes : String → List ℕ
  -- the matches of `[a-zA-Z0-9]+`, by the regex crate
  pub find_words : String → List String
  -- the hex and base64 crates
  pub hex_encode : List ℕ → String
  pub base64_encode : List ℕ → String
  pub base64_decode : String → Option (List ℕ)
  -- the dashmap crate: keys in the order in which the iteration of a map gives them
  pub dash_order : List (List ℕ) → List (List ℕ)
  -- the serde_json crate
  pub json_from_str : String → Option Json
  pub json_from_slice : List ℕ → Option Json
  pub json_to_string : Json → String

abbrev pub is_equal : Option Ordering → Bool
is_equal (some Ordering.eq) = true
is_equal _ = false

abbrev pub is_less : Option Ordering → Bool
is_less (some Ordering.lt) = true
is_less _ = false
