-- ===== src/Examples/Setting.antt =====
-- An environment to run the model in: file names in unary, no reals, words as they stand.
use Prim.Native.Char.{code}
use skvs.Prelude.{
  ℕ, zero, suc, String, true, false, ◌≡◌, refl, sym, ap, Option, none, some, List, [], ◌∷◌, arith,
  string_eq, nat_eq,
}
use skvs.Prelude.Int.{pos}
use skvs.Externs.{Externs}
use skvs.Value.{Value, Row}
use skvs.Schema.{ColumnDef, DataType, TableSchema, IndexDef}
use skvs.State.{KvsState, Bytes, new_with_config}
use skvs.Sql.Env.{Env}

abbrev unary_byte : ℕ → String → String
unary_byte zero s = String.◌∷◌ "b" s
unary_byte (suc n) s = String.◌∷◌ "a" (unary_byte n s)

abbrev pub unary : Bytes → String
unary [] = ""
unary (b ∷ bs) = unary_byte b (unary bs)

-- The code of the first character.
abbrev first_code : String → Option ℕ
first_code String.[] = none
first_code (String.◌∷◌ c s) = some (code c)

abbrev rest_of : String → String
rest_of String.[] = ""
rest_of (String.◌∷◌ c s) = s

unary_byte-inj : (m n : ℕ) (s t : String) → unary_byte m s ≡ unary_byte n t → (m ≡ n) × (s ≡ t)
unary_byte-inj zero zero s t h = (refl, ap rest_of h)
unary_byte-inj zero (suc n) s t h = absurd (ground (arith, ap first_code h))
unary_byte-inj (suc m) zero s t h = absurd (ground (arith, ap first_code h))
unary_byte-inj (suc m) (suc n) s t h = ground (arith, unary_byte-inj m n s t (ap rest_of h))

unary-nil : (b : ℕ) (s : String) → unary_byte b s ≡ "" → ⊥
unary-nil zero s h = ground (arith, ap first_code h)
unary-nil (suc b) s h = ground (arith, ap first_code h)

pub unary-inj : (a b : Bytes) → unary a ≡ unary b → a ≡ b
unary-inj [] [] h = refl
unary-inj [] (b ∷ bs) h = absurd (unary-nil b (unary bs) (sym h))
unary-inj (a ∷ as') [] h = absurd (unary-nil a (unary as') h)
unary-inj (a ∷ as') (b ∷ bs) h =
    ground (arith, unary_byte-inj a b (unary as') (unary bs) h, unary-inj as' bs)

-- The whole text as one word.
abbrev one_word : String → List String
one_word s = s ∷ []

abbrev pub plain_externs : Externs
plain_externs = record {
  partial_cmp = λ a b. none;
  f64_of_i64 = λ i. 0;
  i64_of_f64 = λ f. pos 0;
  f64_add = λ a b. a;
  f64_sub = λ a b. a;
  f64_mul = λ a b. a;
  f64_div = λ a b. a;
  f64_rem = λ a b. a;
  f64_neg = λ a. a;
  f64_abs = λ a. a;
  f64_fract = λ a. a;
  f64_round = λ a. a;
  f64_ln = λ a. a;
  f64_powi10 = λ i. 0;
  f64_is_finite = λ f. true;
  f64_to_string = λ f. "";
  f64_parse = λ s. none;
  after_panic = pos 0;
  to_lowercase = λ s. s;
  to_uppercase = λ s. s;
  trim = λ s. s;
  trim_start = λ s. s;
  trim_end = λ s. s;
  replace = λ s a b. s;
  as_bytes = λ s. [];
  find_words = one_word;
  hex_encode = unary;
  dash_order = λ ks. ks;
  base64_encode = unary;
  base64_decode = λ s. none;
  json_from_str = λ s. none;
  json_from_slice = λ s. none;
  json_to_string = λ j. "";
}

abbrev pub plain_env : Env
plain_env = record {
  externs = plain_externs;
  parse_sql = λ s. none;
  parse_expr = λ s. none;
  expr_to_string = λ e. "";
  query_to_string = λ q. "";
  value_debug = λ v. "";
}

abbrev pub id_column : ColumnDef
id_column = record {
  name = "id";
  data_type = DataType.integer;
  primary_key = true;
  auto_increment = false;
  not_null = true;
  default = none;
  unique = false;
  check_expr = none;
}

abbrev pub users : TableSchema
users = record {
  name = "users";
  columns = ("id", id_column) ∷ [];
  rowid_column = none;
  foreign_keys = [];
  indices = [];
  triggers = [];
  unique_groups = [];
  table_checks = [];
  fts5_content_column = none;
}

abbrev pub by_id : IndexDef
by_id = record {
  name = "by_id";
  columns = "id" ∷ [];
  unique = false;
  partial_where = none;
  is_expression = false;
}

abbrev pub row_of : ℕ → Row
row_of n = ("id", Value.integer (pos n)) ∷ []

-- Database 1 with the table of users, which has one row.
abbrev pub one_user : KvsState
one_user = record (new_with_config ((1, "main") ∷ []) 2) {
  dbs = (1, ("users", (1, row_of 7) ∷ []) ∷ []) ∷ [];
  schemas = (1, ("users", users) ∷ []) ∷ [];
}
