-- ===== src/Sql/Select/Join.antt =====
-- src/sql/select.rs: joins. The joined row holds each column under its qualified name, and under
-- its bare name if no table before it has that name.
use Prim.Native.String.{◌++◌ as append}
use skvs.Prelude.{
  ℕ, String, Bool, true, false, Option, none, some, List, [], ◌∷◌, ◌++◌, all, first, unwrap_or,
  is_some, map, ◌==◌, nat_eq, string_eq, if◌then◌else◌,
}
use skvs.Prelude.Map.{Map, keys, values, lookup, insert, contains_key}
use skvs.Error.{SkvsError, Result, ok, err, ◌>>=◌, ok_or}
use skvs.Value.{Value, Row}
use skvs.Schema.{TableSchema}
use skvs.State.{KvsState, get_schema, get_table_store}
use skvs.Index.{value_to_key_string}
use skvs.Expr.Ast.{Expr, BinaryOperator}
use skvs.Sql.Ast.{TableFactor, JoinConstraint, JoinOperator, Join, TableWithJoins}
use skvs.Sql.Env.{Env}
use skvs.Sql.Where.{evaluate_where_ctx}

abbrev pub parse_table_factor : TableFactor → String × Option String
parse_table_factor (TableFactor.table name alias) = (name, alias)
parse_table_factor (TableFactor.other text) = (text, none)

abbrev pub qualified_name : String → String → String
qualified_name table col = append table (append "." col)

abbrev table_ref_name : TableFactor → String
table_ref_name t = unwrap_or (parse_table_factor t).1 (parse_table_factor t).0

-- `entry(k).or_insert(v)`
abbrev pub or_insert : String → Value → Row → Row
or_insert k v row = if contains_key k row then row else insert k v row

unfoldable pub insert_row_qualified : String → Row → Row → Row
insert_row_qualified table [] combined = combined
insert_row_qualified table ((k, v) ∷ rest) combined =
    insert_row_qualified table rest (or_insert k v (insert (qualified_name table k) v combined))

unfoldable pub null_columns : String → List String → Row → Row
null_columns table [] r = r
null_columns table (c ∷ cs) r =
    null_columns table cs (or_insert c Value.null (insert (qualified_name table c) Value.null r))

unfoldable pub null_padded : String → Option TableSchema → Option Row → Row
null_padded table (some schema) sample = null_columns table (keys schema.columns) []
null_padded table none (some sample) = null_columns table (keys sample) []
null_padded table none none = []

abbrev insert_all : Row → Row → Row
insert_all [] row = row
insert_all ((k, v) ∷ rest) row = insert_all rest (insert k v row)

-- One side of an equality, as the first (true) or the second table's column.
abbrev side_of : String → String → Expr → Option (Bool × String)
side_of name1 name2 (Expr.compound_identifier (t ∷ c ∷ [])) =
    if t == name1 then some (true, c) else if t == name2 then some (false, c) else none
side_of name1 name2 _ = none

abbrev pair_sides : Option (Bool × String) → Option (Bool × String) → Option (String × String)
pair_sides (some (true, c1)) (some (false, c2)) = some (c1, c2)
pair_sides (some (false, c2)) (some (true, c1)) = some (c1, c2)
pair_sides _ _ = none

unfoldable pub extract_equi_join : JoinConstraint → String → String → Option (String × String)
extract_equi_join (JoinConstraint.on (Expr.binary_op l BinaryOperator.eq r)) name1 name2 =
    pair_sides (side_of name1 name2 l) (side_of name1 name2 r)
extract_equi_join _ name1 name2 = none

module _ (x : Env) (db : ℕ) (params : List Value) (s : KvsState) where
  -- The rows under each key text, in their order.
  unfoldable pub hash_by_column : List Row → String → Map String (List Row) → Map String (List Row)
  hash_by_column [] col m = m
  hash_by_column (r ∷ rs) col m = elim (lookup col r) [
    | none ↦ hash_by_column rs col m
    | some v ↦
        let k = value_to_key_string x.externs v in
        hash_by_column rs col (insert k (unwrap_or (lookup k m) [] ++ (r ∷ [])) m)
  ]

  unfoldable pub join_condition_matches : Row → JoinConstraint → Bool
  join_condition_matches combined (JoinConstraint.on e) =
      (evaluate_where_ctx x.externs s db combined params e 0).0
  join_condition_matches combined (JoinConstraint.using cols) =
      all (λ c. is_some (lookup c combined)) cols
  join_condition_matches combined JoinConstraint.natural = true
  join_condition_matches combined JoinConstraint.unconstrained = true

  module _ (name2 : String) (schema2 : Option TableSchema) (rows2 : List Row) where
    abbrev combine : Row → Row → Row
    combine row1 row2 = insert_row_qualified name2 row2 row1

    -- The combinations of one row with the rows of the second table that the test takes.
    unfoldable pub matching : JoinConstraint → Row → List Row → List Row
    matching c row1 [] = []
    matching c row1 (row2 ∷ rest) =
        let others = matching c row1 rest in
        let combined = combine row1 row2 in
        if join_condition_matches combined c then combined ∷ others else others

    abbrev padded : Row → Row
    padded row1 = insert_all (null_padded name2 schema2 (first rows2)) row1

    abbrev or_padded : Row → List Row → List Row
    or_padded row1 [] = padded row1 ∷ []
    or_padded row1 (r ∷ rs) = r ∷ rs

    unfoldable pub inner_join : JoinConstraint → List Row → List Row
    inner_join c [] = []
    inner_join c (row1 ∷ rest) = matching c row1 rows2 ++ inner_join c rest

    unfoldable pub left_join : JoinConstraint → List Row → List Row
    left_join c [] = []
    left_join c (row1 ∷ rest) = or_padded row1 (matching c row1 rows2) ++ left_join c rest

    -- The matches of one row by the hash of its column.
    abbrev hash_matches : Map String (List Row) → String → Row → List Row
    hash_matches by_val q1 row1 = elim (lookup q1 row1) [
      | none ↦ []
      | some v ↦ map (combine row1) (unwrap_or (lookup (value_to_key_string x.externs v) by_val) [])
    ]

    unfoldable pub hash_inner_join : Map String (List Row) → String → List Row → List Row
    hash_inner_join by_val q1 [] = []
    hash_inner_join by_val q1 (row1 ∷ rest) =
        hash_matches by_val q1 row1 ++ hash_inner_join by_val q1 rest

    unfoldable pub hash_left_join : Map String (List Row) → String → List Row → List Row
    hash_left_join by_val q1 [] = []
    hash_left_join by_val q1 (row1 ∷ rest) =
        or_padded row1 (hash_matches by_val q1 row1) ++ hash_left_join by_val q1 rest

    -- The combinations of one row of the second table with the rows so far.
    unfoldable pub matching_left : JoinConstraint → List Row → Row → List Row
    matching_left c [] row2 = []
    matching_left c (row1 ∷ rest) row2 =
        let others = matching_left c rest row2 in
        let combined = combine row1 row2 in
        if join_condition_matches combined c then combined ∷ others else others

    abbrev nulls : List String → Row → Row
    nulls [] row = row
    nulls (k ∷ ks) row = nulls ks (insert k Value.null row)

    -- A row of the second table alone, with the columns of the first row so far as NULLs.
    abbrev unmatched : List Row → Row → Row
    unmatched result row2 =
        insert_row_qualified name2 row2
          (nulls (elim (first result) [ none ↦ [] | some r ↦ keys r ]) [])

    unfoldable pub right_join : JoinConstraint → List Row → List Row → List Row
    right_join c result [] = []
    right_join c result (row2 ∷ rest) =
        elim (matching_left c result row2) [ [] ↦ unmatched result row2 ∷ [] | r ∷ rs ↦ r ∷ rs ]
        ++ right_join c result rest

    abbrev lone_rows : JoinConstraint → List Row → List Row → List Row
    lone_rows c result [] = []
    lone_rows c result (row2 ∷ rest) =
        elim (matching_left c result row2) [ [] ↦ unmatched result row2 ∷ [] | r ∷ rs ↦ [] ]
        ++ lone_rows c result rest

    unfoldable pub full_join : JoinConstraint → List Row → List Row
    unfolding left_join
    full_join c result = left_join c result ++ lone_rows c result rows2

    unfoldable pub cross_join : List Row → List Row
    cross_join [] = []
    cross_join (row1 ∷ rest) = map (combine row1) rows2 ++ cross_join rest

    -- `equi` is the pair of columns of a plain equi-join, on the first hop only.
    unfoldable pub join_rows :
        Option (String × String) → String → JoinOperator → List Row → Result (List Row)
    join_rows (some (c1, c2)) name1 (JoinOperator.inner c) result =
        ok (hash_inner_join (hash_by_column rows2 c2 []) (qualified_name name1 c1) result)
    join_rows (some (c1, c2)) name1 (JoinOperator.left_outer c) result =
        ok (hash_left_join (hash_by_column rows2 c2 []) (qualified_name name1 c1) result)
    join_rows none name1 (JoinOperator.inner c) result = ok (inner_join c result)
    join_rows none name1 (JoinOperator.left_outer c) result = ok (left_join c result)
    join_rows equi name1 (JoinOperator.right_outer c) result = ok (right_join c result rows2)
    join_rows equi name1 (JoinOperator.full_outer c) result = ok (full_join c result)
    join_rows equi name1 JoinOperator.cross_join result = ok (cross_join result)
    join_rows equi name1 JoinOperator.other result = err SkvsError.unsupported

  abbrev equi_of : Bool → JoinOperator → String → String → Option (String × String)
  equi_of true (JoinOperator.inner c) name1 name2 = extract_equi_join c name1 name2
  equi_of true (JoinOperator.left_outer c) name1 name2 = extract_equi_join c name1 name2
  equi_of _ _ name1 name2 = none

  unfoldable pub join_all : Bool → String → List Join → List Row → Result (List Row)
  join_all first_hop name1 [] result = ok result
  join_all first_hop name1 (j ∷ js) result =
      let table2 = (parse_table_factor j.relation).0 in
      let name2 = table_ref_name j.relation in
      ok_or (get_table_store db table2 s) SkvsError.schema >>= λ store2.
      join_rows name2 (get_schema db table2 s) (values store2)
        (equi_of first_hop j.join_operator name1 name2) name1 j.join_operator result
      >>= λ rows. join_all false name1 js rows

  -- Only the first item of FROM, with its joins, is read.
  unfoldable pub execute_joins : List TableWithJoins → Result (List Row)
  execute_joins [] = ok []
  execute_joins (t ∷ _) =
      let name1 = table_ref_name t.relation in
      ok_or (get_table_store db (parse_table_factor t.relation).0 s) SkvsError.schema >>= λ store1.
      join_all true name1 t.joins (map (λ row. insert_row_qualified name1 row []) (values store1))
