-- ===== src/Trigger.antt =====
-- src/trigger.rs: the triggers of a table, run by the function that executes a statement.
use Prim.Native.String.{◌++◌ as append}
use skvs.Prelude.{
  ℕ, String, Bool, true, ◌&&◌, Option, none, some, [], ◌∷◌, string_eq, if◌then◌else◌,
}
use skvs.Prelude.Map.{insert}
use skvs.Externs.{Externs}
use skvs.Error.{SkvsError, Result, ok, err, ok_or}
use skvs.Text.{i64_to_string}
use skvs.Value.{Value, Row, null, integer, real, text, blob}
use skvs.Schema.{TriggerDef, TriggerEvent, TriggerTiming, event_eq, timing_eq}
use skvs.State.{KvsState, get_triggers}
use skvs.Sql.Ast.{Statement}
use skvs.Sql.Env.{Env, QueryResult, Exec}
use skvs.Sql.Exec.{pure, lift, gets, asks, ◌>>=◌, for_each}
use skvs.Sql.Where.{evaluate_where_ctx}

module _ (x : Externs) where
  unfoldable pub value_to_sql_literal : Value → String
  value_to_sql_literal null = "NULL"
  value_to_sql_literal (integer i) = i64_to_string i
  value_to_sql_literal (real f) = x.f64_to_string f
  value_to_sql_literal (text s) = append "'" (append (x.replace s "'" "''") "'")
  value_to_sql_literal (blob b) = append "X'" (append (x.hex_encode b) "'")

  abbrev substitute_row : String → String → Row → String
  substitute_row prefix body [] = body
  substitute_row prefix body ((k, v) ∷ rest) =
      substitute_row prefix (x.replace body (append prefix k) (value_to_sql_literal v)) rest

  abbrev substitute_opt : String → String → Option Row → String
  substitute_opt prefix body none = body
  substitute_opt prefix body (some row) = substitute_row prefix body row

  unfoldable pub substitute_trigger_variables : String → Option Row → Option Row → String
  substitute_trigger_variables body old new =
      substitute_opt "NEW." (substitute_opt "OLD." body old) new

-- The row that a WHEN condition sees: the old columns, then the new ones, by their qualified names.
abbrev prefixed : String → Row → Row → Row
prefixed prefix [] ctx = ctx
prefixed prefix ((k, v) ∷ rest) ctx = prefixed prefix rest (insert (append prefix k) v ctx)

abbrev prefixed_opt : String → Option Row → Row → Row
prefixed_opt prefix none ctx = ctx
prefixed_opt prefix (some row) ctx = prefixed prefix row ctx

unfoldable pub condition_row : Option Row → Option Row → Row
condition_row old new = prefixed_opt "NEW." new (prefixed_opt "OLD." old [])

module _ (x : Env) (db : ℕ) (tx : Option ℕ) where
  -- Whether the condition lets the trigger run.
  unfoldable pub condition_holds : TriggerDef → Option Row → Option Row → KvsState → Result Bool
  condition_holds t old new s = elim t.condition [
    | none ↦ ok true
    | some c ↦ elim (x.parse_expr c) [
      | none ↦ err SkvsError.sql_parse
      | some e ↦ ok (evaluate_where_ctx x.externs s db (condition_row old new) [] e 0).0
    ]
  ]

  module _ (execute : ℕ → Statement → Option ℕ → Exec QueryResult) where
    abbrev run_statement : Statement → Exec (Unit {0})
    run_statement stmt = execute db stmt tx >>= λ _. pure tt

    unfoldable pub run_body : TriggerDef → Option Row → Option Row → Exec (Unit {0})
    run_body t old new =
        lift (
          ok_or (x.parse_sql (substitute_trigger_variables x.externs t.body old new))
            SkvsError.sql_parse)
        >>= λ statements. for_each run_statement statements

    unfoldable pub run_trigger :
        TriggerEvent → TriggerTiming → Option Row → Option Row → TriggerDef → Exec (Unit {0})
    run_trigger event timing old new t =
        if event_eq t.event event && timing_eq t.timing timing
        then (asks (condition_holds t old new) >>= λ holds.
            if holds then run_body t old new else pure tt)
        else pure tt

    unfoldable pub fire_triggers :
        String → TriggerEvent → TriggerTiming → Option Row → Option Row → Exec (Unit {0})
    fire_triggers table event timing old new = gets (get_triggers db table) >>= λ triggers.
        for_each (run_trigger event timing old new) triggers
