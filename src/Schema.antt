-- ===== src/Schema.antt =====
-- src/schema.rs: table schemas, indexes, triggers. SQL text that the schema keeps stays text.
use skvs.Prelude.{String, Bool, true, false, Option, List}
use skvs.Prelude.Map.{Map}
use skvs.Value.{Value}

pub data DataType : Type 0 where
  null integer real text blob : DataType

pub record ColumnDef : Type 0 where
  pub name : String
  pub data_type : DataType
  pub primary_key : Bool
  pub auto_increment : Bool
  pub not_null : Bool
  pub default : Option Value
  pub unique : Bool
  pub check_expr : Option String

pub data FkAction : Type 0 where
  no_action restrict cascade set_null set_default : FkAction

pub record ForeignKeyDef : Type 0 where
  pub column : String
  pub ref_table : String
  pub ref_column : String
  pub on_delete : FkAction
  pub on_update : FkAction

pub record UniqueGroup : Type 0 where
  pub columns : List String
  pub is_primary : Bool

pub record IndexDef : Type 0 where
  pub name : String
  pub columns : List String
  pub unique : Bool
  pub partial_where : Option String
  pub is_expression : Bool

pub data TriggerTiming : Type 0 where
  before after instead_of : TriggerTiming

pub data TriggerEvent : Type 0 where
  insert update delete : TriggerEvent

-- The derived equalities of the two enums.
abbrev pub timing_eq : TriggerTiming → TriggerTiming → Bool
timing_eq TriggerTiming.before TriggerTiming.before = true
timing_eq TriggerTiming.after TriggerTiming.after = true
timing_eq TriggerTiming.instead_of TriggerTiming.instead_of = true
timing_eq _ _ = false

abbrev pub event_eq : TriggerEvent → TriggerEvent → Bool
event_eq TriggerEvent.insert TriggerEvent.insert = true
event_eq TriggerEvent.update TriggerEvent.update = true
event_eq TriggerEvent.delete TriggerEvent.delete = true
event_eq _ _ = false

pub record TriggerDef : Type 0 where
  pub name : String
  pub timing : TriggerTiming
  pub event : TriggerEvent
  pub table : String
  pub for_each_row : Bool
  pub condition : Option String
  pub body : String

pub record TableSchema : Type 0 where
  pub name : String
  pub columns : Map String ColumnDef
  pub rowid_column : Option String
  pub foreign_keys : List ForeignKeyDef
  pub indices : List IndexDef
  pub triggers : List TriggerDef
  pub unique_groups : List UniqueGroup
  pub table_checks : List String
  pub fts5_content_column : Option String
