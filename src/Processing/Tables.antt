-- ===== src/Processing/Tables.antt =====
-- What the processing service asks of the Table API of Flink, as data: the types and schemas of
-- services/processing/src/core/schemas, and the expressions and tables of services/processing/src/jobs.
pub mod Scope
use realtime_analytics_pipel.Prelude.{ℕ, List, [], ◌∷◌, ◌++◌, String}

-- the fields of a row have no fields of their own here
pub data Atomic : Type 0 where
  string : Atomic
  int : Atomic
  bigint : Atomic
  double : Atomic
  timestamp_ltz : (precision : ℕ) → Atomic

pub data DataType : Type 0 where
  atomic : Atomic → DataType
  map_of : (key value : Atomic) → DataType
  row : List (String × Atomic) → DataType

pub data Column : Type 0 where
  column : (name : String) → DataType → Column
  column_by_expression : (name sql : String) → Column

-- `watermarks` are the columns that have one, with its SQL text
pub record Schema : Type 0 where
  pub columns : List Column
  pub watermarks : List (String × String)

abbrev pub new_builder : Schema
new_builder = record { columns = []; watermarks = [] }

-- the builder, the schema so far being the last argument
abbrev pub add_column : Column → Schema → Schema
add_column c s = record s { columns = s.columns ++ c ∷ [] }

abbrev pub add_watermark : String → String → Schema → Schema
add_watermark name sql s = record s { watermarks = s.watermarks ++ (name, sql) ∷ [] }

-- a percentile is given in hundredths
pub data Aggregate : Type 0 where
  count : Aggregate
  count_distinct : Aggregate
  avg : Aggregate
  max : Aggregate
  percentile : (hundredths : ℕ) → Aggregate

pub data Expr : Type 0 where
  col : String → Expr
  get : Expr → String → Expr
  literal : String → Expr
  like : Expr → String → Expr
  then_else : Expr → Expr → Expr → Expr
  in_list : Expr → List String → Expr
  equals : Expr → String → Expr
  is_not_null : Expr → Expr
  aggregate : Aggregate → Expr → Expr
  window_start : Expr → Expr
  window_end : Expr → Expr
  cast : Expr → Atomic → Expr
  call_sql : String → Expr
  alias : Expr → String → Expr

-- the seconds of a window are its size or its gap
pub data Window : Type 0 where
  tumble : (seconds : ℕ) → Window
  session : (seconds : ℕ) → Window

pub data Table : Type 0 where
  from_path : String → Table
  add_columns : List Expr → Table → Table
  select : List Expr → Table → Table
  filter : Expr → Table → Table
  window : Window → (on : Expr) → (name : String) → Table → Table
  group_by : List Expr → Table → Table
