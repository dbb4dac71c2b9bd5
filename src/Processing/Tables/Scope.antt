-- ===== src/Processing/Tables/Scope.antt =====
-- The names that a table uses and has: a static check of tables against a catalogue of schemas. It says
-- nothing of the types that Flink gives to expressions, only which columns, row fields, windows and
-- time attributes there are.
use realtime_analytics_pipel.Prelude.{
  Bool, true, false, not, ◌&&◌, ◌||◌, Option, none, some, List, [], ◌∷◌, ◌++◌, String, str_eq,
  if◌then◌else◌,
}
use realtime_analytics_pipel.Processing.Tables.{
  DataType, atomic, map_of, row, Column, column, column_by_expression, Schema, Expr, col, get,
  literal, like, then_else, in_list, equals, is_not_null, aggregate, window_start, window_end, cast,
  call_sql, alias, Table, from_path, add_columns, select, filter, window, group_by,
}

-- a time attribute is a column with a watermark or the processing time
pub data Shape : Type 0 where
  value : Shape
  row_of : (fields : List String) → Shape
  time_attribute : Shape
  a_window : Shape

abbrev pub Scope : Type 0
Scope = List (String × Shape)

abbrev pub is_in : String → List String → Bool
is_in x [] = false
is_in x (y ∷ ys) = str_eq y x || is_in x ys

abbrev pub all_in : List String → List String → Bool
all_in [] ys = true
all_in (x ∷ xs) ys = is_in x ys && all_in xs ys

abbrev pub names : {A : Type 0} → List (String × A) → List String
names [] = []
names ((n, _) ∷ rest) = n ∷ names rest

abbrev pub find : {A : Type 0} → String → List (String × A) → Option A
find x [] = none
find x ((n, a) ∷ rest) = let later = find x rest in if str_eq n x then some a else later

-- no name occurs twice
abbrev is_distinct : List String → Bool
is_distinct [] = true
is_distinct (x ∷ xs) = not (is_in x xs) && is_distinct xs

abbrev shape_of_type : DataType → Shape
shape_of_type (atomic a) = value
shape_of_type (map_of k v) = value
shape_of_type (row fields) = row_of (names fields)

abbrev pub column_name : Column → String
column_name (column n t) = n
column_name (column_by_expression n sql) = n

abbrev pub column_names : List Column → List String
column_names [] = []
column_names (c ∷ cs) = column_name c ∷ column_names cs

-- `mentions` gives the columns that an SQL text names
module _ (mentions : String → List String) where
  abbrev shape_of_column : List (String × String) → Column → Shape
  shape_of_column watermarks (column n t) =
      if is_in n (names watermarks) then time_attribute else shape_of_type t
  shape_of_column watermarks (column_by_expression n sql) =
      if is_in n (names watermarks) || str_eq sql "PROCTIME()" then time_attribute else value

  abbrev shapes : List (String × String) → List Column → Scope
  shapes watermarks [] = []
  shapes watermarks (c ∷ cs) = (column_name c, shape_of_column watermarks c) ∷ shapes watermarks cs

  -- each computed column, and each watermark, names only columns of the schema
  abbrev computed_in : List String → List Column → Bool
  computed_in known [] = true
  computed_in known (column n t ∷ cs) = computed_in known cs
  computed_in known (column_by_expression n sql ∷ cs) =
      all_in (mentions sql) known && computed_in known cs

  abbrev watermarks_in : List String → List (String × String) → Bool
  watermarks_in known [] = true
  watermarks_in known ((n, sql) ∷ rest) =
      is_in n known && (all_in (mentions sql) known && watermarks_in known rest)

  -- what a schema declares, if its names are distinct and in scope
  abbrev pub declared : Schema → Option Scope
  declared s =
      let known = column_names s.columns in
      if is_distinct known && (computed_in known s.columns && watermarks_in known s.watermarks)
      then some (shapes s.watermarks s.columns)
      else none

  abbrev plain : Option Shape → Option Shape
  plain (some value) = some value
  plain (some time_attribute) = some value
  plain _ = none

  abbrev both : Option Shape → Option Shape → Option Shape
  both (some a) (some b) = some value
  both _ _ = none

  abbrev field_of : String → Option Shape → Option Shape
  field_of f (some (row_of fields)) = if is_in f fields then some value else none
  field_of f _ = none

  abbrev of_window : Option Shape → Option Shape
  of_window (some a_window) = some value
  of_window _ = none

  -- The columns `grouped` are those that may be used outside an aggregate; `none` stands for a table
  -- that is not grouped, in which all may be used and nothing may be aggregated.
  abbrev usable : Option (List String) → String → Bool
  usable none n = true
  usable (some keys) n = is_in n keys

  abbrev aggregated : Option (List String) → Option Shape → Option Shape
  aggregated none s = none
  aggregated (some keys) s = plain s

  abbrev pub shape : Option (List String) → Scope → Expr → Option Shape
  shape grouped scope (col n) = if usable grouped n then find n scope else none
  shape grouped scope (get e f) = field_of f (shape grouped scope e)
  shape grouped scope (literal t) = some value
  shape grouped scope (like e p) = plain (shape grouped scope e)
  shape grouped scope (then_else c a b) =
      both (plain (shape grouped scope c))
        (both (plain (shape grouped scope a)) (plain (shape grouped scope b)))
  shape grouped scope (in_list e ts) = plain (shape grouped scope e)
  shape grouped scope (equals e t) = plain (shape grouped scope e)
  shape grouped scope (is_not_null e) = plain (shape grouped scope e)
  shape grouped scope (aggregate a e) = aggregated grouped (shape none scope e)
  shape grouped scope (window_start e) = of_window (shape grouped scope e)
  shape grouped scope (window_end e) = of_window (shape grouped scope e)
  shape grouped scope (cast e t) = plain (shape grouped scope e)
  shape grouped scope (call_sql text) =
      if all_in (mentions text) (names scope) then some value else none
  shape grouped scope (alias e n) = shape grouped scope e

  -- the name that a selected expression gives to its column
  abbrev name_of : Expr → Option String
  name_of (col n) = some n
  name_of (alias e n) = some n
  name_of _ = none

  abbrev new_column : Option String → Option Shape → Option Scope → Option Scope
  new_column (some n) (some a_window) rest = none
  new_column (some n) (some s) (some rest) = some ((n, s) ∷ rest)
  new_column _ _ _ = none

  abbrev new_columns : Option (List String) → Scope → List Expr → Option Scope
  new_columns grouped scope [] = some []
  new_columns grouped scope (e ∷ es) =
      new_column (name_of e) (shape grouped scope e) (new_columns grouped scope es)

  -- a table as it is, one that has been given the window `w`, and one that has been grouped by `keys`
  pub data Relation : Type 0 where
    ready : Scope → Relation
    with_window : Scope → (w : String) → Relation
    in_groups : Scope → (keys : List String) → Relation

  abbrev scope_of : Relation → Scope
  scope_of (ready scope) = scope
  scope_of (with_window scope w) = scope
  scope_of (in_groups scope keys) = scope

  abbrev keys_of : Relation → Option (List String)
  keys_of (in_groups scope keys) = some keys
  keys_of _ = none

  abbrev distinct : Option Scope → Option Relation
  distinct none = none
  distinct (some scope) = if is_distinct (names scope) then some (ready scope) else none

  -- a table with a window has to be grouped before anything else
  abbrev selected : List Expr → Relation → Option Relation
  selected es (with_window scope w) = none
  selected es r = distinct (new_columns (keys_of r) (scope_of r) es)

  abbrev added : Scope → Option Scope → Option Relation
  added scope none = none
  added scope (some new) = distinct (some (scope ++ new))

  abbrev filtered : Relation → Option Shape → Option Relation
  filtered r (some value) = some r
  filtered r _ = none

  abbrev windowed : String → Scope → Option Shape → Option Relation
  windowed n scope (some time_attribute) =
      if is_in n (names scope) then none else some (with_window (scope ++ (n, a_window) ∷ []) n)
  windowed n scope _ = none

  -- the names of columns
  abbrev only_columns : List Expr → Option (List String)
  only_columns [] = some []
  only_columns (col n ∷ es) = elim (only_columns es) [ none ↦ none | some ns ↦ some (n ∷ ns) ]
  only_columns (_ ∷ es) = none

  -- a group has the window among its columns
  abbrev grouped_by : Scope → String → Option (List String) → Option Relation
  grouped_by scope w none = none
  grouped_by scope w (some keys) =
      if all_in keys (names scope) && is_in w keys then some (in_groups scope keys) else none

  -- what each operation makes of a table
  abbrev add_to : List Expr → Option Relation → Option Relation
  add_to es (some (ready scope)) = added scope (new_columns none scope es)
  add_to es _ = none

  abbrev select_of : List Expr → Option Relation → Option Relation
  select_of es (some r) = selected es r
  select_of es none = none

  abbrev filter_of : Expr → Option Relation → Option Relation
  filter_of e (some (ready scope)) = filtered (ready scope) (shape none scope e)
  filter_of e _ = none

  abbrev window_on : Expr → String → Option Relation → Option Relation
  window_on on name (some (ready scope)) = windowed name scope (shape none scope on)
  window_on on name _ = none

  abbrev group_of : List Expr → Option Relation → Option Relation
  group_of es (some (with_window scope w)) = grouped_by scope w (only_columns es)
  group_of es _ = none

  abbrev finished : Option Relation → Option (List String)
  finished (some (ready scope)) = some (names scope)
  finished _ = none

  -- the tables of a catalogue by their paths, with what their schemas declare
  module _ (catalogue : List (String × Option Scope)) where
    abbrev read_from : Option (Option Scope) → Option Relation
    read_from none = none
    read_from (some declares) = distinct declares

    abbrev pub relation : Table → Option Relation
    relation (from_path path) = read_from (find path catalogue)
    relation (add_columns es t) = add_to es (relation t)
    relation (select es t) = select_of es (relation t)
    relation (filter e t) = filter_of e (relation t)
    relation (window w on name t) = window_on on name (relation t)
    relation (group_by es t) = group_of es (relation t)

    -- the columns of a table whose names are all in scope
    abbrev pub output : Table → Option (List String)
    output t = finished (relation t)
