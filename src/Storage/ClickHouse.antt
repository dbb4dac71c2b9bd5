-- ===== src/Storage/ClickHouse.antt =====
-- `ClickHouseClient` of services/storage/src/infrastructure/clickhouse/client.py: the statement that
-- `insert_rows` sends, and `_ensure_tables`. A row is the list of the entries of a dict, and a value that
-- `None` stands for is `none`.
pub mod Tests
use text.Mathlib.TextEquality.{eq_iff}
use realtime_analytics_pipel.Prelude.{
  ◌≡◌, refl, sym, ap, ◌∙◌, Bool, true, false, ◌||◌, Option, none, some, List, [], ◌∷◌, map, String,
  str_eq, Outcome, ok, raise, Exn, if◌then◌else◌, Bool-cases, inl, inr, arith, eq_iff,
}

abbrev pub Row : Type 0 → Type 0
Row V = List (String × V)

-- `INSERT INTO table (columns) VALUES` and its data
pub record Insert (V : Type 0) : Type 0 where
  pub table : String
  pub columns : List String
  pub rows : List (List (Option V))

abbrev pub is_column : String → List String → Bool
is_column c [] = false
is_column c (k ∷ ks) = str_eq k c || is_column c ks

module _ {V : Type 0} where
  -- `list(first.keys())`
  unfoldable pub keys : Row V → List String
  keys [] = []
  keys ((k, v) ∷ rest) = k ∷ keys rest

  -- `r.get(col)`
  unfoldable pub get : String → Row V → Option V
  get c [] = none
  get c ((k, v) ∷ rest) = let later = get c rest in if str_eq k c then some v else later

  -- `tuple(r.get(col) for col in columns)`
  unfoldable pub values : List String → Row V → List (Option V)
  values [] r = []
  values (c ∷ cs) r = get c r ∷ values cs r

  unfoldable pub data_of : List String → List (Row V) → List (List (Option V))
  data_of columns [] = []
  data_of columns (r ∷ rs) = values columns r ∷ data_of columns rs

  -- the statement sent, if any
  unfoldable pub insert_rows : (table : String) → List (Row V) → Option (Insert V)
  insert_rows table [] = none
  insert_rows table (first ∷ rest) =
      some
        (record { table = table; columns = keys first; rows = data_of (keys first) (first ∷ rest) })

  -- what a tuple of values gives to the column `c`
  abbrev pub column : String → List String → List (Option V) → Option V
  column c [] vs = none
  column c (k ∷ ks) [] = none
  column c (k ∷ ks) (v ∷ vs) = let later = column c ks vs in if str_eq k c then v else later

  -- what is inserted for the column `c`, row by row
  abbrev pub inserted : String → Option (Insert V) → List (Option V)
  inserted c none = []
  inserted c (some i) = map (column c i.columns) i.rows

  -- what the rows hold for a column of the first one
  abbrev pub of_rows : String → List (Row V) → List (Option V)
  of_rows c [] = []
  of_rows c (first ∷ rest) =
      map (λ r. if is_column c (keys first) then get c r else none) (first ∷ rest)

  column-values :
      (c : String) (cs : List String) (r : Row V)
      → column c cs (values cs r) ≡ (if is_column c cs then get c r else none)
  unfolding values
  column-values c [] r = refl
  column-values c (k ∷ ks) r = elim (Bool-cases (str_eq k c)) [
    | inl e ↦ rw e (ap (λ j. get j r) ((eq_iff k c).0 e))
    | inr e ↦ rw e (column-values c ks r)
  ]

  columns-data_of :
      (c : String) (cs : List String) (rs : List (Row V))
      → map (column c cs) (data_of cs rs) ≡ map (λ r. if is_column c cs then get c r else none) rs
  unfolding data_of
  columns-data_of c cs [] = refl
  columns-data_of c cs (r ∷ rs) =
      rw (column-values c cs r)
        (ap (λ l. (if is_column c cs then get c r else none) ∷ l) (columns-data_of c cs rs))

  -- For every column, `insert_rows` inserts for each row, in order, what that row holds under the
  -- column's name if the first row has it, and nothing otherwise; with no rows it sends no statement.
  pub insert_rows-inserted :
      (table c : String) (rs : List (Row V)) → inserted c (insert_rows table rs) ≡ of_rows c rs
  unfolding insert_rows
  insert_rows-inserted table c [] = refl
  insert_rows-inserted table c (first ∷ rest) = columns-data_of c (keys first) (first ∷ rest)

-- `_ensure_tables`: the statements executed, up to the first that raises
unfoldable pub ensure_tables :
    (execute : String → Outcome (Unit {0})) → List String → Outcome (Unit {0}) × List String
ensure_tables execute [] = (ok tt, [])
ensure_tables execute (ddl ∷ ddls) =
    let rest = ensure_tables execute ddls in
    elim (execute ddl) [ ok u ↦ (rest.0, ddl ∷ rest.1) | raise e ↦ (raise e, ddl ∷ []) ]
