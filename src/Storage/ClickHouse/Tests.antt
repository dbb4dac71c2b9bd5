-- ===== src/Storage/ClickHouse/Tests.antt =====
-- Statements for concrete rows.
use realtime_analytics_pipel.Prelude.{ℕ, ◌≡◌, refl, none, some, List, [], ◌∷◌}
use realtime_analytics_pipel.Storage.ClickHouse.{
  Row, keys, get, values, data_of, insert_rows, inserted, of_rows, insert_rows-inserted,
}

-- the second row has its keys in another order, lacks one and has one more
abbrev rows : List (Row ℕ)
rows =
    (("window_start", 10) ∷ ("event_count", 3) ∷ [])
    ∷ (("extra", 1) ∷ ("window_start", 20) ∷ [])
    ∷ []

sends_the_columns_of_the_first :
    insert_rows "event_metrics" rows
    ≡ some (record {
      table = "event_metrics";
      columns = "window_start" ∷ "event_count" ∷ [];
      rows = (some 10 ∷ some 3 ∷ []) ∷ (some 20 ∷ none ∷ []) ∷ [];
    })
unfolding insert_rows data_of values keys get
sends_the_columns_of_the_first = refl

insert_rows-inserted_example :
    inserted "window_start" (insert_rows "event_metrics" rows) ≡ of_rows "window_start" rows
insert_rows-inserted_example = insert_rows-inserted "event_metrics" "window_start" rows
