-- ===== src/Chain/Events.antt =====
-- The events that the ingestion service sends and the source of the processing service, whose format is JSON
-- with `fail-on-missing-field` off and `ignore-parse-errors` on: a column that is not found or cannot be read
-- is null there.
pub mod Tests
use realtime_analytics_pipel.Prelude.{
  ℕ, ◌^◌, ◌≡◌, refl, ap, ◌∙◌, Bool, true, false, ◌&&◌, Bool-cases, inl, inr, Option, none, some,
  List, [], ◌∷◌, String, str_eq, ltb, if◌then◌else◌, if_true, if_false, ℤ, pos, negsuc,
}
use realtime_analytics_pipel.Processing.Settings.{Settings}
use realtime_analytics_pipel.Processing.Tables.{
  Atomic, string, int, bigint, double, timestamp_ltz, DataType, atomic, map_of, row, Column, column,
  column_by_expression, Schema, add_column, add_watermark,
}
use realtime_analytics_pipel.Processing.Tables.Scope.{all_in, names, find}
use realtime_analytics_pipel.Processing.Schemas.{events, watermark_sql, get_event_source_schema}
use realtime_analytics_pipel.Ingestion.Events as Events
use realtime_analytics_pipel.Ingestion.Events.{
  Value, Json, value, null, number, real, text, object, AnalyticsEvent, Property, dump_property,
  dump_properties, optional, model_dump_json,
}

-- an integer of 32 or 64 bits
abbrev pub fits : (bits_less_sign : ℕ) → ℤ → Bool
fits bits (pos n) = ltb n (2 ^ bits)
fits bits (negsuc n) = ltb n (2 ^ bits)

-- the values that the JSON format of Flink surely reads at a type, null being read at each
abbrev pub reads_atomic : Atomic → Value → Bool
reads_atomic t null = true
reads_atomic string v = true
reads_atomic int (number n) = fits 31 n
reads_atomic bigint (number n) = fits 63 n
reads_atomic double (number n) = true
reads_atomic double (real r) = true
reads_atomic t v = false

abbrev pub reads_values : Atomic → List (String × Value) → Bool
reads_values t [] = true
reads_values t ((k, v) ∷ rest) = let later = reads_values t rest in reads_atomic t v && later

abbrev pub reads_found : Atomic → Option Value → Bool
reads_found t none = false
reads_found t (some v) = reads_atomic t v

-- each field is there and can be read
abbrev pub reads_fields : List (String × Atomic) → List (String × Value) → Bool
reads_fields [] members = true
reads_fields ((name, t) ∷ rest) members =
    let later = reads_fields rest members in reads_found t (find name members) && later

abbrev pub reads : DataType → Json → Bool
reads (atomic t) (value v) = reads_atomic t v
reads (map_of key t) (object members) = reads_values t members
reads (row fields) (object members) = reads_fields fields members
reads t v = false

abbrev pub reads_member : DataType → Option Json → Bool
reads_member t none = false
reads_member t (some v) = reads t v

-- each column that is not computed is there and can be read
abbrev pub reads_columns : List Column → List (String × Json) → Bool
reads_columns [] members = true
reads_columns (column name t ∷ rest) members =
    let later = reads_columns rest members in reads_member t (find name members) && later
reads_columns (column_by_expression name sql ∷ rest) members = reads_columns rest members

-- the columns that are not computed
abbrev pub physical : List Column → List String
physical [] = []
physical (column name t ∷ rest) = name ∷ physical rest
physical (column_by_expression name sql ∷ rest) = physical rest

-- the numbers of an event fit the columns
abbrev pub optional_fits : Option ℤ → Bool
optional_fits none = true
optional_fits (some n) = fits 63 n

reads-optional : (o : Option String) → reads_atomic string (optional text o) ≡ true
reads-optional none = refl
reads-optional (some s) = refl

reads-optional_number :
    (o : Option ℤ) → optional_fits o ≡ true → reads_atomic bigint (optional number o) ≡ true
reads-optional_number none h = refl
reads-optional_number (some n) h = h

reads-dump_property : (p : Property) → reads_atomic string (dump_property p) ≡ true
reads-dump_property (Events.str s) = refl
reads-dump_property (Events.int n) = refl
reads-dump_property (Events.float none) = refl
reads-dump_property (Events.float (some r)) = refl

reads_values-dump_properties :
    (ps : List (String × Property)) → reads_values string (dump_properties ps) ≡ true
reads_values-dump_properties [] = refl
reads_values-dump_properties ((k, p) ∷ ps) =
    rw (reads-dump_property p, reads_values-dump_properties ps) refl

-- each column that is not computed, and each field of a row, is there and can be read, and there is nothing
-- but these
abbrev pub IsTaken : Schema → List (String × Json) → Type 0
IsTaken schema members =
    (reads_columns schema.columns members ≡ true)
    × (all_in (names members) (physical schema.columns) ≡ true)

IsTaken-if :
    (b : Bool) (s t : Schema) (members : List (String × Json))
    → IsTaken s members
    → IsTaken t members
    → IsTaken (if b then s else t) members
IsTaken-if true s t members h k = h
IsTaken-if false s t members h k = k

-- Let the sizes of the screen fit 32 bits and the times 64. Then the JSON of an event has every column of
-- the source that is not computed, and every field of these, in a form that can be read at its type, so that
-- none of them is lost as null; and every member of the JSON is one of these columns.
pub model_dump_json-IsTaken :
    (show : ℕ → String) (settings : Settings) (e : AnalyticsEvent)
    → fits 31 e.device.screen_width ≡ true
    → fits 31 e.device.screen_height ≡ true
    → optional_fits e.metrics.load_time ≡ true
    → optional_fits e.metrics.interaction_time ≡ true
    → fits 63 e.timestamp ≡ true
    → IsTaken (get_event_source_schema show settings) (model_dump_json e)
unfolding model_dump_json
model_dump_json-IsTaken show settings e w h l i t =
    let read : reads_columns (events show).columns (model_dump_json e) ≡ true =
      rw
        (
          w,
          h,
          reads-optional e.context.referrer,
          reads-optional e.context.ip_address,
          reads_values-dump_properties e.properties,
          reads-optional_number e.metrics.load_time l,
          reads-optional_number e.metrics.interaction_time i,
          t,
        )
        refl in
    IsTaken-if (str_eq settings.app_environment "production")
      (add_watermark "event_time" (watermark_sql (show settings.flink_watermark_delay_seconds))
        (events show))
      (add_column (column_by_expression "proc_time" "PROCTIME()") (events show)) (model_dump_json e)
      (read, refl) (read, refl)
