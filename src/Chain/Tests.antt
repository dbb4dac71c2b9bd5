-- ===== src/Chain/Tests.antt =====
-- A record of performance metrics.
use realtime_analytics_pipel.Prelude.{
  ℕ, ◌≡◌, refl, true, none, some, [], ◌∷◌, String, List, Outcome, ok, raise, type_error, arith,
}
use realtime_analytics_pipel.Processing.Tables.Scope.{column_names}
use realtime_analytics_pipel.Cache.Redis.{perf, Redis}
use realtime_analytics_pipel.Cache.Parser.{
  Python, integer, text, coerce_ts, parse_message, Value, Parsed,
}
use realtime_analytics_pipel.Cache.Repository.{pipeline_apply}
use realtime_analytics_pipel.Cache.Repository.Memory.{numbers, Memory, memory, memory-Hashes}
use realtime_analytics_pipel.Cache.Repository.Conversion.{Number, whole, real}
use realtime_analytics_pipel.Chain.RoundTrip.{operation_of, IsReadBack, read_back}
use realtime_analytics_pipel.Chain.Unary.{
  show, parse_int, parse_float, unary-IsText, write, write-Overwrites, spell, names_apart,
}
use realtime_analytics_pipel.Chain.Records.{record_of, sink_of}

-- only numbers are read, and everything is truthy
abbrev to_int : Value ℕ ℕ → Outcome (Number ℕ ℕ)
to_int (integer n) = ok (whole n)
to_int _ = raise type_error

abbrev to_float : Value ℕ ℕ → Outcome (Number ℕ ℕ)
to_float (integer n) = ok (real n)
to_float _ = raise type_error

abbrev python : Python ℕ ℕ (Number ℕ ℕ)
python = record {
  of_bool = λ b. 0;
  parse_iso = λ s. none;
  to_int = to_int;
  to_float = to_float;
  truthy = λ v. true;
  no_count = integer 0;
  no_time = integer 0;
}

-- one earlier window
abbrev before : Memory (List (String × String))
before = record {
  event_index = [];
  perf_index = 30000 ∷ [];
  hashes = (perf, (30000, ("Mobile.avg_load_time", ".1") ∷ [])) ∷ [];
}

abbrev redis : Redis ℕ numbers (List (String × Number ℕ ℕ)) (List (String × String))
redis = memory write

read_back_example :
    (p : Parsed ℕ ℕ (Number ℕ ℕ)) × (parse_message python "performance_metrics" (
        record_of
          (column_names (sink_of perf).columns)
          (integer 60000 ∷ integer 120000 ∷ text "Mobile" ∷ integer 31 ∷ integer 90 ∷ []))
      ≡ ok (some p))
    × IsReadBack python spell show parse_int parse_float redis write perf
        (text "Mobile")
        60000
        (real 31)
        (real 90)
        (pipeline_apply redis 2 3600
          (operation_of python spell show parse_int parse_float p ∷ [])
          before)
unfolding coerce_ts
read_back_example =
    read_back python spell show parse_int parse_float redis write (memory-Hashes write)
      write-Overwrites unary-IsText names_apart perf (integer 60000) (integer 120000)
      (text "Mobile") (integer 31) (integer 90) 60000 (real 31) (real 90) refl refl refl refl 1 3600
      before (omega arith) (tt, tt) (refl, tt)
