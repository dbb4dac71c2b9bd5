-- ===== src/Chain/RoundTrip.antt =====
-- A record of a sink on its way through the cache service: parsed, written to Redis and read again.
use realtime_analytics_pipel.Prelude.{
  All, ℕ, suc, ◌<◌, ◌≡◌, refl, ap, ◌∙◌, true, false, Option, none, some, List, [], ◌∷◌, String,
  str_eq, eq_iff, ok, reverse, take, last, if◌then◌else◌,
}
use realtime_analytics_pipel.Prelude.Order.{Order}
use realtime_analytics_pipel.Processing.Tables.Scope.{column_names}
use realtime_analytics_pipel.Cache.Index.{insert}
use realtime_analytics_pipel.Cache.Index.Latest.{IsSorted}
use realtime_analytics_pipel.Cache.Index.Greatest.{latest_is_greatest}
use realtime_analytics_pipel.Cache.Redis.{Kind, event, perf, pos, Redis}
use realtime_analytics_pipel.Cache.Parser.{Value, Field, Parsed, Python, coerce_ts, parse_message}
use realtime_analytics_pipel.Cache.Repository.{Operation, pipeline_apply, get_last_windows}
use realtime_analytics_pipel.Cache.Repository.Retention.{same_kind, windows, kept}
use realtime_analytics_pipel.Cache.Repository.Contents.{
  read_one, read, Hashes, merged, get_last_windows-pipeline_apply,
}
use realtime_analytics_pipel.Cache.Repository.Conversion.{
  Number, number, converted, lookup, convert_types, IsText, convert_value-show,
  lookup-convert_types,
}
use realtime_analytics_pipel.Chain.Records.{
  record_of, sink_of, default_topic, metrics_of, convert, parse_message-record_of,
}

-- what a hash that may be missing holds under a name
abbrev pub held : String → Option (List (String × String)) → Option String
held x none = none
held x (some d) = lookup x d

same_kind_refl : (k : Kind) → same_kind k k ≡ true
same_kind_refl event = refl
same_kind_refl perf = refl

-- `show` is the text that the client of Redis writes for a number
module _ {Int Float : Type 0} (show : Number Int Float → String) where
  -- what HSET leaves under the name `x` that held `o`
  abbrev pub newest : String → List (String × Number Int Float) → Option String → Option String
  newest x [] o = o
  newest x ((n, v) ∷ rest) o = newest x rest (if str_eq n x then some (show v) else o)

  -- HSET overwrites the names that it is given, in order, and leaves the others alone
  abbrev pub Overwrites :
      (List (String × Number Int Float) → Option (List (String × String)) → List (String × String))
      → Type 0
  Overwrites merge =
      (x : String) (fs : List (String × Number Int Float)) (d : Option (List (String × String)))
      → lookup x (merge fs d) ≡ newest x fs (held x d)

-- Python's numbers and texts: `spell` is the f-string of a category and a metric
module _ {Int Other Float : Type 0} (python : Python Int Other (Number Int Float))
    (spell : Value Int Other → String → String) (show : Number Int Float → String)
    (parse_int : String → Option Int) (parse_float : String → Option Float) where
  -- the mapping of an operation
  abbrev pub mapping : List (Field Int Other (Number Int Float)) → List (String × Number Int Float)
  mapping [] = []
  mapping (f ∷ fs) = (spell f.category f.metric, f.number) ∷ mapping fs

  -- the operation that is put into the queue
  abbrev pub operation_of :
      Parsed Int Other (Number Int Float) → Operation Int (List (String × Number Int Float))
  operation_of p = record {
    kind = p.kind;
    window_start = p.window_start;
    fields = mapping p.fields;
  }

  module _ {order : Order Int}
      (redis : Redis Int order (List (String × Number Int Float)) (List (String × String)))
      (merge : List (String × Number Int Float)
        → Option (List (String × String))
        → List (String × String)) where
    -- the latest window read is `w`, and holds the numbers `m` and `n` under the two metrics of the category
    pub record IsReadBack (kind : Kind) (category : Value Int Other) (w : Int)
        (m n : Number Int Float) (s : redis.State) : Type 0 where
      pub hash : List (String × String)
      pub latest : get_last_windows redis kind (pos 1) s ≡ (w, hash) ∷ []
      pub first_metric :
          lookup (spell category (metrics_of kind).0) (convert_types parse_int parse_float hash)
          ≡ some (number m)
      pub second_metric :
          lookup (spell category (metrics_of kind).1) (convert_types parse_int parse_float hash)
          ≡ some (number n)

    stored_operation :
        Kind
        → Int
        → List (String × Number Int Float)
        → Operation Int (List (String × Number Int Float))
    stored_operation kind w fields = record { kind = kind; window_start = w; fields = fields }

    kept_self :
        (kind : Kind) (w : Int) (fields : List (String × Number Int Float)) (r : ℕ) (xs : List Int)
        → kept order r (windows kind (stored_operation kind w fields ∷ [])) xs
          ≡ last r (insert order w xs)
    unfolding stored_operation
    kept_self event w fields r xs = refl
    kept_self perf w fields r xs = refl

    merged_self :
        (kind : Kind) (w : Int) (fields : List (String × Number Int Float))
        (d : Option (List (String × String)))
        → merged order merge kind w (stored_operation kind w fields ∷ []) d ≡ some (merge fields d)
    unfolding stored_operation
    merged_self event w fields d = rw (order.irreflexive w) refl
    merged_self perf w fields d = rw (order.irreflexive w) refl

    -- what is read of a window that is the latest once it has been written
    latest_read :
        (laws : Hashes redis merge) (kind : Kind) (w : Int)
        (fields : List (String × Number Int Float)) (r ttl : ℕ) (s : redis.State)
        → 0 < ttl
        → IsSorted order (redis.members kind s)
        → All (λ y. order.less w y ≡ false) (redis.members kind s)
        → get_last_windows redis kind
            (pos 1)
            (pipeline_apply redis (suc r) ttl (stored_operation kind w fields ∷ []) s)
          ≡ (w, merge fields (redis.hgetall kind w s)) ∷ []
    latest_read laws kind w fields r ttl s t sorted greatest =
        get_last_windows-pipeline_apply redis merge laws (suc r) ttl 0 kind
          (stored_operation kind w fields ∷ []) s t
        ∙ ap
            (λ ws. read ws (λ v.
              merged order merge kind v (stored_operation kind w fields ∷ [])
                (redis.hgetall kind v s)))
            (ap (λ l. take 1 (reverse l)) (kept_self kind w fields (suc r) (redis.members kind s))
              ∙ latest_is_greatest order r w (redis.members kind s) sorted greatest)
        ∙ ap (λ o. read_one w o []) (merged_self kind w fields (redis.hgetall kind w s))

    -- the two entries of a mapping, as they come out of the hash
    entries :
        (overwrites : Overwrites show merge) (a b : String) (m n : Number Int Float)
        (d : Option (List (String × String)))
        → str_eq b a ≡ false
        → (lookup a (merge ((a, m) ∷ (b, n) ∷ []) d) ≡ some (show m))
          × (lookup b (merge ((a, m) ∷ (b, n) ∷ []) d) ≡ some (show n))
    entries overwrites a b m n d h = (
      overwrites a ((a, m) ∷ (b, n) ∷ []) d ∙ rw (h, (eq_iff a a).1 refl) refl,
      overwrites b ((a, m) ∷ (b, n) ∷ []) d ∙ rw ((eq_iff b b).1 refl) refl,
    )

    read_number :
        (texts : IsText parse_int parse_float show) (x : String) (d : List (String × String))
        (n : Number Int Float)
        → lookup x d ≡ some (show n)
        → lookup x (convert_types parse_int parse_float d) ≡ some (number n)
    read_number texts x d n h =
        lookup-convert_types parse_int parse_float x d
        ∙ ap (converted parse_int parse_float) h
        ∙ ap some (convert_value-show parse_int parse_float show texts n)

    -- A record with the columns of a sink, in order, of a window that is not before any in the index:
    -- when it has been parsed and its operation has been applied to Redis, with a retention of at
    -- least one window and a positive time to live that has not passed, the latest window that is read
    -- is its window, and after the conversion of the texts it holds the two metrics of the record
    -- under their names, as the numbers that they were converted to. The start can be coerced, the
    -- category is truthy and the metrics can be converted; the names of the two metrics of a category
    -- differ, HSET overwrites the names that it is given, and the texts that are written for numbers
    -- are texts of these numbers.
    pub read_back :
        Hashes redis merge
        → Overwrites show merge
        → IsText parse_int parse_float show
        → ((kind : Kind) (c : Value Int Other)
            → str_eq (spell c (metrics_of kind).1) (spell c (metrics_of kind).0) ≡ false)
        → (kind : Kind) (begins ends category first second : Value Int Other) (w : Int)
          (m n : Number Int Float)
        → coerce_ts python begins ≡ some w
        → python.truthy category ≡ true
        → convert python kind first ≡ ok m
        → convert python kind second ≡ ok n
        → (r ttl : ℕ) (s : redis.State) → 0 < ttl
        → IsSorted order (redis.members kind s)
        → All (λ y. order.less w y ≡ false) (redis.members kind s)
        → (p : Parsed Int Other (Number Int Float)) × (parse_message python (default_topic kind) (
              record_of
                (column_names (sink_of kind).columns)
                (begins ∷ ends ∷ category ∷ first ∷ second ∷ []))
            ≡ ok (some p))
          × IsReadBack kind category w m n
              (pipeline_apply redis (suc r) ttl (operation_of p ∷ []) s)
    unfolding stored_operation
    read_back laws overwrites texts names kind begins ends category first second w m n a b c d r ttl
          s t sorted greatest =
        let x : String = spell category (metrics_of kind).0 in
        let y : String = spell category (metrics_of kind).1 in
        let old : Option (List (String × String)) = redis.hgetall kind w s in
        let both = entries overwrites x y m n old (names kind category) in
        (
          _,
          parse_message-record_of python kind begins ends category first second w m n a b c d,
          record {
            hash = merge ((x, m) ∷ (y, n) ∷ []) old;
            latest = latest_read laws kind w ((x, m) ∷ (y, n) ∷ []) r ttl s t sorted greatest;
            first_metric = read_number texts x (merge ((x, m) ∷ (y, n) ∷ []) old) m both.0;
            second_metric = read_number texts y (merge ((x, m) ∷ (y, n) ∷ []) old) n both.1;
          },
        )
