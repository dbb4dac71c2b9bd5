-- ===== src/Cache/Logger/Redacting.antt =====
-- What the cache writes once its logger is configured: the messages have been through `RedactingFilter`.
use realtime_analytics_pipel.Prelude.{
  ◌≡◌, refl, sym, ◌∙◌, ◌⊎◌, inl, inr, Bool, true, false, Option, none, some, List, [], ◌∷◌, ◌++◌,
  All, if◌then◌else◌, All-append, Bool-cases, if_true, if_false,
}
use mathlib.Core.Path.{subst}
use realtime_analytics_pipel.Shared.Metrics.{Name}
use realtime_analytics_pipel.Shared.Redaction.{Dict, format}
use realtime_analytics_pipel.Shared.Logging.Names.{
  same_name, exception_key, redacted_text, redacted_message,
}
use realtime_analytics_pipel.Shared.Logging.{
  Record, Handler, Logging, Runtime, Formatter, plain, json, Line, plain_line, json_line,
  format_exception, context, mentions_pattern, redacted_attributes, redacted_if, redacting_filter,
  run_filters, plain_lines, json_lines, emit, emit_all, handled_by, is_enabled, lines,
}
use realtime_analytics_pipel.Cache.Logger.{Settings, configure_logging}
use realtime_analytics_pipel.Cache.Logger.History.{Call, after}
use realtime_analytics_pipel.Cache.Logger.Guarded.{
  only_gets, EndsWith, Guarded, configured-IsGuarded, IsGuarded-after,
}

no_message : {A : Type 0} {a : A} → ¬ (none ≡ some a)
no_message h = cc

module _ {Scalar : Type 0} (runtime : Runtime Scalar) (patterns : List Name) where
  -- there is a message, and no pattern occurs in it, or it is the text "[REDACTED SENSITIVE LOG CONTENT]"
  abbrev pub IsSafe : Option Name → Type 0
  IsSafe none = true ≡ false
  IsSafe (some message) =
      (mentions_pattern runtime patterns message ≡ false) ⊎ (message ≡ redacted_message)

  -- `getMessage` of the record does not raise
  abbrev IsReadable : Record Scalar → Type 0
  IsReadable r = (m : Name) × (runtime.get_message r.attributes ≡ some m)

  -- the line of a plain format has a message of that kind, and the line of a `CustomJsonFormatter` is
  -- what it makes of attributes with such a message
  abbrev pub IsRedacted : Line Scalar → Type 0
  IsRedacted (plain_line message) = IsSafe (some message)
  IsRedacted (json_line d) =
      (service : Name) × (environment : Name) × (keys : List Name) × (now : Scalar) × (exc : Option
        (Dict Scalar))
      × (attributes : Dict Scalar) × (d
          ≡ format runtime.lower keys (runtime.text redacted_text) same_name
              (context runtime service environment now) exception_key exc attributes)
      × IsSafe (runtime.get_message attributes)

  plain_lines-IsRedacted : (o : Option Name) → IsSafe o → All IsRedacted (plain_lines runtime o)
  plain_lines-IsRedacted none h = tt
  plain_lines-IsRedacted (some m) h = (h, tt)

  json_lines-IsRedacted :
      (service environment : Name) (keys : List Name) (now : Scalar)
      (e : Option (Option (Dict Scalar))) (d : Dict Scalar)
      → IsSafe (runtime.get_message d)
      → All IsRedacted (json_lines runtime service environment keys now e d)
  json_lines-IsRedacted service environment keys now none d h = tt
  json_lines-IsRedacted service environment keys now (some e) d h =
      ((service, environment, keys, now, e, d, refl, h), tt)

  emit-IsRedacted :
      (f : Formatter) (now : Scalar) (r : Record Scalar)
      → IsSafe (runtime.get_message r.attributes)
      → All IsRedacted (emit runtime f now r)
  unfolding emit
  emit-IsRedacted plain now r h = plain_lines-IsRedacted (runtime.get_message r.attributes) h
  emit-IsRedacted (json service environment keys) now r h =
      json_lines-IsRedacted service environment keys now (format_exception runtime r.exc_info)
        r.attributes h

  All-if :
      (b : Bool) (ls : List (Line Scalar))
      → All IsRedacted ls
      → All IsRedacted (if b then ls else [])
  All-if true ls h = h
  All-if false ls h = tt

  module _
      (replaced : (d : Dict Scalar)
        → runtime.get_message (redacted_attributes runtime d) ≡ some redacted_message) where
    -- a filter leaves the message of a record readable
    run_filters-IsReadable :
        (fs : List (List Name)) (r : Record Scalar)
        → IsReadable r
        → IsReadable (run_filters runtime fs r)
    unfolding run_filters redacting_filter
    run_filters-IsReadable [] r h = h
    run_filters-IsReadable (f ∷ fs) r h = run_filters-IsReadable fs (redacting_filter runtime f r) (
        subst (λ o. IsReadable (redacted_if runtime f o r)) (sym h.1)
          (redacted_if-IsReadable f h.0 r h))
      where
        redacted_if-IsReadable :
            (f : List Name) (m : Name) (r : Record Scalar)
            → IsReadable r
            → IsReadable (redacted_if runtime f (some m) r)
        redacted_if-IsReadable f m r h = elim (Bool-cases (mentions_pattern runtime f m)) [
          | inl e ↦ rw e (redacted_message, replaced r.attributes)
          | inr e ↦ rw e h
        ]

    redacted_if-IsSafe :
        (o : Option Name) (r : Record Scalar)
        → IsReadable r
        → runtime.get_message r.attributes ≡ o
        → IsSafe (runtime.get_message (redacted_if runtime patterns o r).attributes)
    redacted_if-IsSafe none r i h = absurd (no_message (sym h ∙ i.1))
    redacted_if-IsSafe (some m) r i h =
        let redacted : Record Scalar = record r {
          attributes = redacted_attributes runtime r.attributes;
        } in
        let b : Bool = mentions_pattern runtime patterns m in
        elim (Bool-cases b) [
          | inl e ↦
              subst (λ t. IsSafe (runtime.get_message t.attributes)) (sym (if_true b redacted r e))
                (subst IsSafe (sym (replaced r.attributes)) (inr refl))
          | inr e ↦
              subst (λ t. IsSafe (runtime.get_message t.attributes)) (sym (if_false b redacted r e))
                (subst IsSafe (sym h) (inl e))
        ]

    redacting_filter-IsSafe :
        (r : Record Scalar)
        → IsReadable r
        → IsSafe (runtime.get_message (redacting_filter runtime patterns r).attributes)
    unfolding redacting_filter
    redacting_filter-IsSafe r i = redacted_if-IsSafe (runtime.get_message r.attributes) r i refl

    run_filters-IsSafe :
        (fs : List (List Name)) (r : Record Scalar)
        → IsReadable r
        → IsSafe (runtime.get_message (run_filters runtime (fs ++ (patterns ∷ [])) r).attributes)
    unfolding run_filters
    run_filters-IsSafe [] r i = redacting_filter-IsSafe r i
    run_filters-IsSafe (f ∷ fs) r i =
        run_filters-IsSafe fs (redacting_filter runtime f r) (run_filters-IsReadable (f ∷ []) r i)

    handler-IsSafe :
        (h : Handler) (r : Record Scalar)
        → EndsWith patterns h
        → IsReadable r
        → IsSafe (runtime.get_message (run_filters runtime h.filters r).attributes)
    handler-IsSafe h r (fs, e) i =
        subst (λ gs. IsSafe (runtime.get_message (run_filters runtime gs r).attributes)) (sym e)
          (run_filters-IsSafe fs r i)

    emit_all-IsRedacted :
        (hs : List Handler) (now : Scalar) (r : Record Scalar)
        → All (EndsWith patterns) hs
        → IsReadable r
        → All IsRedacted (emit_all runtime hs now r)
    unfolding emit_all
    emit_all-IsRedacted [] now r g i = tt
    emit_all-IsRedacted (h ∷ hs) now r g i =
        let seen : Record Scalar = run_filters runtime h.filters r in
        All-append IsRedacted (emit runtime h.formatter now seen) (emit_all runtime hs now seen)
          (emit-IsRedacted h.formatter now seen (handler-IsSafe h r g.0 i))
          (emit_all-IsRedacted hs now seen g.1 (run_filters-IsReadable h.filters r i))

    handled_by-IsRedacted :
        (hs : List Handler) (now : Scalar) (r : Record Scalar)
        → Guarded patterns hs
        → IsReadable r
        → All IsRedacted (handled_by runtime hs now r)
    handled_by-IsRedacted [] now r g i = absurd (cc)
    handled_by-IsRedacted (h ∷ hs) now r g i = emit_all-IsRedacted (h ∷ hs) now r g i

-- Once the cache has configured its logger, with the shared module or without it and whatever handlers
-- there were before, and whatever loggers are fetched later, each line that is written for a record whose
-- message can be formatted is of a message in which no pattern of the settings occurs or which is the text
-- "[REDACTED SENSITIVE LOG CONTENT]". `getMessage` of a record with that text and without arguments is
-- assumed to be that text. A record whose `getMessage` raises is not covered.
pub lines-IsRedacted :
    {Scalar : Type 0} (runtime : Runtime Scalar)
    (replaced : (d : Dict Scalar)
      → runtime.get_message (redacted_attributes runtime d) ≡ some redacted_message)
    (shared : Bool) (settings : Settings) (s : Logging)
    → s.cache_configured ≡ false
    → (calls : List Call) → All (λ c. only_gets c ≡ true) calls
    → (now : Scalar) (r : Record Scalar) {m : Name} → runtime.get_message r.attributes ≡ some m
    → All (IsRedacted runtime settings.app_log_redaction_patterns) (
        lines runtime
          (after runtime.upper shared settings calls
            (configure_logging runtime.upper shared settings s))
          now
          r)
unfolding lines
lines-IsRedacted runtime replaced shared settings s h calls o now r {m} readable =
    let t : Logging =
      after runtime.upper shared settings calls
        (configure_logging runtime.upper shared settings s) in
    All-if runtime settings.app_log_redaction_patterns (is_enabled runtime t r)
      (handled_by runtime t.handlers now r)
      (handled_by-IsRedacted runtime settings.app_log_redaction_patterns replaced t.handlers now r
        ((IsGuarded-after settings.app_log_redaction_patterns runtime.upper shared settings calls
          (configure_logging runtime.upper shared settings s) o
          (configured-IsGuarded runtime.upper shared settings s h)).guarded)
        (m, readable))
