-- ===== src/Cache/Logger/History.antt =====
-- What can be called in a process of the cache, in any order, and that no record is written twice.
use realtime_analytics_pipel.Prelude.{
  ℕ, ◌≡◌, refl, Bool, true, false, Option, none, some, List, [], ◌∷◌, map, length, length-append,
  leb, ◌≤◌, if◌then◌else◌, not, ◌&&◌, arith,
}
use realtime_analytics_pipel.Shared.Metrics.{Name}
use realtime_analytics_pipel.Shared.Redaction.{Dict}
use realtime_analytics_pipel.Shared.Logging.Names.{level_of}
use realtime_analytics_pipel.Shared.Logging as Shared
use realtime_analytics_pipel.Shared.Logging.{
  Record, Handler, Logging, Runtime, Formatter, Line, plain, json, fresh, basic_config,
  basic_config_on, format_exception, emit, emit_all, run_filters, handled_by, plain_lines,
  json_lines, lines, is_enabled,
}
use realtime_analytics_pipel.Cache.Logger.{
  Settings, configure_root, configure_once, add_filter, configure_logging, get_logger,
}

pub data Call : Type 0 where
  shared_get_logger : (auto_configure : Bool) → Call
  shared_configure_logging :
      (service environment level : Name) → (redaction_patterns : List Name) → Call
  cache_configure_logging : Call
  cache_get_logger : Call

abbrev pub call : (upper : Name → Name) → (shared : Bool) → Settings → Call → Logging → Logging
call upper shared settings (shared_get_logger auto_configure) s = Shared.get_logger auto_configure s
call upper shared settings (shared_configure_logging service environment level patterns) s =
    Shared.configure_logging upper service environment level patterns s
call upper shared settings cache_configure_logging s = configure_logging upper shared settings s
call upper shared settings cache_get_logger s = get_logger upper shared settings s

abbrev pub after :
    (upper : Name → Name) → (shared : Bool) → Settings → List Call → Logging → Logging
after upper shared settings [] s = s
after upper shared settings (c ∷ cs) s =
    after upper shared settings cs (call upper shared settings c s)

length-map {ℓ κ} :
    {A : Type ℓ} {B : Type κ} (f : A → B) (xs : List A) → length (map f xs) ≡ length xs
length-map f [] = refl
length-map f (x ∷ xs) = omega (arith, length-map f xs)

length-basic_config_on :
    (hs : List Handler) (n : ℕ) (s : Logging)
    → s.handlers ≡ hs
    → length hs ≤ 1
    → length (basic_config_on hs n s).handlers ≤ 1
length-basic_config_on [] n s e h = omega arith
length-basic_config_on (x ∷ xs) n s e h = rw e h

length-basic_config :
    (n : ℕ) (s : Logging) → length s.handlers ≤ 1 → length (basic_config n s).handlers ≤ 1
length-basic_config n s h = length-basic_config_on s.handlers n s refl h

length-if :
    (b : Bool) (s t : Logging)
    → length s.handlers ≤ 1
    → length t.handlers ≤ 1
    → length (if b then s else t).handlers ≤ 1
length-if true s t h k = h
length-if false s t h k = k

length-get_logger :
    (a : Bool) (s : Logging) → length s.handlers ≤ 1 → length (Shared.get_logger a s).handlers ≤ 1
unfolding Shared.get_logger
length-get_logger a s h =
    length-if (a && not s.configured) (record (basic_config 20 s) { configured = true }) s
      (length-basic_config 20 s h) h

length-configure_root :
    (upper : Name → Name) (shared : Bool) (settings : Settings) (s : Logging)
    → length s.handlers ≤ 1
    → length (configure_root upper shared settings s).handlers ≤ 1
unfolding Shared.configure_logging
length-configure_root upper true settings s h = omega arith
length-configure_root upper false settings s h =
    length-basic_config (level_of upper settings.app_log_level) s h

module _ (upper : Name → Name) (shared : Bool) (settings : Settings) where
  length-configure_logging :
      (s : Logging)
      → length s.handlers ≤ 1
      → length (configure_logging upper shared settings s).handlers ≤ 1
  unfolding configure_logging
  length-configure_logging s h =
      length-if s.cache_configured s (configure_once upper shared settings s) h (
        omega (
          arith,
          length-map (add_filter settings.app_log_redaction_patterns)
              (configure_root upper shared settings s).handlers,
          length-configure_root upper shared settings s h,
        ))

  length-call :
      (c : Call) (s : Logging)
      → length s.handlers ≤ 1
      → length (call upper shared settings c s).handlers ≤ 1
  unfolding get_logger Shared.configure_logging
  length-call (shared_get_logger a) s h = length-get_logger a s h
  length-call (shared_configure_logging service environment level patterns) s h = omega arith
  length-call cache_configure_logging s h = length-configure_logging s h
  length-call cache_get_logger s h = length-configure_logging s h

  length-after :
      (cs : List Call) (s : Logging)
      → length s.handlers ≤ 1
      → length (after upper shared settings cs s).handlers ≤ 1
  length-after [] s h = h
  length-after (c ∷ cs) s h = length-after cs (call upper shared settings c s) (length-call c s h)

module _ {Scalar : Type 0} (runtime : Runtime Scalar) where
  length-if_lines :
      (b : Bool) (xs : List (Line Scalar)) → length xs ≤ 1 → length (if b then xs else []) ≤ 1
  length-if_lines true xs h = h
  length-if_lines false xs h = omega arith

  length-plain_lines : (o : Option Name) → length (plain_lines runtime o) ≤ 1
  length-plain_lines none = omega arith
  length-plain_lines (some m) = omega arith

  length-json_lines :
      (service environment : Name) (patterns : List Name) (now : Scalar)
      (e : Option (Option (Dict Scalar))) (d : Dict Scalar)
      → length (json_lines runtime service environment patterns now e d) ≤ 1
  length-json_lines service environment patterns now none d = omega arith
  length-json_lines service environment patterns now (some e) d = omega arith

  length-emit :
      (f : Formatter) (now : Scalar) (r : Record Scalar) → length (emit runtime f now r) ≤ 1
  unfolding emit
  length-emit plain now r = length-plain_lines (runtime.get_message r.attributes)
  length-emit (json service environment patterns) now r =
      length-json_lines service environment patterns now (format_exception runtime r.exc_info)
        r.attributes

  length-handled_by :
      (hs : List Handler) (now : Scalar) (r : Record Scalar)
      → length hs ≤ 1
      → length (handled_by runtime hs now r) ≤ 1
  unfolding emit_all
  length-handled_by [] now r h =
      length-if_lines (leb 30 r.level) (plain_lines runtime (runtime.get_message r.attributes))
        (length-plain_lines (runtime.get_message r.attributes))
  length-handled_by (x ∷ []) now r h = omega (
    arith,
    length-append (emit runtime x.formatter now (run_filters runtime x.filters r)) [],
    length-emit x.formatter now (run_filters runtime x.filters r),
  )
  length-handled_by (x ∷ y ∷ hs) now r h = omega (arith, h)

  -- From a fresh process, whatever calls have configured logging and in whatever order, a record is written
  -- at most once.
  pub length-lines :
      (upper : Name → Name) (shared : Bool) (settings : Settings) (calls : List Call) (now : Scalar)
      (r : Record Scalar)
      → length (lines runtime (after upper shared settings calls fresh) now r) ≤ 1
  unfolding lines
  length-lines upper shared settings calls now r =
      let s : Logging = after upper shared settings calls fresh in
      length-if_lines (is_enabled runtime s r) (handled_by runtime s.handlers now r) (
        length-handled_by s.handlers now r
          (length-after upper shared settings calls fresh (omega arith)))
