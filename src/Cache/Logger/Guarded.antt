-- ===== src/Cache/Logger/Guarded.antt =====
-- The handlers of the cache once its logger is configured: each runs the `RedactingFilter` of the settings.
use realtime_analytics_pipel.Prelude.{
  ℕ, ◌≡◌, refl, sym, ap, ◌∙◌, Bool, true, false, not, ◌&&◌, List, [], ◌∷◌, ◌++◌, map, All,
  if◌then◌else◌, if_true, if_false,
}
use mathlib.Core.Path.{subst}
use realtime_analytics_pipel.Shared.Metrics.{Name}
use realtime_analytics_pipel.Shared.Logging.Names.{level_of}
use realtime_analytics_pipel.Shared.Logging as Shared
use realtime_analytics_pipel.Shared.Logging.{
  Record, Handler, Logging, Runtime, Formatter, plain, json, Line, plain_line, json_line,
  basic_config, basic_config_on, format_exception, context, mentions_pattern, redacted_attributes,
  redacted_if, redacting_filter, run_filters, plain_lines, json_lines, emit, emit_all, handled_by,
  is_enabled, lines,
}
use realtime_analytics_pipel.Cache.Logger.{
  Settings, add_filter, configure_root, configure_once, configure_logging, get_logger,
}
use realtime_analytics_pipel.Cache.Logger.History.{
  Call, shared_get_logger, shared_configure_logging, cache_configure_logging, cache_get_logger,
  call, after,
}

-- a call that does not replace the handlers
abbrev pub only_gets : Call → Bool
only_gets (shared_configure_logging service environment level patterns) = false
only_gets _ = true

abbrev pub EndsWith : List Name → Handler → Type 0
EndsWith patterns h = (fs : List (List Name)) × (h.filters ≡ fs ++ (patterns ∷ []))

abbrev pub Guarded : List Name → List Handler → Type 0
Guarded patterns [] = true ≡ false
Guarded patterns (h ∷ hs) = EndsWith patterns h × All (EndsWith patterns) hs

All-add_filter :
    (patterns : List Name) (hs : List Handler)
    → All (EndsWith patterns) (map (add_filter patterns) hs)
All-add_filter patterns [] = tt
All-add_filter patterns (h ∷ hs) = ((h.filters, refl), All-add_filter patterns hs)

Guarded-basic_config_on :
    (patterns : List Name) (hs : List Handler) (n : ℕ) (s : Logging)
    → s.handlers ≡ hs
    → Guarded patterns (map (add_filter patterns) (basic_config_on hs n s).handlers)
Guarded-basic_config_on patterns [] n s e = (([], refl), tt)
Guarded-basic_config_on patterns (h ∷ hs) n s e =
    rw e ((h.filters, refl), All-add_filter patterns hs)

Guarded-configure_root :
    (patterns : List Name) (upper : Name → Name) (shared : Bool) (settings : Settings) (s : Logging)
    → Guarded patterns (map (add_filter patterns) (configure_root upper shared settings s).handlers)
unfolding Shared.configure_logging
Guarded-configure_root patterns upper true settings s = (([], refl), tt)
Guarded-configure_root patterns upper false settings s =
    Guarded-basic_config_on patterns s.handlers (level_of upper settings.app_log_level) s refl

basic_config_kept :
    (patterns : List Name) (hs : List Handler) (n : ℕ) (s : Logging)
    → Guarded patterns hs
    → basic_config_on hs n s ≡ s
basic_config_kept patterns [] n s g = absurd (cc)
basic_config_kept patterns (h ∷ hs) n s g = refl

module _ (patterns : List Name) where
  pub record IsGuarded (s : Logging) : Type 0 where
    pub cached : s.cache_configured ≡ true
    pub guarded : Guarded patterns s.handlers

  IsGuarded-if :
      (b : Bool) (s t : Logging) → IsGuarded s → IsGuarded t → IsGuarded (if b then s else t)
  IsGuarded-if true s t g h = g
  IsGuarded-if false s t g h = h

  IsGuarded-get_logger : (a : Bool) (s : Logging) → IsGuarded s → IsGuarded (Shared.get_logger a s)
  unfolding Shared.get_logger
  IsGuarded-get_logger a s g =
      IsGuarded-if (a && not s.configured) (record (basic_config 20 s) { configured = true }) s
        (let e = basic_config_kept patterns s.handlers 20 s g.guarded in
          record {
            cached = ap (λ t. t.cache_configured) e ∙ g.cached;
            guarded = subst (λ t. Guarded patterns t.handlers) (sym e) g.guarded;
          })
        g

  IsGuarded-configure_logging :
      (upper : Name → Name) (shared : Bool) (settings : Settings) (s : Logging)
      → IsGuarded s
      → IsGuarded (configure_logging upper shared settings s)
  unfolding configure_logging
  IsGuarded-configure_logging upper shared settings s g =
      subst IsGuarded
        (sym (if_true s.cache_configured s (configure_once upper shared settings s) g.cached)) g

  IsGuarded-call :
      (upper : Name → Name) (shared : Bool) (settings : Settings) (c : Call) (s : Logging)
      → only_gets c ≡ true
      → IsGuarded s
      → IsGuarded (call upper shared settings c s)
  unfolding get_logger
  IsGuarded-call upper shared settings (shared_get_logger a) s o g = IsGuarded-get_logger a s g
  IsGuarded-call upper shared settings (shared_configure_logging n e l ps) s o g = absurd (cc)
  IsGuarded-call upper shared settings cache_configure_logging s o g =
      IsGuarded-configure_logging upper shared settings s g
  IsGuarded-call upper shared settings cache_get_logger s o g =
      IsGuarded-configure_logging upper shared settings s g

  pub IsGuarded-after :
      (upper : Name → Name) (shared : Bool) (settings : Settings) (cs : List Call) (s : Logging)
      → All (λ c. only_gets c ≡ true) cs
      → IsGuarded s
      → IsGuarded (after upper shared settings cs s)
  IsGuarded-after upper shared settings [] s o g = g
  IsGuarded-after upper shared settings (c ∷ cs) s o g =
      IsGuarded-after upper shared settings cs (call upper shared settings c s) o.1
        (IsGuarded-call upper shared settings c s o.0 g)

pub configured-IsGuarded :
    (upper : Name → Name) (shared : Bool) (settings : Settings) (s : Logging)
    → s.cache_configured ≡ false
    → IsGuarded settings.app_log_redaction_patterns (configure_logging upper shared settings s)
unfolding configure_logging
configured-IsGuarded upper shared settings s h =
    subst (IsGuarded settings.app_log_redaction_patterns)
      (sym (if_false s.cache_configured s (configure_once upper shared settings s) h))
      (record {
        cached = refl;
        guarded =
            Guarded-configure_root settings.app_log_redaction_patterns upper shared settings s;
      })
