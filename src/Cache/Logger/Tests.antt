-- ===== src/Cache/Logger/Tests.antt =====
-- A process of the cache in which a module has fetched a logger before the service has configured its own,
-- and a record whose message has a password among its arguments. `getMessage` puts the arguments, as a text,
-- behind the message.
use realtime_analytics_pipel.Prelude.{
  ℕ, ◌≡◌, refl, sym, ap, ◌∙◌, Bool, true, false, ◌&&◌, Option, none, some, List, [], ◌∷◌, ◌++◌,
  ◌==◌, All, length, arith, ◌≤◌, Bool-cases, inl, inr, if◌then◌else◌, if_true, if_false,
}
use mathlib.Core.Path.{subst}
use realtime_analytics_pipel.Shared.Metrics.{Name, starts_with}
use realtime_analytics_pipel.Shared.Redaction.{
  Dict, end, scalar, nested, listed, occurs_in, any_occurs, lower_all, filter, set, set_all,
  with_exception, format, IsClean,
}
use realtime_analytics_pipel.Shared.Logging.Names.{
  same_name, timestamp_key, service_key, hostname_key, pid_key, environment_key, exception_key,
  type_key, message_key, stack_key, msg_key, args_key, redacted_text, redacted_message, level_of,
}
use realtime_analytics_pipel.Shared.Logging as Shared
use realtime_analytics_pipel.Shared.Logging.{
  Record, no_exception, exception, nothing_handled, Runtime, Logging, fresh, plain_line, json_line,
  format_exception, context, set_scalar, redacted_attributes, redacting_filter, run_filters, emit,
  emit_all, lines,
}
use realtime_analytics_pipel.Shared.Logging.Lines.{
  get_loggers, formatted_data, line_from, configured_line,
}
use realtime_analytics_pipel.Cache.Logger.{Settings, cache_name, configure_logging, get_logger}
use realtime_analytics_pipel.Cache.Logger.History.{
  Call, shared_get_logger, cache_configure_logging, cache_get_logger, after, length-lines,
}
use realtime_analytics_pipel.Cache.Logger.Redacting.{IsRedacted, lines-IsRedacted}

eq_number : (c d : ℕ) → (c == d) ≡ true → c ≡ d
eq_number c d h = ground arith

both : (x y : Bool) → (x && y) ≡ true → (x ≡ true) × (y ≡ true)
both true y h = (refl, h)
both false y h = absurd (cc)

same_eq : (a b : Name) → same_name a b ≡ true → a ≡ b
same_eq [] [] h = refl
same_eq [] (d ∷ ds) h = absurd (cc)
same_eq (c ∷ cs) [] h = absurd (cc)
same_eq (c ∷ cs) (d ∷ ds) h =
    let hs = both (c == d) (same_name cs ds) h in
    ap (λ e. e ∷ cs) (eq_number c d hs.0) ∙ ap (◌∷◌ d) (same_eq cs ds hs.1)

abbrev read : Name → Dict Name → Option Name
read key end = none
read key (scalar k v rest) = let later = read key rest in if same_name k key then some v else later
read key (nested k d rest) = let later = read key rest in if same_name k key then none else later
read key (listed k ms rest) = let later = read key rest in if same_name k key then none else later

read-set :
    (key : Name) (v : Name) (d : Dict Name)
    → same_name key key ≡ true
    → read key (set_scalar key v d) ≡ some v
unfolding set
read-set key v end h = if_true (same_name key key) (some v) none h
read-set key v (scalar k w rest) h = elim (Bool-cases (same_name k key)) [
  | inl e ↦ rw e (if_true (same_name k key) (some v) (read key rest) e)
  | inr e ↦ rw e (
      if_false (same_name k key) (some w) (read key (set_scalar key v rest)) e
      ∙ read-set key v rest h)
]
read-set key v (nested k w rest) h = elim (Bool-cases (same_name k key)) [
  | inl e ↦ rw e (if_true (same_name k key) (some v) (read key rest) e)
  | inr e ↦
      rw e (
        if_false (same_name k key) none (read key (set_scalar key v rest)) e
        ∙ read-set key v rest h)
]
read-set key v (listed k ms rest) h = elim (Bool-cases (same_name k key)) [
  | inl e ↦ rw e (if_true (same_name k key) (some v) (read key rest) e)
  | inr e ↦
      rw e (
        if_false (same_name k key) none (read key (set_scalar key v rest)) e
        ∙ read-set key v rest h)
]

-- a key that is not the one that is set
module _ (other key : Name) (apart : same_name key other ≡ false) (v : Name) where
  apart_from : (k : Name) → same_name k key ≡ true → same_name k other ≡ false
  apart_from k e = subst (λ x. same_name x other ≡ false) (sym (same_eq k key e)) apart

  read-set_other : (d : Dict Name) → read other (set_scalar key v d) ≡ read other d
  unfolding set
  read-set_other end = if_false (same_name key other) (some v) none apart
  read-set_other (scalar k w rest) = elim (Bool-cases (same_name k key)) [
    | inl e ↦ rw (e, apart_from k e) refl
    | inr e ↦ rw (e, read-set_other rest) refl
  ]
  read-set_other (nested k w rest) = elim (Bool-cases (same_name k key)) [
    | inl e ↦ rw (e, apart_from k e) refl
    | inr e ↦ rw (e, read-set_other rest) refl
  ]
  read-set_other (listed k ms rest) = elim (Bool-cases (same_name k key)) [
    | inl e ↦ rw (e, apart_from k e) refl
    | inr e ↦ rw (e, read-set_other rest) refl
  ]

abbrev message_with : Option Name → Option Name → Option Name
message_with none args = none
message_with (some message) none = some message
message_with (some message) (some args) = some (message ++ args)

abbrev get_message : Dict Name → Option Name
get_message d = message_with (read msg_key d) (read args_key d)

abbrev runtime : Runtime Name
runtime = record {
  lower = λ k. k;
  upper = λ k. k;
  text = λ k. k;
  no_args = [];
  hostname = 104 ∷ [];
  pid = 49 ∷ [];
  get_message = get_message;
}

replaced : (d : Dict Name) → get_message (redacted_attributes runtime d) ≡ some redacted_message
replaced d =
    rw
      (
        read-set_other msg_key args_key refl [] (set_scalar msg_key redacted_message d),
        read-set msg_key redacted_message d refl,
        read-set args_key [] (set_scalar msg_key redacted_message d) refl,
      )
      refl

-- "pw", "INFO" and "test"
abbrev pw : Name
pw = 112 ∷ 119 ∷ []

abbrev info : Name
info = 73 ∷ 78 ∷ 70 ∷ 79 ∷ []

abbrev test : Name
test = 116 ∷ 101 ∷ 115 ∷ 116 ∷ []

abbrev settings : Settings
settings = record {
  app_log_level = info;
  app_environment = test;
  app_log_redaction_patterns = pw ∷ [];
}

-- "login" with the argument " pw"
abbrev login : Record Name
login = record {
  level = 20;
  exc_info = no_exception;
  attributes = scalar msg_key (108 ∷ 111 ∷ 103 ∷ 105 ∷ 110 ∷ []) (scalar args_key (32 ∷ pw) end);
}

abbrev calls : List Call
calls = cache_get_logger ∷ shared_get_logger true ∷ cache_configure_logging ∷ []

-- without the shared module a plain line is written
plain_redacted :
    lines runtime (after (λ k. k) false settings calls fresh) test login
    ≡ plain_line redacted_message ∷ []
unfolding lines Shared.get_logger get_logger configure_logging level_of emit_all emit run_filters
    redacting_filter any_occurs occurs_in lower_all starts_with set
plain_redacted = refl

-- a record below the level, and one whose exception cannot be formatted
not_written :
    lines runtime (after (λ k. k) true settings calls fresh) test (record login { level = 10 }) ≡ []
unfolding lines Shared.get_logger get_logger configure_logging Shared.configure_logging level_of
not_written = refl

not_formatted :
    lines runtime
      (after (λ k. k) true settings calls fresh)
      test
      (record login { exc_info = nothing_handled })
    ≡ []
unfolding lines Shared.get_logger get_logger configure_logging Shared.configure_logging level_of
    emit_all emit run_filters redacting_filter format_exception any_occurs lower_all occurs_in
    starts_with
not_formatted = refl

-- a record whose message cannot be formatted passes the filter, and its arguments are written raw
abbrev unformattable : Record Name
unformattable = record { level = 20; exc_info = no_exception; attributes = scalar args_key pw end }

written_raw :
    lines runtime (after (λ k. k) true settings calls fresh) test unformattable
    ≡ json_line (
        scalar args_key pw (
          scalar timestamp_key test (
            scalar service_key cache_name (
              scalar hostname_key
                (104 ∷ [])
                (scalar pid_key (49 ∷ []) (scalar environment_key test end))))))
      ∷ []
unfolding lines Shared.get_logger get_logger configure_logging Shared.configure_logging level_of
    emit_all emit run_filters redacting_filter format_exception format context set_all set
    with_exception filter any_occurs occurs_in lower_all starts_with
written_raw = refl

lines-IsRedacted_example : All (IsRedacted runtime (pw ∷ [])) (
    lines runtime
      (after (λ k. k) true settings calls (configure_logging (λ k. k) true settings fresh))
      test
      login)
lines-IsRedacted_example =
    lines-IsRedacted runtime replaced true settings fresh refl calls (refl, (refl, (refl, tt))) test
      login refl

length-lines_example :
    length (lines runtime (after (λ k. k) true settings calls fresh) test login) ≤ 1
length-lines_example = length-lines runtime (λ k. k) true settings calls test login

-- an exception "E" with the text "pw" while a request with a password is logged
abbrev failed : Record Name
failed = record {
  level = 40;
  exc_info = exception (69 ∷ []) pw [];
  attributes = scalar msg_key test (nested test (scalar pw (49 ∷ []) end) end);
}

abbrev failed_data : Option (Dict Name)
failed_data = some (scalar type_key (69 ∷ []) (scalar message_key pw (scalar stack_key [] end)))

formatted : format_exception runtime failed.exc_info ≡ some failed_data
unfolding format_exception
formatted = refl

-- the password under its key is redacted, and the one in the text of the exception is not
written :
    formatted_data runtime cache_name test (pw ∷ []) test failed_data failed
    ≡ scalar msg_key test (
        nested test (scalar pw redacted_text end) (
          scalar timestamp_key test (
            scalar service_key cache_name (
              scalar hostname_key (104 ∷ []) (
                scalar pid_key (49 ∷ []) (
                  scalar environment_key test (
                    nested exception_key
                      (scalar type_key (69 ∷ []) (scalar message_key pw (scalar stack_key [] end)))
                      end)))))))
unfolding format context set_all set with_exception filter any_occurs occurs_in lower_all
    starts_with
written = refl

configured_line_example :
    (lines runtime
        (get_loggers
          (true ∷ [])
          (Shared.configure_logging (λ k. k) cache_name test info (pw ∷ []) fresh))
        test
        failed
      ≡ line_from runtime true
          (formatted_data runtime cache_name test (pw ∷ []) test failed_data failed))
    × IsClean
        (λ k. k)
        (pw ∷ [])
        redacted_text
        (formatted_data runtime cache_name test (pw ∷ []) test failed_data failed)
unfolding level_of
configured_line_example =
    configured_line runtime cache_name test info (pw ∷ []) fresh (true ∷ []) test failed failed_data
      formatted
