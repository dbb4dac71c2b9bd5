-- ===== src/Storage/Main.antt =====
-- services/storage/src/main.py: the signals, and the loop of `process_batches` of
-- services/storage/src/services/processor.py with its sleeps and its end. What a cycle does that is
-- cancelled is left out, and so are the threads of the metrics and health servers, which share nothing.
pub mod Drain
pub mod Ends
pub mod Tests
use realtime_analytics_pipel.Prelude.{
  ℕ, suc, ◌*◌, ◌≡◌, Bool, true, false, ◌&&◌, ◌||◌, Option, none, some, List, [], ◌∷◌, String, Exn,
  cancelled_error, Outcome, ok, raise, is_exception, ◌>>=◌, length, leb, ◌==◌, if◌then◌else◌,
}
use realtime_analytics_pipel.Storage.Consumer.{Message, Buffers}
use realtime_analytics_pipel.Storage.Loop.{
  Loop, Cycled, consume_raised, poll_raised, nothing_polled, inserted,
}

-- the settings that the sleeps depend on; `testing` is `app_environment == "testing"`
pub record Settings : Type 0 where
  pub storage_poll_interval_seconds : ℕ
  pub storage_batch_size : ℕ
  pub storage_skip_sleep_if_full : Bool
  pub testing : Bool

-- where the coroutine is: before the test of the event, in a cycle, in a sleep of some milliseconds, or
-- ended, with what `_run` has returned or raised
pub data Phase : Type 0 where
  testing_event : Phase
  in_cycle : Phase
  asleep : (ms : ℕ) → Phase
  ended : Outcome (Unit {0}) → Phase

-- `scheduled` is the call of `shutdown_event.set` that waits for the event loop, `shutdown` the event,
-- `cancelling` a cancellation that has not reached the task, and `cycles` the number of cycles begun;
-- `completed` is what the cycles that were not cancelled have done
pub record Service (Row Other : Type 0) : Type 0 where
  pub phase : Phase
  pub signalled : Bool
  pub scheduled : Bool
  pub shutdown : Bool
  pub cancelling : Bool
  pub cycles : ℕ
  pub completed : Loop Row Other

-- `_close_safe`: `none` stands for an object without a method `close`, and `cancelling` for a
-- cancellation that the await raises
unfoldable pub close_safe : (cancelling : Bool) → Option (Outcome (Unit {0})) → Outcome (Unit {0})
close_safe cancelling none = ok tt
close_safe true (some closed) = raise cancelled_error
close_safe false (some (ok u)) = ok tt
close_safe false (some (raise e)) = if is_exception e then ok tt else raise e

-- `except asyncio.CancelledError` of `_run`
unfoldable pub run_ends : Outcome (Unit {0}) → Outcome (Unit {0})
run_ends (ok u) = ok tt
run_ends (raise e) = if is_exception e then raise e else ok tt

-- `_run` up to `process_batches`, which it does not reach when the metrics server or the check of the topics
-- raises; the health server's thread and the handlers of the signals raise nothing
unfoldable pub start_up : (metrics_server topics : Outcome (Unit {0})) → Outcome (Unit {0})
start_up metrics_server topics = metrics_server >>= (λ u. topics)

-- `main`, with what `_run` returns or raises
unfoldable pub main : Outcome (Unit {0}) → Outcome (Unit {0})
main (ok u) = ok tt
main (raise e) = if is_exception e then ok tt else raise e

-- any batch at least as long as the batch size
unfoldable pub any_full : {Row Other : Type 0} → ℕ → Buffers Row Other → Bool
any_full size [] = false
any_full size ((topic, batch) ∷ rest) = leb size (length batch) || any_full size rest

-- `settings.storage_poll_interval_seconds or 1`, in milliseconds
unfoldable pub poll_interval : Settings → ℕ
poll_interval settings =
    if settings.storage_poll_interval_seconds == 0
    then 1000
    else settings.storage_poll_interval_seconds * 1000

module _ {Row Other : Type 0} where
  -- `_on_signal`
  unfoldable pub on_signal : Service Row Other → Service Row Other
  on_signal s =
      if s.signalled
      then record s { cancelling = true }
      else record s { scheduled = true; signalled = true }

  -- the event loop runs what is scheduled
  unfoldable pub event_set : Service Row Other → Service Row Other
  event_set s = record s { shutdown = true; scheduled = false }

  -- signals, which come at any time, and the call that the first of them schedules
  pub data Outside (s t : Service Row Other) : Type 0 where
    signal : t ≡ on_signal s → Outside s t
    called : s.scheduled ≡ true → t ≡ event_set s → Outside s t

  -- `close_consumer` and `close_client` are the methods `close` of the two objects
  module _ (close_consumer close_client : Option (Outcome (Unit {0}))) where
    -- the `finally` of `process_batches`, which has ended with `o`, and the end of `_run`
    unfoldable pub stop : Outcome (Unit {0}) → Service Row Other → Service Row Other
    stop o s = record s {
      cancelling = false;
      phase = ended (
          run_ends (
            close_safe s.cancelling close_consumer
            >>= (λ u. close_safe s.cancelling close_client >>= (λ v. o))));
    }

    -- `while not shutdown_event.is_set()`
    unfoldable pub test_event : Service Row Other → Service Row Other
    test_event s =
        if s.shutdown then stop (ok tt) s else record s { phase = in_cycle; cycles = suc s.cycles }

    -- an await raises `CancelledError`, once
    unfoldable pub cancel : Service Row Other → Service Row Other
    cancel s = stop (raise cancelled_error) (record s { cancelling = false })

  module _ (settings : Settings) where
    module _ (parse : Row → Row) (limit : ℕ) (commit_offset : ℕ → ℕ → ℕ) where
      -- what follows a cycle
      unfoldable pub after_cycle :
          {ms : List (Message Row Other)} {l m : Loop Row Other}
          → Cycled commit_offset parse limit ms l m
          → Phase
      after_cycle (consume_raised e b n h x w) = asleep 5000
      after_cycle (poll_raised e b h x w) = asleep 5000
      after_cycle (nothing_polled batches b h z w) =
          asleep (if settings.testing then 200 else poll_interval settings)
      after_cycle (inserted batches b c succeeded h p r a w) =
          if settings.storage_skip_sleep_if_full && any_full settings.storage_batch_size batches
          then testing_event
          else asleep (poll_interval settings)

      module _ (close_consumer close_client : Option (Outcome (Unit {0}))) where
        -- the steps of the coroutine itself
        pub data Own (s t : Service Row Other) : Type 0 where
          tested : s.phase ≡ testing_event → t ≡ test_event close_consumer close_client s → Own s t
          -- also when a cancellation comes after the last await of the cycle
          cycled :
              (ms : List (Message Row Other)) (m : Loop Row Other)
              → s.phase ≡ in_cycle
              → (c : Cycled commit_offset parse limit ms s.completed m)
              → t ≡ record s { phase = after_cycle c; completed = m }
              → Own s t
          woke :
              (ms : ℕ)
              → s.phase ≡ asleep ms
              → s.cancelling ≡ false
              → t ≡ record s { phase = testing_event }
              → Own s t
          cycle_cancelled :
              s.phase ≡ in_cycle
              → s.cancelling ≡ true
              → t ≡ cancel close_consumer close_client s
              → Own s t
          sleep_cancelled :
              (ms : ℕ)
              → s.phase ≡ asleep ms
              → s.cancelling ≡ true
              → t ≡ cancel close_consumer close_client s
              → Own s t

        -- runs, with the number of steps of the coroutine
        pub data Run (s : Service Row Other) : ℕ → Service Row Other → Type 0 where
          here : Run s 0 s
          own : {n : ℕ} {t u : Service Row Other} → Run s n t → Own t u → Run s (suc n) u
          outside : {n : ℕ} {t u : Service Row Other} → Run s n t → Outside t u → Run s n u

-- the service before its first cycle
abbrev pub started : {Row Other : Type 0} → Loop Row Other → Service Row Other
started l = record {
  phase = testing_event;
  signalled = false;
  scheduled = false;
  shutdown = false;
  cancelling = false;
  cycles = 0;
  completed = l;
}
