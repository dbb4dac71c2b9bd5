-- ===== src/Storage/Main/Tests.antt =====
-- A signal in the first cycle.
use realtime_analytics_pipel.Prelude.{
  ℕ, ◌≤◌, ◌≡◌, refl, runtime_error, true, false, Option, none, [], ◌∷◌, Outcome, ok, raise, library,
  ◌⊎◌, some,
}
use realtime_analytics_pipel.Storage.Consumer.{consume_batch}
use realtime_analytics_pipel.Storage.Loop.{total, nothing_polled, Loop}
use realtime_analytics_pipel.Storage.Loop.Ledger.{IsConserved, empty_buffers, before_cycles}
use realtime_analytics_pipel.Storage.Main.{
  main, start_up, Settings, Phase, in_cycle, asleep, ended, Service, close_safe, run_ends,
  poll_interval, on_signal, event_set, stop, test_event, after_cycle, Own, tested, cycled, woke,
  signal, called, Run, here, own, outside, started,
}
use realtime_analytics_pipel.Storage.Main.Drain.{drains}
use realtime_analytics_pipel.Storage.Main.Ends.{ends_by_signal}

abbrev parse : ℕ → ℕ
parse r = r

abbrev at_position : ℕ → ℕ → ℕ
at_position position committed = position

abbrev settings : Settings
settings = record {
  storage_poll_interval_seconds = 0;
  storage_batch_size = 1000;
  storage_skip_sleep_if_full = true;
  testing = false;
}

-- neither object has a method `close`
abbrev no_close : Option (Outcome (Unit {0}))
no_close = none

abbrev loop : Loop ℕ ℕ
loop = before_cycles parse 4 at_position ("events" ∷ [])

abbrev signalled_in_cycle : Service ℕ ℕ
signalled_in_cycle = record {
  phase = in_cycle;
  signalled = true;
  scheduled = false;
  shutdown = true;
  cancelling = false;
  cycles = 1;
  completed = loop;
}

abbrev at : Phase → Service ℕ ℕ
at p = record signalled_in_cycle { phase = p }

program : Unit {0}
unfolding on_signal event_set test_event stop close_safe run_ends after_cycle poll_interval
    consume_batch total empty_buffers
program = tt

-- a second signal would cancel the sleep
second_signal : (on_signal (at (asleep 1000))).cancelling ≡ true
unfolding program
second_signal = refl

close_raises : close_safe false (some (raise (library 1))) ≡ ok tt
unfolding program
close_raises = refl

close_cancelled : run_ends (close_safe true (some (ok tt))) ≡ ok tt
unfolding program
close_cancelled = refl

until_signal :
    Run settings parse 4 at_position no_close no_close (started loop) 1 signalled_in_cycle
unfolding program
until_signal = outside (outside (own here (tested refl refl)) (signal refl)) (called refl refl)

until_end :
    Run settings parse 4 at_position no_close no_close signalled_in_cycle 3 (at (ended (ok tt)))
unfolding program
until_end =
    own
      (own (own here (cycled [] loop refl (nothing_polled [] loop.buffers refl refl refl) refl))
        (woke 1000 refl refl refl))
      (tested refl refl)

drains_example :
    (3 ≤ 3)
    × ((at (ended (ok tt))).cycles ≡ signalled_in_cycle.cycles)
    × (((o : Outcome (Unit {0})) × (ended (ok tt) ≡ ended o))
        ⊎ ((u : Service ℕ ℕ) × Own settings parse 4 at_position no_close no_close
              (at (ended (ok tt)))
              u))
drains_example = drains settings parse 4 at_position no_close no_close until_end refl

whole_run : Run settings parse 4 at_position no_close no_close (started loop) 4 (at (ended (ok tt)))
unfolding program
whole_run =
    own
      (own
        (own until_signal
          (cycled [] loop refl (nothing_polled [] loop.buffers refl refl refl) refl))
        (woke 1000 refl refl refl))
      (tested refl refl)

abbrev returned : Outcome (Unit {0})
returned = ok tt

ends_by_signal_example :
    (true ≡ true) × (returned ≡ returned) × IsConserved parse 4 at_position ("events" ∷ []) loop
ends_by_signal_example =
    ends_by_signal settings parse 4 at_position no_close no_close ("events" ∷ []) (refl, tt)
      returned whole_run refl

-- without the topics the process ends, and no exception leaves `main`
no_topics : main (start_up (ok tt) (raise runtime_error)) ≡ ok tt
unfolding main start_up
no_topics = refl
