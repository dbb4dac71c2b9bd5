-- ===== src/Cache/System/Tests.antt =====
-- A worker that receives two records, whose first call of `pipeline_apply` breaks off in the middle and
-- is retried with both operations.
use realtime_analytics_pipel.Prelude.{ℕ, ◌≡◌, refl, true, false, some, List, [], ◌∷◌, last, arith}
use realtime_analytics_pipel.Cache.Index.{IsPartOf, none_left, taken, left_out}
use realtime_analytics_pipel.Cache.Index.{insert, insert_all}
use realtime_analytics_pipel.Cache.Redis.{event}
use realtime_analytics_pipel.Cache.Repository.{
  Operation, Command, hset_command, expire_command, zadd_command, commands_of, commands, saw_event,
  saw_perf, execute, trim_index, pipeline_apply,
}
use realtime_analytics_pipel.Cache.Repository.Memory.{numbers, Database, index_of, database, empty}
use realtime_analytics_pipel.Cache.Repository.Retention.{windows}
use realtime_analytics_pipel.Cache.Worker.{
  Settings, Worker, operations, receive, has_room, loop_goes_on, get, collect, apply_done,
  commit_done,
}
use realtime_analytics_pipel.Cache.Worker.Steps.{start, received, collected, applied}
use realtime_analytics_pipel.Cache.System.{Reach, here, next, broke_off}
use realtime_analytics_pipel.Cache.System.Cached.{IsCached}
use realtime_analytics_pipel.Cache.System.Latest.{Reach-IsCached, index_is_latest}

abbrev settings : Settings
settings = record {
  kafka_commit_interval_ms = 1000;
  redis_write_batch_size = 1;
  redis_queue_max_size = 10;
}

abbrev commit_position : ℕ → ℕ → ℕ
commit_position position committed = position

abbrev op : ℕ → ℕ → Operation ℕ ℕ
op w f = record { kind = event; window_start = w; fields = f }

abbrev two_received : Worker (Operation ℕ ℕ)
two_received = receive (some (op 30 2)) (receive (some (op 10 1)) (start 0))

abbrev first_due : Worker (Operation ℕ ℕ)
first_due = collect settings 5 two_received

abbrev first_failed : Worker (Operation ℕ ℕ)
first_failed = apply_done true 5 false first_due

abbrev both_due : Worker (Operation ℕ ℕ)
both_due = collect settings 6 first_failed

abbrev both_written : Worker (Operation ℕ ℕ)
both_written = apply_done true 6 true both_due

-- the index holds 5 and 20 at the start, and two windows are kept
abbrev before : Database
before = record empty { event_index = 5 ∷ 20 ∷ [] }

abbrev executed : List (Command ℕ ℕ)
executed = expire_command event 10 3600 ∷ zadd_command event 10 ∷ []

abbrev broken : Database
broken = execute database executed before

abbrev after : Database
after = pipeline_apply database 2 3600 both_due.batch broken

-- the hash of the window cannot be written, and the commands after that are executed
first_fails : IsPartOf executed (commands 3600 first_due.batch)
unfolding receive collect get loop_goes_on commands commands_of
first_fails =
    left_out (hset_command event 10 1)
      (taken (expire_command event 10 3600) (taken (zadd_command event 10) none_left))

program : Unit {0}
unfolding receive has_room loop_goes_on get collect apply_done commit_done commands_of commands
    saw_event saw_perf execute trim_index pipeline_apply insert
program = tt

holds_the_latest :
    (index_of event broken ≡ 5 ∷ 10 ∷ 20 ∷ []) × (index_of event after ≡ 20 ∷ 30 ∷ [])
unfolding program
holds_the_latest = (refl, refl)

run : Reach database 2 3600 settings true commit_position (start 0) before both_written after
unfolding program
run =
    next
      (next
        (next
          (next
            (next (next here (received (some (op 10 1)) refl refl refl refl) refl)
              (received (some (op 30 2)) refl refl refl refl) refl)
            (collected 5 refl refl refl) refl)
          (applied 5 false refl refl) (broke_off executed first_fails refl))
        (collected 6 refl refl refl) refl)
      (applied 6 true refl refl) refl

nothing_queued : both_written.queue ≡ []
unfolding program
nothing_queued = refl

nothing_waits : both_written.in_hand ≡ []
unfolding program
nothing_waits = refl

Reach-IsCached_example :
    IsCached database 2 3600 event (5 ∷ 20 ∷ []) ((refl, tt), (tt, tt)) both_written after
Reach-IsCached_example =
    Reach-IsCached database 2 3600 event (5 ∷ 20 ∷ []) ((refl, tt), (tt, tt)) settings true
      commit_position 0 refl (omega arith) run

index_is_latest_example :
    index_of event after
    ≡ last 2 (insert_all numbers (windows event (operations both_written.handed_out)) (5 ∷ 20 ∷ []))
unfolding program
index_is_latest_example =
    index_is_latest database 2 3600 event (5 ∷ 20 ∷ []) ((refl, tt), (tt, tt)) settings true
      commit_position 0 refl (omega arith) run refl nothing_queued nothing_waits
