-- ===== src/Cache/Worker/Tests.antt =====
-- A run of the worker in which a commit covers a record that is still queued, and the instances of
-- the worker's theorems on it.
use realtime_analytics_pipel.Prelude.{
  ℕ, ◌+◌, ◌≡◌, refl, true, false, some, [], ◌∷◌, ◌++◌, take, arith,
}
use realtime_analytics_pipel.Cache.Worker.{
  Settings, applying, Worker, receive, wait_in_put, has_room, loop_goes_on, get, collect,
  apply_done, commit_done, leave, final_apply_done, final_commit_done, flush_due,
}
use realtime_analytics_pipel.Cache.Worker.Steps.{
  start, received, waits_in_put, told_to_stop, collected, applied, Reach, here, next,
}
use realtime_analytics_pipel.Cache.Worker.Received.{IsDelivered, Reach-IsDelivered}
use realtime_analytics_pipel.Cache.Worker.Batches.{IsBounded, Reach-IsBounded, failed_batch_grows}
use realtime_analytics_pipel.Cache.Worker.Rounds.{Tick, run}

abbrev settings : Settings
settings = record {
  kafka_commit_interval_ms = 1000;
  redis_write_batch_size = 1;
  redis_queue_max_size = 10;
}

abbrev commit_position : ℕ → ℕ → ℕ
commit_position position committed = position

-- two records are received, and the first is written
abbrev two_received : Worker ℕ
two_received = receive (some 2) (receive (some 1) (start 0))

abbrev one_written : Worker ℕ
one_written = apply_done true 5 true (collect settings 5 two_received)

abbrev one_committed : Worker ℕ
one_committed = commit_done commit_position 5 true one_written

abbrev stopping : Worker ℕ
stopping = record one_committed { stopped = true }

program : Unit {0}
unfolding receive wait_in_put has_room loop_goes_on get collect apply_done commit_done leave
    final_apply_done final_commit_done run
program = tt

one_written-Reach : Reach settings true commit_position (start 0) one_written
unfolding program
one_written-Reach =
    next
      (next
        (next (next here (received (some 1) refl refl refl refl))
          (received (some 2) refl refl refl refl))
        (collected 5 refl refl refl))
      (applied 5 true refl refl)

-- the second record is below the committed offset, and its operation only in the queue
queued_and_committed :
    (one_committed.committed ≡ 2)
    × (one_committed.persisted ≡ 1 ∷ [])
    × (one_committed.queue ≡ 2 ∷ [])
unfolding program
queued_and_committed = (refl, refl, refl)

-- a queue with one place, and a second record whose put waits; the loop is stopped then
abbrev narrow : Settings
narrow = record settings { redis_queue_max_size = 1 }

abbrev one_waits : Worker ℕ
one_waits = wait_in_put 2 (receive (some 1) (start 0))

abbrev one_lost : Worker ℕ
one_lost = record one_waits { stopped = true }

one_lost-Reach : Reach narrow true commit_position (start 0) one_lost
unfolding program
one_lost-Reach =
    next
      (next (next here (received (some 1) refl refl refl refl))
        (waits_in_put 2 refl refl refl refl))
      (told_to_stop refl)

Reach-IsDelivered_example : IsDelivered one_lost
Reach-IsDelivered_example = Reach-IsDelivered narrow true commit_position 0 one_lost-Reach

Reach-IsBounded_example : IsBounded settings one_written
Reach-IsBounded_example =
    Reach-IsBounded settings true commit_position (omega arith) 0 one_written-Reach

due : flush_due settings 5 (collect settings 5 two_received) ≡ true
unfolding program
due = refl

failed_batch_grows_example :
    let s = collect settings 5 two_received in
    let t = collect settings 6 (apply_done true 5 false s) in
    (t.batch ≡ s.batch ++ take 1 s.queue)
    × (t.phase ≡ applying 6)
    × (t.persisted ≡ s.persisted)
    × (t.batch_errors_total ≡ s.batch_errors_total + 1)
    × (t.committed ≡ s.committed)
failed_batch_grows_example =
    failed_batch_grows settings true 5 6 (collect settings 5 two_received) due (omega arith)

abbrev healthy : ℕ → Tick
healthy i = record { now = 10 + i; applies = true; commits = true }
