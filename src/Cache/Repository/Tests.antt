-- ===== src/Cache/Repository/Tests.antt =====
-- Runs of the repository on a small Redis.
use realtime_analytics_pipel.Prelude.{
  ℕ, ◌≤◌, ◌≡◌, refl, some, List, [], ◌∷◌, ◌++◌, reverse, length, arith,
}
use realtime_analytics_pipel.Cache.Index.{insert}
use realtime_analytics_pipel.Cache.Redis.{Kind, event, perf, pos}
use realtime_analytics_pipel.Cache.Repository.{
  publish_update, Operation, Command, hset_command, expire_command, zadd_command, commands_of,
  commands, saw_event, saw_perf, execute, trim_index, pipeline_apply, store_window, rows,
  get_last_windows, latest_of, get_latest_event_window,
}
use realtime_analytics_pipel.Cache.Repository.Memory.{numbers, Database, index_of, database, empty}
use realtime_analytics_pipel.Cache.Service.{
  get_overview, get_event_windows, get_performance_windows, get_event_latest, get_overview_agrees,
}
use realtime_analytics_pipel.Cache.Repository.Retention.{windows, kept, members-pipeline_apply}
use realtime_analytics_pipel.Cache.Repository.Batches.{pipeline_apply_again}
use realtime_analytics_pipel.Cache.Repository.Memory.{overwrite, memory-Hashes}
use realtime_analytics_pipel.Cache.Repository.Contents.{get_last_windows-pipeline_apply}
use realtime_analytics_pipel.Cache.Repository.Reads.{head, limit_of_windows}

abbrev op : Kind → ℕ → ℕ → Operation ℕ ℕ
op k w f = record { kind = k; window_start = w; fields = f }

abbrev batch : List (Operation ℕ ℕ)
batch = op event 30 1 ∷ op perf 10 7 ∷ op event 10 2 ∷ op event 20 3 ∷ op event 30 4 ∷ []

-- with a retention of 2 the oldest of three event windows is dropped
abbrev full : Database
full = pipeline_apply database 2 3600 batch empty

keeps_the_latest : index_of event full ≡ 20 ∷ 30 ∷ []
unfolding pipeline_apply commands commands_of saw_event saw_perf execute trim_index insert
keeps_the_latest = refl

reads_the_latest : get_latest_event_window database full ≡ some (30, 4)
unfolding get_latest_event_window latest_of pipeline_apply commands commands_of saw_event saw_perf
    execute trim_index insert
reads_the_latest = refl

reads_one : get_last_windows database event (pos 1) full ≡ (30, 4) ∷ []
unfolding get_last_windows rows pipeline_apply commands commands_of saw_event saw_perf execute
    trim_index insert
reads_one = refl

-- a limit of 0 asks for the ranks 0 to -1, which are all
limit_zero_reads_all : get_last_windows database event (pos 0) full ≡ (30, 4) ∷ (20, 3) ∷ []
unfolding get_last_windows rows pipeline_apply commands commands_of saw_event saw_perf execute
    trim_index insert
limit_zero_reads_all = refl

stores_one : index_of perf (store_window database 2 3600 perf 40 5 full) ≡ 10 ∷ 40 ∷ []
unfolding store_window pipeline_apply commands commands_of saw_event saw_perf execute trim_index
    insert
stores_one = refl

members-pipeline_apply_example :
    index_of event (pipeline_apply database 2 3600 batch empty)
    ≡ kept numbers 2 (windows event batch) []
members-pipeline_apply_example = members-pipeline_apply database 2 3600 event batch empty

-- the attempt broke off after four commands
abbrev executed : List (Command ℕ ℕ)
executed =
    hset_command event 30 1
    ∷ expire_command event 30 3600
    ∷ zadd_command event 30
    ∷ hset_command perf 10 7
    ∷ []

abbrev not_executed : List (Command ℕ ℕ)
not_executed =
    expire_command perf 10 3600
    ∷ zadd_command perf 10
    ∷ commands 3600 (op event 10 2 ∷ op event 20 3 ∷ op event 30 4 ∷ [])

attempt : executed ++ not_executed ≡ commands 3600 batch
unfolding commands commands_of
attempt = refl

pipeline_apply_again_example :
    index_of event (pipeline_apply database 2 3600 batch (execute database executed empty))
    ≡ index_of event (pipeline_apply database 2 3600 batch empty)
pipeline_apply_again_example =
    pipeline_apply_again database 2 3600 event batch executed not_executed empty attempt

limit_of_windows_example :
    (length (get_last_windows database event (pos 1) full) ≤ 1)
    × (get_last_windows database event (pos 0) full
        ≡ rows database event (reverse (index_of event full)) full)
limit_of_windows_example = limit_of_windows database event 0 full

get_overview_agrees_example :
    ((get_overview database full).event_latest ≡ head (get_event_windows database (pos 1) full))
    × ((get_overview database full).performance_latest
        ≡ head (get_performance_windows database (pos 1) full))
    × ((get_overview database full).event_latest ≡ get_event_latest database full)
get_overview_agrees_example = get_overview_agrees database full

get_last_windows-pipeline_apply_example :
    get_last_windows database event (pos 2) (pipeline_apply database 2 3600 batch empty)
    ≡ (30, 4) ∷ (20, 3) ∷ []
unfolding insert
get_last_windows-pipeline_apply_example =
    get_last_windows-pipeline_apply database overwrite (memory-Hashes overwrite) 2 3600 1 event
      batch empty (omega arith)

published : publish_update (λ (n : ℕ). "{}") 3 ≡ ("cache:updates", "{}")
unfolding publish_update
published = refl
