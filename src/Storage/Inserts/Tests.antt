-- ===== src/Storage/Inserts/Tests.antt =====
-- A cycle with one empty and one full batch whose first attempt raises after ClickHouse has taken the
-- rows, so that they are there twice, and the instances of the
-- theorems on it.
use mathlib.Core.List.{Perm}
use realtime_analytics_pipel.Prelude.{
  ℕ, ◌*◌, ◌≤◌, ◌≡◌, refl, true, false, [], ◌∷◌, arith, length, All,
}
use realtime_analytics_pipel.Storage.Inserts.{
  Stage, Shared, Task, Cycle, created, waiting, inserting, sleeping, stored, begin, enter,
  insert_done, wake, began, entered, insert_ended, took, raised, woke, step, Reach, here, next,
  create_tasks, all_settled, pause,
}
use realtime_analytics_pipel.Storage.Inserts.Safety.{
  Jobs, IsAmong, start, non_empty, commit_after_inserts,
}
use realtime_analytics_pipel.Storage.Inserts.Progress.{steps, Moves, gather_returns}

abbrev batches : Jobs ℕ
batches = ("event_metrics", 1 ∷ 2 ∷ []) ∷ ("session_metrics", []) ∷ []

abbrev shared : Shared ℕ
shared = (start {Row = ℕ} 4 batches).shared

abbrev task : Stage → Task ℕ
task st = record { topic = "event_metrics"; batch = 1 ∷ 2 ∷ []; stage = st }

abbrev cycle : Shared ℕ → Stage → Cycle ℕ
cycle s st = record { shared = s; tasks = task st ∷ [] }

abbrev entered_once : Shared ℕ
entered_once = record shared { permits = 3; in_flight_inserts = 1 }

abbrev failed_once : Shared ℕ
failed_once = record entered_once {
  storage_retries = 1;
  unseen = ("event_metrics", 1 ∷ 2 ∷ []) ∷ [];
}

abbrev done : Shared ℕ
done = record failed_once {
  permits = 4;
  in_flight_inserts = 0;
  inserted = ("event_metrics", 1 ∷ 2 ∷ []) ∷ [];
  storage_batches = 1;
  storage_records = 2;
}

program : Unit {0}
unfolding begin enter insert_done wake create_tasks non_empty pause
program = tt

run : Reach (start 4 batches) (cycle done stored)
unfolding program
run =
    next
      (next
        (next
          (next
            (next here
              (step [] [] (task created) (shared, task waiting) refl (began refl refl) refl))
            (step [] [] (task waiting) (entered_once, task (inserting 0)) refl
              (entered refl (omega arith) refl) refl))
          (step [] [] (task (inserting 0)) (failed_once, task (sleeping 1)) refl
            (insert_ended 0 (raised true) refl refl) refl))
        (step [] [] (task (sleeping 1)) (failed_once, task (inserting 1)) refl (woke 1 refl refl)
          refl))
      (step [] [] (task (inserting 1)) (done, task stored) refl (insert_ended 1 took refl refl)
        refl)

pauses : (pause 1 ≡ 500) × (pause 2 ≡ 1000) × (pause 5 ≡ 2000)
unfolding program
pauses = (refl, refl, refl)

commit_after_inserts_example :
    (done.permits ≡ 4)
    × (done.in_flight_inserts ≡ 0)
    × (done.any_insert_failed ≡ false → Perm done.inserted (non_empty batches))
    × All (λ j. IsAmong j (non_empty batches)) done.unseen
commit_after_inserts_example = commit_after_inserts 4 batches run refl

gather_returns_example :
    (steps run ≤ 9 * length (non_empty batches))
    × (all_settled (cycle done stored).tasks ≡ false → Moves (cycle done stored))
gather_returns_example = gather_returns 4 batches run (omega arith)
