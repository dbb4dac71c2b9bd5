-- ===== src/Storage/Loop/Tests.antt =====
-- Two cycles of the storage service: the inserts of the first fail for good, those of the second
-- succeed and are committed.
use realtime_analytics_pipel.Prelude.{ℕ, ◌≡◌, refl, true, false, none, [], ◌∷◌, ◌++◌, ok, arith}
use realtime_analytics_pipel.Storage.Consumer.{
  loose, Item, bare, Message, Buffers, append, take_value, handle_by, handle, handle_all, clear,
  hand_over, consume_batch,
}
use realtime_analytics_pipel.Storage.Inserts.{
  Stage, Shared, Task, Cycle, created, waiting, inserting, sleeping, stored, failed, begin, enter,
  insert_done, wake, began, entered, insert_ended, took, raised, woke, step, Reach, here, next,
  create_tasks,
}
use realtime_analytics_pipel.Storage.Inserts.Safety.{start, non_empty}
use realtime_analytics_pipel.Storage.Loop.{
  Loop, total, gathered, commit_done, finish_cycle, Cycled, inserted,
}
use realtime_analytics_pipel.Storage.Loop.Ledger
use realtime_analytics_pipel.Storage.Loop.Ledger.{empty_buffers, IsConserved}
use realtime_analytics_pipel.Storage.Loop.Conserved.{History-IsConserved}
use realtime_analytics_pipel.Storage.Loop.Offsets.{HasStored, commit-HasStored}

abbrev message : ℕ → Message ℕ ℕ
message v = record { topic = "events"; error = none; value = ok (loose v) }

abbrev parse : ℕ → ℕ
parse r = r

-- the client library commits the position
abbrev at_position : ℕ → ℕ → ℕ
at_position position committed = position

abbrev first : Loop ℕ ℕ
first = record {
  log = [];
  buffers = ("events", []) ∷ [];
  stored = [];
  unseen = [];
  committed = 0;
  storage_commits = 0;
  storage_errors = 0;
}

abbrev batch : ℕ → Buffers ℕ ℕ
batch v = ("events", bare v ∷ []) ∷ []

abbrev task : ℕ → Stage → Task (Item ℕ ℕ)
task v st = record { topic = "events"; batch = bare v ∷ []; stage = st }

abbrev shared : Shared (Item ℕ ℕ)
shared = (start {Row = Item ℕ ℕ} 4 (batch 0)).shared

abbrev held : ℕ → Shared (Item ℕ ℕ)
held retries = record shared { permits = 3; in_flight_inserts = 1; storage_retries = retries }

abbrev all_failed : Shared (Item ℕ ℕ)
all_failed = record shared { any_insert_failed = true; storage_errors = 1; storage_retries = 3 }

abbrev all_stored : Shared (Item ℕ ℕ)
all_stored = record shared {
  inserted = ("events", bare 2 ∷ []) ∷ [];
  storage_batches = 1;
  storage_records = 1;
}

abbrev cycle : ℕ → Shared (Item ℕ ℕ) → Stage → Cycle (Item ℕ ℕ)
cycle v s st = record { shared = s; tasks = task v st ∷ [] }

program : Unit {0}
unfolding begin enter insert_done wake create_tasks non_empty consume_batch hand_over handle_all
    handle handle_by take_value append clear total gathered commit_done finish_cycle
program = tt

started : (v : ℕ) → Reach (start 4 (batch v)) (cycle v (held 0) (inserting 0))
unfolding program
started v =
    next
      (next here (step [] [] (task v created) (shared, task v waiting) refl (began refl refl) refl))
      (step [] [] (task v waiting) (held 0, task v (inserting 0)) refl
        (entered refl (omega arith) refl) refl)

-- three attempts fail, with a pause after the first two
fails : Reach (start 4 (batch 1)) (cycle 1 all_failed failed)
unfolding program
fails =
    next
      (next
        (next
          (next
            (next (started 1) (
              step [] [] (task 1 (inserting 0)) (held 1, task 1 (sleeping 1)) refl
                (insert_ended 0 (raised false) refl refl) refl))
            (step [] [] (task 1 (sleeping 1)) (held 1, task 1 (inserting 1)) refl (woke 1 refl refl)
              refl))
          (step [] [] (task 1 (inserting 1)) (held 2, task 1 (sleeping 2)) refl
            (insert_ended 1 (raised false) refl refl) refl))
        (step [] [] (task 1 (sleeping 2)) (held 2, task 1 (inserting 2)) refl (woke 2 refl refl)
          refl))
      (step [] [] (task 1 (inserting 2)) (all_failed, task 1 failed) refl
        (insert_ended 2 (raised false) refl refl) refl)

succeeds : Reach (start 4 (batch 2)) (cycle 2 all_stored stored)
unfolding program
succeeds = next (started 2) (
    step [] [] (task 2 (inserting 0)) (all_stored, task 2 stored) refl
      (insert_ended 0 took refl refl) refl)

abbrev second : Loop ℕ ℕ
second = record first { log = message 1 ∷ []; storage_errors = 1 }

abbrev third : Loop ℕ ℕ
third = record second {
  log = message 1 ∷ message 2 ∷ [];
  stored = ("events", bare 2 ∷ []) ∷ [];
  committed = 2;
  storage_commits = 1;
}

first_cycle : Cycled at_position parse 4 (message 1 ∷ []) first second
unfolding program
first_cycle =
    inserted (batch 1) (("events", []) ∷ []) (cycle 1 all_failed failed) true refl (omega arith)
      fails refl refl

second_cycle : Cycled at_position parse 4 (message 2 ∷ []) second third
unfolding program
second_cycle =
    inserted (batch 2) (("events", []) ∷ []) (cycle 2 all_stored stored) true refl (omega arith)
      succeeds refl refl

-- the second commit covers both messages, and the row of the first is not in ClickHouse
commit-HasStored_example :
    HasStored parse 4 at_position (message 2 ∷ []) second third
    × (third.log ≡ second.log ++ message 2 ∷ [])
    × (third.committed ≡ 2)
commit-HasStored_example = commit-HasStored parse 4 at_position (message 2) [] second_cycle refl

-- the row of the first message is lost, that of the second is stored
History-IsConserved_example : IsConserved parse 4 at_position ("events" ∷ []) third
unfolding empty_buffers
History-IsConserved_example =
    History-IsConserved parse 4 at_position ("events" ∷ []) (refl, tt)
      (Ledger.next (message 2 ∷ []) (Ledger.next (message 1 ∷ []) Ledger.here first_cycle)
        second_cycle)
