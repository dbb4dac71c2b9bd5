-- ===== src/Storage/Inserts.antt =====
-- The concurrent inserts of one cycle of `process_batches`, services/storage/src/services/processor.py:
-- one task for each topic with a batch, a semaphore, a shared failure flag, and bounded retries.
-- Each `await` of a task ends a step. `inserted` records the batches whose
-- insert has returned, and `unseen` those that ClickHouse has taken although the insert has raised.
pub mod Progress
pub mod Counts
pub mod Failures
pub mod Safety
pub mod Tests
use realtime_analytics_pipel.Prelude.{
  ℕ, zero, suc, ◌+◌, ◌-◌, ◌*◌, ◌<◌, ◌≡◌, ◌&&◌, min, Bool, true, false, not, List, [], ◌∷◌, ◌++◌,
  String, leb, ltb, length, if◌then◌else◌,
}

-- where a task of `_insert_topic` stands; the number is its local `attempts`
pub data Stage : Type 0 where
  created waiting : Stage
  inserting sleeping : (attempts : ℕ) → Stage
  stored failed skipped : Stage

pub record Task (Row : Type 0) : Type 0 where
  pub topic : String
  pub batch : List Row
  pub stage : Stage

pub record Shared (Row : Type 0) : Type 0 where
  pub any_insert_failed : Bool
  -- free places of the semaphore
  pub permits : ℕ
  pub inserted : List (String × List Row)
  pub unseen : List (String × List Row)
  -- metrics
  pub in_flight_inserts : ℕ
  pub storage_batches : ℕ
  pub storage_records : ℕ
  pub storage_errors : ℕ
  pub storage_retries : ℕ

-- how a call of `insert_rows` ends: it returns, or it raises, when ClickHouse has
-- taken the rows, as one block, or has not
pub data Answer : Type 0 where
  took : Answer
  raised : (kept : Bool) → Answer

abbrev pub max_retries : ℕ
max_retries = 3

-- `min(0.5 * attempts, 2.0)` seconds, in milliseconds
unfoldable pub pause : ℕ → ℕ
pause attempts = min (500 * attempts) 2000

-- the shared variables and the task after a step of the task
abbrev pub Moved : Type 0 → Type 0
Moved Row = Shared Row × Task Row

pub record Cycle (Row : Type 0) : Type 0 where
  pub shared : Shared Row
  pub tasks : List (Task Row)

-- `gather` has returned when every task is in one of these stages
abbrev pub is_settled : Stage → Bool
is_settled stored = true
is_settled failed = true
is_settled skipped = true
is_settled _ = false

module _ {Row : Type 0} where
  -- from the start of the coroutine to `async with semaphore`
  unfoldable pub begin : Shared Row → Task Row → Moved Row
  begin s t =
      if s.any_insert_failed
      then (s, record t { stage = skipped })
      else (s, record t { stage = waiting })

  unfoldable pub enter : Shared Row → Task Row → Moved Row
  enter s t = (
    record s { permits = s.permits - 1; in_flight_inserts = s.in_flight_inserts + 1 },
    record t { stage = inserting 0 },
  )

  -- leaving `async with semaphore`, with the `finally` before it
  abbrev pub exit : Shared Row → Shared Row
  exit s = record s { permits = s.permits + 1; in_flight_inserts = s.in_flight_inserts - 1 }

  abbrev pub kept_batch : (kept : Bool) → Task Row → List (String × List Row)
  kept_batch true t = (t.topic, t.batch) ∷ []
  kept_batch false t = []

  -- the call of `insert_rows` has returned or raised
  unfoldable pub insert_done : (attempts : ℕ) → Answer → Shared Row → Task Row → Moved Row
  insert_done attempts took s t = (
    exit (record s {
      inserted = s.inserted ++ (t.topic, t.batch) ∷ [];
      storage_batches = s.storage_batches + 1;
      storage_records = s.storage_records + length t.batch;
    }),
    record t { stage = stored },
  )
  insert_done attempts (raised kept) s t =
      let s' = record s {
        storage_retries = s.storage_retries + 1;
        unseen = s.unseen ++ kept_batch kept t;
      } in
      if leb max_retries (attempts + 1)
      then (
        exit (record s' { any_insert_failed = true; storage_errors = s.storage_errors + 1 }),
        record t { stage = failed },
      )
      else (s', record t { stage = sleeping (attempts + 1) })

  unfoldable pub wake : (attempts : ℕ) → Shared Row → Task Row → Moved Row
  wake attempts s t = (s, record t { stage = inserting attempts })

  -- what one task does on its own, by its stage; the environment chooses when, and the answer
  pub data TaskStep (s : Shared Row) (t : Task Row) (m : Moved Row) : Type 0 where
    began : t.stage ≡ created → m ≡ begin s t → TaskStep s t m
    entered : t.stage ≡ waiting → 0 < s.permits → m ≡ enter s t → TaskStep s t m
    insert_ended :
        (attempts : ℕ) (answer : Answer)
        → t.stage ≡ inserting attempts
        → m ≡ insert_done attempts answer s t
        → TaskStep s t m
    woke : (attempts : ℕ) → t.stage ≡ sleeping attempts → m ≡ wake attempts s t → TaskStep s t m

  -- the event loop lets any one task go on
  pub data Step (c d : Cycle Row) : Type 0 where
    step :
        (before after : List (Task Row)) (t : Task Row) (m : Moved Row)
        → c.tasks ≡ before ++ t ∷ after
        → TaskStep c.shared t m
        → d ≡ record { shared = m.0; tasks = before ++ m.1 ∷ after }
        → Step c d

  pub data Reach (c : Cycle Row) : Cycle Row → Type 0 where
    here : Reach c c
    next : {d e : Cycle Row} → Reach c d → Step d e → Reach c e

  -- the tasks that the cycle creates: one for each topic whose batch is not empty
  unfoldable pub create_tasks : List (String × List Row) → List (Task Row)
  create_tasks [] = []
  create_tasks ((topic, []) ∷ rest) = create_tasks rest
  create_tasks ((topic, r ∷ rs) ∷ rest) =
      record { topic = topic; batch = r ∷ rs; stage = created } ∷ create_tasks rest

  abbrev pub all_settled : List (Task Row) → Bool
  all_settled [] = true
  all_settled (t ∷ ts) = is_settled t.stage && all_settled ts
