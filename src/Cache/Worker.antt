-- ===== src/Cache/Worker.antt =====
-- services/cache/src/infrastructure/kafka/worker.py, with the part of consumer.py that feeds its
-- queue. Each `await` of the worker ends a step, since the consume loop may run there. Times are in
-- milliseconds. The exceptions are given by the Boolean `succeeded`: the worker catches every
-- `Exception`; a cancellation of its task is in Main. `handed_out`, `log`, `persisted` and `dropped` record what happened.
pub mod Steps
pub mod Delivery
pub mod Received
pub mod Commits
pub mod Batches
pub mod Rounds
pub mod Drain
pub mod Tests
use realtime_analytics_pipel.Prelude.{
  ltb, ◌==◌, ℕ, zero, suc, ◌+◌, ◌-◌, ◌*◌, ◌/◌, min, Bool, true, false, not, Option, none, some,
  List, [], ◌∷◌, ◌++◌, ◌&&◌, ◌||◌, ◌==◌, if◌then◌else◌, leb, ltb, length,
}

pub record Settings : Type 0 where
  pub kafka_commit_interval_ms : ℕ
  pub redis_write_batch_size : ℕ
  pub redis_queue_max_size : ℕ

-- where the worker's coroutine waits; `now` is its local variable
pub data Phase : Type 0 where
  collecting : Phase
  applying committing : (now : ℕ) → Phase
  final_applying final_committing finished : Phase

pub record Worker (Op : Type 0) : Type 0 where
  -- shared with the consume loop
  pub queue : List Op
  pub stopped : Bool
  -- the operation that waits in `queue.put` for a free place, or was lost there by a cancellation
  pub in_hand : List Op
  -- local variables
  pub phase : Phase
  pub batch : List Op
  pub last_flush : ℕ
  -- Kafka: the records that the consumer has handed out, with what they parse to, those of them that the
  -- loop has put into the queue or passed over, and the committed offset
  pub handed_out : List (Option Op)
  pub log : List (Option Op)
  pub committed : ℕ
  -- Redis: the operations of all successful batches, in order
  pub persisted : List Op
  pub dropped : List Op
  -- metrics
  pub records_total : ℕ
  pub commit_batches_total : ℕ
  pub batch_errors_total : ℕ
  pub pending_messages : ℕ
  pub queue_current_size : ℕ
  -- app_state.ready_event
  pub ready : Bool

abbrev pub is_empty {ℓ} : {A : Type ℓ} → List A → Bool
is_empty [] = true
is_empty (x ∷ xs) = false

abbrev pub to_list {ℓ} : {A : Type ℓ} → Option A → List A
to_list none = []
to_list (some a) = a ∷ []

-- the operations that records parse to
abbrev pub operations {ℓ} : {A : Type ℓ} → List (Option A) → List A
operations [] = []
operations (o ∷ os) = to_list o ++ operations os

module _ {Op : Type 0} where
  -- the body of `async for msg in consumer`, for a message that parses to `op`, when the put need not wait
  unfoldable pub receive : Option Op → Worker Op → Worker Op
  receive op s = record s {
    records_total = s.records_total + 1;
    handed_out = s.handed_out ++ op ∷ [];
    log = s.log ++ op ∷ [];
    queue = s.queue ++ to_list op;
    ready = true;
  }

  -- the body up to the await of a put that has to wait
  unfoldable pub wait_in_put : Op → Worker Op → Worker Op
  wait_in_put op s = record s {
    records_total = s.records_total + 1;
    handed_out = s.handed_out ++ some op ∷ [];
    in_hand = op ∷ [];
  }

  -- the rest of the body, when there is a place
  unfoldable pub put_done : Op → Worker Op → Worker Op
  put_done op s = record s {
    log = s.log ++ some op ∷ [];
    queue = s.queue ++ op ∷ [];
    in_hand = [];
    ready = true;
  }

  -- `queue.put` waits for a free place; a `maxsize` of 0 means no bound, and `None` is not put
  unfoldable pub has_room : Settings → Option Op → Worker Op → Bool
  has_room settings none s = true
  has_room settings (some op) s =
      settings.redis_queue_max_size == 0 || ltb (length s.queue) settings.redis_queue_max_size

  -- `queue.get()` under `wait_for`: an empty queue runs into the timeout
  unfoldable pub get : List Op → Worker Op → Worker Op
  get [] s = s
  get (item ∷ rest) s = record s {
    queue = rest;
    batch = s.batch ++ item ∷ [];
    queue_current_size = length rest;
    pending_messages = length (s.batch ++ item ∷ []);
  }

  -- `while not stop_event.is_set() or not queue.empty()`
  unfoldable pub loop_goes_on : Worker Op → Bool
  loop_goes_on s = not s.stopped || not (is_empty s.queue)

  abbrev pub flush_due : Settings → ℕ → Worker Op → Bool
  flush_due settings now s =
      not (is_empty s.batch)
      && (leb settings.kafka_commit_interval_ms (now - s.last_flush)
          || leb settings.redis_write_batch_size (length s.batch))

  -- from the top of the loop to the call of `pipeline_apply` or the next round
  unfoldable pub collect : Settings → ℕ → Worker Op → Worker Op
  collect settings now s =
      let s' = get s.queue s in
      if flush_due settings now s' then record s' { phase = applying now } else s'

  abbrev pub cleared : ℕ → Worker Op → Worker Op
  cleared now s = record s {
    batch = [];
    last_flush = now;
    pending_messages = 0;
    phase = collecting;
  }

  -- `pipeline_apply` has returned or raised; with no consumer there is nothing to commit
  unfoldable pub apply_done :
      (has_consumer : Bool) → (now : ℕ) → (succeeded : Bool) → Worker Op → Worker Op
  apply_done has_consumer now true s =
      let s' = record s { persisted = s.persisted ++ s.batch } in
      if has_consumer then record s' { phase = committing now } else cleared now s'
  apply_done has_consumer now false s = record s {
    batch_errors_total = s.batch_errors_total + 1;
    phase = collecting;
  }

  abbrev pub finish : Worker Op → Worker Op
  finish s = record s { phase = finished; pending_messages = 0 }

  -- the loop has ended: `if batch:`
  unfoldable pub leave : Worker Op → Worker Op
  leave s = if is_empty s.batch then finish s else record s { phase = final_applying }

  unfoldable pub final_apply_done :
      (has_consumer : Bool) → (succeeded : Bool) → Worker Op → Worker Op
  final_apply_done has_consumer true s =
      let s' = record s { persisted = s.persisted ++ s.batch } in
      if has_consumer then record s' { phase = final_committing } else finish s'
  final_apply_done has_consumer false s =
      finish (record s { batch_errors_total = s.batch_errors_total + 1; dropped = s.batch })

  -- `commit_offset` is what the client library commits when it is called with no arguments, from
  -- the consumer's position and the offset committed before
  module _ (commit_offset : ℕ → ℕ → ℕ) where
    abbrev pub commit : (succeeded : Bool) → Worker Op → Worker Op
    commit true s = record s {
      committed = commit_offset (length s.handed_out) s.committed;
      commit_batches_total = s.commit_batches_total + 1;
    }
    commit false s = s

    -- `consumer.commit()` has returned or raised; a failure is only logged
    unfoldable pub commit_done : (now : ℕ) → (succeeded : Bool) → Worker Op → Worker Op
    commit_done now succeeded s = cleared now (commit succeeded s)

    unfoldable pub final_commit_done : (succeeded : Bool) → Worker Op → Worker Op
    final_commit_done succeeded s = finish (commit succeeded s)
