-- ===== src/Storage/Loop.antt =====
-- The cycles of `process_batches`, services/storage/src/services/processor.py: a poll, the inserts of
-- its batches in any interleaving, and the commit. The sleeps, the signals and cancellation are in
-- Storage/Main.
pub mod Conserved
pub mod Ledger
pub mod Offsets
pub mod Rows
pub mod Tests
use realtime_analytics_pipel.Prelude.{
  ℕ, zero, suc, ◌+◌, ◌<◌, ◌≡◌, Bool, true, false, List, [], ◌∷◌, ◌++◌, String, Exn, Outcome, ok,
  raise, is_exception, length, if◌then◌else◌,
}
use realtime_analytics_pipel.Storage.Consumer.{
  Item, Message, Buffers, consume_batch, consume_batch_from,
}
use realtime_analytics_pipel.Storage.Inserts.{Cycle, Reach, all_settled}
use realtime_analytics_pipel.Storage.Inserts.Safety.{start}

-- `log` holds the messages polled, so that its length is the position of the consumer; `committed` is
-- the offset committed, `stored` records the batches whose
-- insert has returned, and `unseen` those that ClickHouse has taken although an insert of them has raised
pub record Loop (Row Other : Type 0) : Type 0 where
  pub log : List (Message Row Other)
  pub buffers : Buffers Row Other
  pub stored : List (String × List (Item Row Other))
  pub unseen : List (String × List (Item Row Other))
  pub committed : ℕ
  -- metrics
  pub storage_commits : ℕ
  pub storage_errors : ℕ

module _ {Row Other : Type 0} where
  -- `sum(len(b) for b in batches.values())`
  unfoldable pub total : Buffers Row Other → ℕ
  total [] = 0
  total ((k, items) ∷ rest) = length items + total rest

  -- a poll of the messages `ms` has left the buffers `b`
  abbrev pub polled : List (Message Row Other) → Buffers Row Other → Loop Row Other → Loop Row Other
  polled ms b s = record s { log = s.log ++ ms; buffers = b }

  -- `except Exception` of the cycle
  unfoldable pub cycle_failed : Loop Row Other → Loop Row Other
  cycle_failed s = record s { storage_errors = s.storage_errors + 1 }

  -- `gather` has returned with the tasks of the cycle in the state `c`
  unfoldable pub gathered : Cycle (Item Row Other) → Loop Row Other → Loop Row Other
  gathered c s = record s {
    stored = s.stored ++ c.shared.inserted;
    unseen = s.unseen ++ c.shared.unseen;
    storage_errors = s.storage_errors + c.shared.storage_errors;
  }

  -- `commit_offset` is what the client library commits when it is called with no arguments, from the
  -- position and the offset committed before
  module _ (commit_offset : ℕ → ℕ → ℕ) where
    -- `consumer.commit` has returned or raised
    unfoldable pub commit_done : (succeeded : Bool) → Loop Row Other → Loop Row Other
    commit_done true s = record s {
      committed = commit_offset (length s.log) s.committed;
      storage_commits = s.storage_commits + 1;
    }
    commit_done false s = record s { storage_errors = s.storage_errors + 1 }

    -- the commit, unless an insert has failed
    unfoldable pub finish_cycle :
        (any_insert_failed succeeded : Bool) → Loop Row Other → Loop Row Other
    finish_cycle true succeeded s = s
    finish_cycle false succeeded s = commit_done succeeded s

    -- one cycle that polls the messages `ms`, with `limit` concurrent inserts
    pub data Cycled (parse : Row → Row) (limit : ℕ) (ms : List (Message Row Other))
        (s t : Loop Row Other) : Type 0 where
      consume_raised :
          (e : Exn) (b : Buffers Row Other)
          → ms ≡ []
          → consume_batch_from parse (raise e) s.buffers ≡ (raise e, b)
          → is_exception e ≡ true
          → t ≡ cycle_failed (polled [] b s)
          → Cycled parse limit ms s t
      poll_raised :
          (e : Exn) (b : Buffers Row Other)
          → consume_batch parse ms s.buffers ≡ (raise e, b)
          → is_exception e ≡ true
          → t ≡ cycle_failed (polled ms b s)
          → Cycled parse limit ms s t
      nothing_polled :
          (batches b : Buffers Row Other)
          → consume_batch parse ms s.buffers ≡ (ok batches, b)
          → total batches ≡ 0
          → t ≡ polled ms b s
          → Cycled parse limit ms s t
      inserted :
          (batches b : Buffers Row Other) (c : Cycle (Item Row Other)) (succeeded : Bool)
          → consume_batch parse ms s.buffers ≡ (ok batches, b)
          → 0 < total batches
          → Reach (start limit batches) c
          → all_settled c.tasks ≡ true
          → t ≡ finish_cycle c.shared.any_insert_failed succeeded (gathered c (polled ms b s))
          → Cycled parse limit ms s t
