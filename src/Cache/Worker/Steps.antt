-- ===== src/Cache/Worker/Steps.antt =====
-- The interleavings of the consume loop and the worker, and what a worker starts from.
use realtime_analytics_pipel.Prelude.{ℕ, ◌≡◌, Bool, true, false, Option, some, [], ◌∷◌}
use realtime_analytics_pipel.Cache.Worker.{
  Settings, collecting, applying, committing, final_applying, final_committing, Worker, receive,
  wait_in_put, put_done, has_room, loop_goes_on, collect, apply_done, commit_done, leave,
  final_apply_done, final_commit_done,
}

abbrev pub start : {Op : Type 0} → ℕ → Worker Op
start now = record {
  queue = [];
  stopped = false;
  in_hand = [];
  phase = collecting;
  batch = [];
  last_flush = now;
  handed_out = [];
  log = [];
  committed = 0;
  persisted = [];
  dropped = [];
  records_total = 0;
  commit_batches_total = 0;
  batch_errors_total = 0;
  pending_messages = 0;
  queue_current_size = 0;
  ready = false;
}

module _ {Op : Type 0} (settings : Settings) (has_consumer : Bool) (commit_offset : ℕ → ℕ → ℕ) where
  -- `stop_event` is set when the consume loop has ended: nothing is received after that.
  pub data Step (s t : Worker Op) : Type 0 where
    received :
        (op : Option Op)
        → s.stopped ≡ false
        → has_room settings op s ≡ true
        → s.in_hand ≡ []
        → t ≡ receive op s
        → Step s t
    waits_in_put :
        (op : Op)
        → s.stopped ≡ false
        → has_room settings (some op) s ≡ false
        → s.in_hand ≡ []
        → t ≡ wait_in_put op s
        → Step s t
    put_ended :
        (op : Op)
        → s.stopped ≡ false
        → has_room settings (some op) s ≡ true
        → s.in_hand ≡ op ∷ []
        → t ≡ put_done op s
        → Step s t
    -- a put that waits is cancelled with the loop; a record whose parsing raises ends the loop too, carries no
    -- operation, and is left out of `handed_out`
    told_to_stop : t ≡ record s { stopped = true } → Step s t
    collected :
        (now : ℕ)
        → s.phase ≡ collecting
        → loop_goes_on s ≡ true
        → t ≡ collect settings now s
        → Step s t
    applied :
        (now : ℕ) (succeeded : Bool)
        → s.phase ≡ applying now
        → t ≡ apply_done has_consumer now succeeded s
        → Step s t
    commit_ended :
        (now : ℕ) (succeeded : Bool)
        → s.phase ≡ committing now
        → t ≡ commit_done commit_offset now succeeded s
        → Step s t
    left : s.phase ≡ collecting → loop_goes_on s ≡ false → t ≡ leave s → Step s t
    final_applied :
        (succeeded : Bool)
        → s.phase ≡ final_applying
        → t ≡ final_apply_done has_consumer succeeded s
        → Step s t
    final_commit_ended :
        (succeeded : Bool)
        → s.phase ≡ final_committing
        → t ≡ final_commit_done commit_offset succeeded s
        → Step s t

  pub data Reach (s : Worker Op) : Worker Op → Type 0 where
    here : Reach s s
    next : {t u : Worker Op} → Reach s t → Step t u → Reach s u

  -- a predicate that the start has and every step keeps holds in every reachable state
  pub Reach-induction :
      (P : Worker Op → Type 0) {s t : Worker Op}
      → ((u v : Worker Op) → Step u v → P u → P v)
      → P s
      → Reach s t
      → P t
  Reach-induction P keep h here = h
  Reach-induction P keep h (next {t} {u} r st) = keep t u st (Reach-induction P keep h r)

  pub Reach-trans : {s t u : Worker Op} → Reach s t → Reach t u → Reach s u
  Reach-trans r here = r
  Reach-trans r (next q st) = next (Reach-trans r q) st

  pub Reach-one : {s t : Worker Op} → Step s t → Reach s t
  Reach-one st = next here st
