-- ===== src/Cache/Worker/Batches.antt =====
-- Sizes of the batch and of the queue, the pending gauge, and what a failed batch becomes.
use mathlib.Core.List.{append-nil}
use realtime_analytics_pipel.Prelude.{
  ℕ, ◌+◌, ◌≤◌, ◌<◌, ◌≡◌, ◌≢◌, refl, sym, Bool, true, false, Option, none, some, List, [], ◌∷◌, ◌++◌,
  arith, length, take, length-append, if◌then◌else◌, Bool-cases, inl, inr,
}
use realtime_analytics_pipel.Cache.Worker.{
  Settings, Phase, collecting, applying, final_applying, final_committing, finished, Worker,
  is_empty, get, flush_due, receive, wait_in_put, put_done, has_room, collect, apply_done,
  commit_done, leave, final_apply_done, final_commit_done,
}
use realtime_analytics_pipel.Cache.Worker.Steps.{
  start, Step, received, waits_in_put, put_ended, told_to_stop, collected, applied, commit_ended,
  left, final_applied, final_commit_ended, Reach, Reach-induction,
}

-- the gauge is reset when the worker has finished
abbrev pub pending_of : Phase → ℕ → ℕ
pending_of finished n = 0
pending_of _ n = n

-- a round that flushes nothing leaves less than a full batch
abbrev pub RoomLeft : Phase → ℕ → ℕ → Type 0
RoomLeft collecting n size = n < size
RoomLeft _ n size = n ≤ size

module _ {Op : Type 0} (settings : Settings) where
  pub record IsBounded (s : Worker Op) : Type 0 where
    pub queue_fits :
        settings.redis_queue_max_size ≢ 0 → length s.queue ≤ settings.redis_queue_max_size
    pub pending : s.pending_messages ≡ pending_of s.phase (length s.batch)
    -- as long as Redis has not failed
    pub batch_fits :
        s.batch_errors_total ≡ 0 → RoomLeft s.phase (length s.batch) settings.redis_write_batch_size

  module _ (s : Worker Op) (b : IsBounded s) where
    receive-IsBounded : (op : Option Op) → has_room settings op s ≡ true → IsBounded (receive op s)
    unfolding receive has_room
    receive-IsBounded none h = record {
      queue_fits = rw append-nil b.queue_fits;
      pending = b.pending;
      batch_fits = b.batch_fits;
    }
    receive-IsBounded (some op) h = record {
      queue_fits = λ n. ground (arith, length-append s.queue (op ∷ []));
      pending = b.pending;
      batch_fits = b.batch_fits;
    }

    wait_in_put-IsBounded : (op : Op) → IsBounded (wait_in_put op s)
    unfolding wait_in_put
    wait_in_put-IsBounded op = record {
      queue_fits = b.queue_fits;
      pending = b.pending;
      batch_fits = b.batch_fits;
    }

    put_done-IsBounded :
        (op : Op) → has_room settings (some op) s ≡ true → IsBounded (put_done op s)
    unfolding put_done has_room
    put_done-IsBounded op h = record {
      queue_fits = λ n. ground (arith, length-append s.queue (op ∷ []));
      pending = b.pending;
      batch_fits = b.batch_fits;
    }

    collect_from-IsBounded :
        (now : ℕ) (q : List Op)
        → s.queue ≡ q
        → s.phase ≡ collecting
        → let t = get q s in
          IsBounded (if flush_due settings now t then record t { phase = applying now } else t)
    unfolding get
    collect_from-IsBounded now [] e h = elim (Bool-cases (flush_due settings now s)) [
      | inl due ↦ rw due (record {
        queue_fits = b.queue_fits;
        pending = ground (arith, b.pending);
        batch_fits = ground (arith, b.batch_fits);
      })
      | inr later ↦ rw later b
    ]
    collect_from-IsBounded now (item ∷ rest) e h =
        let n = length-append s.batch (item ∷ []) in
        let t = get (item ∷ rest) s in
        elim (Bool-cases (flush_due settings now t)) [
          | inl due ↦ rw due (record {
            queue_fits = λ z. ground (arith, b.queue_fits z);
            pending = refl;
            batch_fits = λ z. ground (arith, b.batch_fits z, n);
          })
          | inr later ↦ rw later (record {
            queue_fits = λ z. ground (arith, b.queue_fits z);
            pending = rw h refl;
            batch_fits = λ z. rw h (ground (arith, later, n));
          })
        ]

    collect-IsBounded : (now : ℕ) → s.phase ≡ collecting → IsBounded (collect settings now s)
    unfolding collect
    collect-IsBounded now h = collect_from-IsBounded now s.queue refl h

    apply_done-IsBounded :
        (has_consumer : Bool) (now : ℕ) (succeeded : Bool)
        → 1 ≤ settings.redis_write_batch_size
        → s.phase ≡ applying now
        → IsBounded (apply_done has_consumer now succeeded s)
    unfolding apply_done
    apply_done-IsBounded true now true p h = record {
      queue_fits = b.queue_fits;
      pending = ground (arith, b.pending);
      batch_fits = ground (arith, b.batch_fits);
    }
    apply_done-IsBounded false now true p h = record {
      queue_fits = b.queue_fits;
      pending = refl;
      batch_fits = λ _. p;
    }
    apply_done-IsBounded has_consumer now false p h = record {
      queue_fits = b.queue_fits;
      pending = ground (arith, b.pending);
      batch_fits = λ e. absurd (omega arith);
    }

    commit_done-IsBounded :
        (commit_offset : ℕ → ℕ → ℕ) (now : ℕ) (succeeded : Bool)
        → 1 ≤ settings.redis_write_batch_size
        → IsBounded (commit_done commit_offset now succeeded s)
    unfolding commit_done
    commit_done-IsBounded commit_offset now true p = record {
      queue_fits = b.queue_fits;
      pending = refl;
      batch_fits = λ _. p;
    }
    commit_done-IsBounded commit_offset now false p = record {
      queue_fits = b.queue_fits;
      pending = refl;
      batch_fits = λ _. p;
    }

    leave-IsBounded : s.phase ≡ collecting → IsBounded (leave s)
    unfolding leave
    leave-IsBounded h = elim (Bool-cases (is_empty s.batch)) [
      | inl e ↦ rw e (record {
        queue_fits = b.queue_fits;
        pending = refl;
        batch_fits = λ z. ground (arith, b.batch_fits z);
      })
      | inr e ↦ rw e (record {
        queue_fits = b.queue_fits;
        pending = ground (arith, b.pending);
        batch_fits = λ z. ground (arith, b.batch_fits z);
      })
    ]

    final_apply_done-IsBounded :
        (has_consumer succeeded : Bool)
        → s.phase ≡ final_applying
        → IsBounded (final_apply_done has_consumer succeeded s)
    unfolding final_apply_done
    final_apply_done-IsBounded true true h = record {
      queue_fits = b.queue_fits;
      pending = ground (arith, b.pending);
      batch_fits = λ z. ground (arith, b.batch_fits z);
    }
    final_apply_done-IsBounded false true h = record {
      queue_fits = b.queue_fits;
      pending = refl;
      batch_fits = λ z. ground (arith, b.batch_fits z);
    }
    final_apply_done-IsBounded has_consumer false h = record {
      queue_fits = b.queue_fits;
      pending = refl;
      batch_fits = λ z. absurd (omega arith);
    }

    final_commit_done-IsBounded :
        (commit_offset : ℕ → ℕ → ℕ) (succeeded : Bool)
        → s.phase ≡ final_committing
        → IsBounded (final_commit_done commit_offset succeeded s)
    unfolding final_commit_done
    final_commit_done-IsBounded commit_offset true h = record {
      queue_fits = b.queue_fits;
      pending = refl;
      batch_fits = λ z. ground (arith, b.batch_fits z);
    }
    final_commit_done-IsBounded commit_offset false h = record {
      queue_fits = b.queue_fits;
      pending = refl;
      batch_fits = λ z. ground (arith, b.batch_fits z);
    }

module _ {Op : Type 0} (settings : Settings) (has_consumer : Bool) (commit_offset : ℕ → ℕ → ℕ)
    (positive : 1 ≤ settings.redis_write_batch_size) where
  Step-IsBounded :
      (s t : Worker Op)
      → Step settings has_consumer commit_offset s t
      → IsBounded settings s
      → IsBounded settings t
  Step-IsBounded s t (received op go room n e) b = rw e (receive-IsBounded settings s b op room)
  Step-IsBounded s t (waits_in_put op go room n e) b = rw e (wait_in_put-IsBounded settings s b op)
  Step-IsBounded s t (put_ended op go room n e) b = rw e (put_done-IsBounded settings s b op room)
  Step-IsBounded s t (told_to_stop e) b =
      rw e (record { queue_fits = b.queue_fits; pending = b.pending; batch_fits = b.batch_fits })
  Step-IsBounded s t (collected now h go e) b = rw e (collect-IsBounded settings s b now h)
  Step-IsBounded s t (applied now ok h e) b =
      rw e (apply_done-IsBounded settings s b has_consumer now ok positive h)
  Step-IsBounded s t (commit_ended now ok h e) b =
      rw e (commit_done-IsBounded settings s b commit_offset now ok positive)
  Step-IsBounded s t (left h out e) b = rw e (leave-IsBounded settings s b h)
  Step-IsBounded s t (final_applied ok h e) b =
      rw e (final_apply_done-IsBounded settings s b has_consumer ok h)
  Step-IsBounded s t (final_commit_ended ok h e) b =
      rw e (final_commit_done-IsBounded settings s b commit_offset ok h)

  -- For a positive batch size, in every reachable state: a bounded queue is never over its bound, the
  -- pending gauge shows the size of the batch (0 once the worker has finished), and as long as no
  -- write to Redis has failed the batch is at most `redis_write_batch_size` long, and shorter at the
  -- top of the loop.
  pub Reach-IsBounded :
      (now : ℕ) {t : Worker Op}
      → Reach settings has_consumer commit_offset (start now) t
      → IsBounded settings t
  Reach-IsBounded now r =
      Reach-induction settings has_consumer commit_offset (IsBounded settings) Step-IsBounded
        (record { queue_fits = λ n. omega arith; pending = refl; batch_fits = λ _. positive }) r

not-is_empty-append : {A : Type 0} (xs : List A) (x : A) → is_empty (xs ++ x ∷ []) ≡ false
not-is_empty-append [] x = refl
not-is_empty-append (y ∷ xs) x = refl

module _ {Op : Type 0} (settings : Settings) where
  flush_due-get :
      (now later : ℕ) (s : Worker Op) (q : List Op)
      → flush_due settings now s ≡ true
      → now ≤ later
      → flush_due settings later (get q s) ≡ true
  unfolding get
  flush_due-get now later s [] due le = ground arith
  flush_due-get now later s (item ∷ rest) due le =
      ground (arith, not-is_empty-append s.batch item, length-append s.batch (item ∷ []))

  get-batch :
      (q : List Op) (s : Worker Op)
      → ((get q s).batch ≡ s.batch ++ take 1 q)
        × ((get q s).persisted ≡ s.persisted)
        × ((get q s).batch_errors_total ≡ s.batch_errors_total)
        × ((get q s).committed ≡ s.committed)
  unfolding get
  get-batch [] s = (sym (append-nil s.batch), refl, refl, refl)
  get-batch (item ∷ rest) s = (refl, refl, refl, refl)

-- After a failed write the next round, at a later time, retries the batch with the next queued
-- operation added to it: the batch was due, so it is due again, and nothing is written or dropped.
pub failed_batch_grows :
    {Op : Type 0} (settings : Settings) (has_consumer : Bool) (now later : ℕ) (s : Worker Op)
    → flush_due settings now s ≡ true
    → now ≤ later
    → let t = collect settings later (apply_done has_consumer now false s) in
      (t.batch ≡ s.batch ++ take 1 s.queue)
      × (t.phase ≡ applying later)
      × (t.persisted ≡ s.persisted)
      × (t.batch_errors_total ≡ s.batch_errors_total + 1)
      × (t.committed ≡ s.committed)
unfolding collect apply_done
failed_batch_grows settings has_consumer now later s due le =
    let s' = record s { phase = collecting; batch_errors_total = s.batch_errors_total + 1 } in
    let g = get-batch settings s.queue s' in
    rw (flush_due-get settings now later s' s.queue due le) (g.0, refl, g.1, g.2, g.3)
