-- ===== src/Cache/Worker/Received.antt =====
-- The records that the consumer has handed out: also the one whose operation waits in `queue.put`.
use mathlib.Core.List.{append_assoc, append-nil}
use mathlib.Core.Path.{subst}
use realtime_analytics_pipel.Prelude.{
  ℕ, ◌≤◌, ◌≡◌, refl, sym, ap, ◌∙◌, ◌⊎◌, Bool, true, false, Option, some, List, [], ◌∷◌, ◌++◌, arith,
  length, if◌then◌else◌,
}
use realtime_analytics_pipel.Cache.Worker.{
  Settings, finished, Worker, is_empty, to_list, operations, get, flush_due, receive, wait_in_put,
  put_done, collect, apply_done, commit, commit_done, leave, final_apply_done, final_commit_done,
}
use realtime_analytics_pipel.Cache.Worker.Steps.{
  start, Step, received, waits_in_put, put_ended, told_to_stop, collected, applied, commit_ended,
  left, final_applied, final_commit_ended, Reach, Reach-induction,
}
use realtime_analytics_pipel.Cache.Worker.Delivery.{
  outstanding, is_final, operations-append, Reach-IsHandled,
}

module _ {Op : Type 0} where
  pub record IsReceived (w : Worker Op) : Type 0 where
    pub all : operations w.handed_out ≡ operations w.log ++ w.in_hand
    pub one : length w.in_hand ≤ 1

  IsReceived-if :
      (b : Bool) (w v : Worker Op) → IsReceived w → IsReceived v → IsReceived (if b then w else v)
  IsReceived-if true w v h k = h
  IsReceived-if false w v h k = k

  IsReceived-get : (q : List Op) (w : Worker Op) → IsReceived w → IsReceived (get q w)
  unfolding get
  IsReceived-get [] w h = h
  IsReceived-get (x ∷ xs) w h = record { all = h.all; one = h.one }

  IsReceived-commit :
      (commit_offset : ℕ → ℕ → ℕ) (b : Bool) (w : Worker Op)
      → IsReceived w
      → IsReceived (commit commit_offset b w)
  IsReceived-commit commit_offset true w h = record { all = h.all; one = h.one }
  IsReceived-commit commit_offset false w h = h

  nothing_in_hand :
      (w : Worker Op) → w.in_hand ≡ [] → IsReceived w → operations w.handed_out ≡ operations w.log
  nothing_in_hand w n r = r.all ∙ ap (λ l. operations w.log ++ l) n ∙ append-nil (operations w.log)

  receive-IsReceived :
      (op : Option Op) (w : Worker Op) → w.in_hand ≡ [] → IsReceived w → IsReceived (receive op w)
  unfolding receive
  receive-IsReceived op w n r = record {
    all =
        operations-append w.handed_out op
        ∙ ap (λ l. l ++ to_list op) (nothing_in_hand w n r)
        ∙ sym (operations-append w.log op)
        ∙ sym (append-nil (operations (w.log ++ op ∷ [])))
        ∙ ap (λ l. operations (w.log ++ op ∷ []) ++ l) (sym n);
    one = r.one;
  }

  wait_in_put-IsReceived :
      (op : Op) (w : Worker Op) → w.in_hand ≡ [] → IsReceived w → IsReceived (wait_in_put op w)
  unfolding wait_in_put
  wait_in_put-IsReceived op w n r = record {
    all = operations-append w.handed_out (some op) ∙ ap (λ l. l ++ op ∷ []) (nothing_in_hand w n r);
    one = omega arith;
  }

  put_done-IsReceived :
      (op : Op) (w : Worker Op) → w.in_hand ≡ op ∷ [] → IsReceived w → IsReceived (put_done op w)
  unfolding put_done
  put_done-IsReceived op w n r = record {
    all =
        r.all
        ∙ ap (λ l. operations w.log ++ l) n
        ∙ sym (operations-append w.log (some op))
        ∙ sym (append-nil (operations (w.log ++ some op ∷ [])));
    one = omega arith;
  }

  -- every operation parsed from the records handed out is written, held, queued, or the one that waits
  pub record IsDelivered (w : Worker Op) : Type 0 where
    pub exact :
        w.persisted ++ (outstanding w.phase w.batch w.dropped ++ (w.queue ++ w.in_hand))
        ≡ operations w.handed_out
    pub one_waits : length w.in_hand ≤ 1
    pub drained : is_final w.phase ≡ true → (w.queue ≡ []) × (w.stopped ≡ true)
    pub kept : (w.phase ≡ finished) ⊎ (w.dropped ≡ [])

  delivered :
      (w : Worker Op)
      → w.persisted ++ (outstanding w.phase w.batch w.dropped ++ w.queue) ≡ operations w.log
      → IsReceived w
      → w.persisted ++ (outstanding w.phase w.batch w.dropped ++ (w.queue ++ w.in_hand))
        ≡ operations w.handed_out
  delivered w h r =
      let held = outstanding w.phase w.batch w.dropped in
      ap (λ l. w.persisted ++ l) (sym (append_assoc held w.queue w.in_hand))
      ∙ sym (append_assoc w.persisted (held ++ w.queue) w.in_hand)
      ∙ ap (λ l. l ++ w.in_hand) h
      ∙ sym r.all

module _ {Op : Type 0} (settings : Settings) (has_consumer : Bool) (commit_offset : ℕ → ℕ → ℕ) where
  Step-IsReceived :
      (s t : Worker Op) → Step settings has_consumer commit_offset s t → IsReceived s → IsReceived t
  unfolding collect apply_done commit_done leave final_apply_done final_commit_done
  Step-IsReceived s t (received op go room n e) r =
      subst IsReceived (sym e) (receive-IsReceived op s n r)
  Step-IsReceived s t (waits_in_put op go room n e) r =
      subst IsReceived (sym e) (wait_in_put-IsReceived op s n r)
  Step-IsReceived s t (put_ended op go room n e) r =
      subst IsReceived (sym e) (put_done-IsReceived op s n r)
  Step-IsReceived s t (told_to_stop e) r =
      subst IsReceived (sym e) (record { all = r.all; one = r.one })
  Step-IsReceived s t (collected now p g e) r =
      let seen = IsReceived-get s.queue s r in
      subst IsReceived (sym e) (
        IsReceived-if (flush_due settings now (get s.queue s)) _ _
          (record { all = seen.all; one = seen.one }) seen)
  Step-IsReceived s t (applied now true p e) r = subst IsReceived (sym e) (
      IsReceived-if has_consumer _ _ (record { all = r.all; one = r.one })
        (record { all = r.all; one = r.one }))
  Step-IsReceived s t (applied now false p e) r =
      subst IsReceived (sym e) (record { all = r.all; one = r.one })
  Step-IsReceived s t (commit_ended now b p e) r =
      let i = IsReceived-commit commit_offset b s r in
      subst IsReceived (sym e) (record { all = i.all; one = i.one })
  Step-IsReceived s t (left p g e) r = subst IsReceived (sym e) (
      IsReceived-if (is_empty s.batch) _ _ (record { all = r.all; one = r.one })
        (record { all = r.all; one = r.one }))
  Step-IsReceived s t (final_applied true p e) r = subst IsReceived (sym e) (
      IsReceived-if has_consumer _ _ (record { all = r.all; one = r.one })
        (record { all = r.all; one = r.one }))
  Step-IsReceived s t (final_applied false p e) r =
      subst IsReceived (sym e) (record { all = r.all; one = r.one })
  Step-IsReceived s t (final_commit_ended b p e) r =
      let i = IsReceived-commit commit_offset b s r in
      subst IsReceived (sym e) (record { all = i.all; one = i.one })

  pub Reach-IsReceived :
      (now : ℕ) {t : Worker Op}
      → Reach settings has_consumer commit_offset (start now) t
      → IsReceived t
  Reach-IsReceived now r =
      Reach-induction settings has_consumer commit_offset IsReceived Step-IsReceived
        (record { all = refl; one = omega arith }) r

  -- In every interleaving of the consume loop and the worker, with any failures of Redis and of the
  -- commits: what was written to Redis, then what the worker holds (or dropped at the end), then what
  -- is queued, then the at most one operation that waits in `queue.put` for a free place (or was lost there
  -- when the loop was stopped), is exactly the list of operations parsed from the records handed out, in
  -- order. Once the worker's loop is left the queue is empty, and nothing is dropped before the worker
  -- has finished.
  pub Reach-IsDelivered :
      (now : ℕ) {t : Worker Op}
      → Reach settings has_consumer commit_offset (start now) t
      → IsDelivered t
  Reach-IsDelivered now {t} r =
      let d = Reach-IsHandled settings has_consumer commit_offset now r in
      let i = Reach-IsReceived now r in
      record {
        exact = delivered t d.exact i;
        one_waits = i.one;
        drained = d.drained;
        kept = d.kept;
      }
