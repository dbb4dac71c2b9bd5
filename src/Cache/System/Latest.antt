-- ===== src/Cache/System/Latest.antt =====
-- What the indices in Redis hold while the worker runs, against all windows it was ever given.
use mathlib.Core.List.{append-nil}
use mathlib.Core.Path.{subst}
use realtime_analytics_pipel.Prelude.{
  ℕ, ◌≤◌, ◌≡◌, refl, sym, ap, ◌∙◌, Bool, true, false, List, [], ◌++◌, length, last, inl, inr,
}
use realtime_analytics_pipel.Prelude.Order.{Order}
use realtime_analytics_pipel.Cache.Index.{insert_all}
use realtime_analytics_pipel.Cache.Index.Latest.{IsSorted}
use realtime_analytics_pipel.Cache.Index.Pending.{IsPending, fresh-IsPending, settled-IsPending}
use realtime_analytics_pipel.Cache.Redis.{Kind, Redis}
use realtime_analytics_pipel.Cache.Repository.{Operation}
use realtime_analytics_pipel.Cache.Repository.Retention.{windows}
use realtime_analytics_pipel.Cache.Worker.{
  Settings, Phase, finished, Worker, operations, receive, wait_in_put, put_done,
}
use realtime_analytics_pipel.Cache.Worker.Steps as Steps
use realtime_analytics_pipel.Cache.Worker.Steps.{
  start, received, waits_in_put, put_ended, told_to_stop, collected, applied, commit_ended, left,
  final_applied, final_commit_ended,
}
use realtime_analytics_pipel.Cache.Worker.Delivery.{outstanding, IsHandled, Reach-IsHandled}
use realtime_analytics_pipel.Cache.Worker.Received.{Reach-IsDelivered}
use realtime_analytics_pipel.Cache.System.Cached.{
  IsCached, collect-IsCached, apply_done-IsCached, apply_failed-IsCached, commit_done-IsCached,
  leave-IsCached, final_apply_done-IsCached, final_apply_failed-IsCached,
  final_commit_done-IsCached,
}
use realtime_analytics_pipel.Cache.System.{Effect, Reach, here, next, Reach-Worker}

none_left : {A : Type 0} {xs ys : List A} → xs ≡ [] → ys ≡ [] → xs ++ ys ≡ []
none_left h k = rw (h, k) refl

module _ {W Fields Data : Type 0} {order : Order W} (redis : Redis W order Fields Data) (n ttl : ℕ)
    (k : Kind) (base : List W) (base_sorted : IsSorted order base) where
  module _ (settings : Settings) (has_consumer : Bool) (commit_offset : ℕ → ℕ → ℕ) where
    dropped_empty :
        (w : Worker (Operation W Fields)) {p : Phase}
        → IsHandled w
        → w.phase ≡ p
        → ¬ (p ≡ finished)
        → w.dropped ≡ []
    dropped_empty w d h f = elim d.kept [ inl e ↦ absurd (f (sym h ∙ e)) | inr e ↦ e ]

    moved :
        {v u : Worker (Operation W Fields)} {s s' : redis.State}
        → v ≡ u
        → s' ≡ s
        → IsCached redis n ttl k base base_sorted u s
        → IsCached redis n ttl k base base_sorted v s'
    moved {v} {u} {s} {s'} e q i =
        subst (λ x. IsCached redis n ttl k base base_sorted x s') (sym e)
          (subst (λ y. IsCached redis n ttl k base base_sorted u y) (sym q) i)

    step :
        {w v : Worker (Operation W Fields)} {s s' : redis.State}
        (st : Steps.Step settings has_consumer commit_offset w v)
        → Effect redis n ttl settings has_consumer commit_offset st s s'
        → IsHandled w
        → IsCached redis n ttl k base base_sorted w s
        → IsCached redis n ttl k base base_sorted v s'
    unfolding receive wait_in_put put_done
    step (received op h r m e) q d i = moved e q i
    step (waits_in_put op h r m e) q d i = moved e q i
    step (put_ended op h r m e) q d i = moved e q i
    step (told_to_stop e) q d i = moved e q i
    step {w} {s = s} (collected now h g e) q d i =
        moved e q (collect-IsCached redis n ttl k base base_sorted settings now w s h i)
    step {w} {s = s} (applied now true h e) q d i =
        moved e q (apply_done-IsCached redis n ttl k base base_sorted has_consumer now w s h i)
    step {w} {s = s} {s' = s'} (applied now false h e) q d i =
        moved e refl
          (apply_failed-IsCached redis n ttl k base base_sorted has_consumer now w s s' h q i)
    step {w} {s = s} (commit_ended now ok h e) q d i =
        moved e q (commit_done-IsCached redis n ttl k base base_sorted commit_offset now ok w s h i)
    step {w} {s = s} (left h g e) q d i =
        moved e q
          (leave-IsCached redis n ttl k base base_sorted w s h (dropped_empty w d h (λ f. cc)) i)
    step {w} {s = s} (final_applied true h e) q d i = moved e q (
        final_apply_done-IsCached redis n ttl k base base_sorted has_consumer w s h
          (dropped_empty w d h (λ f. cc)) i)
    step {w} {s = s} {s' = s'} (final_applied false h e) q d i =
        moved e refl
          (final_apply_failed-IsCached redis n ttl k base base_sorted has_consumer w s s' h q i)
    step {w} {s = s} (final_commit_ended ok h e) q d i = moved e q (
        final_commit_done-IsCached redis n ttl k base base_sorted commit_offset ok w s h
          (dropped_empty w d h (λ f. cc)) i)

    -- Let the index of kind `k` hold the members `base` at the start, in order and at most `n` of them. Then
    -- in every reachable state, with any failures: once what the worker holds is inserted into the index,
    -- its latest `n` members are those of `base` and all windows written or held; and
    -- when the worker holds nothing the index is exactly the latest `n` of `base` and all windows written.
    pub Reach-IsCached :
        (began : ℕ) {s : redis.State} {w : Worker (Operation W Fields)} {s' : redis.State}
        → redis.members k s ≡ base
        → length base ≤ n
        → Reach redis n ttl settings has_consumer commit_offset (start began) s w s'
        → IsCached redis n ttl k base base_sorted w s'
    Reach-IsCached began h b here =
        subst (λ m. IsPending order n base base_sorted [] [] m) (sym h)
          (fresh-IsPending order n base base_sorted b)
    Reach-IsCached began h b (next r st e) =
        step st e
          (Reach-IsHandled settings has_consumer commit_offset began
            (Reach-Worker redis n ttl settings has_consumer commit_offset r))
          (Reach-IsCached began h b r)

    -- Let the index of kind `k` hold at most `n` members at the start, in order. When the worker holds
    -- nothing, nothing is queued, and no operation waits in `queue.put` or was lost there, in any interleaving
    -- and whatever calls of Redis have failed, each after some of its commands, and been retried, the index is the latest `n` of the members at
    -- the start and the windows of all records handed out: however these were batched and trimmed in between.
    pub index_is_latest :
        (began : ℕ) {s : redis.State} {w : Worker (Operation W Fields)} {s' : redis.State}
        → redis.members k s ≡ base
        → length base ≤ n
        → Reach redis n ttl settings has_consumer commit_offset (start began) s w s'
        → outstanding w.phase w.batch w.dropped ≡ []
        → w.queue ≡ []
        → w.in_hand ≡ []
        → redis.members k s' ≡ last n (insert_all order (windows k (operations w.handed_out)) base)
    index_is_latest began {s} {w} {s'} h b r o q i =
        let d =
          Reach-IsDelivered settings has_consumer commit_offset began
            (Reach-Worker redis n ttl settings has_consumer commit_offset r) in
        let all : w.persisted ≡ operations w.handed_out =
          sym (append-nil w.persisted)
          ∙ ap (λ l. w.persisted ++ l) (sym (none_left o (none_left q i)))
          ∙ d.exact in
        settled-IsPending order n base base_sorted (windows k w.persisted) (redis.members k s') (
          subst
            (λ l.
              IsPending order n base base_sorted (windows k l) (windows k w.persisted)
                (redis.members k s'))
            o (Reach-IsCached began h b r))
        ∙ ap (λ l. last n (insert_all order (windows k l) base)) all
