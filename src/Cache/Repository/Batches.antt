-- ===== src/Cache/Repository/Batches.antt =====
-- The bound on the window indices, and batches that are applied again after a failure.
use realtime_analytics_pipel.Prelude.{
  ℕ, ◌≤◌, ◌≡◌, refl, sym, ap, ◌∙◌, List, [], ◌∷◌, ◌++◌, length, last,
}
use realtime_analytics_pipel.Prelude.Order.{Order}
use realtime_analytics_pipel.Cache.Index.{insert_all, insert_all_again}
use realtime_analytics_pipel.Cache.Index.Latest.{length-last}
use realtime_analytics_pipel.Cache.Redis.{Kind, Redis}
use realtime_analytics_pipel.Cache.Repository.{
  Operation, Command, commands, execute, pipeline_apply,
}
use realtime_analytics_pipel.Cache.Repository.Retention.{
  windows, added, kept, added-append, added-commands, members-execute, members-pipeline_apply,
}

module _ {W : Type 0} (order : Order W) where
  length-kept : (n : ℕ) (ws xs : List W) → length xs ≤ n → length (kept order n ws xs) ≤ n
  length-kept n [] xs h = h
  length-kept n (w ∷ ws) xs h = length-last n (insert_all order (w ∷ ws) xs)

  kept_again :
      (n : ℕ) (us ws xs : List W)
      → kept order n (us ++ ws) (insert_all order us xs) ≡ kept order n (us ++ ws) xs
  kept_again n [] ws xs = refl
  kept_again n (u ∷ us) ws xs = ap (last n) (insert_all_again order (u ∷ us) ws xs)

module _ {W Fields Data : Type 0} {order : Order W} (redis : Redis W order Fields Data) where
  -- An index with at most the retention count of members still has at most as many after any batch.
  pub length-pipeline_apply :
      (n ttl : ℕ) (k : Kind) (ops : List (Operation W Fields)) (s : redis.State)
      → length (redis.members k s) ≤ n
      → length (redis.members k (pipeline_apply redis n ttl ops s)) ≤ n
  length-pipeline_apply n ttl k ops s h =
      rw (members-pipeline_apply redis n ttl k ops s)
        (length-kept order n (windows k ops) (redis.members k s) h)

  -- When an attempt to apply a batch broke off after some commands `cs` of its pipeline, with `ds` not
  -- executed, applying the batch again leaves each index as if there had been no such attempt.
  pub pipeline_apply_again :
      (n ttl : ℕ) (k : Kind) (ops : List (Operation W Fields)) (cs ds : List (Command W Fields))
      (s : redis.State)
      → cs ++ ds ≡ commands ttl ops
      → redis.members k (pipeline_apply redis n ttl ops (execute redis cs s))
        ≡ redis.members k (pipeline_apply redis n ttl ops s)
  pipeline_apply_again n ttl k ops cs ds s h =
      let split : windows k ops ≡ added k cs ++ added k ds =
        sym (added-commands k ttl ops) ∙ ap (added k) (sym h) ∙ added-append k cs ds in
      rw
        (
          members-pipeline_apply redis n ttl k ops (execute redis cs s),
          members-pipeline_apply redis n ttl k ops s,
          members-execute redis k cs s,
          split,
        )
        (kept_again order n (added k cs) (added k ds) (redis.members k s))
