-- ===== src/Cache/System/Cached.antt =====
-- What the indices in Redis hold after each operation of the worker.
use mathlib.Core.Path.{subst}
use realtime_analytics_pipel.Prelude.{
  ℕ, ◌≡◌, refl, sym, ◌∙◌, Bool, true, false, List, [], ◌∷◌, ◌++◌, Bool-cases, inl, inr,
}
use realtime_analytics_pipel.Prelude.Order.{Order}
use realtime_analytics_pipel.Cache.Index.Latest.{IsSorted}
use realtime_analytics_pipel.Cache.Redis.{Kind, Redis}
use realtime_analytics_pipel.Cache.Repository.{Operation, pipeline_apply}
use realtime_analytics_pipel.Cache.Worker.{
  Settings, Phase, collecting, applying, committing, final_applying, final_committing, Worker,
  is_empty, get, flush_due, collect, apply_done, commit_done, leave, final_apply_done,
  final_commit_done,
}
use realtime_analytics_pipel.Cache.Worker.Delivery.{outstanding}
use realtime_analytics_pipel.Cache.System.Interrupt.{
  Held, Held-grown, Held-applied, Held-Interrupted,
}
use realtime_analytics_pipel.Cache.System.{Interrupted}

empty_list : {A : Type 0} (xs : List A) → is_empty xs ≡ true → xs ≡ []
empty_list [] h = refl
empty_list (x ∷ xs) h = cc

module _ {W Fields Data : Type 0} {order : Order W} (redis : Redis W order Fields Data) (n ttl : ℕ)
    (k : Kind) (base : List W) (base_sorted : IsSorted order base) where
  abbrev pub IsCached : Worker (Operation W Fields) → redis.State → Type 0
  IsCached w s =
      Held redis n ttl k base base_sorted (outstanding w.phase w.batch w.dropped) w.persisted s

  -- the worker's fields that `IsCached` reads, at a known phase
  abbrev At : Phase → Worker (Operation W Fields) → redis.State → Type 0
  At p w s = Held redis n ttl k base base_sorted (outstanding p w.batch w.dropped) w.persisted s

  pub at :
      {p : Phase} (w : Worker (Operation W Fields)) (s : redis.State)
      → w.phase ≡ p
      → IsCached w s
      → At p w s
  at w s h i = subst (λ p. At p w s) h i

  from :
      {p : Phase} (w : Worker (Operation W Fields)) (s : redis.State)
      → w.phase ≡ p
      → At p w s
      → IsCached w s
  from w s h i = subst (λ p. At p w s) (sym h) i

  get-At :
      (w : Worker (Operation W Fields)) (s : redis.State) (q : List (Operation W Fields))
      → At collecting w s
      → At collecting (get q w) s
  unfolding get
  get-At w s [] i = i
  get-At w s (op ∷ rest) i = Held-grown redis n ttl k base base_sorted op w.batch w.persisted s i

  get-phase :
      (w : Worker (Operation W Fields)) (q : List (Operation W Fields)) → (get q w).phase ≡ w.phase
  unfolding get
  get-phase w [] = refl
  get-phase w (op ∷ rest) = refl

  pub collect-IsCached :
      (settings : Settings) (now : ℕ) (w : Worker (Operation W Fields)) (s : redis.State)
      → w.phase ≡ collecting
      → IsCached w s
      → IsCached (collect settings now w) s
  unfolding collect
  collect-IsCached settings now w s h i =
      let j = get-At w s w.queue (at w s h i) in
      elim (Bool-cases (flush_due settings now (get w.queue w))) [
        | inl e ↦ rw e j
        | inr e ↦ rw e (from (get w.queue w) s (get-phase w w.queue ∙ h) j)
      ]

  pub apply_done-IsCached :
      (has_consumer : Bool) (now : ℕ) (w : Worker (Operation W Fields)) (s : redis.State)
      → w.phase ≡ applying now
      → IsCached w s
      → IsCached (apply_done has_consumer now true w) (pipeline_apply redis n ttl w.batch s)
  unfolding apply_done
  apply_done-IsCached true now w s h i =
      Held-applied redis n ttl k base base_sorted w.batch w.persisted s (at w s h i)
  apply_done-IsCached false now w s h i =
      Held-applied redis n ttl k base base_sorted w.batch w.persisted s (at w s h i)

  pub apply_failed-IsCached :
      (has_consumer : Bool) (now : ℕ) (w : Worker (Operation W Fields)) (s s' : redis.State)
      → w.phase ≡ applying now
      → Interrupted redis n ttl w.batch s s'
      → IsCached w s
      → IsCached (apply_done has_consumer now false w) s'
  unfolding apply_done
  apply_failed-IsCached has_consumer now w s s' h r i =
      Held-Interrupted redis n ttl k base base_sorted w.batch w.persisted s s' r (at w s h i)

  pub commit_done-IsCached :
      (commit_offset : ℕ → ℕ → ℕ) (now : ℕ) (ok : Bool) (w : Worker (Operation W Fields))
      (s : redis.State)
      → w.phase ≡ committing now
      → IsCached w s
      → IsCached (commit_done commit_offset now ok w) s
  unfolding commit_done
  commit_done-IsCached commit_offset now true w s h i = at w s h i
  commit_done-IsCached commit_offset now false w s h i = at w s h i

  -- the worker ends with nothing dropped
  finished_empty :
      (w : Worker (Operation W Fields)) (s : redis.State) (q : List (Operation W Fields))
      → w.dropped ≡ []
      → Held redis n ttl k base base_sorted [] q s
      → Held redis n ttl k base base_sorted w.dropped q s
  finished_empty w s q e i = subst (λ l. Held redis n ttl k base base_sorted l q s) (sym e) i

  pub leave-IsCached :
      (w : Worker (Operation W Fields)) (s : redis.State)
      → w.phase ≡ collecting
      → w.dropped ≡ []
      → IsCached w s
      → IsCached (leave w) s
  unfolding leave
  leave-IsCached w s h d i = elim (Bool-cases (is_empty w.batch)) [
    | inl e ↦ rw e (
        finished_empty w s w.persisted d (
          subst (λ l. Held redis n ttl k base base_sorted l w.persisted s) (empty_list w.batch e)
            (at w s h i)))
    | inr e ↦ rw e (at w s h i)
  ]

  pub final_apply_done-IsCached :
      (has_consumer : Bool) (w : Worker (Operation W Fields)) (s : redis.State)
      → w.phase ≡ final_applying
      → w.dropped ≡ []
      → IsCached w s
      → IsCached (final_apply_done has_consumer true w) (pipeline_apply redis n ttl w.batch s)
  unfolding final_apply_done
  final_apply_done-IsCached true w s h d i =
      Held-applied redis n ttl k base base_sorted w.batch w.persisted s (at w s h i)
  final_apply_done-IsCached false w s h d i =
      finished_empty w _ (w.persisted ++ w.batch) d
        (Held-applied redis n ttl k base base_sorted w.batch w.persisted s (at w s h i))

  pub final_apply_failed-IsCached :
      (has_consumer : Bool) (w : Worker (Operation W Fields)) (s s' : redis.State)
      → w.phase ≡ final_applying
      → Interrupted redis n ttl w.batch s s'
      → IsCached w s
      → IsCached (final_apply_done has_consumer false w) s'
  unfolding final_apply_done
  final_apply_failed-IsCached has_consumer w s s' h r i =
      Held-Interrupted redis n ttl k base base_sorted w.batch w.persisted s s' r (at w s h i)

  pub final_commit_done-IsCached :
      (commit_offset : ℕ → ℕ → ℕ) (ok : Bool) (w : Worker (Operation W Fields)) (s : redis.State)
      → w.phase ≡ final_committing
      → w.dropped ≡ []
      → IsCached w s
      → IsCached (final_commit_done commit_offset ok w) s
  unfolding final_commit_done
  final_commit_done-IsCached commit_offset true w s h d i =
      finished_empty w s w.persisted d (at w s h i)
  final_commit_done-IsCached commit_offset false w s h d i =
      finished_empty w s w.persisted d (at w s h i)
