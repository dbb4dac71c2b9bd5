-- ===== src/Cache/System/Interrupt.antt =====
-- What calls of `pipeline_apply`, whole or interrupted, do to the window indices.
use mathlib.Core.List.{append-nil}
use mathlib.Core.Path.{subst}
use realtime_analytics_pipel.Prelude.{
  ℕ, ◌≡◌, refl, sym, ap, ◌∙◌, List, [], ◌∷◌, ◌++◌, last, Bool-cases, inl, inr, ◌⊎◌,
}
use realtime_analytics_pipel.Prelude.Order.{Order}
use realtime_analytics_pipel.Cache.Index.{IsPartOf, none_left, taken, left_out, insert_all}
use realtime_analytics_pipel.Cache.Index.Latest.{IsSorted}
use realtime_analytics_pipel.Cache.Index.Pending.{
  IsPending, more-IsPending, unchanged-IsPending, trimmed-IsPending, partly-IsPending,
  part-IsPending, partly_trimmed-IsPending,
}
use realtime_analytics_pipel.Cache.Redis.{Kind, event, perf, Redis}
use realtime_analytics_pipel.Cache.Repository.{
  Operation, Command, hset_command, expire_command, zadd_command, commands, saw_event, execute,
  trim_index, pipeline_apply,
}
use realtime_analytics_pipel.Cache.Repository.Retention.{
  same_kind, windows, added, kept, added-commands, members-execute, members-commands,
  members-trim_index, others-trim_index, kinds_differ, members-pipeline_apply,
}
use realtime_analytics_pipel.Cache.System.{Interrupted, broke_off, event_trimmed, reply_lost}

windows-append :
    {W Fields : Type 0} (k : Kind) (xs ys : List (Operation W Fields))
    → windows k (xs ++ ys) ≡ windows k xs ++ windows k ys
windows-append k [] ys = refl
windows-append k (op ∷ ops) ys = elim (Bool-cases (same_kind op.kind k)) [
  | inl e ↦ rw e (ap (λ l. op.window_start ∷ l) (windows-append k ops ys))
  | inr e ↦ rw e (windows-append k ops ys)
]

-- commands that are executed add some of the windows
added-IsPartOf :
    {W Fields : Type 0} (k : Kind) {cs ds : List (Command W Fields)}
    → IsPartOf cs ds
    → IsPartOf (added k cs) (added k ds)
added-IsPartOf k none_left = none_left
added-IsPartOf k (taken (hset_command j w f) p) = added-IsPartOf k p
added-IsPartOf k (taken (expire_command j w t) p) = added-IsPartOf k p
added-IsPartOf k (taken (zadd_command j w) p) = elim (Bool-cases (same_kind j k)) [
  | inl e ↦ rw e (taken w (added-IsPartOf k p))
  | inr e ↦ rw e (added-IsPartOf k p)
]
added-IsPartOf k (left_out (hset_command j w f) p) = added-IsPartOf k p
added-IsPartOf k (left_out (expire_command j w t) p) = added-IsPartOf k p
added-IsPartOf k (left_out (zadd_command j w) p) = elim (Bool-cases (same_kind j k)) [
  | inl e ↦ rw e (left_out w (added-IsPartOf k p))
  | inr e ↦ rw e (added-IsPartOf k p)
]

-- trimming the event index trims the index of kind `k` or leaves it
members-event_trimmed :
    {W Fields Data : Type 0} {order : Order W} (redis : Redis W order Fields Data) (n : ℕ)
    (k : Kind) (s : redis.State)
    → (redis.members k (trim_index redis n event s) ≡ last n (redis.members k s))
      ⊎ (redis.members k (trim_index redis n event s) ≡ redis.members k s)
members-event_trimmed redis n event s = inl (members-trim_index redis n event s)
members-event_trimmed redis n perf s = inr (others-trim_index redis n event perf s kinds_differ)

module _ {W Fields Data : Type 0} {order : Order W} (redis : Redis W order Fields Data) (n ttl : ℕ)
    (k : Kind) (base : List W) (base_sorted : IsSorted order base) where
  -- the windows of the operations `pending` and `written`, against the index of kind `k` in `s`
  abbrev pub Held : (pending written : List (Operation W Fields)) → redis.State → Type 0
  Held pending written s =
      IsPending order n base base_sorted (windows k pending) (windows k written) (redis.members k s)

  pub Held-grown :
      (op : Operation W Fields) (p q : List (Operation W Fields)) (s : redis.State)
      → Held p q s
      → Held (p ++ op ∷ []) q s
  Held-grown op p q s h = rw (windows-append k p (op ∷ [])) (
      more-IsPending order n base base_sorted (windows k p) (windows k (op ∷ [])) (windows k q)
        (redis.members k s) h)

  kept-IsPending :
      (p q m : List W)
      → IsPending order n base base_sorted p q m
      → IsPending order n base base_sorted [] (q ++ p) (kept order n p m)
  kept-IsPending [] q m h = unchanged-IsPending order n base base_sorted q m h
  kept-IsPending (w ∷ ws) q m h = trimmed-IsPending order n base base_sorted (w ∷ ws) q m h

  -- the batch has been applied
  pub Held-applied :
      (p q : List (Operation W Fields)) (s : redis.State)
      → Held p q s
      → Held [] (q ++ p) (pipeline_apply redis n ttl p s)
  Held-applied p q s h =
      rw (members-pipeline_apply redis n ttl k p s, windows-append k q p)
        (kept-IsPending (windows k p) (windows k q) (redis.members k s) h)

  partly_all :
      (p q m : List W)
      → IsPending order n base base_sorted p q m
      → IsPending order n base base_sorted p q (insert_all order p m)
  partly_all p q m h =
      subst (λ r. IsPending order n base base_sorted r q (insert_all order p m)) (append-nil p)
        (partly-IsPending order n base base_sorted p [] q m
          (subst (λ r. IsPending order n base base_sorted r q m) (sym (append-nil p)) h))

  Held-written :
      (p q : List (Operation W Fields)) (s : redis.State)
      → Held p q s
      → Held p q (execute redis (commands ttl p) s)
  Held-written p q s h =
      rw (members-commands redis k ttl p s)
        (partly_all (windows k p) (windows k q) (redis.members k s) h)

  Held-event_trimmed :
      (p q : List (Operation W Fields)) (s : redis.State)
      → Held p q s
      → Held p q (trim_index redis n event (execute redis (commands ttl p) s))
  Held-event_trimmed p q s h =
      elim (members-event_trimmed redis n k (execute redis (commands ttl p) s)) [
        | inl e ↦
            rw (e, members-commands redis k ttl p s)
              (partly_trimmed-IsPending order n base base_sorted (windows k p) (windows k q)
                (redis.members k s) h)
        | inr e ↦ rw e (Held-written p q s h)
      ]

  applied_already :
      (p q m : List W)
      → IsPending order n base base_sorted p q m
      → IsPending order n base base_sorted p q (kept order n p m)
  applied_already [] q m h = h
  applied_already (w ∷ ws) q m h = partly_trimmed-IsPending order n base base_sorted (w ∷ ws) q m h

  -- the call has raised
  pub Held-Interrupted :
      (p q : List (Operation W Fields)) (s s' : redis.State)
      → Interrupted redis n ttl p s s'
      → Held p q s
      → Held p q s'
  Held-Interrupted p q s s' (broke_off cs e r) h =
      rw (r, members-execute redis k cs s)
        (part-IsPending order n base base_sorted (added k cs) (windows k p) (windows k q)
          (redis.members k s)
          (subst (λ l. IsPartOf (added k cs) l) (added-commands k ttl p) (added-IsPartOf k e)) h)
  Held-Interrupted p q s s' (event_trimmed r) h = elim (Bool-cases (saw_event p)) [
    | inl e ↦ subst (λ x. Held p q x) (sym (r ∙ rw e refl)) (Held-event_trimmed p q s h)
    | inr e ↦ subst (λ x. Held p q x) (sym (r ∙ rw e refl)) (Held-written p q s h)
  ]
  Held-Interrupted p q s s' (reply_lost r) h =
      subst (λ x. Held p q x) (sym r)
        (rw (members-pipeline_apply redis n ttl k p s)
          (applied_already (windows k p) (windows k q) (redis.members k s) h))
