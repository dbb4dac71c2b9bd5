-- ===== src/Cache/Repository/Retention.antt =====
-- What the writes leave in the window indices: the latest windows, as many as the retention count.
use realtime_analytics_pipel.Prelude.{
  ℕ, suc, ◌-◌, ◌<◌, ◌≡◌, refl, sym, ap, ◌∙◌, Bool, true, false, ◌||◌, List, [], ◌∷◌, ◌++◌, ltb,
  if◌then◌else◌, length, drop, last, arith, Bool-cases, inl, inr,
}
use realtime_analytics_pipel.Prelude.Order.{Order}
use realtime_analytics_pipel.Cache.Index.{insert, insert_all}
use realtime_analytics_pipel.Cache.Redis.{Kind, event, perf, Redis}
use realtime_analytics_pipel.Cache.Repository.{
  Operation, Command, hset_command, expire_command, zadd_command, commands_of, commands, is_event,
  is_perf, saw_event, saw_perf, execute, trim_index, pipeline_apply,
}

abbrev pub same_kind : Kind → Kind → Bool
same_kind event event = true
same_kind perf perf = true
same_kind _ _ = false

-- the starts of the windows of kind `k`, in the order of the operations
abbrev pub windows : {W Fields : Type 0} → Kind → List (Operation W Fields) → List W
windows k [] = []
windows k (op ∷ ops) =
    let rest = windows k ops in if same_kind op.kind k then op.window_start ∷ rest else rest

-- the members that the commands add to the index of kind `k`
abbrev pub added : {W Fields : Type 0} → Kind → List (Command W Fields) → List W
added k [] = []
added k (hset_command j w f ∷ cs) = added k cs
added k (expire_command j w ttl ∷ cs) = added k cs
added k (zadd_command j w ∷ cs) = let rest = added k cs in if same_kind j k then w ∷ rest else rest

-- An index after the windows `ws` have been written: untouched when there is none, and otherwise the
-- latest `n` of all its members.
abbrev pub kept : {W : Type 0} → Order W → ℕ → List W → List W → List W
kept order n [] xs = xs
kept order n (w ∷ ws) xs = last n (insert_all order (w ∷ ws) xs)

module _ {W : Type 0} where
  abbrev is_empty : List W → Bool
  is_empty [] = true
  is_empty (w ∷ ws) = false

  -- one more operation of kind `j`, seen from each index
  event_step :
      (j : Kind) (w : W) (ws : List W) (b : Bool)
      → (if b then false else true) ≡ is_empty ws
      → (if is_event j || b then false else true)
        ≡ is_empty (if same_kind j event then w ∷ ws else ws)
  event_step event w ws b h = refl
  event_step perf w ws b h = h

  perf_step :
      (j : Kind) (w : W) (ws : List W) (b : Bool)
      → (if b then false else true) ≡ is_empty ws
      → (if is_perf j || b then false else true)
        ≡ is_empty (if same_kind j perf then w ∷ ws else ws)
  perf_step event w ws b h = h
  perf_step perf w ws b h = refl

  kept_if :
      (order : Order W) (n : ℕ) (b : Bool) (ws xs : List W)
      → (if b then false else true) ≡ is_empty ws
      → (if b then last n (insert_all order ws xs) else insert_all order ws xs) ≡ kept order n ws xs
  kept_if order n true [] xs h = absurd (cc)
  kept_if order n true (w ∷ ws) xs h = refl
  kept_if order n false [] xs h = refl
  kept_if order n false (w ∷ ws) xs h = absurd (cc)

module _ {W Fields : Type 0} where
  pub added-append :
      (k : Kind) (cs ds : List (Command W Fields)) → added k (cs ++ ds) ≡ added k cs ++ added k ds
  added-append k [] ds = refl
  added-append k (hset_command j w f ∷ cs) ds = added-append k cs ds
  added-append k (expire_command j w n ∷ cs) ds = added-append k cs ds
  added-append k (zadd_command j w ∷ cs) ds = elim (Bool-cases (same_kind j k)) [
    | inl e ↦ rw e (ap (λ r. w ∷ r) (added-append k cs ds))
    | inr e ↦ rw e (added-append k cs ds)
  ]

  pub added-commands :
      (k : Kind) (ttl : ℕ) (ops : List (Operation W Fields))
      → added k (commands ttl ops) ≡ windows k ops
  unfolding commands commands_of
  added-commands k ttl [] = refl
  added-commands k ttl (op ∷ ops) = rw (added-commands k ttl ops) refl

  -- the operations touch the index of kind `k`
  abbrev touched : Kind → List (Operation W Fields) → Bool
  touched event ops = saw_event ops
  touched perf ops = saw_perf ops

  touched-windows :
      (k : Kind) (ops : List (Operation W Fields))
      → (if touched k ops then false else true) ≡ is_empty (windows k ops)
  unfolding saw_event saw_perf
  touched-windows event [] = refl
  touched-windows perf [] = refl
  touched-windows event (op ∷ ops) =
      event_step op.kind op.window_start (windows event ops) (saw_event ops)
        (touched-windows event ops)
  touched-windows perf (op ∷ ops) =
      perf_step op.kind op.window_start (windows perf ops) (saw_perf ops) (touched-windows perf ops)

same_drop : (n m : ℕ) → n < m → suc (m - n - 1) ≡ m - n
same_drop n m h = omega arith

no_drop : (n m : ℕ) → ltb n m ≡ false → 0 ≡ m - n
no_drop n m h = ground arith

pub kinds_differ : ¬ (event ≡ perf)
kinds_differ h = cc

module _ {W Fields Data : Type 0} {order : Order W} (redis : Redis W order Fields Data) where
  members-zadd :
      (k j : Kind) (w : W) (s : redis.State)
      → redis.members j (redis.zadd k w s)
        ≡ (if same_kind k j then insert order w (redis.members j s) else redis.members j s)
  members-zadd event event w s = redis.zadd_members event w s
  members-zadd perf perf w s = redis.zadd_members perf w s
  members-zadd event perf w s = redis.zadd_others event perf w s kinds_differ
  members-zadd perf event w s = redis.zadd_others perf event w s (λ h. kinds_differ (sym h))

  pub members-execute :
      (k : Kind) (cs : List (Command W Fields)) (s : redis.State)
      → redis.members k (execute redis cs s) ≡ insert_all order (added k cs) (redis.members k s)
  unfolding execute
  members-execute k [] s = refl
  members-execute k (hset_command j w f ∷ cs) s =
      members-execute k cs _ ∙ ap (insert_all order (added k cs)) (redis.hset_members j k w f s)
  members-execute k (expire_command j w n ∷ cs) s =
      members-execute k cs _ ∙ ap (insert_all order (added k cs)) (redis.expire_members j k w n s)
  members-execute k (zadd_command j w ∷ cs) s = elim (Bool-cases (same_kind j k)) [
    | inl e ↦ rw e (
        members-execute k cs _
        ∙ ap (insert_all order (added k cs)) (members-zadd j k w s ∙ rw e refl))
    | inr e ↦ rw e (
        members-execute k cs _
        ∙ ap (insert_all order (added k cs)) (members-zadd j k w s ∙ rw e refl))
  ]

  pub members-trim_index :
      (n : ℕ) (k : Kind) (s : redis.State)
      → redis.members k (trim_index redis n k s) ≡ last n (redis.members k s)
  unfolding trim_index
  members-trim_index n k s = elim (Bool-cases (ltb n (redis.zcard k s))) [
    | inl e ↦
        rw (e, redis.remove_members k (redis.zcard k s - n - 1) s, redis.zcard_members k s)
          (ap (λ i. drop i (redis.members k s))
            (same_drop n (length (redis.members k s)) (ground (arith, redis.zcard_members k s))))
    | inr e ↦ rw e (
        ap (λ i. drop i (redis.members k s))
          (no_drop n (length (redis.members k s)) (rw (sym (redis.zcard_members k s)) e)))
  ]

  pub others-trim_index :
      (n : ℕ) (k j : Kind) (s : redis.State)
      → ¬ (k ≡ j)
      → redis.members j (trim_index redis n k s) ≡ redis.members j s
  unfolding trim_index
  others-trim_index n k j s h = elim (Bool-cases (ltb n (redis.zcard k s))) [
    | inl e ↦ rw e (redis.remove_others k j 0 (redis.zcard k s - n - 1) s h)
    | inr e ↦ rw e refl
  ]

  trimmed_event :
      (n : ℕ) (e p : Bool) (s : redis.State)
      → let t = if e then trim_index redis n event s else s in
        redis.members event (if p then trim_index redis n perf t else t)
        ≡ (if e then last n (redis.members event s) else redis.members event s)
  trimmed_event n true true s =
      others-trim_index n perf event _ (λ h. kinds_differ (sym h)) ∙ members-trim_index n event s
  trimmed_event n true false s = members-trim_index n event s
  trimmed_event n false true s = others-trim_index n perf event _ (λ h. kinds_differ (sym h))
  trimmed_event n false false s = refl

  trimmed_perf :
      (n : ℕ) (e p : Bool) (s : redis.State)
      → let t = if e then trim_index redis n event s else s in
        redis.members perf (if p then trim_index redis n perf t else t)
        ≡ (if p then last n (redis.members perf s) else redis.members perf s)
  trimmed_perf n true true s =
      members-trim_index n perf _ ∙ ap (last n) (others-trim_index n event perf s kinds_differ)
  trimmed_perf n true false s = others-trim_index n event perf s kinds_differ
  trimmed_perf n false true s = members-trim_index n perf s
  trimmed_perf n false false s = refl

  pub members-commands :
      (k : Kind) (ttl : ℕ) (ops : List (Operation W Fields)) (s : redis.State)
      → redis.members k (execute redis (commands ttl ops) s)
        ≡ insert_all order (windows k ops) (redis.members k s)
  members-commands k ttl ops s =
      members-execute k (commands ttl ops) s
      ∙ ap (λ ws. insert_all order ws (redis.members k s)) (added-commands k ttl ops)

  -- After a batch has been applied, the index of each kind is untouched if the batch has no operation of
  -- that kind, and otherwise holds the latest windows among its old ones and those of the batch, as many
  -- as the retention count allows, in order and without repetition.
  pub members-pipeline_apply :
      (n ttl : ℕ) (k : Kind) (ops : List (Operation W Fields)) (s : redis.State)
      → redis.members k (pipeline_apply redis n ttl ops s)
        ≡ kept order n (windows k ops) (redis.members k s)
  unfolding pipeline_apply
  members-pipeline_apply n ttl k [] s = refl
  members-pipeline_apply n ttl event (op ∷ ops) s =
      trimmed_event n (saw_event (op ∷ ops)) (saw_perf (op ∷ ops)) _
      ∙ rw (members-commands event ttl (op ∷ ops) s) (
          kept_if order n (saw_event (op ∷ ops)) (windows event (op ∷ ops)) (redis.members event s)
            (touched-windows event (op ∷ ops)))
  members-pipeline_apply n ttl perf (op ∷ ops) s =
      trimmed_perf n (saw_event (op ∷ ops)) (saw_perf (op ∷ ops)) _
      ∙ rw (members-commands perf ttl (op ∷ ops) s) (
          kept_if order n (saw_perf (op ∷ ops)) (windows perf (op ∷ ops)) (redis.members perf s)
            (touched-windows perf (op ∷ ops)))
