-- ===== src/Cache/Repository/Contents.antt =====
-- What is read from the window indices and their hashes after a batch has been written.
use realtime_analytics_pipel.Prelude.{
  ℕ, suc, ◌<◌, ◌≡◌, refl, ap, ◌∙◌, Bool, true, false, not, ◌&&◌, Option, none, some, inl, inr, List,
  [], ◌∷◌, reverse, take, Bool-cases, if◌then◌else◌, ltb,
}
use realtime_analytics_pipel.Prelude.Order.{Order}
use realtime_analytics_pipel.Cache.Redis.{Kind, event, perf, pos, Redis}
use realtime_analytics_pipel.Cache.Repository.{
  Operation, commands_of, commands, saw_event, saw_perf, execute, trim_index, pipeline_apply, rows,
  get_last_windows,
}
use realtime_analytics_pipel.Cache.Repository.Retention.{
  same_kind, windows, kept, members-pipeline_apply,
}

-- the window `w` of kind `k` is the window `v` of kind `j`
abbrev pub is_window : {W : Type 0} → Order W → Kind → W → Kind → W → Bool
is_window order k w j v = same_kind k j && (not (order.less w v) && not (order.less v w))

-- what a read of the windows gives, latest first, for given hashes
abbrev pub read_one : {W Data : Type 0} → W → Option Data → List (W × Data) → List (W × Data)
read_one w none rest = rest
read_one w (some d) rest = (w, d) ∷ rest

abbrev pub read : {W Data : Type 0} → List W → (W → Option Data) → List (W × Data)
read [] hash = []
read (w ∷ ws) hash = read_one w (hash w) (read ws hash)

read-ext :
    {W Data : Type 0} (ws : List W) (f g : W → Option Data)
    → ((w : W) → f w ≡ g w)
    → read ws f ≡ read ws g
read-ext [] f g h = refl
read-ext (w ∷ ws) f g h =
    ap (λ o. read_one w o (read ws f)) (h w) ∙ ap (read_one w (g w)) (read-ext ws f g h)

-- one operation, and a batch, on the hash of the window `w` of kind `k`
abbrev merged_one :
    {W Fields Data : Type 0} (order : Order W)
    → (Fields → Option Data → Data)
    → Kind
    → W
    → Operation W Fields
    → Option Data
    → Option Data
merged_one order merge k w op d =
    if is_window order op.kind op.window_start k w then some (merge op.fields d) else d

abbrev pub merged :
    {W Fields Data : Type 0} (order : Order W)
    → (Fields → Option Data → Data)
    → Kind
    → W
    → List (Operation W Fields)
    → Option Data
    → Option Data
merged order merge k w [] d = d
merged order merge k w (op ∷ ops) d = merged order merge k w ops (merged_one order merge k w op d)

module _ {W Fields Data : Type 0} {order : Order W} where
  -- what the commands of Redis do to the hashes: `merge` writes the fields of HSET over those of a hash;
  -- an expiry that lies ahead, ZADD and ZREMRANGEBYRANK leave the hashes alone
  pub record Hashes (redis : Redis W order Fields Data) (merge : Fields → Option Data → Data)
      : Type 0 where
    pub hset_hash :
        (k j : Kind) (w v : W) (f : Fields) (s : redis.State)
        → redis.hgetall j v (redis.hset k w f s) ≡ (
            if is_window order k w j v
            then some (merge f (redis.hgetall j v s))
            else redis.hgetall j v s)
    pub expire_hash :
        (k j : Kind) (w v : W) (n : ℕ) (s : redis.State)
        → 0 < n
        → redis.hgetall j v (redis.expire k w n s) ≡ redis.hgetall j v s
    pub zadd_hash :
        (k j : Kind) (w v : W) (s : redis.State)
        → redis.hgetall j v (redis.zadd k w s) ≡ redis.hgetall j v s
    pub remove_hash :
        (k j : Kind) (v : W) (start stop : ℕ) (s : redis.State)
        → redis.hgetall j v (redis.zremrangebyrank k start stop s) ≡ redis.hgetall j v s

  module _ (redis : Redis W order Fields Data) (merge : Fields → Option Data → Data)
      (laws : Hashes redis merge) where
    hgetall-commands :
        (ttl : ℕ) (k : Kind) (w : W) (ops : List (Operation W Fields)) (s : redis.State)
        → 0 < ttl
        → redis.hgetall k w (execute redis (commands ttl ops) s)
          ≡ merged order merge k w ops (redis.hgetall k w s)
    unfolding execute commands commands_of
    hgetall-commands ttl k w [] s h = refl
    hgetall-commands ttl k w (op ∷ ops) s h =
        hgetall-commands ttl k w ops _ h
        ∙ ap (merged order merge k w ops) (
            laws.zadd_hash op.kind k op.window_start w _
            ∙ laws.expire_hash op.kind k op.window_start w ttl _ h
            ∙ laws.hset_hash op.kind k op.window_start w op.fields s)

    hgetall-trim_index :
        (n : ℕ) (j k : Kind) (w : W) (s : redis.State)
        → redis.hgetall k w (trim_index redis n j s) ≡ redis.hgetall k w s
    unfolding trim_index
    hgetall-trim_index n j k w s = elim (Bool-cases (ltb n (redis.zcard j s))) [
      | inl e ↦ rw e (laws.remove_hash j k w 0 _ s)
      | inr e ↦ rw e refl
    ]

    hgetall_if :
        (n : ℕ) (j k : Kind) (w : W) (b : Bool) (s : redis.State)
        → redis.hgetall k w (if b then trim_index redis n j s else s) ≡ redis.hgetall k w s
    hgetall_if n j k w true s = hgetall-trim_index n j k w s
    hgetall_if n j k w false s = refl

    pub hgetall-pipeline_apply :
        (n ttl : ℕ) (k : Kind) (w : W) (ops : List (Operation W Fields)) (s : redis.State)
        → 0 < ttl
        → redis.hgetall k w (pipeline_apply redis n ttl ops s)
          ≡ merged order merge k w ops (redis.hgetall k w s)
    unfolding pipeline_apply
    hgetall-pipeline_apply n ttl k w [] s h = refl
    hgetall-pipeline_apply n ttl k w (op ∷ ops) s h =
        hgetall_if n perf k w (saw_perf (op ∷ ops)) _
        ∙ hgetall_if n event k w (saw_event (op ∷ ops)) _
        ∙ hgetall-commands ttl k w (op ∷ ops) s h

    rows-read :
        (k : Kind) (ws : List W) (s : redis.State)
        → rows redis k ws s ≡ read ws (λ w. redis.hgetall k w s)
    unfolding rows
    rows-read k [] s = refl
    rows-read k (w ∷ ws) s = go (redis.hgetall k w s) (rows-read k ws s)
      where
        go :
            (o : Option Data)
            → rows redis k ws s ≡ read ws (λ v. redis.hgetall k v s)
            → (elim o [ none ↦ rows redis k ws s | some d ↦ (w, d) ∷ rows redis k ws s ])
              ≡ read_one w o (read ws (λ v. redis.hgetall k v s))
        go none h = h
        go (some d) h = ap (λ l. (w, d) ∷ l) h

    -- With a time to live that is positive, and before it has passed: after a batch has been applied, a
    -- read of the last windows of a kind with a positive limit gives, the latest first, at most so many of
    -- the windows that the index has kept of its old ones and those of the batch, each with its old hash
    -- over which the fields of the batch's operations for it have been written, in order.
    pub get_last_windows-pipeline_apply :
        (n ttl m : ℕ) (k : Kind) (ops : List (Operation W Fields)) (s : redis.State)
        → 0 < ttl
        → get_last_windows redis k (pos (suc m)) (pipeline_apply redis n ttl ops s)
          ≡ read
              (take (suc m) (reverse (kept order n (windows k ops) (redis.members k s))))
              (λ w. merged order merge k w ops (redis.hgetall k w s))
    unfolding get_last_windows
    get_last_windows-pipeline_apply n ttl m k ops s h =
        let written : redis.State = pipeline_apply redis n ttl ops s in
        ap (λ ws. rows redis k ws written)
          (redis.zrevrange_members k (pos m) written
            ∙ ap (λ ms. take (suc m) (reverse ms)) (members-pipeline_apply redis n ttl k ops s))
        ∙ rows-read k _ written
        ∙ read-ext _ _ _ (λ w. hgetall-pipeline_apply n ttl k w ops s h)
