-- ===== src/Cache/Repository.antt =====
-- `CacheRepository` of services/cache/src/infrastructure/redis/repository.py over a Redis client. A
-- pipeline is the list of the commands buffered in it; it is no transaction, so a call that raises may
-- have executed any number of them. The conversion of texts is in Conversion.
pub mod Retention
pub mod Batches
pub mod Memory
pub mod Contents
pub mod Conversion
pub mod Reads
pub mod Tests
use realtime_analytics_pipel.Prelude.{
  ℕ, zero, suc, ◌-◌, ◌≡◌, Bool, true, false, ◌||◌, Option, none, some, List, [], ◌∷◌, ◌++◌, ltb,
  if◌then◌else◌, String,
}
use realtime_analytics_pipel.Prelude.Order.{Order}
use realtime_analytics_pipel.Shared.RedisKeys.{pubsub_channel_updates}
use realtime_analytics_pipel.Cache.Redis.{Kind, event, perf, ℤ, pos, negsuc, Redis}

pub record Operation (W Fields : Type 0) : Type 0 where
  pub kind : Kind
  pub window_start : W
  pub fields : Fields

-- a command that a pipeline buffers
pub data Command (W Fields : Type 0) : Type 0 where
  hset_command : Kind → W → Fields → Command W Fields
  expire_command : Kind → W → ℕ → Command W Fields
  zadd_command : Kind → W → Command W Fields

-- the channel and the message of the `publish` that it sends; `dumps` is `json.dumps`
unfoldable pub publish_update :
    {Payload : Type 0} → (dumps : Payload → String) → Payload → String × String
publish_update dumps payload = (pubsub_channel_updates, dumps payload)

abbrev pub minus_one : ℤ → ℤ
minus_one (pos zero) = negsuc 0
minus_one (pos (suc n)) = pos n
minus_one (negsuc n) = negsuc (suc n)

abbrev pub is_event : Kind → Bool
is_event event = true
is_event perf = false

abbrev pub is_perf : Kind → Bool
is_perf event = false
is_perf perf = true

module _ {W Fields : Type 0} where
  -- the commands of one operation
  unfoldable pub commands_of : ℕ → Operation W Fields → List (Command W Fields)
  commands_of ttl op =
      hset_command op.kind op.window_start op.fields
      ∷ expire_command op.kind op.window_start ttl
      ∷ zadd_command op.kind op.window_start
      ∷ []

  -- the pipeline after the loop over `ops`
  unfoldable pub commands : ℕ → List (Operation W Fields) → List (Command W Fields)
  commands ttl [] = []
  commands ttl (op ∷ ops) = commands_of ttl op ++ commands ttl ops

  -- `saw_event` and `saw_perf` after the loop
  unfoldable pub saw_event : List (Operation W Fields) → Bool
  saw_event [] = false
  saw_event (op ∷ ops) = is_event op.kind || saw_event ops

  unfoldable pub saw_perf : List (Operation W Fields) → Bool
  saw_perf [] = false
  saw_perf (op ∷ ops) = is_perf op.kind || saw_perf ops

module _ {W Fields Data : Type 0} {order : Order W} (redis : Redis W order Fields Data) where
  unfoldable pub execute : List (Command W Fields) → redis.State → redis.State
  execute [] s = s
  execute (hset_command k w f ∷ cs) s = execute cs (redis.hset k w f s)
  execute (expire_command k w ttl ∷ cs) s = execute cs (redis.expire k w ttl s)
  execute (zadd_command k w ∷ cs) s = execute cs (redis.zadd k w s)

  -- `_trim_index`
  unfoldable pub trim_index : (window_retention_count : ℕ) → Kind → redis.State → redis.State
  trim_index retention k s =
      let size = redis.zcard k s in
      if ltb retention size then redis.zremrangebyrank k 0 (size - retention - 1) s else s

  unfoldable pub pipeline_apply :
      (retention ttl : ℕ) → List (Operation W Fields) → redis.State → redis.State
  pipeline_apply retention ttl [] s = s
  pipeline_apply retention ttl (op ∷ ops) s =
      let written = execute (commands ttl (op ∷ ops)) s in
      let event_trimmed =
        if saw_event (op ∷ ops) then trim_index retention event written else written in
      if saw_perf (op ∷ ops) then trim_index retention perf event_trimmed else event_trimmed

  -- `store_event_window` and `store_performance_window`, which differ in the kind only
  unfoldable pub store_window : (retention ttl : ℕ) → Kind → W → Fields → redis.State → redis.State
  store_window retention ttl k w f s =
      trim_index retention k (redis.zadd k w (redis.expire k w ttl (redis.hset k w f s)))

  unfoldable pub rows : Kind → List W → redis.State → List (W × Data)
  rows k [] s = []
  rows k (w ∷ ws) s = elim (redis.hgetall k w s) [
    | none ↦ rows k ws s
    | some d ↦ (w, d) ∷ rows k ws s
  ]

  -- `_get_last_windows`, with `get_last_event_windows` and `get_last_performance_windows`
  unfoldable pub get_last_windows : Kind → (limit : ℤ) → redis.State → List (W × Data)
  get_last_windows k limit s = rows k (redis.zrevrange k (minus_one limit) s) s

  unfoldable pub latest_of : List W → redis.State → Option (W × Data)
  latest_of [] s = none
  latest_of (w ∷ ws) s = elim (redis.hgetall event w s) [ none ↦ none | some d ↦ some (w, d) ]

  unfoldable pub get_latest_event_window : redis.State → Option (W × Data)
  get_latest_event_window s = latest_of (redis.zrevrange event (pos 0) s) s
