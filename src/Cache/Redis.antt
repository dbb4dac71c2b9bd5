-- ===== src/Cache/Redis.antt =====
-- The commands of Redis that services/cache/src/infrastructure/redis/repository.py sends, as an
-- interface: the database is a parameter of the model, and its laws are what Redis documents.
pub use realtime_analytics_pipel.Prelude.{ℤ, pos, negsuc}
use realtime_analytics_pipel.Prelude.{ℕ, suc, ◌-◌, ◌≡◌, List, reverse, Option, take, drop, length}
use realtime_analytics_pipel.Prelude.Order.{Order}
use realtime_analytics_pipel.Cache.Index.{insert}

-- `"event"` and `"perf"`: the two types of an operation, each with a hash pattern and an index
pub data Kind : Type 0 where
  event perf : Kind

-- the items with ranks `0` to the given one, which counts from the end when it is negative
abbrev pub up_to {ℓ} : {A : Type ℓ} → ℤ → List A → List A
up_to (pos n) xs = take (suc n) xs
up_to (negsuc n) xs = take (length xs - n) xs

-- A window is known by its start: `W` is the type of these numbers, which are members and scores of
-- the index. `Fields` is the mapping of a write, `Data` a hash that is not empty.
pub record Redis (W : Type 0) (order : Order W) (Fields Data : Type 0) : Type 1 where
  pub State : Type 0
  pub hset : Kind → W → Fields → State → State
  pub expire : Kind → W → ℕ → State → State
  pub zadd : Kind → W → State → State
  pub zcard : Kind → State → ℕ
  pub zremrangebyrank : Kind → (start stop : ℕ) → State → State
  pub zrevrange : Kind → (stop : ℤ) → State → List W
  pub hgetall : Kind → W → State → Option Data
  -- the members of an index, in ascending order
  pub members : Kind → State → List W
  pub hset_members :
      (k j : Kind) (w : W) (f : Fields) (s : State) → members j (hset k w f s) ≡ members j s
  pub expire_members :
      (k j : Kind) (w : W) (n : ℕ) (s : State) → members j (expire k w n s) ≡ members j s
  pub zadd_members :
      (k : Kind) (w : W) (s : State) → members k (zadd k w s) ≡ insert order w (members k s)
  pub zadd_others :
      (k j : Kind) (w : W) (s : State) → ¬ (k ≡ j) → members j (zadd k w s) ≡ members j s
  pub zcard_members : (k : Kind) (s : State) → zcard k s ≡ length (members k s)
  pub remove_members :
      (k : Kind) (stop : ℕ) (s : State)
      → members k (zremrangebyrank k 0 stop s) ≡ drop (suc stop) (members k s)
  pub remove_others :
      (k j : Kind) (start stop : ℕ) (s : State)
      → ¬ (k ≡ j)
      → members j (zremrangebyrank k start stop s) ≡ members j s
  pub zrevrange_members :
      (k : Kind) (stop : ℤ) (s : State) → zrevrange k stop s ≡ up_to stop (reverse (members k s))
