-- ===== src/Cache/Repository/Memory.antt =====
-- A small Redis for the tests: the two indices, and the hashes, the latest written first.
use realtime_analytics_pipel.Prelude.{
  ℕ, suc, ◌≡◌, refl, ap, true, false, not, ◌&&◌, Option, none, some, List, [], ◌∷◌, ◌++◌, reverse,
  ltb, if◌then◌else◌, length, drop, take, Bool-cases, inl, inr, arith,
}
use realtime_analytics_pipel.Prelude.Order.{Order}
use realtime_analytics_pipel.Cache.Index.{insert}
use realtime_analytics_pipel.Cache.Redis.{Kind, event, perf, up_to, Redis}
use realtime_analytics_pipel.Cache.Repository.Contents.{is_window, Hashes}

pub ltb_irreflexive : (a : ℕ) → ltb a a ≡ false
ltb_irreflexive a = ground arith

pub ltb_transitive : (a b c : ℕ) → ltb a b ≡ true → ltb b c ≡ true → ltb a c ≡ true
ltb_transitive a b c h k = ground arith

pub ltb_connected : (a b : ℕ) → ltb a b ≡ false → ltb b a ≡ false → a ≡ b
ltb_connected a b h k = ground arith

abbrev pub numbers : Order ℕ
numbers = record {
  less = ltb;
  irreflexive = ltb_irreflexive;
  transitive = ltb_transitive;
  connected = ltb_connected;
}

same_number : (w v : ℕ) → (not (ltb w v) && not (ltb v w)) ≡ true → w ≡ v
same_number w v h = ground arith

-- the two indices, and the hashes, the latest written first
pub record Memory (Data : Type 0) : Type 0 where
  pub event_index : List ℕ
  pub perf_index : List ℕ
  pub hashes : List (Kind × (ℕ × Data))

module _ {Data : Type 0} where
  abbrev pub index_of : Kind → Memory Data → List ℕ
  index_of event d = d.event_index
  index_of perf d = d.perf_index

  abbrev pub with_index : Kind → List ℕ → Memory Data → Memory Data
  with_index event xs d = record d { event_index = xs }
  with_index perf xs d = record d { perf_index = xs }

  abbrev pub hash_of : Kind → ℕ → List (Kind × (ℕ × Data)) → Option Data
  hash_of j v [] = none
  hash_of j v ((k, (w, h)) ∷ rest) =
      let later = hash_of j v rest in if is_window numbers k w j v then some h else later

  pub with_index_others :
      (k j : Kind) (xs : List ℕ) (d : Memory Data)
      → ¬ (k ≡ j)
      → index_of j (with_index k xs d) ≡ index_of j d
  with_index_others event event xs d h = absurd (h refl)
  with_index_others event perf xs d h = refl
  with_index_others perf event xs d h = refl
  with_index_others perf perf xs d h = absurd (h refl)

  pub with_index_same :
      (k : Kind) (xs : List ℕ) (d : Memory Data) → index_of k (with_index k xs d) ≡ xs
  with_index_same event xs d = refl
  with_index_same perf xs d = refl

  pub hashes_apart :
      (j : Kind) (d : Memory Data) (hs : List (Kind × (ℕ × Data)))
      → index_of j (record d { hashes = hs }) ≡ index_of j d
  hashes_apart event d hs = refl
  hashes_apart perf d hs = refl

  indices_apart : (k : Kind) (xs : List ℕ) (d : Memory Data) → (with_index k xs d).hashes ≡ d.hashes
  indices_apart event xs d = refl
  indices_apart perf xs d = refl

  same_hash :
      (k j : Kind) (w v : ℕ) (hs : List (Kind × (ℕ × Data)))
      → is_window numbers k w j v ≡ true
      → hash_of k w hs ≡ hash_of j v hs
  same_hash event event w v hs h = ap (λ u. hash_of event u hs) (same_number w v h)
  same_hash perf perf w v hs h = ap (λ u. hash_of perf u hs) (same_number w v h)
  same_hash event perf w v hs h = absurd (cc)
  same_hash perf event w v hs h = absurd (cc)

  module _ {Fields : Type 0} (merge : Fields → Option Data → Data) where
    abbrev pub memory : Redis ℕ numbers Fields Data
    memory = record {
      State = Memory Data;
      hset = λ k w f d. record d { hashes = (k, (w, merge f (hash_of k w d.hashes))) ∷ d.hashes };
      expire = λ k w n d. d;
      zadd = λ k w d. with_index k (insert numbers w (index_of k d)) d;
      zcard = λ k d. length (index_of k d);
      zremrangebyrank = λ k start stop d.
          with_index k (take start (index_of k d) ++ drop (suc stop) (index_of k d)) d;
      zrevrange = λ k stop d. up_to stop (reverse (index_of k d));
      hgetall = λ k w d. hash_of k w d.hashes;
      members = index_of;
      hset_members =
          λ k j w f d. hashes_apart j d ((k, (w, merge f (hash_of k w d.hashes))) ∷ d.hashes);
      expire_members = λ k j w n d. refl;
      zadd_members = λ k w d. with_index_same k (insert numbers w (index_of k d)) d;
      zadd_others = λ k j w d h. with_index_others k j (insert numbers w (index_of k d)) d h;
      zcard_members = λ k d. refl;
      remove_members = λ k stop d. with_index_same k (drop (suc stop) (index_of k d)) d;
      remove_others = λ k j start stop d h.
          with_index_others k j (take start (index_of k d) ++ drop (suc stop) (index_of k d)) d h;
      zrevrange_members = λ k stop d. refl;
    }

    written_hash :
        (k j : Kind) (w v : ℕ) (f : Fields) (hs : List (Kind × (ℕ × Data)))
        → hash_of j v ((k, (w, merge f (hash_of k w hs))) ∷ hs)
          ≡ (if is_window numbers k w j v then some (merge f (hash_of j v hs)) else hash_of j v hs)
    written_hash k j w v f hs = elim (Bool-cases (is_window numbers k w j v)) [
      | inl e ↦ rw e (ap (λ h. some (merge f h)) (same_hash k j w v hs e))
      | inr e ↦ rw e refl
    ]

    pub memory-Hashes : Hashes memory merge
    memory-Hashes = record {
      hset_hash = λ k j w v f d. written_hash k j w v f d.hashes;
      expire_hash = λ k j w v n d h. refl;
      zadd_hash = λ k j w v d. ap (hash_of j v) (indices_apart k _ d);
      remove_hash = λ k j v start stop d. ap (hash_of j v) (indices_apart k _ d);
    }

-- a memory whose hashes are numbers, which HSET overwrites
abbrev pub Database : Type 0
Database = Memory ℕ

abbrev pub overwrite : ℕ → Option ℕ → ℕ
overwrite f d = f

abbrev pub database : Redis ℕ numbers ℕ ℕ
database = memory overwrite

abbrev pub empty : {Data : Type 0} → Memory Data
empty = record { event_index = []; perf_index = []; hashes = [] }
