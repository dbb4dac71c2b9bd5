-- ===== src/Cache/Repository/Reads.antt =====
-- What the reads of the window indices return.
use realtime_analytics_pipel.Prelude.{
  ℕ, suc, ◌-◌, ◌≤◌, ◌≡◌, refl, ap, ◌∙◌, Option, none, some, Option-cases, inl, inr, List, [], ◌∷◌,
  reverse, length, take, length-take, arith,
}
use realtime_analytics_pipel.Prelude.Order.{Order}
use realtime_analytics_pipel.Cache.Redis.{Kind, event, pos, negsuc, up_to, Redis}
use realtime_analytics_pipel.Cache.Repository.{
  rows, get_last_windows, latest_of, get_latest_event_window,
}

abbrev pub head {ℓ} : {A : Type ℓ} → List A → Option A
head [] = none
head (x ∷ xs) = some x

take-length : {A : Type 0} (xs : List A) → take (length xs) xs ≡ xs
take-length [] = refl
take-length (x ∷ xs) = ap (λ r. x ∷ r) (take-length xs)

minus_zero : (n : ℕ) → n - 0 ≡ n
minus_zero n = omega arith

up_to_all : {A : Type 0} (xs : List A) → up_to (negsuc 0) xs ≡ xs
up_to_all xs = ap (λ n. take n xs) (minus_zero (length xs)) ∙ take-length xs

module _ {W Fields Data : Type 0} {order : Order W} (redis : Redis W order Fields Data) where
  length-rows : (k : Kind) (ws : List W) (s : redis.State) → length (rows redis k ws s) ≤ length ws
  unfolding rows
  length-rows k [] s = omega arith
  length-rows k (w ∷ ws) s = go (length-rows k ws s) (redis.hgetall k w s)
    where
      go :
          length (rows redis k ws s) ≤ length ws
          → (o : Option Data)
          → length (elim o [ none ↦ rows redis k ws s | some d ↦ (w, d) ∷ rows redis k ws s ])
            ≤ suc (length ws)
      go ih none = omega (arith, ih)
      go ih (some d) = omega (arith, ih)

  -- A positive limit bounds the number of windows returned, and with limit 0 every window of the index
  -- whose hash is still there is returned, the latest first.
  pub limit_of_windows :
      (k : Kind) (n : ℕ) (s : redis.State)
      → (length (get_last_windows redis k (pos (suc n)) s) ≤ suc n)
        × (get_last_windows redis k (pos 0) s ≡ rows redis k (reverse (redis.members k s)) s)
  unfolding get_last_windows
  limit_of_windows k n s = (
    rw (redis.zrevrange_members k (pos n) s) (
        omega (
          arith,
          length-rows k (take (suc n) (reverse (redis.members k s))) s,
          length-take (suc n) (reverse (redis.members k s)),
        )),
    ap (λ ws. rows redis k ws s)
        (redis.zrevrange_members k (negsuc 0) s ∙ up_to_all (reverse (redis.members k s))),
  )

  head_of_rows :
      (ws : List W) (s : redis.State)
      → latest_of redis (take 1 ws) s ≡ head (rows redis event (take 1 ws) s)
  unfolding latest_of rows
  head_of_rows [] s = refl
  head_of_rows (w ∷ ws) s = elim (Option-cases (redis.hgetall event w s)) [
    | inl e ↦ rw e refl
    | inr (d, e) ↦ rw e refl
  ]

  -- The latest event window is the first of the last event windows with limit 1, also when there is none
  -- or its hash has expired.
  pub latest_is_first :
      (s : redis.State)
      → get_latest_event_window redis s ≡ head (get_last_windows redis event (pos 1) s)
  unfolding get_latest_event_window get_last_windows
  latest_is_first s =
      rw (redis.zrevrange_members event (pos 0) s)
        (head_of_rows (reverse (redis.members event s)) s)
