-- ===== src/Startup/Rounds.antt =====
-- How the loops of the start end, and how long they sleep.
use realtime_analytics_pipel.Prelude.{
  ℕ, zero, suc, ◌+◌, ◌<◌, ◌≡◌, refl, ap, ◌∙◌, true, List, [], ◌∷◌, String, Exn, Outcome, ok, raise,
  runtime_error, is_exception, length, All, arith, Bool-cases, inl, inr,
}
use realtime_analytics_pipel.Startup.{
  Verdict, done, again, stop, Run, after_round, rounds, contains, missing, after_check, check,
  ensure_topics_available,
}

again_done : {s : ℕ} → ¬ (again s ≡ done)
again_done h = cc

raise_ok : {e : Exn} → ¬ (◌≡◌ {A = Outcome (Unit {0})} (raise e) (ok tt))
raise_ok h = cc

-- the rounds from `attempt` on end in these sleeps, one after the other
abbrev pub Paused : (ℕ → Verdict) → ℕ → List ℕ → Type 0
Paused verdict attempt [] = Unit
Paused verdict attempt (s ∷ ss) = (verdict attempt ≡ again s) × Paused verdict (attempt + 1) ss

-- A run of at most `left` rounds from `attempt`: rounds that sleep, and then the first round that
-- returns or raises decides it, or there is none and `exhausted` is raised.
pub data IsTried (verdict : ℕ → Verdict) (exhausted : Exn) (left attempt : ℕ) : Run → Type 0 where
  returned :
      (sleeps : List ℕ)
      → Paused verdict attempt sleeps
      → length sleeps < left
      → verdict (attempt + length sleeps) ≡ done
      → IsTried verdict exhausted left attempt (ok tt, sleeps)
  stopped :
      (e : Exn) (sleeps : List ℕ)
      → Paused verdict attempt sleeps
      → length sleeps < left
      → verdict (attempt + length sleeps) ≡ stop e
      → IsTried verdict exhausted left attempt (raise e, sleeps)
  gave_up :
      (sleeps : List ℕ)
      → Paused verdict attempt sleeps
      → length sleeps ≡ left
      → IsTried verdict exhausted left attempt (raise exhausted, sleeps)

shift : (a n : ℕ) → a + suc n ≡ a + 1 + n
shift a n = omega arith

zero_plus : (n : ℕ) → n ≡ 0 + n
zero_plus n = omega arith

no_shift : (a : ℕ) → a + 0 ≡ a
no_shift a = omega arith

later :
    (verdict : ℕ → Verdict) (x : Exn) (left a s : ℕ) {r : Run}
    → verdict a ≡ again s
    → IsTried verdict x left (a + 1) r
    → IsTried verdict x (suc left) a (r.0, s ∷ r.1)
later verdict x left a s h (returned sleeps p l e) =
    returned (s ∷ sleeps) (h, p) (omega (arith, l)) (ap verdict (shift a (length sleeps)) ∙ e)
later verdict x left a s h (stopped y sleeps p l e) =
    stopped y (s ∷ sleeps) (h, p) (omega (arith, l)) (ap verdict (shift a (length sleeps)) ∙ e)
later verdict x left a s h (gave_up sleeps p l) = gave_up (s ∷ sleeps) (h, p) (omega (arith, l))

rounds-IsTried :
    (verdict : ℕ → Verdict) (x : Exn) (left a : ℕ)
    → IsTried verdict x left a (rounds verdict x left a)
unfolding rounds after_round
rounds-IsTried verdict x zero a = gave_up [] tt refl
rounds-IsTried verdict x (suc left) a = go (verdict a) refl (rounds-IsTried verdict x left (a + 1))
  where
    go :
        (v : Verdict)
        → verdict a ≡ v
        → IsTried verdict x left (a + 1) (rounds verdict x left (a + 1))
        → IsTried verdict x (suc left) a (after_round v (rounds verdict x left (a + 1)))
    go done e i = returned [] tt (omega arith) (ap verdict (no_shift a) ∙ e)
    go (again s) e i = later verdict x left a s e i
    go (stop y) e i = stopped y [] tt (omega arith) (ap verdict (no_shift a) ∙ e)

-- The topic check of the storage service returns in the first round in which no topic is missing, after
-- a sleep for each round before it. Every round in which one is missing or `list_topics` raises an
-- `Exception` only sleeps; after `max_retries` of them `RuntimeError` is raised.
pub ensure_topics_available-IsTried :
    (topics : List String) (max_retries initial_delay : ℕ) (uniform : ℕ → ℕ → ℕ)
    (list_topics : ℕ → Outcome (List String))
    → IsTried
        (λ attempt. check topics initial_delay uniform attempt (list_topics attempt))
        runtime_error
        max_retries
        0
        (ensure_topics_available topics max_retries initial_delay uniform list_topics)
unfolding ensure_topics_available
ensure_topics_available-IsTried topics max_retries initial_delay uniform list_topics =
    rounds-IsTried _ runtime_error max_retries 0

-- the topics that are there
missing-All :
    (topics available : List String)
    → missing topics available ≡ []
    → All (λ t. contains t available ≡ true) topics
unfolding missing
missing-All [] available h = tt
missing-All (t ∷ ts) available h = elim (Bool-cases (contains t available)) [
  | inl e ↦ (e, missing-All ts available (ground (arith, h, e)))
  | inr e ↦ absurd (ground (arith, h, e))
]

check-done :
    (topics : List String) (initial_delay : ℕ) (uniform : ℕ → ℕ → ℕ) (attempt : ℕ)
    (o : Outcome (List String))
    → check topics initial_delay uniform attempt o ≡ done
    → (available : List String) × (o ≡ ok available) × All (λ t. contains t available ≡ true) topics
unfolding check after_check
check-done topics initial_delay uniform attempt (ok available) h =
    (available, refl, missing-All topics available (go (missing topics available) refl h))
  where
    go :
        (absent : List String)
        → missing topics available ≡ absent
        → after_check topics initial_delay uniform attempt absent ≡ done
        → missing topics available ≡ []
    go [] e h = e
    go (t ∷ ts) e h = absurd (again_done h)
check-done topics initial_delay uniform attempt (raise e) h = elim (Bool-cases (is_exception e)) [
  | inl q ↦ absurd (ground (arith, h, q))
  | inr q ↦ absurd (ground (arith, h, q))
]

-- When the topic check of the storage service returns, then in some round below `max_retries` the
-- broker listed every topic; it has slept once for each round before that one.
pub ensure_topics_available-All :
    (topics : List String) (max_retries initial_delay : ℕ) (uniform : ℕ → ℕ → ℕ)
    (list_topics : ℕ → Outcome (List String))
    → let r = ensure_topics_available topics max_retries initial_delay uniform list_topics in
      r.0 ≡ ok tt
      → (length r.1 < max_retries)
        × ((available : List String) × (list_topics (length r.1) ≡ ok available)
            × All (λ t. contains t available ≡ true) topics)
ensure_topics_available-All topics max_retries initial_delay uniform list_topics h =
    go (ensure_topics_available-IsTried topics max_retries initial_delay uniform list_topics) h
  where
    go :
        {r : Run}
        → IsTried
            (λ attempt. check topics initial_delay uniform attempt (list_topics attempt))
            runtime_error
            max_retries
            0
            r
        → r.0 ≡ ok tt
        → (length r.1 < max_retries)
          × ((available : List String) × (list_topics (length r.1) ≡ ok available)
              × All (λ t. contains t available ≡ true) topics)
    go (returned sleeps p l e) h = (
      l,
      check-done topics initial_delay uniform (length sleeps) (list_topics (length sleeps)) (
          ap (λ i. check topics initial_delay uniform i (list_topics i)) (zero_plus (length sleeps))
          ∙ e),
    )
    go (stopped e sleeps p l q) h = absurd (raise_ok h)
    go (gave_up sleeps p l) h = absurd (raise_ok h)
