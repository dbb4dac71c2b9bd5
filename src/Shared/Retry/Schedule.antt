-- ===== src/Shared/Retry/Schedule.antt =====
-- What a run of `retry` returns, how often it calls and how long it sleeps.
use native.Mathlib.Nat.{pow-suc, sub_self, mul-le-mul_right}
use native.Mathlib.Decide.{ℕ_discrete}
use native.Mathlib.Numerals.{add-one}
use realtime_analytics_pipel.Prelude.{
  ap, ℕ, zero, suc, ◌+◌, ◌-◌, ◌*◌, ◌/◌, All, ◌^◌, ◌≤◌, ◌<◌, min, ◌≡◌, refl, inl, inr, Bool, true,
  false, not, ◌||◌, ◌∙◌, ◌⊎◌, List, [], ◌∷◌, Exn, Outcome, ok, raise, ◌==◌, arith, Bool-cases,
}
use realtime_analytics_pipel.Shared.Retry.{
  Policy, Effect, called, slept, Callback, swallow, sleep_for, loop, retry, on_outcome,
}

abbrev pub calls : List Effect → ℕ
calls [] = 0
calls (called _ ∷ es) = suc (calls es)
calls (_ ∷ es) = calls es

abbrev pub sleeps : List Effect → List ℕ
sleeps [] = []
sleeps (slept s ∷ es) = s ∷ sleeps es
sleeps (_ ∷ es) = sleeps es

-- the callback raises nothing but `Exception`s
abbrev pub IsQuiet : Callback → Type 0
IsQuiet cb = (attempt : ℕ) (exc : Exn) (s : ℕ) → swallow (cb attempt exc s) ≡ ok tt

module _ (p : Policy) where
  -- no further call is made after this outcome, even in an early round
  abbrev pub settles {ℓ} : {T : Type ℓ} → Outcome T → Bool
  settles (ok v) = true
  settles (raise e) = not (p.retry_on e)

  -- the delay before the sleep of round `attempt`
  abbrev pub delay_at : ℕ → ℕ
  delay_at zero = p.base_delay
  delay_at (suc k) = min (p.base_delay * 2 ^ suc k) p.max_delay

  module _ (uniform : ℕ → ℕ → ℕ) where
    -- the sleeps of the rounds from `attempt` on, `count` of them
    unfoldable pub schedule : ℕ → ℕ → List ℕ
    schedule zero attempt = []
    schedule (suc count) attempt =
        sleep_for p uniform attempt (delay_at attempt) ∷ schedule count (attempt + 1)

    -- What the rounds from `attempt` on do, when round `d` is the one that decides: it is the first
    -- to settle, or the last of all; the run returns or raises what its call did.
    pub record IsDecidedBy {T : Type 0} (func : ℕ → Outcome T) (attempt d : ℕ)
        (run : Outcome T × List Effect) : Type 0 where
      pub from : attempt ≤ d
      pub below : d < p.retries
      pub earlier : (i : ℕ) → attempt ≤ i → i < d → settles (func i) ≡ false
      pub ends : (settles (func d) ≡ true) ⊎ (suc d ≡ p.retries)
      pub outcome : run.0 ≡ func d
      pub count : calls run.1 + attempt ≡ suc d
      pub slept_for : sleeps run.1 ≡ schedule (d - attempt) attempt

    one_round_earlier :
        {T : Type 0} (func : ℕ → Outcome T) (attempt d : ℕ) (run rest : Outcome T × List Effect)
        → settles (func attempt) ≡ false
        → run.0 ≡ rest.0
        → calls run.1 ≡ suc (calls rest.1)
        → sleeps run.1 ≡ sleep_for p uniform attempt (delay_at attempt) ∷ sleeps rest.1
        → IsDecidedBy func (attempt + 1) d rest
        → IsDecidedBy func attempt d run
    unfolding schedule
    one_round_earlier func attempt d run rest s same count pauses ih =
        let n : d - attempt ≡ suc (d - (attempt + 1)) = omega (arith, ih.from) in
        record {
          from = omega (arith, ih.from);
          below = ih.below;
          earlier = λ i a b. elim (ℕ_discrete i attempt) [
            | yes q ↦ rw q s
            | no q ↦ ih.earlier i (omega arith) b
          ];
          ends = ih.ends;
          outcome = same ∙ ih.outcome;
          count = omega (arith, ih.count);
          slept_for =
              rw n
                (pauses ∙ ap (◌∷◌ (sleep_for p uniform attempt (delay_at attempt))) ih.slept_for);
        }

    ends_here :
        {T : Type 0} (o : Outcome T) (attempt : ℕ)
        → (settles o || (attempt == p.retries - 1)) ≡ true
        → attempt < p.retries
        → (settles o ≡ true) ⊎ (suc attempt ≡ p.retries)
    ends_here (ok v) attempt h b = inl refl
    ends_here (raise e) attempt h b = elim (Bool-cases (not (p.retry_on e))) [
      | inl s ↦ inl s
      | inr s ↦ inr (ground arith)
    ]

    delay_at-next : (k : ℕ) → min (delay_at k * 2) p.max_delay ≡ delay_at (k + 1)
    delay_at-next zero = refl
    delay_at-next (suc k) = rw (add-one (suc k), pow-suc 2 (suc k)) (omega arith)

    module _ {T : Type 0} (cb : Callback) (func : ℕ → Outcome T) where
      round_ends :
          (attempt delay : ℕ) (o : Outcome T) (rest : Outcome T × List Effect)
          → (settles o || (attempt == p.retries - 1)) ≡ true
          → on_outcome p uniform cb func attempt delay o rest ≡ (o, called attempt ∷ [])
      unfolding on_outcome
      round_ends attempt delay (ok v) rest h = refl
      round_ends attempt delay (raise e) rest h = ground arith

      module _ (quiet : IsQuiet cb) where
        round_goes_on :
            (attempt delay : ℕ) (o : Outcome T) (rest : Outcome T × List Effect)
            → (settles o || (attempt == p.retries - 1)) ≡ false
            → let run = on_outcome p uniform cb func attempt delay o rest in
              (run.0 ≡ rest.0)
              × (calls run.1 ≡ suc (calls rest.1))
              × (sleeps run.1 ≡ sleep_for p uniform attempt delay ∷ sleeps rest.1)
        unfolding on_outcome
        round_goes_on attempt delay (ok v) rest h = cc
        round_goes_on attempt delay (raise e) rest h =
            ground (arith, quiet (attempt + 1) e (sleep_for p uniform attempt delay))

        loop_ends :
            (left attempt : ℕ)
            → attempt + suc left ≡ p.retries
            → (settles (func attempt) || (attempt == p.retries - 1)) ≡ true
            → IsDecidedBy func attempt attempt
                (loop p uniform cb func (suc left) attempt (delay_at attempt))
        unfolding loop schedule
        loop_ends left attempt e h =
            rw (round_ends attempt (delay_at attempt) (func attempt) _ h) (record {
              from = omega arith;
              below = omega arith;
              earlier = λ i a b. absurd (omega arith);
              ends = ends_here (func attempt) attempt h (omega arith);
              outcome = refl;
              count = omega arith;
              slept_for = rw (sub_self attempt) refl;
            })

        loop_lem :
            (left attempt : ℕ)
            → attempt + suc left ≡ p.retries
            → (d : ℕ) × IsDecidedBy func attempt d
                (loop p uniform cb func (suc left) attempt (delay_at attempt))
        unfolding loop
        loop_lem zero attempt e = (attempt, loop_ends zero attempt e (ground arith))
        loop_lem (suc left) attempt e = elim (Bool-cases (settles (func attempt))) [
          | inl s ↦ (attempt, loop_ends (suc left) attempt e (ground arith))
          | inr s ↦
              let (d, ih) = loop_lem left (attempt + 1) (omega arith) in
              let rest = loop p uniform cb func (suc left) (attempt + 1) (delay_at (attempt + 1)) in
              let run =
                on_outcome p uniform cb func attempt (delay_at attempt) (func attempt) rest in
              let r = round_goes_on attempt (delay_at attempt) (func attempt) rest (ground arith) in
              (
                d,
                rw (delay_at-next attempt)
                    (one_round_earlier func attempt d run rest s r.0 r.1 r.2 ih),
              )
        ]

        loop_outcome :
            (rounds : ℕ)
            → rounds ≡ p.retries
            → 0 < rounds
            → (d : ℕ) × IsDecidedBy func 0 d (loop p uniform cb func rounds 0 p.base_delay)
        loop_outcome zero e h = elim h [ ]
        loop_outcome (suc left) e h = loop_lem left 0 (omega arith)

-- For at least one retry and a callback that raises nothing but `Exception`s: some round d below
-- `retries` decides the run. No round before it settled (returned, or raised what `retry_on` does
-- not cover); round d settles or is the last one. `retry` returns or raises exactly what its
-- call of `func` in round d did, calls `func` d + 1 times, and sleeps d times, after round k for
-- `min(delay, max_delay)` and the jitter drawn below `delay * jitter`, where the delay is
-- `base_delay` at first and `min(base_delay * 2 ** k, max_delay)` later.
pub retry_outcome :
    (p : Policy) (uniform : ℕ → ℕ → ℕ) {T : Type 0} (cb : Callback) (func : ℕ → Outcome T)
    → IsQuiet cb
    → 0 < p.retries
    → (d : ℕ) × IsDecidedBy p uniform func 0 d (retry p uniform cb func)
unfolding retry
retry_outcome p uniform cb func quiet h = loop_outcome p uniform cb func quiet p.retries refl h

module _ (p : Policy) (uniform : ℕ → ℕ → ℕ) (ordered : p.base_delay ≤ p.max_delay)
    (bounded : (attempt bound : ℕ) → uniform attempt bound ≤ bound) where
  delay_at-le : (k : ℕ) → delay_at p k ≤ p.max_delay
  delay_at-le zero = ordered
  delay_at-le (suc k) = omega arith

  sleep_for-le :
      (k : ℕ) → sleep_for p uniform k (delay_at p k) ≤ p.max_delay + p.max_delay * p.jitter / 100
  sleep_for-le k = omega (
    arith,
    bounded k (delay_at p k * p.jitter / 100),
    mul-le-mul_right p.jitter (delay_at-le k),
    delay_at-le k,
  )

  schedule-le :
      (n k : ℕ) → All (λ s. s ≤ p.max_delay + p.max_delay * p.jitter / 100) (schedule p uniform n k)
  unfolding schedule
  schedule-le zero k = tt
  schedule-le (suc n) k = (sleep_for-le k, schedule-le n (k + 1))

  -- If `base_delay` is at most `max_delay`, and `uniform(0, b)` draws at most b, then no sleep of
  -- `retry` is longer than `max_delay` and its jitter, whatever `func` does.
  pub sleeps-retry-le :
      {T : Type 0} (cb : Callback) (func : ℕ → Outcome T)
      → IsQuiet cb
      → 0 < p.retries
      → All
          (λ s. s ≤ p.max_delay + p.max_delay * p.jitter / 100)
          (sleeps (retry p uniform cb func).1)
  sleeps-retry-le cb func quiet h =
      let (d, r) = retry_outcome p uniform cb func quiet h in rw r.slept_for (schedule-le (d - 0) 0)
