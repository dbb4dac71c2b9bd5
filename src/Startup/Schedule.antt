-- ===== src/Startup/Schedule.antt =====
-- The rounds of `start_consumer_with_retries`, services/cache/src/infrastructure/kafka/consumer.py,
-- against the outcomes of the topic check and of the starts.
use realtime_analytics_pipel.Prelude.{
  ℕ, zero, suc, ◌+◌, ◌≡◌, refl, true, false, List, [], ◌∷◌, Exn, Outcome, ok, raise, runtime_error,
  is_exception, Bool-cases, inl, inr, ◌⊎◌,
}
use realtime_analytics_pipel.Startup.{
  Verdict, again, Run, after_round, rounds, delay, on_start, try_start, start_consumer_with_retries,
}

abbrev Fails : Outcome (Unit {0}) → Type 0
Fails o = (e : Exn) × (o ≡ raise e) × (is_exception e ≡ true)

-- no `Exception`: it has returned, or raised something else
abbrev IsFinal : Outcome (Unit {0}) → Type 0
IsFinal (ok u) = Unit
IsFinal (raise e) = is_exception e ≡ false

module _ (ensured : Outcome (Unit {0})) (start : ℕ → Outcome (Unit {0})) where
  -- the round with that number, counted from 0, fails: in round 0 the topic check does, or it returns
  -- and the start fails, and in any later round the start does
  abbrev pub RoundFails : ℕ → Type 0
  RoundFails zero = Fails ensured ⊎ ((ensured ≡ ok tt) × Fails (start 0))
  RoundFails (suc k) = Fails (start (suc k))

  -- the round with that number ends the call with the outcome `o`
  abbrev pub RoundEnds : ℕ → Outcome (Unit {0}) → Type 0
  RoundEnds zero o =
      ((e : Exn) × (ensured ≡ raise e) × (is_exception e ≡ false) × (o ≡ raise e))
      ⊎ ((ensured ≡ ok tt) × (start 0 ≡ o) × IsFinal o)
  RoundEnds (suc k) o = (start (suc k) ≡ o) × IsFinal o

  -- the call from round `attempt` on, with one round for each of the sleeps to come: the round ends it,
  -- or it fails and the call goes on after the sleep; after the last one `RuntimeError` is raised
  abbrev pub IsScheduled : (sleeps : List ℕ) → (attempt : ℕ) → Run → Type 0
  IsScheduled [] attempt r = r ≡ (raise runtime_error, [])
  IsScheduled (s ∷ ss) attempt r =
      ((o : Outcome (Unit {0})) × RoundEnds attempt o × (r ≡ (o, [])))
      ⊎ ((rest : Run) × RoundFails attempt
          × IsScheduled ss (attempt + 1) rest
          × (r ≡ (rest.0, s ∷ rest.1)))

  abbrev verdict : ℕ → Verdict
  verdict attempt = on_start attempt (try_start ensured start attempt)

  -- what the handler makes of an outcome
  on_start-cases :
      (attempt : ℕ) (o : Outcome (Unit {0}))
      → (IsFinal o × ((rest : Run) → after_round (on_start attempt o) rest ≡ (o, [])))
        ⊎ (Fails o × (on_start attempt o ≡ again (delay attempt)))
  unfolding on_start after_round
  on_start-cases attempt (ok u) = inl (tt, λ rest. refl)
  on_start-cases attempt (raise e) = elim (Bool-cases (is_exception e)) [
    | inl q ↦ inr ((e, refl, q), rw q refl)
    | inr q ↦ inl (q, λ rest. rw q refl)
  ]

  round_cases :
      (attempt : ℕ)
      → ((o : Outcome (Unit {0})) × RoundEnds attempt o
          × ((rest : Run) → after_round (verdict attempt) rest ≡ (o, [])))
        ⊎ (RoundFails attempt × (verdict attempt ≡ again (delay attempt)))
  unfolding try_start
  round_cases zero = first ensured refl
    where
      first :
          (t : Outcome (Unit {0}))
          → ensured ≡ t
          → ((o : Outcome (Unit {0})) × RoundEnds 0 o
              × ((rest : Run) → after_round (verdict 0) rest ≡ (o, [])))
            ⊎ (RoundFails 0 × (verdict 0 ≡ again (delay 0)))
      first (ok u) h = elim (on_start-cases 0 (start 0)) [
        | inl c ↦ inl (start 0, inr (h, refl, c.0), rw h (c.1))
        | inr c ↦ inr (inr (h, c.0), rw h (c.1))
      ]
      first (raise e) h = elim (on_start-cases 0 (raise e)) [
        | inl c ↦ inl (raise e, inl (e, h, c.0, refl), rw h (c.1))
        | inr c ↦ inr (inl (rw h (c.0)), rw h (c.1))
      ]
  round_cases (suc k) = elim (on_start-cases (suc k) (start (suc k))) [
    | inl c ↦ inl (start (suc k), (refl, c.0), c.1)
    | inr c ↦ inr (c.0, c.1)
  ]

  abbrev delays : (left attempt : ℕ) → List ℕ
  delays zero attempt = []
  delays (suc left) attempt = delay attempt ∷ delays left (attempt + 1)

  rounds-IsScheduled :
      (left attempt : ℕ)
      → IsScheduled (delays left attempt) attempt (rounds verdict runtime_error left attempt)
  unfolding rounds after_round
  rounds-IsScheduled zero attempt = refl
  rounds-IsScheduled (suc left) attempt =
      let rest = rounds-IsScheduled left (attempt + 1) in
      elim (round_cases attempt) [
        | inl c ↦ inl (c.0, c.1, c.2 (rounds verdict runtime_error left (attempt + 1)))
        | inr c ↦ inr (rounds verdict runtime_error left (attempt + 1), c.0, rest, rw (c.1) refl)
      ]

  -- `start_consumer_with_retries` makes at most seven rounds, of which only the first checks the topics
  -- before it starts the consumer. The first round that raises no `Exception` ends the call, with what it
  -- returns or raises; after the others it sleeps, for 1, 2, 4, 8, 16, 30 and 30 seconds in turn; and after
  -- seven of them it raises `RuntimeError`.
  pub start-IsScheduled :
      IsScheduled
        (1000 ∷ 2000 ∷ 4000 ∷ 8000 ∷ 16000 ∷ 30000 ∷ 30000 ∷ [])
        0
        (start_consumer_with_retries ensured start)
  unfolding start_consumer_with_retries delay
  start-IsScheduled = rounds-IsScheduled 7 0
