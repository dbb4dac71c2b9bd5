-- ===== src/Storage/Main/Drain.antt =====
-- The end of the storage service once the shutdown event is set.
use mathlib.Core.Path.{subst}
use realtime_analytics_pipel.Prelude.{
  ℕ, ◌+◌, ◌≤◌, ◌<◌, ◌≡◌, refl, sym, ◌∙◌, Bool, true, false, ◌&&◌, Option, List, [], ◌++◌, Outcome,
  Bool-cases, inl, inr, ◌⊎◌, arith,
}
use realtime_analytics_pipel.Storage.Consumer.{Message, consume_batch}
use realtime_analytics_pipel.Storage.Loop.{
  Loop, total, Cycled, consume_raised, poll_raised, nothing_polled, inserted,
}
use realtime_analytics_pipel.Storage.Main.{
  Settings, Phase, testing_event, in_cycle, asleep, ended, Service, any_full, on_signal, event_set,
  stop, test_event, cancel, after_cycle, Own, tested, cycled, woke, cycle_cancelled,
  sleep_cancelled, Outside, signal, called, Run, here, own, outside,
}

-- the steps left once the shutdown event is set
abbrev pub rank : Phase → ℕ
rank (ended o) = 0
rank testing_event = 1
rank (asleep ms) = 2
rank in_cycle = 3

rank-le : (p : Phase) → rank p ≤ 3
rank-le (ended o) = omega arith
rank-le testing_event = omega arith
rank-le (asleep ms) = omega arith
rank-le in_cycle = omega arith

module _ {Row Other : Type 0} (settings : Settings) (parse : Row → Row) (limit : ℕ)
    (commit_offset : ℕ → ℕ → ℕ) (close_consumer close_client : Option (Outcome (Unit {0}))) where
  abbrev Step : Service Row Other → Service Row Other → Type 0
  Step s t = Own settings parse limit commit_offset close_consumer close_client s t

  abbrev Runs : Service Row Other → ℕ → Service Row Other → Type 0
  Runs s n t = Run settings parse limit commit_offset close_consumer close_client s n t

  rank-after_cycle :
      {ms : List (Message Row Other)} {l m : Loop Row Other}
      (c : Cycled commit_offset parse limit ms l m)
      → rank (after_cycle settings parse limit commit_offset c) < 3
  unfolding after_cycle
  rank-after_cycle (consume_raised e b n h x w) = omega arith
  rank-after_cycle (poll_raised e b h x w) = omega arith
  rank-after_cycle (nothing_polled batches b h z w) = omega arith
  rank-after_cycle (inserted batches b c succeeded h p r a w) =
      elim (Bool-cases
        (settings.storage_skip_sleep_if_full && any_full settings.storage_batch_size batches)) [
          | inl e ↦ rw e (omega arith)
          | inr e ↦ rw e (omega arith)
        ]

  -- a step of the coroutine, once the event is set
  Descends : Service Row Other → Service Row Other → Type 0
  Descends s t = (rank t.phase < rank s.phase) × (t.cycles ≡ s.cycles) × (t.shutdown ≡ true)

  Own-Descends : {s t : Service Row Other} → Step s t → s.shutdown ≡ true → Descends s t
  unfolding Descends test_event stop cancel
  Own-Descends {s} {t} (tested p w) d = rw (w, d, p) (omega arith, refl, refl)
  Own-Descends {s} {t} (cycled ms m p c w) d = rw (w, p) (rank-after_cycle c, refl, d)
  Own-Descends {s} {t} (woke ms p x w) d = rw (w, p) (omega arith, refl, d)
  Own-Descends {s} {t} (cycle_cancelled p x w) d = rw (w, p) (omega arith, refl, d)
  Own-Descends {s} {t} (sleep_cancelled ms p x w) d = rw (w, p) (omega arith, refl, d)

  Stays : Service Row Other → Service Row Other → Type 0
  Stays s t = (t.phase ≡ s.phase) × (t.cycles ≡ s.cycles) × (t.shutdown ≡ true)

  Outside-Stays : {s t : Service Row Other} → Outside s t → s.shutdown ≡ true → Stays s t
  unfolding Stays on_signal event_set
  Outside-Stays {s} (signal w) d = elim (Bool-cases s.signalled) [
    | inl e ↦ rw (w, e) (refl, refl, d)
    | inr e ↦ rw (w, e) (refl, refl, d)
  ]
  Outside-Stays (called p w) d = rw w (refl, refl, refl)

  descent :
      {s t : Service Row Other} {n : ℕ}
      → Runs s n t
      → s.shutdown ≡ true
      → (n + rank t.phase ≤ rank s.phase) × (t.cycles ≡ s.cycles) × (t.shutdown ≡ true)
  unfolding Descends Stays
  descent here d = (omega arith, refl, d)
  descent (own r st) d =
      let ih = descent r d in
      let h = Own-Descends st ih.2 in (omega (arith, ih.0, h.0), h.1 ∙ ih.1, h.2)
  descent {s} (outside {n} {t} {u} r st) d =
      let ih = descent r d in
      let h = Outside-Stays st ih.2 in
      (subst (λ p. n + rank p ≤ rank s.phase) (sym h.0) ih.0, h.1 ∙ ih.1, h.2)

  -- a poll that gives no message ends a cycle
  empty_cycle :
      (l : Loop Row Other) → Cycled commit_offset parse limit [] l (record l { log = l.log ++ [] })
  unfolding consume_batch total
  empty_cycle l = nothing_polled [] l.buffers refl refl refl

  pub progress :
      (t : Service Row Other)
      → ((o : Outcome (Unit {0})) × (t.phase ≡ ended o)) ⊎ ((u : Service Row Other) × Step t u)
  progress t = go t.phase t.cancelling refl refl
    where
      go :
          (p : Phase) (c : Bool)
          → t.phase ≡ p
          → t.cancelling ≡ c
          → ((o : Outcome (Unit {0})) × (t.phase ≡ ended o)) ⊎ ((u : Service Row Other) × Step t u)
      go (ended o) c h k = inl (o, h)
      go testing_event c h k = inr (_, tested h refl)
      go (asleep ms) false h k = inr (_, woke ms h k refl)
      go (asleep ms) true h k = inr (_, sleep_cancelled ms h k refl)
      go in_cycle false h k = inr (_, cycled [] _ h (empty_cycle t.completed) refl)
      go in_cycle true h k = inr (_, cycle_cancelled h k refl)

  -- Once the shutdown event is set no further cycle begins and the coroutine takes at most three more
  -- steps of its own, whatever signals come in between; and it can take a step as long as it has not
  -- ended.
  pub drains :
      {s t : Service Row Other} {n : ℕ}
      → Runs s n t
      → s.shutdown ≡ true
      → (n ≤ 3)
        × (t.cycles ≡ s.cycles)
        × (((o : Outcome (Unit {0})) × (t.phase ≡ ended o)) ⊎ ((u : Service Row Other) × Step t u))
  drains {s} {t} r d = let h = descent r d in (omega (arith, h.0, rank-le s.phase), h.1, progress t)
