-- ===== src/Cache/Worker/Rounds.antt =====
-- Whole rounds of the worker with nothing received in between, as sequences of steps.
use realtime_analytics_pipel.Prelude.{
  ℕ, zero, suc, ◌+◌, ◌≡◌, refl, Bool, true, false, Option, none, some, List, [], ◌∷◌, drop,
  Bool-cases, inl, inr, ◌⊎◌, if◌then◌else◌,
}
use realtime_analytics_pipel.Cache.Worker.{
  Settings, Phase, collecting, applying, committing, final_applying, final_committing, Worker, get,
  flush_due, loop_goes_on, collect, apply_done, commit_done, leave, final_apply_done,
  final_commit_done,
}
use realtime_analytics_pipel.Cache.Worker.Steps.{
  collected, applied, commit_ended, Reach, next, Reach-one,
}

-- what one round meets: the clock, and whether Redis and the commit succeed
pub record Tick : Type 0 where
  pub now : ℕ
  pub applies : Bool
  pub commits : Bool

module _ {Op : Type 0} (settings : Settings) (has_consumer : Bool) (commit_offset : ℕ → ℕ → ℕ) where
  abbrev pub at_commit : Tick → Phase → Worker Op → Worker Op
  at_commit tick (committing now) s = commit_done commit_offset now tick.commits s
  at_commit tick _ s = s

  abbrev pub at_apply : Tick → Phase → Worker Op → Worker Op
  at_apply tick (applying now) s =
      let t = apply_done has_consumer now tick.applies s in at_commit tick t.phase t
  at_apply tick _ s = s

  -- one round of the loop with nothing received in between
  pub round : Tick → Worker Op → Worker Op
  round tick s = let t = collect settings tick.now s in at_apply tick t.phase t

  abbrev pub at_final_commit : Tick → Phase → Worker Op → Worker Op
  at_final_commit tick final_committing s = final_commit_done commit_offset tick.commits s
  at_final_commit tick _ s = s

  abbrev pub at_final_apply : Tick → Phase → Worker Op → Worker Op
  at_final_apply tick final_applying s =
      let t = final_apply_done has_consumer tick.applies s in at_final_commit tick t.phase t
  at_final_apply tick _ s = s

  unfoldable pub final_flush : Tick → Worker Op → Worker Op
  final_flush tick s = let t = leave s in at_final_apply tick t.phase t

  -- the whole of the coroutine from the top of its loop; `none` is lack of fuel
  unfoldable pub run : ℕ → (ℕ → Tick) → ℕ → Worker Op → Option (Worker Op)
  unfolding round final_flush
  run zero ticks i s = none
  run (suc fuel) ticks i s = elim (loop_goes_on s) [
    | true ↦ run fuel ticks (i + 1) (round (ticks i) s)
    | false ↦ some (final_flush (ticks i) s)
  ]

  -- what the steps of one round do to the state, apart from what they write
  pub record IsMoved (s t : Worker Op) : Type 0 where
    pub stopped : t.stopped ≡ s.stopped
    pub queue : t.queue ≡ drop 1 s.queue
    pub dropped : t.dropped ≡ s.dropped
    pub reached : Reach settings has_consumer commit_offset s t

  commit_done-IsMoved :
      (tick : Tick) (now : ℕ) (s t : Worker Op)
      → t.phase ≡ committing now
      → IsMoved s t
      → IsMoved s (commit_done commit_offset now tick.commits t)
        × ((commit_done commit_offset now tick.commits t).phase ≡ collecting)
  unfolding commit_done
  commit_done-IsMoved tick now s t h m = (go tick.commits, refl)
    where
      go : (b : Bool) → IsMoved s (commit_done commit_offset now b t)
      go true = record {
        stopped = m.stopped;
        queue = m.queue;
        dropped = m.dropped;
        reached = next m.reached (commit_ended now true h refl);
      }
      go false = record {
        stopped = m.stopped;
        queue = m.queue;
        dropped = m.dropped;
        reached = next m.reached (commit_ended now false h refl);
      }

  apply_done-IsMoved :
      (now : ℕ) (b : Bool) (s t : Worker Op)
      → t.phase ≡ applying now
      → IsMoved s t
      → IsMoved s (apply_done has_consumer now b t)
        × (((apply_done has_consumer now b t).phase ≡ collecting)
            ⊎ ((apply_done has_consumer now b t).phase ≡ committing now))
  unfolding apply_done
  apply_done-IsMoved now true s t h m = elim (Bool-cases has_consumer) [
    | inl e ↦ (
      record {
        stopped = rw e m.stopped;
        queue = rw e m.queue;
        dropped = rw e m.dropped;
        reached = next m.reached (applied now true h refl);
      },
      inr (rw e),
    )
    | inr e ↦ (
      record {
        stopped = rw e m.stopped;
        queue = rw e m.queue;
        dropped = rw e m.dropped;
        reached = next m.reached (applied now true h refl);
      },
      inl (rw e),
    )
  ]
  apply_done-IsMoved now false s t h m = (
    record {
      stopped = m.stopped;
      queue = m.queue;
      dropped = m.dropped;
      reached = next m.reached (applied now false h refl);
    },
    inl refl,
  )

  collect_from :
      (now : ℕ) (s : Worker Op) (q : List Op)
      → s.queue ≡ q
      → s.phase ≡ collecting
      → let t = get q s in
        let u = if flush_due settings now t then record t { phase = applying now } else t in
        (u.stopped ≡ s.stopped)
        × (u.queue ≡ drop 1 q)
        × (u.dropped ≡ s.dropped)
        × ((u.phase ≡ collecting) ⊎ (u.phase ≡ applying now))
  unfolding get
  collect_from now s q e h = elim (Bool-cases (flush_due settings now (get q s))) [
    | inl due ↦ rw due (go1 q e)
    | inr later ↦ rw later (go2 q e)
  ]
    where
      go1 :
          (q : List Op)
          → s.queue ≡ q
          → let u = record (get q s) { phase = applying now } in
            (u.stopped ≡ s.stopped)
            × (u.queue ≡ drop 1 q)
            × (u.dropped ≡ s.dropped)
            × ((u.phase ≡ collecting) ⊎ (u.phase ≡ applying now))
      go1 [] e = (refl, e, refl, inr refl)
      go1 (x ∷ q) e = (refl, refl, refl, inr refl)

      go2 :
          (q : List Op)
          → s.queue ≡ q
          → let u = get q s in
            (u.stopped ≡ s.stopped)
            × (u.queue ≡ drop 1 q)
            × (u.dropped ≡ s.dropped)
            × ((u.phase ≡ collecting) ⊎ (u.phase ≡ applying now))
      go2 [] e = (refl, e, refl, inl h)
      go2 (x ∷ q) e = (refl, refl, refl, inl h)

  collect-IsMoved :
      (now : ℕ) (s : Worker Op)
      → s.phase ≡ collecting
      → loop_goes_on s ≡ true
      → IsMoved s (collect settings now s)
        × (((collect settings now s).phase ≡ collecting)
            ⊎ ((collect settings now s).phase ≡ applying now))
  unfolding collect
  collect-IsMoved now s h go =
      let c = collect_from now s s.queue refl h in
      (
        record {
          stopped = c.0;
          queue = c.1;
          dropped = c.2;
          reached = Reach-one settings has_consumer commit_offset (collected now h go refl);
        },
        c.3,
      )

  pub round-IsMoved :
      (tick : Tick) (s : Worker Op)
      → s.phase ≡ collecting
      → loop_goes_on s ≡ true
      → IsMoved s (round tick s) × ((round tick s).phase ≡ collecting)
  unfolding round
  round-IsMoved tick s h go =
      let (m, c) = collect-IsMoved tick.now s h go in
      elim c [
        | inl idle ↦ simp idle (m, refl)
        | inr due ↦
            let t = collect settings tick.now s in
            let (n, k) = apply_done-IsMoved tick.now tick.applies s t due m in
            simp due (elim k [
              | inl idle ↦ simp idle (n, refl)
              | inr more ↦ simp more (
                  commit_done-IsMoved tick tick.now s
                    (apply_done has_consumer tick.now tick.applies t) more n)
            ])
      ]
