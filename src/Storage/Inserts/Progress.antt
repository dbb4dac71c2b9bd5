-- ===== src/Storage/Inserts/Progress.antt =====
-- The tasks of a cycle never deadlock, and end after a bounded number of steps.
use mathlib.Core.List.{append_assoc}
use realtime_analytics_pipel.Prelude.{
  ℕ, suc, ◌+◌, ◌*◌, ◌≤◌, ◌<◌, ◌≡◌, refl, sym, ap, ◌∙◌, true, false, not, List, [], ◌∷◌, ◌++◌, arith,
  inl, inr, ◌⊎◌, length,
}
use realtime_analytics_pipel.Storage.Inserts.{
  Stage, created, waiting, inserting, sleeping, stored, failed, skipped, Task, Moved, Cycle,
  is_settled, begin, enter, insert_done, wake, TaskStep, began, entered, insert_ended, took, woke,
  Step, step, Reach, here, next, create_tasks, all_settled,
}
use realtime_analytics_pipel.Storage.Inserts.Counts.{
  running, attempts_fit, steps_left, total, some_task, total-append, some_task-append,
  TaskStep-IsLawful, IsSound,
}
use realtime_analytics_pipel.Storage.Inserts.Safety.{Jobs, start, non_empty, Reach-IsSound}

module _ {Row : Type 0} where
  abbrev pub steps : {c d : Cycle Row} → Reach c d → ℕ
  steps here = 0
  steps (next r st) = suc (steps r)

  Step-falls :
      (limit : ℕ) (c d : Cycle Row)
      → Step c d
      → IsSound limit c
      → total steps_left d.tasks < total steps_left c.tasks
  Step-falls limit c d (step xs ys t m split st e) i =
      let l = TaskStep-IsLawful c.shared t m st in
      let unfit = λ (st : Stage). not (attempts_fit st) in
      let p = ap (some_task unfit) split ∙ some_task-append unfit xs (t ∷ ys) in
      let fit : attempts_fit t.stage ≡ true = ground (arith, i.fits, p) in
      let n = ap (total steps_left) split ∙ total-append steps_left xs (t ∷ ys) in
      rw e (omega (arith, l.falls fit, n, total-append steps_left xs (m.1 ∷ ys)))

  pub record IsWaiting (c : Cycle Row) : Type 0 where
    pub before : List (Task Row)
    pub after : List (Task Row)
    pub task : Task Row
    pub split : c.tasks ≡ before ++ task ∷ after
    pub waits : task.stage ≡ waiting

  abbrev pub Moves : Cycle Row → Type 0
  Moves c = (d : Cycle Row) × Step c d

  -- no task of the list holds a place, and they have all settled or one waits for a place
  abbrev Idle : Cycle Row → List (Task Row) → Type 0
  Idle c ys = (total running ys ≡ 0) × ((all_settled ys ≡ true) ⊎ IsWaiting c)

  settled-Idle :
      (c : Cycle Row) (ys : List (Task Row)) (t : Task Row)
      → is_settled t.stage ≡ true
      → Idle c ys
      → Idle c (t ∷ ys)
  settled-Idle c ys t h (z, inl a) = (ground arith, inl (rw h a))
  settled-Idle c ys t h (z, inr w) = (ground arith, inr w)

  module _ (c : Cycle Row) (xs ys : List (Task Row)) (t : Task Row)
      (split : c.tasks ≡ xs ++ t ∷ ys) where
    moves : (m : Moved Row) → TaskStep c.shared t m → Moves c
    moves m st = (record { shared = m.0; tasks = xs ++ m.1 ∷ ys }, step xs ys t m split st refl)

    Stage-next : (st : Stage) → t.stage ≡ st → Moves c ⊎ Idle c ys → Moves c ⊎ Idle c (t ∷ ys)
    Stage-next created e n = inl (moves (begin c.shared t) (began e refl))
    Stage-next (inserting a) e n =
        inl (moves (insert_done a took c.shared t) (insert_ended a took e refl))
    Stage-next (sleeping a) e n = inl (moves (wake a c.shared t) (woke a e refl))
    Stage-next waiting e (inl m) = inl m
    Stage-next waiting e (inr (z, _)) =
        inr (
          ground arith,
          inr (record { before = xs; after = ys; task = t; split = split; waits = e }),
        )
    Stage-next stored e (inl m) = inl m
    Stage-next stored e (inr i) = inr (settled-Idle c ys t (rw e) i)
    Stage-next failed e (inl m) = inl m
    Stage-next failed e (inr i) = inr (settled-Idle c ys t (rw e) i)
    Stage-next skipped e (inl m) = inl m
    Stage-next skipped e (inr i) = inr (settled-Idle c ys t (rw e) i)

  look : (c : Cycle Row) (xs ys : List (Task Row)) → c.tasks ≡ xs ++ ys → Moves c ⊎ Idle c ys
  look c xs [] split = inr (refl, inl refl)
  look c xs (t ∷ ys) split =
      Stage-next c xs ys t split t.stage refl
        (look c (xs ++ t ∷ []) ys (split ∙ sym (append_assoc xs (t ∷ []) ys)))

  IsSound-Moves :
      (limit : ℕ) (c : Cycle Row)
      → IsSound limit c
      → 0 < limit
      → all_settled c.tasks ≡ false
      → Moves c
  IsSound-Moves limit c i h open_task = go (look c [] c.tasks refl)
    where
      go : Moves c ⊎ Idle c c.tasks → Moves c
      go (inl m) = m
      go (inr (z, inl a)) = cc
      go (inr (z, inr w)) =
          moves c w.before w.after w.task w.split (enter c.shared w.task)
            (entered w.waits (omega (arith, i.places, z)) refl)

  steps-add-le :
      (limit : ℕ) (b : Jobs Row) {c : Cycle Row} (r : Reach (start limit b) c)
      → steps r + total steps_left c.tasks ≤ total steps_left (create_tasks b)
  steps-add-le limit b here = omega arith
  steps-add-le limit b (next {d} {e} r st) =
      omega (arith, steps-add-le limit b r, Step-falls limit d e st (Reach-IsSound limit b r))

  total-create_tasks : (b : Jobs Row) → total steps_left (create_tasks b) ≡ 9 * length (non_empty b)
  unfolding create_tasks non_empty
  total-create_tasks [] = refl
  total-create_tasks ((topic, []) ∷ rest) = total-create_tasks rest
  total-create_tasks ((topic, r ∷ rs) ∷ rest) = omega (arith, total-create_tasks rest)

  -- With at least one place in the semaphore, `gather` returns however the tasks interleave and
  -- whatever fails: no run takes more than 9 steps for each non-empty batch, and as long as some task
  -- has not settled some task can go on.
  pub gather_returns :
      (limit : ℕ) (b : Jobs Row) {c : Cycle Row} (r : Reach (start limit b) c)
      → 0 < limit
      → (steps r ≤ 9 * length (non_empty b)) × (all_settled c.tasks ≡ false → Moves c)
  gather_returns limit b {c} r h = (
    omega (arith, steps-add-le limit b r, total-create_tasks b),
    IsSound-Moves limit c (Reach-IsSound limit b r) h,
  )
