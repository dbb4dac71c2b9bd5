-- ===== src/Storage/Inserts/Failures.antt =====
-- A cycle with an insert that has failed for good has counted an error.
use mathlib.Core.Path.{subst}
use realtime_analytics_pipel.Prelude.{ℕ, ◌<◌, ◌≡◌, sym, true, arith}
use realtime_analytics_pipel.Storage.Inserts.{
  Task, Shared, Moved, Cycle, begin, enter, insert_done, wake, TaskStep, began, entered,
  insert_ended, took, raised, woke, step, Reach, here, next,
}
use realtime_analytics_pipel.Storage.Inserts.Safety.{Jobs, start}

module _ {Row : Type 0} where
  abbrev IsCounted : Shared Row → Type 0
  IsCounted s = s.any_insert_failed ≡ true → 0 < s.storage_errors

  TaskStep-IsCounted :
      (s : Shared Row) (t : Task Row) (m : Moved Row) → TaskStep s t m → IsCounted s → IsCounted m.0
  unfolding begin enter insert_done wake
  TaskStep-IsCounted s t m (began h e) i = rw e (ground (arith, i))
  TaskStep-IsCounted s t m (entered h p e) i = rw e i
  TaskStep-IsCounted s t m (insert_ended a took h e) i = rw e i
  TaskStep-IsCounted s t m (insert_ended a (raised kept) h e) i = rw e (ground (arith, i))
  TaskStep-IsCounted s t m (woke a h e) i = rw e i

  counted :
      (limit : ℕ) (b : Jobs Row) {c : Cycle Row} → Reach (start limit b) c → IsCounted c.shared
  counted limit b here = λ h. cc
  counted limit b (next {d} r (step xs ys t m split st e)) =
      subst (λ (x : Cycle Row). IsCounted x.shared) (sym e)
        (TaskStep-IsCounted d.shared t m st (counted limit b r))

  pub storage_errors-lt :
      (limit : ℕ) (b : Jobs Row) {c : Cycle Row}
      → Reach (start limit b) c
      → c.shared.any_insert_failed ≡ true
      → 0 < c.shared.storage_errors
  storage_errors-lt limit b r h = counted limit b r h
