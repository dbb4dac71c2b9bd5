-- ===== src/Storage/Inserts/Counts.antt =====
-- The semaphore, the in-flight gauge and the failure flag, in every interleaving of the tasks.
use realtime_analytics_pipel.Prelude.{
  ℕ, ◌+◌, ◌-◌, ◌*◌, ◌≤◌, ◌<◌, ◌≡◌, refl, ap, ◌∙◌, ◌&&◌, ◌||◌, Bool, true, false, not, List, [], ◌∷◌,
  ◌++◌, arith, ltb,
}
use realtime_analytics_pipel.Storage.Inserts.{
  Stage, created, waiting, inserting, sleeping, failed, skipped, Task, Shared, max_retries, Moved,
  Cycle, is_settled, begin, enter, insert_done, wake, TaskStep, began, entered, insert_ended, took,
  raised, woke, Step, step,
}

-- holds a place of the semaphore
abbrev pub running : Stage → ℕ
running (inserting a) = 1
running (sleeping a) = 1
running _ = 0

abbrev pub is_failed : Stage → Bool
is_failed failed = true
is_failed _ = false

abbrev pub is_skipped : Stage → Bool
is_skipped skipped = true
is_skipped _ = false

-- the attempts of a task stay below `max_retries`
abbrev pub attempts_fit : Stage → Bool
attempts_fit (inserting a) = ltb a max_retries
attempts_fit (sleeping a) = ltb 0 a && ltb a max_retries
attempts_fit _ = true

-- an upper bound for the steps that a task has left
abbrev pub steps_left : Stage → ℕ
steps_left created = 9
steps_left waiting = 8
steps_left (inserting a) = 7 - 2 * a
steps_left (sleeping a) = 8 - 2 * a
steps_left _ = 0

module _ {Row : Type 0} where
  abbrev pub total : (Stage → ℕ) → List (Task Row) → ℕ
  total f [] = 0
  total f (t ∷ ts) = f t.stage + total f ts

  abbrev pub some_task : (Stage → Bool) → List (Task Row) → Bool
  some_task p [] = false
  some_task p (t ∷ ts) = p t.stage || some_task p ts

  pub total-append :
      (f : Stage → ℕ) (xs ys : List (Task Row)) → total f (xs ++ ys) ≡ total f xs + total f ys
  total-append f [] ys = omega arith
  total-append f (x ∷ xs) ys = omega (arith, total-append f xs ys)

  pub some_task-append :
      (p : Stage → Bool) (xs ys : List (Task Row))
      → some_task p (xs ++ ys) ≡ (some_task p xs || some_task p ys)
  some_task-append p [] ys = refl
  some_task-append p (x ∷ xs) ys = ground (arith, some_task-append p xs ys)

  -- what a step of one task changes; the gauge is read where it counts the task itself
  pub record IsLawful (s : Shared Row) (t : Task Row) (m : Moved Row) : Type 0 where
    pub places : m.0.permits + running m.1.stage ≡ s.permits + running t.stage
    pub gauge :
        running t.stage ≤ s.in_flight_inserts
        → m.0.in_flight_inserts + running t.stage ≡ s.in_flight_inserts + running m.1.stage
    pub flag : m.0.any_insert_failed ≡ (s.any_insert_failed || is_failed m.1.stage)
    pub unsettled : is_settled t.stage ≡ false
    pub skip : is_skipped m.1.stage ≡ true → s.any_insert_failed ≡ true
    pub fits : attempts_fit t.stage ≡ true → attempts_fit m.1.stage ≡ true
    pub falls : attempts_fit t.stage ≡ true → steps_left m.1.stage < steps_left t.stage
    pub same : (m.1.topic ≡ t.topic) × (m.1.batch ≡ t.batch)

  pub TaskStep-IsLawful :
      (s : Shared Row) (t : Task Row) (m : Moved Row) → TaskStep s t m → IsLawful s t m
  unfolding begin enter insert_done wake
  TaskStep-IsLawful s t m (began h e) = rw e (record {
    places = ground arith;
    gauge = λ g. ground arith;
    flag = ground arith;
    unsettled = rw h refl;
    skip = ground arith;
    fits = λ f. ground arith;
    falls = λ f. ground arith;
    same = ground arith;
  })
  TaskStep-IsLawful s t m (entered h p e) = rw e (record {
    places = ground arith;
    gauge = λ g. ground arith;
    flag = ground arith;
    unsettled = rw h refl;
    skip = ground arith;
    fits = λ f. ground arith;
    falls = λ f. ground arith;
    same = ground arith;
  })
  TaskStep-IsLawful s t m (insert_ended a took h e) = rw e (record {
    places = ground arith;
    gauge = λ g. ground arith;
    flag = ground arith;
    unsettled = rw h refl;
    skip = ground arith;
    fits = λ f. ground arith;
    falls = λ f. ground arith;
    same = ground arith;
  })
  TaskStep-IsLawful s t m (insert_ended a (raised kept) h e) = rw e (record {
    places = ground arith;
    gauge = λ g. ground arith;
    flag = ground arith;
    unsettled = rw h refl;
    skip = ground arith;
    fits = λ f. ground arith;
    falls = λ f. ground arith;
    same = ground arith;
  })
  TaskStep-IsLawful s t m (woke a h e) = rw e (record {
    places = ground arith;
    gauge = λ g. ground arith;
    flag = ground arith;
    unsettled = rw h refl;
    skip = ground arith;
    fits = λ f. ground arith;
    falls = λ f. ground arith;
    same = ground arith;
  })

  pub record IsSound (limit : ℕ) (c : Cycle Row) : Type 0 where
    -- every place of the semaphore is free or held by a task that inserts
    pub places : c.shared.permits + total running c.tasks ≡ limit
    pub gauge : c.shared.in_flight_inserts ≡ total running c.tasks
    -- the flag is up exactly if some task has failed
    pub flag : c.shared.any_insert_failed ≡ some_task is_failed c.tasks
    pub skip : some_task is_skipped c.tasks ≡ true → c.shared.any_insert_failed ≡ true
    pub fits : some_task (λ st. not (attempts_fit st)) c.tasks ≡ false

  pub Step-IsSound : (limit : ℕ) (c d : Cycle Row) → Step c d → IsSound limit c → IsSound limit d
  Step-IsSound limit c d (step xs ys t m split st e) i =
      let l = TaskStep-IsLawful c.shared t m st in
      let p = λ (q : Stage → Bool). ap (some_task q) split ∙ some_task-append q xs (t ∷ ys) in
      let q = λ (q : Stage → Bool). some_task-append q xs (m.1 ∷ ys) in
      let n = ap (total running) split ∙ total-append running xs (t ∷ ys) in
      let n' = total-append running xs (m.1 ∷ ys) in
      let unfit = λ (st : Stage). not (attempts_fit st) in
      let fit : attempts_fit t.stage ≡ true = ground (arith, i.fits, p unfit) in
      rw e (record {
        places = omega (arith, i.places, l.places, n, n');
        gauge = omega (arith, i.gauge, l.gauge, n, n');
        flag = ground (arith, i.flag, l.flag, p is_failed, q is_failed, l.unsettled);
        skip = λ h. ground (arith, i.skip, l.flag, l.skip, p is_skipped, q is_skipped);
        fits = ground (arith, i.fits, p unfit, q unfit, l.fits fit);
      })
