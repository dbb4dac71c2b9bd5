-- ===== src/Storage/Inserts/Safety.antt =====
-- What a cycle has inserted when `gather` returns, and that it returns.
use mathlib.Core.List.{append-nil, append_assoc, Perm, perm_append_comm}
use mathlib.Core.List.Perm
use mathlib.Core.Path.{subst}
use native.Mathlib.Nat.{add-zero}
use realtime_analytics_pipel.Prelude.{
  ℕ, ◌≡◌, refl, sym, ap, ◌∙◌, ◌⊎◌, inl, inr, true, false, not, List, [], ◌∷◌, ◌++◌, String, arith,
  All, All-append,
}
use realtime_analytics_pipel.Storage.Inserts.{
  Stage, stored, Task, Shared, Moved, Cycle, begin, enter, insert_done, wake, TaskStep, began,
  entered, insert_ended, took, raised, woke, Step, step, Reach, here, next, create_tasks,
  all_settled,
}
use realtime_analytics_pipel.Storage.Inserts.Counts.{
  running, is_failed, is_skipped, attempts_fit, total, some_task, IsSound, Step-IsSound,
}

perm_step :
    {A : Type 0} (l xs own ys : List A) → Perm l (xs ++ ys) → Perm (l ++ own) (xs ++ (own ++ ys))
perm_step l xs own ys p =
    Perm.trans (Perm.append_right own p)
      (rw (append_assoc xs ys own) (Perm.append_left xs (perm_append_comm ys own)))

abbrev pub Jobs : Type 0 → Type 0
Jobs Row = List (String × List Row)

module _ {Row : Type 0} where
  abbrev pub job : Task Row → String × List Row
  job t = (t.topic, t.batch)

  abbrev pub jobs : List (Task Row) → Jobs Row
  jobs [] = []
  jobs (t ∷ ts) = job t ∷ jobs ts

  -- the batch of a task, if it is stored
  abbrev pub taken : Stage → String × List Row → Jobs Row
  taken stored j = j ∷ []
  taken _ j = []

  abbrev pub taken_all : List (Task Row) → Jobs Row
  taken_all [] = []
  taken_all (t ∷ ts) = taken t.stage (job t) ++ taken_all ts

  taken_all-append : (xs ys : List (Task Row)) → taken_all (xs ++ ys) ≡ taken_all xs ++ taken_all ys
  taken_all-append [] ys = refl
  taken_all-append (x ∷ xs) ys =
      rw (taken_all-append xs ys) (sym (append_assoc (taken x.stage (job x)) _ _))

  jobs-append : (xs ys : List (Task Row)) → jobs (xs ++ ys) ≡ jobs xs ++ jobs ys
  jobs-append [] ys = refl
  jobs-append (x ∷ xs) ys = ap (◌∷◌ (job x)) (jobs-append xs ys)

  -- a step of a task adds its batch to those inserted exactly when the task gets stored
  TaskStep-inserted :
      (s : Shared Row) (t : Task Row) (m : Moved Row)
      → TaskStep s t m
      → (m.0.inserted ≡ s.inserted ++ taken m.1.stage (job m.1))
        × (taken t.stage (job t) ≡ [])
        × (job m.1 ≡ job t)
  unfolding begin enter insert_done wake
  TaskStep-inserted s t m (began h e) =
      rw e (ground (arith, append-nil s.inserted), ground arith, ground arith)
  TaskStep-inserted s t m (entered h p e) =
      rw e (ground (arith, append-nil s.inserted), ground arith, ground arith)
  TaskStep-inserted s t m (insert_ended a took h e) =
      rw e (ground (arith, append-nil s.inserted), ground arith, ground arith)
  TaskStep-inserted s t m (insert_ended a (raised kept) h e) =
      rw e (ground (arith, append-nil s.inserted), ground arith, ground arith)
  TaskStep-inserted s t m (woke a h e) =
      rw e (ground (arith, append-nil s.inserted), ground arith, ground arith)

  pub record IsFaithful (created_jobs : Jobs Row) (c : Cycle Row) : Type 0 where
    pub same : jobs c.tasks ≡ created_jobs
    pub exact : Perm c.shared.inserted (taken_all c.tasks)

  Step-IsFaithful : (js : Jobs Row) (c d : Cycle Row) → Step c d → IsFaithful js c → IsFaithful js d
  Step-IsFaithful js c d (step xs ys t m split st e) i =
      let (ins, fresh, own) = TaskStep-inserted c.shared t m st in
      let before : taken_all c.tasks ≡ taken_all xs ++ taken_all ys =
        ap taken_all split
        ∙ taken_all-append xs (t ∷ ys)
        ∙ ap (λ (o : Jobs Row). taken_all xs ++ (o ++ taken_all ys)) fresh in
      rw e (record {
        same =
            rw (jobs-append xs (m.1 ∷ ys), own)
              (sym (jobs-append xs (t ∷ ys)) ∙ sym (ap jobs split) ∙ i.same);
        exact =
            rw (ins, taken_all-append xs (m.1 ∷ ys))
              (perm_step c.shared.inserted (taken_all xs) (taken m.1.stage (job m.1)) (taken_all ys)
                (rw (← before) i.exact));
      })

  -- a step of a task adds nothing to the batches taken unseen, or its own batch
  TaskStep-unseen :
      (s : Shared Row) (t : Task Row) (m : Moved Row)
      → TaskStep s t m
      → (m.0.unseen ≡ s.unseen) ⊎ (m.0.unseen ≡ s.unseen ++ job t ∷ [])
  unfolding begin enter insert_done wake
  TaskStep-unseen s t m (began h e) = inl (rw e (ground arith))
  TaskStep-unseen s t m (entered h p e) = inl (rw e refl)
  TaskStep-unseen s t m (insert_ended a took h e) = inl (rw e refl)
  TaskStep-unseen s t m (insert_ended a (raised true) h e) = inr (rw e (ground arith))
  TaskStep-unseen s t m (insert_ended a (raised false) h e) =
      inl (rw e (ground (arith, append-nil s.unseen)))
  TaskStep-unseen s t m (woke a h e) = inl (rw e refl)

  abbrev pub IsAmong : String × List Row → Jobs Row → Type 0
  IsAmong j js = (before : Jobs Row) × (after : Jobs Row) × (js ≡ before ++ j ∷ after)

  -- the batches taken unseen are batches of the cycle
  abbrev IsKnown : Jobs Row → Cycle Row → Type 0
  IsKnown js c = All (λ j. IsAmong j js) c.shared.unseen

  Step-IsKnown :
      (js : Jobs Row) (c d : Cycle Row) → Step c d → IsFaithful js c → IsKnown js c → IsKnown js d
  Step-IsKnown js c d (step xs ys t m split st e) i k =
      let known = λ (l : Jobs Row). All (λ j. IsAmong j js) l in
      let among : IsAmong (job t) js =
        (jobs xs, jobs ys, sym i.same ∙ ap jobs split ∙ jobs-append xs (t ∷ ys)) in
      subst (λ x. IsKnown js x) (sym e)
        (elim (TaskStep-unseen c.shared t m st) [
          | inl same ↦ subst known (sym same) k
          | inr more ↦
              subst known (sym more)
                (All-append (λ j. IsAmong j js) c.shared.unseen (job t ∷ []) k (among, tt))
        ])

  settled_taken :
      (ts : List (Task Row))
      → all_settled ts ≡ true
      → some_task is_failed ts ≡ false
      → some_task is_skipped ts ≡ false
      → taken_all ts ≡ jobs ts
  settled_taken [] a f k = refl
  settled_taken (t ∷ ts) a f k =
      let rest = settled_taken ts (ground arith) (ground arith) (ground arith) in
      ground (arith, rest)

  settled_running : (ts : List (Task Row)) → all_settled ts ≡ true → total running ts ≡ 0
  settled_running [] a = refl
  settled_running (t ∷ ts) a = let rest = settled_running ts (ground arith) in ground (arith, rest)

  -- the batches that are not empty
  unfoldable pub non_empty : Jobs Row → Jobs Row
  non_empty [] = []
  non_empty ((topic, []) ∷ rest) = non_empty rest
  non_empty ((topic, r ∷ rs) ∷ rest) = (topic, r ∷ rs) ∷ non_empty rest

  -- the start of a cycle
  abbrev pub start : ℕ → Jobs Row → Cycle Row
  start limit batches = record {
    shared = record {
      any_insert_failed = false;
      permits = limit;
      inserted = [];
      unseen = [];
      in_flight_inserts = 0;
      storage_batches = 0;
      storage_records = 0;
      storage_errors = 0;
      storage_retries = 0;
    };
    tasks = create_tasks batches;
  }

  pub jobs-create_tasks : (b : Jobs Row) → jobs (create_tasks b) ≡ non_empty b
  unfolding create_tasks non_empty
  jobs-create_tasks [] = refl
  jobs-create_tasks ((topic, []) ∷ rest) = jobs-create_tasks rest
  jobs-create_tasks ((topic, r ∷ rs) ∷ rest) = ap (◌∷◌ (topic, r ∷ rs)) (jobs-create_tasks rest)

  fresh_tasks :
      (b : Jobs Row)
      → (total running (create_tasks b) ≡ 0)
        × (some_task is_failed (create_tasks b) ≡ false)
        × (some_task is_skipped (create_tasks b) ≡ false)
        × (taken_all (create_tasks b) ≡ [])
        × (some_task (λ st. not (attempts_fit st)) (create_tasks b) ≡ false)
  unfolding create_tasks
  fresh_tasks [] = (refl, refl, refl, refl, refl)
  fresh_tasks ((topic, []) ∷ rest) = fresh_tasks rest
  fresh_tasks ((topic, r ∷ rs) ∷ rest) =
      let f = fresh_tasks rest in (omega (arith, f.0), f.1, f.2, f.3, f.4)

  pub Reach-IsSound :
      (limit : ℕ) (b : Jobs Row) {c : Cycle Row} → Reach (start limit b) c → IsSound limit c
  Reach-IsSound limit b here =
      let f = fresh_tasks b in
      record {
        places = rw f.0 (add-zero limit);
        gauge = sym f.0;
        flag = sym f.1;
        skip = λ h. cc (h, f.2);
        fits = f.4;
      }
  Reach-IsSound limit b (next {d} {e} r st) = Step-IsSound limit d e st (Reach-IsSound limit b r)

  pub Reach-IsFaithful :
      (limit : ℕ) (b : Jobs Row) {c : Cycle Row}
      → Reach (start limit b) c
      → IsFaithful (non_empty b) c
  Reach-IsFaithful limit b here = record {
    same = jobs-create_tasks b;
    exact = rw (fresh_tasks b).3 (Perm.refl []);
  }
  Reach-IsFaithful limit b (next {d} {e} r st) =
      Step-IsFaithful (non_empty b) d e st (Reach-IsFaithful limit b r)

  Reach-IsKnown :
      (limit : ℕ) (b : Jobs Row) {c : Cycle Row} → Reach (start limit b) c → IsKnown (non_empty b) c
  Reach-IsKnown limit b here = tt
  Reach-IsKnown limit b (next {d} {e} r st) =
      Step-IsKnown (non_empty b) d e st (Reach-IsFaithful limit b r) (Reach-IsKnown limit b r)

  -- In every interleaving of the insert tasks, when `gather` returns: every place of the semaphore is
  -- free again and the in-flight gauge is 0; and if no insert has failed for good, so that the offsets
  -- may be committed, the inserts that have returned are those of exactly the non-empty batches, each once, in
  -- some order. Whatever ClickHouse has taken besides, from inserts that raised, are copies of these batches.
  pub commit_after_inserts :
      (limit : ℕ) (b : Jobs Row) {c : Cycle Row}
      → Reach (start limit b) c
      → all_settled c.tasks ≡ true
      → (c.shared.permits ≡ limit)
        × (c.shared.in_flight_inserts ≡ 0)
        × (c.shared.any_insert_failed ≡ false → Perm c.shared.inserted (non_empty b))
        × All (λ j. IsAmong j (non_empty b)) c.shared.unseen
  commit_after_inserts limit b {c} r settled =
      let i = Reach-IsSound limit b r in
      let f = Reach-IsFaithful limit b r in
      let z = settled_running c.tasks settled in
      (
        omega (arith, i.places, z),
        i.gauge ∙ z,
        λ whole. rw (← f.same) (
            rw (settled_taken c.tasks settled (sym i.flag ∙ whole) (ground (arith, i.skip))) at
              f.exact),
        Reach-IsKnown limit b r,
      )
