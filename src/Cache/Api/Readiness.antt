-- ===== src/Cache/Api/Readiness.antt =====
-- When the cache service says that it is ready.
use mathlib.Core.Path.{subst}
use realtime_analytics_pipel.Prelude.{
  ℕ, ◌≡◌, refl, sym, ap, ◌∙◌, Bool, true, false, Option, some, List, [], ◌∷◌, ◌++◌, not,
  if◌then◌else◌,
}
use realtime_analytics_pipel.Cache.Worker.{
  Settings, Worker, is_empty, receive, wait_in_put, put_done, get, collect, flush_due, apply_done,
  commit_done, commit, leave, final_apply_done, final_commit_done,
}
use realtime_analytics_pipel.Cache.Worker.Steps as Steps
use realtime_analytics_pipel.Cache.Worker.Steps.{
  received, waits_in_put, put_ended, told_to_stop, collected, applied, commit_ended, left,
  final_applied, final_commit_ended,
}
use realtime_analytics_pipel.Cache.Main.{
  Service, up, Step, started, start_failed, start_cancelled, worked, loop_ended, loop_cancelled,
  drained, drain_cancelled, consumer_stopped, stop_cancelled, shutdown, closes, Run, here, next,
}
use realtime_analytics_pipel.Cache.Api.{Response, answered, refused, Status, readyz}

-- what `/readyz` answers after the messages of a log have been handled
abbrev pub ready_after {ℓ} : {A : Type ℓ} → List A → Response Status
ready_after [] = refused 503 "not ready"
ready_after (x ∷ xs) = answered (record { status = "ready" })

module _ {Op : Type 0} where
  abbrev IsMarked : Worker Op → Type 0
  IsMarked w = w.ready ≡ not (is_empty w.log)

  not_empty : (xs : List (Option Op)) (x : Option Op) → is_empty (xs ++ (x ∷ [])) ≡ false
  not_empty [] x = refl
  not_empty (y ∷ ys) x = refl

  IsMarked-if :
      (b : Bool) (w v : Worker Op) → IsMarked w → IsMarked v → IsMarked (if b then w else v)
  IsMarked-if true w v h k = h
  IsMarked-if false w v h k = k

  IsMarked-get : (q : List Op) (w : Worker Op) → IsMarked w → IsMarked (get q w)
  unfolding get
  IsMarked-get [] w h = h
  IsMarked-get (x ∷ xs) w h = h

  IsMarked-commit :
      (commit_offset : ℕ → ℕ → ℕ) (b : Bool) (w : Worker Op)
      → IsMarked w
      → IsMarked (commit commit_offset b w)
  IsMarked-commit commit_offset true w h = h
  IsMarked-commit commit_offset false w h = h

  module _ (settings : Settings) (commit_offset : ℕ → ℕ → ℕ) where
    Step-IsMarked :
        {w v : Worker Op} → Steps.Step settings true commit_offset w v → IsMarked w → IsMarked v
    unfolding receive wait_in_put put_done collect apply_done commit_done leave final_apply_done
        final_commit_done
    Step-IsMarked {w} (received op s r n e) h =
        subst IsMarked (sym e) (sym (ap not (not_empty w.log op)))
    Step-IsMarked (waits_in_put op s r n e) h = subst IsMarked (sym e) h
    Step-IsMarked {w} (put_ended op s r n e) h =
        subst IsMarked (sym e) (sym (ap not (not_empty w.log (some op))))
    Step-IsMarked (told_to_stop e) h = subst IsMarked (sym e) h
    Step-IsMarked {w} (collected now p g e) h =
        let seen = IsMarked-get w.queue w h in
        subst IsMarked (sym e) (IsMarked-if (flush_due settings now (get w.queue w)) _ _ seen seen)
    Step-IsMarked (applied now true p e) h = subst IsMarked (sym e) h
    Step-IsMarked (applied now false p e) h = subst IsMarked (sym e) h
    Step-IsMarked {w} (commit_ended now b p e) h =
        subst IsMarked (sym e) (IsMarked-commit commit_offset b w h)
    Step-IsMarked {w} (left p g e) h =
        subst IsMarked (sym e) (IsMarked-if (is_empty w.batch) _ _ h h)
    Step-IsMarked (final_applied true p e) h = subst IsMarked (sym e) h
    Step-IsMarked (final_applied false p e) h = subst IsMarked (sym e) h
    Step-IsMarked {w} (final_commit_ended b p e) h =
        subst IsMarked (sym e) (IsMarked-commit commit_offset b w h)

    service_step :
        {s t : Service Op} → Step settings commit_offset s t → IsMarked s.worker → IsMarked t.worker
    service_step (worked v st h c a w) i =
        subst (λ u. IsMarked u.worker) (sym w) (Step-IsMarked st i)
    service_step (started h w) i = subst (λ u. IsMarked u.worker) (sym w) i
    service_step (start_failed e h x w) i = subst (λ u. IsMarked u.worker) (sym w) i
    service_step (start_cancelled h r w) i = subst (λ u. IsMarked u.worker) (sym w) i
    service_step (loop_ended o h w) i = subst (λ u. IsMarked u.worker) (sym w) i
    service_step (loop_cancelled h r w) i = subst (λ u. IsMarked u.worker) (sym w) i
    service_step (drained o h f w) i = subst (λ u. IsMarked u.worker) (sym w) i
    service_step (drain_cancelled o h r w) i = subst (λ u. IsMarked u.worker) (sym w) i
    service_step (consumer_stopped o r h w) i = subst (λ u. IsMarked u.worker) (sym w) i
    service_step (stop_cancelled o h r w) i = subst (λ u. IsMarked u.worker) (sym w) i
    service_step (shutdown h w) i = subst (λ u. IsMarked u.worker) (sym w) i
    service_step (closes o r h d c w) i = subst (λ u. IsMarked u.worker) (sym w) i

    Run-IsMarked :
        (began : ℕ) {s : Service Op} → Run settings commit_offset (up began) s → IsMarked s.worker
    Run-IsMarked began here = refl
    Run-IsMarked began (next r st) = service_step st (Run-IsMarked began r)

    readyz-log : (xs : List (Option Op)) → readyz (not (is_empty xs)) ≡ ready_after xs
    unfolding readyz
    readyz-log [] = refl
    readyz-log (x ∷ xs) = refl

    -- In every state that the service can reach, `/readyz` answers that it is ready exactly when the consume
    -- loop has handled a message: before the first one it is not ready although the consumer has started, and
    -- after it the service stays ready, also when the consume loop has ended.
    pub readyz-Run :
        (began : ℕ) {s : Service Op}
        → Run settings commit_offset (up began) s
        → readyz s.worker.ready ≡ ready_after s.worker.log
    readyz-Run began {s} r = ap readyz (Run-IsMarked began r) ∙ readyz-log s.worker.log
