-- ===== src/Storage/Main/Ends.antt =====
-- How the storage service ends, and what it has stored until then.
use mathlib.Core.Path.{subst}
use realtime_analytics_pipel.Prelude.{
  ℕ, suc, ◌≡◌, refl, sym, ap, ◌∙◌, Bool, true, false, ◌&&◌, Option, none, some, List, String, Exn,
  cancelled_error, Outcome, ok, raise, is_exception, ◌>>=◌, if◌then◌else◌, Bool-cases, inl, inr,
  ◌⊎◌,
}
use realtime_analytics_pipel.Storage.Consumer.{Message}
use realtime_analytics_pipel.Storage.Loop.{
  Loop, Cycled, consume_raised, poll_raised, nothing_polled, inserted,
}
use realtime_analytics_pipel.Storage.Loop.Ledger
use realtime_analytics_pipel.Storage.Loop.Ledger.{History, IsConserved, before_cycles}
use realtime_analytics_pipel.Storage.Loop.Conserved.{History-IsConserved}
use realtime_analytics_pipel.Storage.Loop.Rows.{IsDistinct}
use realtime_analytics_pipel.Storage.Main.{
  Settings, in_cycle, ended, Service, close_safe, run_ends, any_full, on_signal, event_set, stop,
  test_event, cancel, after_cycle, Own, tested, cycled, woke, cycle_cancelled, sleep_cancelled,
  Outside, signal, called, Run, here, own, outside, started,
}

ended_injective : {o p : Outcome (Unit {0})} → ended o ≡ ended p → o ≡ p
ended_injective {o} h = ap (λ q. elim q [ ended r ↦ r | _ ↦ o ]) h

-- closing an object raises nothing that `except Exception` would have caught
close_safe-cases :
    (c : Bool) (x : Option (Outcome (Unit {0})))
    → (close_safe c x ≡ ok tt) ⊎ ((e : Exn) × (close_safe c x ≡ raise e) × (is_exception e ≡ false))
unfolding close_safe
close_safe-cases c none = inl refl
close_safe-cases true (some x) = inr (cancelled_error, refl, refl)
close_safe-cases false (some (ok u)) = inl refl
close_safe-cases false (some (raise e)) = elim (Bool-cases (is_exception e)) [
  | inl x ↦ inl (rw x refl)
  | inr x ↦ inr (e, rw x refl, x)
]

run_ends-raise : (e : Exn) → is_exception e ≡ false → run_ends (raise e) ≡ ok tt
unfolding run_ends
run_ends-raise e h = rw h refl

-- whatever closing does, `_run` returns when the loop has ended or is cancelled
ends_well :
    (c : Bool) (a b : Option (Outcome (Unit {0}))) (o : Outcome (Unit {0}))
    → run_ends o ≡ ok tt
    → run_ends (close_safe c a >>= (λ u. close_safe c b >>= (λ v. o))) ≡ ok tt
ends_well c a b o h = elim (close_safe-cases c a) [
  | inr (e, raised, not_caught) ↦ rw raised (run_ends-raise e not_caught)
  | inl closed ↦ rw closed (elim (close_safe-cases c b) [
    | inr (e, raised, not_caught) ↦ rw raised (run_ends-raise e not_caught)
    | inl closed ↦ rw closed h
  ])
]

module _ {Row Other : Type 0} (settings : Settings) (parse : Row → Row) (limit : ℕ)
    (commit_offset : ℕ → ℕ → ℕ) (close_consumer close_client : Option (Outcome (Unit {0}))) where
  abbrev Step : Service Row Other → Service Row Other → Type 0
  Step s t = Own settings parse limit commit_offset close_consumer close_client s t

  abbrev Runs : Service Row Other → ℕ → Service Row Other → Type 0
  Runs s n t = Run settings parse limit commit_offset close_consumer close_client s n t

  -- what holds of the service while it runs
  record IsSound (l : Loop Row Other) (s : Service Row Other) : Type 0 where
    history : History parse limit commit_offset l s.completed
    scheduled_by : s.scheduled ≡ true → s.signalled ≡ true
    shutdown_by : s.shutdown ≡ true → s.signalled ≡ true
    cancelled_by : s.cancelling ≡ true → s.signalled ≡ true
    ended_by : (o : Outcome (Unit {0})) → s.phase ≡ ended o → (s.signalled ≡ true) × (o ≡ ok tt)

  stop-IsSound :
      (l : Loop Row Other) (o : Outcome (Unit {0})) (s : Service Row Other)
      → run_ends o ≡ ok tt
      → History parse limit commit_offset l s.completed
      → s.signalled ≡ true
      → IsSound l (stop close_consumer close_client o s)
  unfolding stop
  stop-IsSound l o s h past signalled = record {
    history = past;
    scheduled_by = λ _. signalled;
    shutdown_by = λ _. signalled;
    cancelled_by = λ x. absurd (cc);
    ended_by = λ p x. (
      signalled,
      sym (ended_injective x) ∙ ends_well s.cancelling close_consumer close_client o h,
    );
  }

  test_event-IsSound :
      (l : Loop Row Other) (s : Service Row Other)
      → IsSound l s
      → IsSound l (test_event close_consumer close_client s)
  unfolding test_event run_ends
  test_event-IsSound l s i = go s.shutdown refl
    where
      go :
          (b : Bool)
          → s.shutdown ≡ b
          → IsSound l (
              if b
              then stop close_consumer close_client (ok tt) s
              else record s { phase = in_cycle; cycles = suc s.cycles })
      go true e = stop-IsSound l (ok tt) s refl i.history (i.shutdown_by e)
      go false e = record {
        history = i.history;
        scheduled_by = i.scheduled_by;
        shutdown_by = i.shutdown_by;
        cancelled_by = i.cancelled_by;
        ended_by = λ o x. absurd (cc);
      }

  cancel-IsSound :
      (l : Loop Row Other) (s : Service Row Other)
      → s.cancelling ≡ true
      → IsSound l s
      → IsSound l (cancel close_consumer close_client s)
  unfolding cancel run_ends
  cancel-IsSound l s h i =
      stop-IsSound l (raise cancelled_error) (record s { cancelling = false }) refl i.history
        (i.cancelled_by h)

  after_cycle-goes_on :
      {ms : List (Message Row Other)} {l m : Loop Row Other}
      (c : Cycled commit_offset parse limit ms l m) (o : Outcome (Unit {0}))
      → ¬ (after_cycle settings parse limit commit_offset c ≡ ended o)
  unfolding after_cycle
  after_cycle-goes_on (consume_raised e b n h x w) o q = absurd (cc)
  after_cycle-goes_on (poll_raised e b h x w) o q = absurd (cc)
  after_cycle-goes_on (nothing_polled batches b h z w) o q = absurd (cc)
  after_cycle-goes_on (inserted batches b c succeeded h p r a w) o q =
      elim (Bool-cases
        (settings.storage_skip_sleep_if_full && any_full settings.storage_batch_size batches)) [
          | inl e ↦ absurd (cc)
          | inr e ↦ absurd (cc)
        ]

  Own-IsSound :
      (l : Loop Row Other) {s t : Service Row Other} → Step s t → IsSound l s → IsSound l t
  Own-IsSound l {s} (tested p w) i = subst (IsSound l) (sym w) (test_event-IsSound l s i)
  Own-IsSound l {s} (cycled ms m p c w) i = subst (IsSound l) (sym w) (record {
    history = Ledger.next ms i.history c;
    scheduled_by = i.scheduled_by;
    shutdown_by = i.shutdown_by;
    cancelled_by = i.cancelled_by;
    ended_by = λ o e. absurd (after_cycle-goes_on c o e);
  })
  Own-IsSound l {s} (woke ms p x w) i = subst (IsSound l) (sym w) (record {
    history = i.history;
    scheduled_by = i.scheduled_by;
    shutdown_by = i.shutdown_by;
    cancelled_by = i.cancelled_by;
    ended_by = λ o e. absurd (cc);
  })
  Own-IsSound l {s} (cycle_cancelled p x w) i = subst (IsSound l) (sym w) (cancel-IsSound l s x i)
  Own-IsSound l {s} (sleep_cancelled ms p x w) i =
      subst (IsSound l) (sym w) (cancel-IsSound l s x i)

  on_signal-IsSound :
      (l : Loop Row Other) (s : Service Row Other) → IsSound l s → IsSound l (on_signal s)
  unfolding on_signal
  on_signal-IsSound l s i = go s.signalled refl
    where
      go :
          (b : Bool)
          → s.signalled ≡ b
          → IsSound l (
              if b
              then record s { cancelling = true }
              else record s { scheduled = true; signalled = true })
      go true e = record {
        history = i.history;
        scheduled_by = λ x. e;
        shutdown_by = λ x. e;
        cancelled_by = λ x. e;
        ended_by = i.ended_by;
      }
      go false e = record {
        history = i.history;
        scheduled_by = λ x. refl;
        shutdown_by = λ x. refl;
        cancelled_by = λ x. refl;
        ended_by = λ o x. (refl, (i.ended_by o x).1);
      }

  Outside-IsSound :
      (l : Loop Row Other) {s t : Service Row Other} → Outside s t → IsSound l s → IsSound l t
  unfolding event_set
  Outside-IsSound l {s} (signal w) i = subst (IsSound l) (sym w) (on_signal-IsSound l s i)
  Outside-IsSound l {s} (called p w) i = subst (IsSound l) (sym w) (record {
    history = i.history;
    scheduled_by = λ x. i.scheduled_by p;
    shutdown_by = λ x. i.scheduled_by p;
    cancelled_by = i.cancelled_by;
    ended_by = i.ended_by;
  })

  Run-IsSound :
      {s t : Service Row Other} {n : ℕ} (l : Loop Row Other)
      → Runs s n t
      → IsSound l s
      → IsSound l t
  Run-IsSound l here i = i
  Run-IsSound l (own r st) i = Own-IsSound l st (Run-IsSound l r i)
  Run-IsSound l (outside r st) i = Outside-IsSound l st (Run-IsSound l r i)

  started-IsSound : (l : Loop Row Other) → IsSound l (started l)
  started-IsSound l = record {
    history = Ledger.here;
    scheduled_by = λ h. h;
    shutdown_by = λ h. absurd (cc);
    cancelled_by = λ h. absurd (cc);
    ended_by = λ o h. absurd (cc);
  }

  -- When the service has ended, after any run from empty buffers over topics of which none occurs twice:
  -- a signal has come, `_run` has returned, and the cycles that it has completed have conserved the rows:
  -- of those accepted from the messages polled each is in a batch whose insert has returned, in the buffer
  -- of its topic or lost, once, and none is lost while `storage_errors` is 0. No `Exception` that
  -- `consume`, the poll, an insert or the commit raises ends it in another way, and nothing that
  -- a `close` raises.
  pub ends_by_signal :
      (topics : List String)
      → IsDistinct topics
      → {t : Service Row Other} {n : ℕ} (o : Outcome (Unit {0}))
      → Runs (started (before_cycles parse limit commit_offset topics)) n t
      → t.phase ≡ ended o
      → (t.signalled ≡ true)
        × (o ≡ ok tt)
        × IsConserved parse limit commit_offset topics t.completed
  ends_by_signal topics d o r e =
      let i =
        Run-IsSound (before_cycles parse limit commit_offset topics) r
          (started-IsSound (before_cycles parse limit commit_offset topics)) in
      let h = i.ended_by o e in
      (h.0, h.1, History-IsConserved parse limit commit_offset topics d i.history)
