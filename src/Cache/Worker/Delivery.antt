-- ===== src/Cache/Worker/Delivery.antt =====
-- No operation is lost, repeated or reordered between Kafka and Redis while the worker runs.
use mathlib.Core.List.{append_assoc, append-nil}
use realtime_analytics_pipel.Prelude.{
  ℕ, ◌≡◌, refl, sym, ◌⊎◌, inl, inr, Bool, true, false, Option, some, List, [], ◌∷◌, ◌++◌, arith,
  Bool-cases,
}
use realtime_analytics_pipel.Cache.Worker.{
  Settings, Phase, collecting, applying, committing, final_applying, final_committing, finished,
  Worker, is_empty, to_list, operations, get, flush_due, receive, wait_in_put, put_done,
  loop_goes_on, collect, apply_done, commit_done, leave, final_apply_done, final_commit_done,
}
use realtime_analytics_pipel.Cache.Worker.Steps.{
  start, Step, received, waits_in_put, put_ended, told_to_stop, collected, applied, commit_ended,
  left, final_applied, final_commit_ended, Reach, Reach-induction,
}

module _ {ℓ} {A : Type ℓ} where
  pub operations-append :
      (xs : List (Option A)) (o : Option A) → operations (xs ++ o ∷ []) ≡ operations xs ++ to_list o
  operations-append [] o = append-nil (to_list o)
  operations-append (x ∷ xs) o =
      rw (operations-append xs o) (sym (append_assoc (to_list x) (operations xs) (to_list o)))

-- what the worker holds and has not yet written, by the place at which it waits
abbrev pub outstanding : {Op : Type 0} → Phase → (batch dropped : List Op) → List Op
outstanding (committing now) batch dropped = []
outstanding final_committing batch dropped = []
outstanding finished batch dropped = dropped
outstanding _ batch dropped = batch

-- the loop has been left
abbrev pub is_final : Phase → Bool
is_final final_applying = true
is_final final_committing = true
is_final finished = true
is_final _ = false

module _ {Op : Type 0} where
  pub record IsHandled (s : Worker Op) : Type 0 where
    -- every operation put is written, held or queued, exactly once and in order
    pub exact : s.persisted ++ (outstanding s.phase s.batch s.dropped ++ s.queue) ≡ operations s.log
    -- once the loop is left nothing is queued and nothing more comes
    pub drained : is_final s.phase ≡ true → (s.queue ≡ []) × (s.stopped ≡ true)
    pub kept : (s.phase ≡ finished) ⊎ (s.dropped ≡ [])

  apply_due-IsHandled :
      (s : Worker Op)
      → IsHandled s
      → (now : ℕ) → s.phase ≡ collecting
      → IsHandled (record s { phase = applying now })
  apply_due-IsHandled s d now h = record {
    exact = ground (arith, d.exact);
    drained = λ f. cc;
    kept = ground (arith, d.kept);
  }

  module _ (s : Worker Op) (d : IsHandled s) where
    receive-IsHandled : (op : Option Op) → s.stopped ≡ false → IsHandled (receive op s)
    unfolding receive
    receive-IsHandled op h = record {
      exact = rw (operations-append s.log op, ← d.exact) (simp append_assoc);
      drained = λ f. absurd (ground (arith, d.drained f));
      kept = d.kept;
    }

    wait_in_put-IsHandled : (op : Op) → IsHandled (wait_in_put op s)
    unfolding wait_in_put
    wait_in_put-IsHandled op = record { exact = d.exact; drained = d.drained; kept = d.kept }

    put_done-IsHandled : (op : Op) → s.stopped ≡ false → IsHandled (put_done op s)
    unfolding put_done
    put_done-IsHandled op h = record {
      exact = rw (operations-append s.log (some op), ← d.exact) (simp append_assoc);
      drained = λ f. absurd (ground (arith, d.drained f));
      kept = d.kept;
    }

    get-IsHandled :
        s.phase ≡ collecting
        → (q : List Op) → s.queue ≡ q
        → IsHandled (get q s) × ((get q s).phase ≡ collecting)
    unfolding get
    get-IsHandled h [] e = (d, h)
    get-IsHandled h (item ∷ rest) e = (
      record {
        exact = rw (h, append_assoc s.batch (item ∷ []) rest) (ground (arith, d.exact));
        drained = λ f. cc;
        kept = d.kept;
      },
      h,
    )

    collect-IsHandled :
        (settings : Settings) (now : ℕ) → s.phase ≡ collecting → IsHandled (collect settings now s)
    unfolding collect
    collect-IsHandled settings now h =
        let (k, p) = get-IsHandled h s.queue refl in
        elim (Bool-cases (flush_due settings now (get s.queue s))) [
          | inl due ↦ rw due (apply_due-IsHandled (get s.queue s) k now p)
          | inr later ↦ rw later k
        ]

    apply_done-IsHandled :
        (has_consumer : Bool) (now : ℕ) (succeeded : Bool)
        → s.phase ≡ applying now
        → IsHandled (apply_done has_consumer now succeeded s)
    unfolding apply_done
    apply_done-IsHandled true now true h = record {
      exact = simp append_assoc (ground (arith, d.exact));
      drained = λ f. cc;
      kept = ground (arith, d.kept);
    }
    apply_done-IsHandled false now true h = record {
      exact = simp append_assoc (ground (arith, d.exact));
      drained = λ f. cc;
      kept = ground (arith, d.kept);
    }
    apply_done-IsHandled has_consumer now false h = record {
      exact = ground (arith, d.exact);
      drained = λ f. cc;
      kept = ground (arith, d.kept);
    }

    commit_done-IsHandled :
        (commit_offset : ℕ → ℕ → ℕ) (now : ℕ) (succeeded : Bool)
        → s.phase ≡ committing now
        → IsHandled (commit_done commit_offset now succeeded s)
    unfolding commit_done
    commit_done-IsHandled commit_offset now true h = record {
      exact = ground (arith, d.exact);
      drained = λ f. cc;
      kept = ground (arith, d.kept);
    }
    commit_done-IsHandled commit_offset now false h = record {
      exact = ground (arith, d.exact);
      drained = λ f. cc;
      kept = ground (arith, d.kept);
    }

    leave-IsHandled : s.phase ≡ collecting → loop_goes_on s ≡ false → IsHandled (leave s)
    unfolding leave loop_goes_on
    leave-IsHandled h out = elim (Bool-cases (is_empty s.batch)) [
      | inl e ↦ rw e (record {
        exact = ground (arith, d.exact, d.kept);
        drained = λ f. ground arith;
        kept = inl refl;
      })
      | inr e ↦ rw e (record {
        exact = ground (arith, d.exact);
        drained = λ f. ground arith;
        kept = ground (arith, d.kept);
      })
    ]

    final_apply_done-IsHandled :
        (has_consumer succeeded : Bool)
        → s.phase ≡ final_applying
        → IsHandled (final_apply_done has_consumer succeeded s)
    unfolding final_apply_done
    final_apply_done-IsHandled true true h = record {
      exact = simp append_assoc (ground (arith, d.exact));
      drained = λ f. d.drained (rw h);
      kept = ground (arith, d.kept);
    }
    final_apply_done-IsHandled false true h = record {
      exact = simp append_assoc (ground (arith, d.exact, d.kept));
      drained = λ f. d.drained (rw h);
      kept = inl refl;
    }
    final_apply_done-IsHandled has_consumer false h = record {
      exact = ground (arith, d.exact);
      drained = λ f. d.drained (rw h);
      kept = inl refl;
    }

    final_commit_done-IsHandled :
        (commit_offset : ℕ → ℕ → ℕ) (succeeded : Bool)
        → s.phase ≡ final_committing
        → IsHandled (final_commit_done commit_offset succeeded s)
    unfolding final_commit_done
    final_commit_done-IsHandled commit_offset true h = record {
      exact = ground (arith, d.exact, d.kept);
      drained = λ f. d.drained (rw h);
      kept = inl refl;
    }
    final_commit_done-IsHandled commit_offset false h = record {
      exact = ground (arith, d.exact, d.kept);
      drained = λ f. d.drained (rw h);
      kept = inl refl;
    }

pub delivered_at_end :
    {Op : Type 0} (t : Worker Op)
    → IsHandled t
    → t.phase ≡ finished
    → (t.queue ≡ []) × (t.persisted ++ t.dropped ≡ operations t.log)
delivered_at_end t d f =
    let (empty, _) = d.drained (rw f) in (empty, ground (arith, d.exact, append-nil t.dropped))

pub nothing_dropped :
    {Op : Type 0} (t : Worker Op) → IsHandled t → t.phase ≡ collecting → t.dropped ≡ []
nothing_dropped t d h = ground (arith, d.kept)

module _ {Op : Type 0} (settings : Settings) (has_consumer : Bool) (commit_offset : ℕ → ℕ → ℕ) where
  Step-IsHandled :
      (s t : Worker Op) → Step settings has_consumer commit_offset s t → IsHandled s → IsHandled t
  Step-IsHandled s t (received op go room n e) d = rw e (receive-IsHandled s d op go)
  Step-IsHandled s t (waits_in_put op go room n e) d = rw e (wait_in_put-IsHandled s d op)
  Step-IsHandled s t (put_ended op go room n e) d = rw e (put_done-IsHandled s d op go)
  Step-IsHandled s t (told_to_stop e) d =
      rw e (record { exact = d.exact; drained = λ f. ((d.drained f).0, refl); kept = d.kept })
  Step-IsHandled s t (collected now h go e) d = rw e (collect-IsHandled s d settings now h)
  Step-IsHandled s t (applied now b h e) d = rw e (apply_done-IsHandled s d has_consumer now b h)
  Step-IsHandled s t (commit_ended now b h e) d =
      rw e (commit_done-IsHandled s d commit_offset now b h)
  Step-IsHandled s t (left h out e) d = rw e (leave-IsHandled s d h out)
  Step-IsHandled s t (final_applied b h e) d =
      rw e (final_apply_done-IsHandled s d has_consumer b h)
  Step-IsHandled s t (final_commit_ended b h e) d =
      rw e (final_commit_done-IsHandled s d commit_offset b h)

  start-IsHandled : (now : ℕ) → IsHandled (start {Op = Op} now)
  start-IsHandled now = record { exact = refl; drained = λ f. cc; kept = inr refl }

  -- In every reachable state the operations put are accounted for.
  pub Reach-IsHandled :
      (now : ℕ) {t : Worker Op}
      → Reach settings has_consumer commit_offset (start now) t
      → IsHandled t
  Reach-IsHandled now r =
      Reach-induction settings has_consumer commit_offset IsHandled Step-IsHandled
        (start-IsHandled now) r
