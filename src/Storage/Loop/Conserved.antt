-- ===== src/Storage/Loop/Conserved.antt =====
-- What any number of cycles have stored, against what the messages polled carry: a bag of rows for each
-- topic, since the order of the inserts is free.
use mathlib.Core.List.{append-nil, Perm}
use mathlib.Core.Path.{subst}
use realtime_analytics_pipel.Prelude.{
  ℕ, ◌≡◌, refl, sym, ap, ◌∙◌, Bool, true, false, List, [], ◌∷◌, ◌++◌, String, Exn, Outcome, ok,
  raise, arith, ok_injective, inl, inr,
}
use realtime_analytics_pipel.Storage.Consumer.{
  Item, Message, Buffers, consume_batch, consume_batch_from,
}
use realtime_analytics_pipel.Storage.Consumer.Accepted.{get, accepted}
use realtime_analytics_pipel.Storage.Consumer.Keys.{keys, keys-consume_batch, keys_handed}
use realtime_analytics_pipel.Storage.Consumer.Batch.{
  Consumed, returned, failed, consume_batch-Consumed,
}
use realtime_analytics_pipel.Storage.Inserts.{Cycle, Reach, all_settled}
use realtime_analytics_pipel.Storage.Inserts.Failures.{storage_errors-lt}
use realtime_analytics_pipel.Storage.Inserts.Safety.{start}
use realtime_analytics_pipel.Storage.Loop.{
  Loop, total, polled, cycle_failed, gathered, commit_done, finish_cycle, Cycled, consume_raised,
  poll_raised, nothing_polled, inserted,
}
use realtime_analytics_pipel.Storage.Loop.Offsets.{content_of}
use realtime_analytics_pipel.Storage.Loop.Rows.{rows_of, rows_of-append, IsDistinct}
use realtime_analytics_pipel.Storage.Loop.Ledger.{
  conserve_inserts, conserve_raise, conserve_nothing, History, here, next, before_cycles,
  IsConserved, accepted-append, before_cycles-IsConserved, cycle_rows, get_of_none,
}

ok_raise : {A : Type 0} {a : A} {e : Exn} → ¬ (ok a ≡ raise e)
ok_raise h = cc

module _ {Row Other : Type 0} (parse : Row → Row) (limit : ℕ) (commit_offset : ℕ → ℕ → ℕ) where
  -- the buffers after a poll, by its result
  kept_topics :
      (topics : List String) (ms : List (Message Row Other)) (s : Loop Row Other)
      (o : Outcome (Buffers Row Other)) (b : Buffers Row Other)
      → consume_batch parse ms s.buffers ≡ (o, b)
      → keys s.buffers ≡ topics
      → keys b ≡ topics
  kept_topics topics ms s o b h t =
      ap (λ r. keys r.1) (sym h) ∙ keys-consume_batch parse ms s.buffers ∙ t

  raised-IsConserved :
      (topics : List String) (m : Message Row Other) (ms : List (Message Row Other))
      (s : Loop Row Other) (e : Exn) (b : Buffers Row Other)
      → IsConserved parse limit commit_offset topics s
      → consume_batch parse (m ∷ ms) s.buffers ≡ (raise e, b)
      → IsConserved parse limit commit_offset topics (cycle_failed (polled (m ∷ ms) b s))
  unfolding cycle_failed
  raised-IsConserved topics m ms s e b i h = go (consume_batch-Consumed parse m ms s.buffers) h
    where
      go :
          {r : Outcome (Buffers Row Other) × Buffers Row Other}
          → Consumed parse (m ∷ ms) s.buffers r
          → r ≡ (raise e, b)
          → IsConserved parse limit commit_offset topics (cycle_failed (polled (m ∷ ms) b s))
      go (returned p q) g = absurd (ok_raise (ap (λ r. r.0) g))
      go (failed {c = c} before n after split raises p) g = record {
        lost = λ k. i.lost k ++ accepted parse k (n ∷ after);
        topics_kept = kept_topics topics (m ∷ ms) s (raise e) b h i.topics_kept;
        exact = λ k.
            rw
              (
                accepted-append parse limit commit_offset k s.log (m ∷ ms)
                    ∙ ap (λ l. accepted parse k s.log ++ l)
                        (ap (accepted parse k) split
                          ∙ accepted-append parse limit commit_offset k before (n ∷ after)),
                ap (λ r. get k r.1) (sym g) ∙ p k,
              )
              (conserve_raise (rows_of k s.stored) (get k s.buffers) (i.lost k)
                (accepted parse k s.log) (accepted parse k before) (accepted parse k (n ∷ after))
                (i.exact k));
        honest = inl (omega arith);
      }

  nothing-IsConserved :
      (topics : List String) (m : Message Row Other) (ms : List (Message Row Other))
      (s : Loop Row Other) (batches b : Buffers Row Other)
      → IsConserved parse limit commit_offset topics s
      → consume_batch parse (m ∷ ms) s.buffers ≡ (ok batches, b)
      → total batches ≡ 0
      → IsConserved parse limit commit_offset topics (polled (m ∷ ms) b s)
  nothing-IsConserved topics m ms s batches b i h z =
      let c = content_of parse limit commit_offset m ms s.buffers batches b h in
      record {
        lost = i.lost;
        topics_kept = kept_topics topics (m ∷ ms) s (ok batches) b h i.topics_kept;
        exact = λ k.
            rw (accepted-append parse limit commit_offset k s.log (m ∷ ms), c.1 k)
              (conserve_nothing (rows_of k s.stored) (get k s.buffers) (i.lost k)
                (accepted parse k s.log) (accepted parse k (m ∷ ms)) (i.exact k)
                (sym (c.0 k) ∙ get_of_none parse limit commit_offset k batches z));
        honest = i.honest;
      }

  inserted-IsConserved :
      (topics : List String) (m : Message Row Other) (ms : List (Message Row Other))
      (s : Loop Row Other) (batches b : Buffers Row Other) (c : Cycle (Item Row Other))
      (succeeded : Bool)
      → IsDistinct topics
      → IsConserved parse limit commit_offset topics s
      → consume_batch parse (m ∷ ms) s.buffers ≡ (ok batches, b)
      → Reach (start limit batches) c
      → all_settled c.tasks ≡ true
      → IsConserved parse limit commit_offset topics (
          finish_cycle commit_offset c.shared.any_insert_failed succeeded
            (gathered c (polled (m ∷ ms) b s)))
  unfolding finish_cycle gathered commit_done
  inserted-IsConserved topics m ms s batches b c succeeded d i h r a =
      go c.shared.any_insert_failed succeeded refl
    where
      content :
          ((k : String) → get k batches ≡ get k s.buffers ++ accepted parse k (m ∷ ms))
          × ((k : String) → get k b ≡ [])
      content = content_of parse limit commit_offset m ms s.buffers batches b h

      distinct : IsDistinct (keys batches)
      distinct =
          subst IsDistinct (sym (keys_handed parse m ms s.buffers batches b h ∙ i.topics_kept)) d

      after :
          (rest : String → List (Item Row Other))
          → ((k : String) → Perm (rows_of k c.shared.inserted ++ rest k) (get k batches))
          → (k : String)
          → Perm
              (rows_of k (s.stored ++ c.shared.inserted) ++ (get k b ++ (i.lost k ++ rest k)))
              (accepted parse k (s.log ++ m ∷ ms))
      after rest g k =
          rw
            (
              rows_of-append k s.stored c.shared.inserted,
              content.1 k,
              accepted-append parse limit commit_offset k s.log (m ∷ ms),
            )
            (conserve_inserts (rows_of k s.stored) (get k s.buffers) (i.lost k)
              (accepted parse k s.log) (rows_of k c.shared.inserted) (rest k)
              (accepted parse k (m ∷ ms)) (i.exact k) (rw (sym (content.0 k)) (g k)))

      go :
          (f done : Bool)
          → c.shared.any_insert_failed ≡ f
          → IsConserved parse limit commit_offset topics
              (finish_cycle commit_offset f done (gathered c (polled (m ∷ ms) b s)))
      go true done e =
          let rest = cycle_rows parse limit commit_offset batches true distinct r a e in
          record {
            lost = λ k. i.lost k ++ rest.0 k;
            topics_kept = kept_topics topics (m ∷ ms) s (ok batches) b h i.topics_kept;
            exact = after rest.0 rest.1;
            honest = inl (omega (arith, storage_errors-lt limit batches r e));
          }
      go false true e =
          let rest = cycle_rows parse limit commit_offset batches false distinct r a e in
          record {
            lost = λ k. i.lost k ++ rest.0 k;
            topics_kept = kept_topics topics (m ∷ ms) s (ok batches) b h i.topics_kept;
            exact = after rest.0 rest.1;
            honest = elim i.honest [
              | inl z ↦ inl (omega (arith, z))
              | inr none_lost ↦ inr (λ k. rw (none_lost k, rest.2 refl k) refl)
            ];
          }
      go false false e =
          let rest = cycle_rows parse limit commit_offset batches false distinct r a e in
          record {
            lost = λ k. i.lost k ++ rest.0 k;
            topics_kept = kept_topics topics (m ∷ ms) s (ok batches) b h i.topics_kept;
            exact = after rest.0 rest.1;
            honest = inl (omega arith);
          }

  -- a poll of no message hands nothing over, so that no insert is made and nothing raises
  empty_poll :
      (topics : List String) {s t : Loop Row Other}
      → IsConserved parse limit commit_offset topics s
      → Cycled commit_offset parse limit [] s t
      → IsConserved parse limit commit_offset topics t
  unfolding consume_batch consume_batch_from total cycle_failed
  empty_poll topics {s} i (consume_raised e b n h x w) =
      subst (IsConserved parse limit commit_offset topics)
        (sym (w ∙ ap (λ l. cycle_failed (polled [] l s)) (sym (ap (λ r. r.1) h))))
        (record {
          lost = i.lost;
          topics_kept = i.topics_kept;
          exact = λ k. rw (append-nil s.log) (i.exact k);
          honest = inl (omega arith);
        })
  empty_poll topics i (poll_raised e b h x w) = absurd (ok_raise (ap (λ r. r.0) h))
  empty_poll topics {s} i (nothing_polled batches b h z w) =
      subst (IsConserved parse limit commit_offset topics)
        (sym (w ∙ ap (λ l. polled [] l s) (sym (ap (λ r. r.1) h))))
        (record {
          lost = i.lost;
          topics_kept = i.topics_kept;
          exact = λ k. rw (append-nil s.log) (i.exact k);
          honest = i.honest;
        })
  empty_poll topics i (inserted batches b c succeeded h p r a w) =
      absurd (omega (arith, p, ap (λ l. total l) (ok_injective (ap (λ r. r.0) h))))

  Cycled-IsConserved :
      (topics : List String)
      → IsDistinct topics
      → (ms : List (Message Row Other)) {s t : Loop Row Other}
      → IsConserved parse limit commit_offset topics s
      → Cycled commit_offset parse limit ms s t
      → IsConserved parse limit commit_offset topics t
  Cycled-IsConserved topics d [] i r = empty_poll topics i r
  Cycled-IsConserved topics d (m ∷ ms) i (consume_raised e b n h x w) = absurd (cc)
  Cycled-IsConserved topics d (m ∷ ms) {s} i (poll_raised e b h x w) =
      subst (IsConserved parse limit commit_offset topics) (sym w)
        (raised-IsConserved topics m ms s e b i h)
  Cycled-IsConserved topics d (m ∷ ms) {s} i (nothing_polled batches b h z w) =
      subst (IsConserved parse limit commit_offset topics) (sym w)
        (nothing-IsConserved topics m ms s batches b i h z)
  Cycled-IsConserved topics d (m ∷ ms) {s} i (inserted batches b c succeeded h p r a w) =
      subst (IsConserved parse limit commit_offset topics) (sym w)
        (inserted-IsConserved topics m ms s batches b c succeeded d i h r a)

  -- After any number of cycles from empty buffers, over topics of which none occurs twice, each row
  -- accepted from the messages polled is either in a batch whose insert has returned, or in the buffer
  -- of its topic, or lost, and it is that once; and as long as `storage_errors` is 0, no row is lost.
  -- What is lost may be in ClickHouse all the same, from an insert that raised; such copies are not counted
  -- here.
  pub History-IsConserved :
      (topics : List String)
      → IsDistinct topics
      → {s : Loop Row Other}
      → History parse limit commit_offset (before_cycles parse limit commit_offset topics) s
      → IsConserved parse limit commit_offset topics s
  History-IsConserved topics d here = before_cycles-IsConserved parse limit commit_offset topics
  History-IsConserved topics d (next ms hs c) =
      Cycled-IsConserved topics d ms (History-IsConserved topics d hs) c
