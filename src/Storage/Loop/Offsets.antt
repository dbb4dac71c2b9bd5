-- ===== src/Storage/Loop/Offsets.antt =====
-- The committed offset of the storage service against the rows in ClickHouse.
use mathlib.Core.List.{Perm}
use mathlib.Core.List.Perm
use realtime_analytics_pipel.Prelude.{
  ℕ, ◌+◌, ◌≡◌, refl, sym, ap, ◌∙◌, Bool, true, false, List, [], ◌∷◌, ◌++◌, String, Exn, Outcome, ok,
  raise, ok_injective, length, arith, All,
}
use realtime_analytics_pipel.Storage.Consumer.{Item, Message, Buffers, consume_batch}
use realtime_analytics_pipel.Storage.Consumer.Accepted.{get, accepted}
use realtime_analytics_pipel.Storage.Consumer.Batch.{
  Consumed, returned, failed, consume_batch-Consumed,
}
use realtime_analytics_pipel.Storage.Inserts.Safety.{Jobs, IsAmong, non_empty, commit_after_inserts}
use realtime_analytics_pipel.Storage.Loop.{
  Loop, polled, cycle_failed, gathered, commit_done, finish_cycle, Cycled, consume_raised,
  poll_raised, nothing_polled, inserted,
}

raise-ok : {A : Type 0} {x : Exn} {a : A} → ¬ (raise x ≡ ok a)
raise-ok h = cc

module _ {Row Other : Type 0} (parse : Row → Row) (limit : ℕ) (commit_offset : ℕ → ℕ → ℕ) where
  -- What a cycle that has committed did: the inserts of the batches of its poll have returned, each once,
  -- and these are what the buffers held and the items of its messages. What ClickHouse has taken besides,
  -- from inserts that raised and were tried again, are copies of these batches.
  pub record HasStored (ms : List (Message Row Other)) (s t : Loop Row Other) : Type 0 where
    pub batches : Buffers Row Other
    pub content : (k : String) → get k batches ≡ get k s.buffers ++ accepted parse k ms
    pub stored_all : Perm t.stored (s.stored ++ non_empty batches)
    pub copies : Jobs (Item Row Other)
    pub seen : t.unseen ≡ s.unseen ++ copies
    pub copied : All (λ j. IsAmong j (non_empty batches)) copies
    pub emptied : (k : String) → get k t.buffers ≡ []

  pub content_of :
      (m : Message Row Other) (ms : List (Message Row Other)) (b batches c : Buffers Row Other)
      → consume_batch parse (m ∷ ms) b ≡ (ok batches, c)
      → ((k : String) → get k batches ≡ get k b ++ accepted parse k (m ∷ ms))
        × ((k : String) → get k c ≡ [])
  content_of m ms b batches c h = go (consume_batch-Consumed parse m ms b) h
    where
      go :
          {r : Outcome (Buffers Row Other) × Buffers Row Other}
          → Consumed parse (m ∷ ms) b r
          → r ≡ (ok batches, c)
          → ((k : String) → get k batches ≡ get k b ++ accepted parse k (m ∷ ms))
            × ((k : String) → get k c ≡ [])
      go (returned p q) e = (
        λ k. ap (get k) (sym (ok_injective (ap (λ r. r.0) e))) ∙ p k,
        λ k. ap (λ r. get k r.1) (sym e) ∙ q k,
      )
      go (failed before n after split raises p) e = absurd (raise-ok (ap (λ r. r.0) e))

  -- In a cycle with a poll that is not empty and that raises `storage_commits`, the inserts of all the batches of its poll have returned,
  -- each once; the batches hold what the buffers held and the items of its messages, and the buffers are left
  -- empty. What ClickHouse has taken besides in the cycle, from inserts that raised and were tried
  -- again, are copies of these batches. What it commits is the client library's choice at the position
  -- after all messages polled so far, also those of earlier cycles.
  pub commit-HasStored :
      (m : Message Row Other) (ms : List (Message Row Other)) {s t : Loop Row Other}
      → Cycled commit_offset parse limit (m ∷ ms) s t
      → t.storage_commits ≡ s.storage_commits + 1
      → HasStored (m ∷ ms) s t
        × (t.log ≡ s.log ++ m ∷ ms)
        × (t.committed ≡ commit_offset (length t.log) s.committed)
  unfolding cycle_failed gathered finish_cycle commit_done
  commit-HasStored m ms (consume_raised e b n h x w) up =
      absurd (omega (arith, up, ap (λ (u : Loop Row Other). u.storage_commits) w))
  commit-HasStored m ms (poll_raised e b h x w) up =
      absurd (omega (arith, up, ap (λ (u : Loop Row Other). u.storage_commits) w))
  commit-HasStored m ms (nothing_polled batches b h z w) up =
      absurd (omega (arith, up, ap (λ (u : Loop Row Other). u.storage_commits) w))
  commit-HasStored m ms {s} {t} (inserted batches b c succeeded h p r a w) up =
      go c.shared.any_insert_failed succeeded refl w
    where
      go :
          (f committed : Bool)
          → c.shared.any_insert_failed ≡ f
          → t ≡ finish_cycle commit_offset f committed (gathered c (polled (m ∷ ms) b s))
          → HasStored (m ∷ ms) s t
            × (t.log ≡ s.log ++ m ∷ ms)
            × (t.committed ≡ commit_offset (length t.log) s.committed)
      go true _ f w = absurd (omega (arith, up, ap (λ (u : Loop Row Other). u.storage_commits) w))
      go false false f w =
          absurd (omega (arith, up, ap (λ (u : Loop Row Other). u.storage_commits) w))
      go false true f w =
          let i = content_of m ms s.buffers batches b h in
          (
            record {
              batches = batches;
              content = i.0;
              stored_all =
                  rw (ap (λ (u : Loop Row Other). u.stored) w)
                    (Perm.append_left s.stored ((commit_after_inserts limit batches r a).2 f));
              copies = c.shared.unseen;
              seen = ap (λ (u : Loop Row Other). u.unseen) w;
              copied = (commit_after_inserts limit batches r a).3;
              emptied = λ k. ap (λ (u : Loop Row Other). get k u.buffers) w ∙ i.1 k;
            },
            ap (λ (u : Loop Row Other). u.log) w,
            ap (λ (u : Loop Row Other). u.committed) w
                ∙ ap (λ (l : List (Message Row Other)). commit_offset (length l) s.committed)
                    (sym (ap (λ (u : Loop Row Other). u.log) w)),
          )
