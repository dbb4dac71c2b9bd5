-- ===== src/Storage/Consumer/Batch.antt =====
-- What a whole poll leaves in the buffers and hands to the processor, when every message is
-- handled and when one of them raises.
use mathlib.Core.List.{append-nil, append_assoc}
use realtime_analytics_pipel.Prelude.{
  ◌≡◌, refl, sym, ap, ◌∙◌, List, [], ◌∷◌, ◌++◌, String, Outcome, ok, raise, Exn,
}
use realtime_analytics_pipel.Storage.Consumer.{
  Message, Buffers, handle, handle_all, hand_over, consume_batch,
}
use realtime_analytics_pipel.Storage.Consumer.Accepted.{get, accepted, get-handle, get-clear}

module _ {Row Other : Type 0} (parse : Row → Row) where
  -- How the loop over the messages `ms` ends when the buffers are `b`: it went through all of them, or
  -- it stopped at a message that raises, with the messages before it in the buffers.
  pub data Ran (ms : List (Message Row Other)) (b : Buffers Row Other)
      : Outcome (Unit {0}) × Buffers Row Other → Type 0 where
    through :
        {c : Buffers Row Other}
        → ((k : String) → get k c ≡ get k b ++ accepted parse k ms)
        → Ran ms b (ok tt, c)
    stopped :
        {e : Exn} {c : Buffers Row Other}
        → (before : List (Message Row Other)) (m : Message Row Other)
          (after : List (Message Row Other))
        → ms ≡ before ++ m ∷ after
        → handle parse m c ≡ raise e
        → ((k : String) → get k c ≡ get k b ++ accepted parse k before)
        → Ran ms b (raise e, c)

  -- How `consume_batch` ends: it returns everything the buffers held and the messages carry and has
  -- cleared the buffers, or it raises and the buffers hold what came before.
  pub data Consumed (ms : List (Message Row Other)) (b : Buffers Row Other)
      : Outcome (Buffers Row Other) × Buffers Row Other → Type 0 where
    returned :
        {out c : Buffers Row Other}
        → ((k : String) → get k out ≡ get k b ++ accepted parse k ms)
        → ((k : String) → get k c ≡ [])
        → Consumed ms b (ok out, c)
    failed :
        {e : Exn} {c : Buffers Row Other}
        → (before : List (Message Row Other)) (m : Message Row Other)
          (after : List (Message Row Other))
        → ms ≡ before ++ m ∷ after
        → handle parse m c ≡ raise e
        → ((k : String) → get k c ≡ get k b ++ accepted parse k before)
        → Consumed ms b (raise e, c)

  join :
      (k : String) (m : Message Row Other) (ms : List (Message Row Other))
      (b b' c : Buffers Row Other)
      → handle parse m b ≡ ok b'
      → get k c ≡ get k b' ++ accepted parse k ms
      → get k c ≡ get k b ++ accepted parse k (m ∷ ms)
  join k m ms b b' c h e =
      e
      ∙ ap (λ x. x ++ accepted parse k ms) (get-handle parse k m b b' h)
      ∙ append_assoc (get k b) _ _

  further :
      {r : Outcome (Unit {0}) × Buffers Row Other} (m : Message Row Other)
      (ms : List (Message Row Other)) (b b' : Buffers Row Other)
      → handle parse m b ≡ ok b'
      → Ran ms b' r
      → Ran (m ∷ ms) b r
  further m ms b b' h (through {c = c} p) = through (λ k. join k m ms b b' c h (p k))
  further m ms b b' h (stopped {c = c} before n after split raises p) =
      stopped (m ∷ before) n after (ap (λ x. m ∷ x) split) raises
        (λ k. join k m before b b' c h (p k))

  handle_all-Ran :
      (ms : List (Message Row Other)) (b : Buffers Row Other) → Ran ms b (handle_all parse ms b)
  unfolding handle_all
  handle_all-Ran [] b = through (λ k. sym (append-nil (get k b)))
  handle_all-Ran (m ∷ ms) b = go (handle_all-Ran ms) (handle parse m b) refl
    where
      go :
          ((c : Buffers Row Other) → Ran ms c (handle_all parse ms c))
          → (o : Outcome (Buffers Row Other)) → handle parse m b ≡ o
          → Ran (m ∷ ms) b (elim o [ ok b' ↦ handle_all parse ms b' | raise e ↦ (raise e, b) ])
      go ih (ok b') e = further m ms b b' e (ih b')
      go ih (raise x) e = stopped [] m ms refl e (λ k. sym (append-nil (get k b)))

  handed_over :
      (ms : List (Message Row Other)) (b : Buffers Row Other)
      {r : Outcome (Unit {0}) × Buffers Row Other}
      → Ran ms b r
      → Consumed ms b (hand_over r)
  unfolding hand_over
  handed_over ms b (through {c = c} p) = returned p (λ k. get-clear parse k c)
  handed_over ms b (stopped before m after split raises p) = failed before m after split raises p

  -- For a poll that is not empty, `consume_batch` either returns, topic by topic and in order, what the
  -- buffers held and then every item that the messages carry, and leaves the buffers empty, or it
  -- raises what handling one of the messages raises; then the buffers keep what they held and the
  -- items of the messages before that one, and neither that message nor any after it is kept.
  pub consume_batch-Consumed :
      (m : Message Row Other) (ms : List (Message Row Other)) (b : Buffers Row Other)
      → Consumed (m ∷ ms) b (consume_batch parse (m ∷ ms) b)
  unfolding consume_batch
  consume_batch-Consumed m ms b = handed_over (m ∷ ms) b (handle_all-Ran (m ∷ ms) b)
