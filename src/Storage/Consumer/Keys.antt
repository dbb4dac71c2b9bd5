-- ===== src/Storage/Consumer/Keys.antt =====
-- The topics of the buffers, which no operation changes, and what a topic's buffer holds.
use realtime_analytics_pipel.Prelude.{
  ◌≡◌, refl, sym, ap, ◌∙◌, true, false, Option, none, some, List, [], ◌∷◌, ◌++◌, String, str_eq,
  Outcome, ok, raise, ok_injective, json_decode_error, Bool-cases, inl, inr, arith,
}
use realtime_analytics_pipel.Storage.Consumer.{
  Decoded, object, loose, scalar, Item, row, bare, MessageError, partition_eof, kafka_error,
  Message, Buffers, append, take_value, handle_by, handle, handle_all, clear, hand_over,
  consume_batch,
}

module _ {Row Other : Type 0} where
  abbrev pub keys : Buffers Row Other → List String
  keys [] = []
  keys ((k, items) ∷ rest) = k ∷ keys rest

  keys-append :
      (topic : String) (item : Item Row Other) (b c : Buffers Row Other)
      → append topic item b ≡ ok c
      → keys c ≡ keys b
  unfolding append
  keys-append topic item [] c h = cc
  keys-append topic item ((j, items) ∷ rest) c h = elim (Bool-cases (str_eq j topic)) [
    | inl e ↦ sym (ap keys (ok_injective (head_case e)))
    | inr e ↦ go e (append topic item rest) refl (keys-append topic item rest)
  ]
    where
      head_case : str_eq j topic ≡ true → ok ((j, items ++ item ∷ []) ∷ rest) ≡ ok c
      head_case e = ground (arith, h, e)

      go :
          str_eq j topic ≡ false
          → (o : Outcome (Buffers Row Other)) → append topic item rest ≡ o
          → ((d : Buffers Row Other) → append topic item rest ≡ ok d → keys d ≡ keys rest)
          → keys c ≡ j ∷ keys rest
      go e (ok d) q ih =
          sym (ap keys (ok_injective {a = (j, items) ∷ d} (ground (arith, h, e, q))))
          ∙ ap (λ l. j ∷ l) (ih d q)
      go e (raise x) q ih = absurd (ground (arith, h, e, q))

  keys-clear : (b : Buffers Row Other) → keys (clear b) ≡ keys b
  unfolding clear
  keys-clear [] = refl
  keys-clear ((k, items) ∷ rest) = ap (λ l. k ∷ l) (keys-clear rest)

  module _ (parse : Row → Row) where
    keys-take_value :
        (topic : String) (v : Outcome (Decoded Row Other)) (b c : Buffers Row Other)
        → take_value parse topic v b ≡ ok c
        → keys c ≡ keys b
    unfolding take_value
    keys-take_value topic (ok (object r)) b c h = keys-append topic (row (parse r)) b c h
    keys-take_value topic (ok (loose v)) b c h = keys-append topic (bare v) b c h
    keys-take_value topic (ok scalar) b c h = cc
    keys-take_value topic (raise json_decode_error) b c h = sym (ap keys (ok_injective h))
    keys-take_value topic (raise e) b c h = cc

    keys-handle_by :
        (o : Option MessageError) (m : Message Row Other) (b c : Buffers Row Other)
        → handle_by parse o m b ≡ ok c
        → keys c ≡ keys b
    unfolding handle_by
    keys-handle_by none m b c h = keys-take_value m.topic m.value b c h
    keys-handle_by (some partition_eof) m b c h = sym (ap keys (ok_injective h))
    keys-handle_by (some (kafka_error code)) m b c h = cc

    keys-handle :
        (m : Message Row Other) (b c : Buffers Row Other)
        → handle parse m b ≡ ok c
        → keys c ≡ keys b
    unfolding handle
    keys-handle m b c h = keys-handle_by m.error m b c h

    keys-handle_all :
        (ms : List (Message Row Other)) (b : Buffers Row Other)
        → keys (handle_all parse ms b).1 ≡ keys b
    unfolding handle_all
    keys-handle_all [] b = refl
    keys-handle_all (m ∷ ms) b = go (handle parse m b) refl (keys-handle_all ms)
      where
        go :
            (o : Outcome (Buffers Row Other))
            → handle parse m b ≡ o
            → ((c : Buffers Row Other) → keys (handle_all parse ms c).1 ≡ keys c)
            → let r : Outcome (Unit {0}) × Buffers Row Other = elim o [
              | ok b' ↦ handle_all parse ms b'
              | raise e ↦ (raise e, b)
            ] in
              keys r.1 ≡ keys b
        go (ok c) e ih = ih c ∙ keys-handle m b c e
        go (raise x) e ih = refl

    keys-hand_over :
        (o : Outcome (Unit {0})) (b : Buffers Row Other) → keys (hand_over (o, b)).1 ≡ keys b
    unfolding hand_over
    keys-hand_over (ok u) b = keys-clear b
    keys-hand_over (raise e) b = refl

    handed_out :
        (o : Outcome (Unit {0})) (b out c : Buffers Row Other)
        → hand_over (o, b) ≡ (ok out, c)
        → keys out ≡ keys b
    unfolding hand_over
    handed_out (ok u) b out c h = sym (ap keys (ok_injective (ap (λ r. r.0) h)))
    handed_out (raise e) b out c h = cc

    -- the buffers after a poll have the topics that they had
    pub keys-consume_batch :
        (ms : List (Message Row Other)) (b : Buffers Row Other)
        → keys (consume_batch parse ms b).1 ≡ keys b
    unfolding consume_batch
    keys-consume_batch [] b = refl
    keys-consume_batch (m ∷ ms) b =
        keys-hand_over (handle_all parse (m ∷ ms) b).0 (handle_all parse (m ∷ ms) b).1
        ∙ keys-handle_all (m ∷ ms) b

    -- so have the batches that a poll hands over
    pub keys_handed :
        (m : Message Row Other) (ms : List (Message Row Other)) (b out c : Buffers Row Other)
        → consume_batch parse (m ∷ ms) b ≡ (ok out, c)
        → keys out ≡ keys b
    unfolding consume_batch
    keys_handed m ms b out c h =
        handed_out (handle_all parse (m ∷ ms) b).0 (handle_all parse (m ∷ ms) b).1 out c h
        ∙ keys-handle_all (m ∷ ms) b
