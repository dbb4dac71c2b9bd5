-- ===== src/Storage/Consumer/Accepted.antt =====
-- What `consume_batch` returns and keeps, against a plain description of the messages it accepts.
use mathlib.Core.List.{append-nil}
use mathlib.Core.Path.{subst}
use realtime_analytics_pipel.Prelude.{
  ◌≡◌, refl, sym, ap, ◌∙◌, Bool, true, false, Option, none, some, List, [], ◌∷◌, ◌++◌, String,
  str_eq, eq_iff, Outcome, ok, raise, ok_injective, json_decode_error, if◌then◌else◌, arith, inl,
  inr, Bool-cases,
}
use realtime_analytics_pipel.Storage.Consumer.{
  Decoded, object, loose, scalar, Item, row, bare, MessageError, partition_eof, kafka_error,
  Message, Buffers, append, take_value, handle_by, handle, clear,
}

module _ {Row Other : Type 0} where
  -- the items of a topic
  abbrev pub get : String → Buffers Row Other → List (Item Row Other)
  get k [] = []
  get k ((j, items) ∷ rest) = if str_eq j k then items else get k rest

  append_here :
      (k j topic : String) (item : Item Row Other) (items : List (Item Row Other))
      (rest : Buffers Row Other)
      → str_eq j topic ≡ true
      → get k ((j, items ++ item ∷ []) ∷ rest)
        ≡ get k ((j, items) ∷ rest) ++ (if str_eq topic k then item ∷ [] else [])
  append_here k j topic item items rest h =
      rw ((eq_iff j topic).0 h) (elim (Bool-cases (str_eq topic k)) [
        | inl e ↦ rw e
        | inr e ↦ rw e (sym (append-nil (get k rest)))
      ])

  append_later :
      (k j topic : String) (item : Item Row Other) (items : List (Item Row Other))
      (rest b : Buffers Row Other)
      → str_eq j topic ≡ false
      → get k b ≡ get k rest ++ (if str_eq topic k then item ∷ [] else [])
      → get k ((j, items) ∷ b)
        ≡ get k ((j, items) ∷ rest) ++ (if str_eq topic k then item ∷ [] else [])
  append_later k j topic item items rest b h e = elim (Bool-cases (str_eq j k)) [
    | inl q ↦
        let other : str_eq topic k ≡ false =
          ground (arith, eq_iff j topic, eq_iff j k, eq_iff topic k) in
        rw (q, other) (sym (append-nil items))
    | inr q ↦ rw q e
  ]

  get-append :
      (k topic : String) (item : Item Row Other) (b c : Buffers Row Other)
      → append topic item b ≡ ok c
      → get k c ≡ get k b ++ (if str_eq topic k then item ∷ [] else [])
  unfolding append
  get-append k topic item [] c h = cc
  get-append k topic item ((j, items) ∷ rest) c h = elim (Bool-cases (str_eq j topic)) [
    | inl here ↦
        subst
          (λ (d : Buffers Row Other).
            get k d ≡ get k ((j, items) ∷ rest) ++ (if str_eq topic k then item ∷ [] else []))
          {x = ((j, items ++ item ∷ []) ∷ rest)} (ground arith)
          (append_here k j topic item items rest here)
    | inr on ↦ go on (get-append k topic item rest) (append topic item rest) refl
  ]
    where
      go :
          str_eq j topic ≡ false
          → ((b : Buffers Row Other)
              → append topic item rest ≡ ok b
              → get k b ≡ get k rest ++ (if str_eq topic k then item ∷ [] else []))
          → (o : Outcome (Buffers Row Other)) → append topic item rest ≡ o
          → get k c ≡ get k ((j, items) ∷ rest) ++ (if str_eq topic k then item ∷ [] else [])
      go on ih (ok b) e =
          subst
            (λ (d : Buffers Row Other).
              get k d ≡ get k ((j, items) ∷ rest) ++ (if str_eq topic k then item ∷ [] else []))
            {x = ((j, items) ∷ b)} (ground (arith, e, on))
            (append_later k j topic item items rest b on (ih b e))
      go on ih (raise x) e = absurd (ground (arith, e, on))

  module _ (parse : Row → Row) where
    abbrev pub items_of_value : Outcome (Decoded Row Other) → List (Item Row Other)
    items_of_value (ok (object r)) = row (parse r) ∷ []
    items_of_value (ok (loose v)) = bare v ∷ []
    items_of_value _ = []

    abbrev pub items_of_error : Option MessageError → List (Item Row Other) → List (Item Row Other)
    items_of_error none items = items
    items_of_error (some e) items = []

    -- the items that the messages of topic `k` carry, in order
    abbrev pub accepted : String → List (Message Row Other) → List (Item Row Other)
    accepted k [] = []
    accepted k (m ∷ ms) =
        (if str_eq m.topic k then items_of_error m.error (items_of_value m.value) else [])
        ++ accepted k ms

    -- the items of one message
    abbrev pub items_of : Message Row Other → List (Item Row Other)
    items_of m = items_of_error m.error (items_of_value m.value)

    nothing_new :
        (k : String) (t : Bool) (b c : Buffers Row Other)
        → ok b ≡ ok c
        → get k c ≡ get k b ++ (if t then [] else [])
    nothing_new k t b c h = elim (Bool-cases t) [
      | inl e ↦ rw e (ap (get k) (sym (ok_injective h)) ∙ sym (append-nil (get k b)))
      | inr e ↦ rw e (ap (get k) (sym (ok_injective h)) ∙ sym (append-nil (get k b)))
    ]

    get-take_value :
        (k topic : String) (v : Outcome (Decoded Row Other)) (b c : Buffers Row Other)
        → take_value parse topic v b ≡ ok c
        → get k c ≡ get k b ++ (if str_eq topic k then items_of_value v else [])
    unfolding take_value
    get-take_value k topic (ok (object r)) b c h = get-append k topic (row (parse r)) b c h
    get-take_value k topic (ok (loose v)) b c h = get-append k topic (bare v) b c h
    get-take_value k topic (ok scalar) b c h = cc
    get-take_value k topic (raise json_decode_error) b c h = nothing_new k (str_eq topic k) b c h
    get-take_value k topic (raise e) b c h = cc

    get-handle_by :
        (k : String) (o : Option MessageError) (m : Message Row Other) (b c : Buffers Row Other)
        → handle_by parse o m b ≡ ok c
        → get k c
          ≡ get k b ++ (if str_eq m.topic k then items_of_error o (items_of_value m.value) else [])
    unfolding handle_by
    get-handle_by k none m b c h = get-take_value k m.topic m.value b c h
    get-handle_by k (some partition_eof) m b c h = nothing_new k (str_eq m.topic k) b c h
    get-handle_by k (some (kafka_error code)) m b c h = cc

    pub get-handle :
        (k : String) (m : Message Row Other) (b c : Buffers Row Other)
        → handle parse m b ≡ ok c
        → get k c ≡ get k b ++ (if str_eq m.topic k then items_of m else [])
    unfolding handle
    get-handle k m b c h = get-handle_by k m.error m b c h

    pub get-clear : (k : String) (b : Buffers Row Other) → get k (clear b) ≡ []
    unfolding clear
    get-clear k [] = refl
    get-clear k ((j, items) ∷ rest) = elim (Bool-cases (str_eq j k)) [
      | inl e ↦ rw e refl
      | inr e ↦ rw e (get-clear k rest)
    ]
