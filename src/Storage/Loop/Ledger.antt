-- ===== src/Storage/Loop/Ledger.antt =====
-- The account of the rows: what any number of cycles have stored, against what the messages polled carry: a bag of rows for each
-- topic, since the order of the inserts is free.
use mathlib.Core.List.{append-nil, append_assoc, Perm, perm_append_comm}
use mathlib.Core.List.Perm
use realtime_analytics_pipel.Prelude.{
  ℕ, ◌≡◌, refl, sym, ap, Bool, true, false, List, [], ◌∷◌, ◌++◌, String, str_eq, arith, inl, inr,
  Bool-cases, ◌⊎◌, ◌<◌,
}
use realtime_analytics_pipel.Storage.Consumer.{Item, Message, Buffers}
use realtime_analytics_pipel.Storage.Consumer.Accepted.{get, accepted}
use realtime_analytics_pipel.Storage.Consumer.Keys.{keys}
use realtime_analytics_pipel.Storage.Inserts.{Cycle, Reach, all_settled}
use realtime_analytics_pipel.Storage.Inserts.Safety.{start, Reach-IsFaithful, commit_after_inserts}
use realtime_analytics_pipel.Storage.Loop.{Loop, total, Cycled}
use realtime_analytics_pipel.Storage.Loop.Rows.{
  perm_exchange, rows_of, rows_of-Perm, rows_of-non_empty, rows_of-get, left_over, taken_or_left,
  IsDistinct,
}

-- one cycle: of the rows buffered `b` and the new ones `n`, `i` are inserted and `r` are left
pub conserve_inserts :
    {A : Type 0} (s b l a i r n : List A)
    → Perm (s ++ (b ++ l)) a
    → Perm (i ++ r) (b ++ n)
    → Perm ((s ++ i) ++ (l ++ r)) (a ++ n)
conserve_inserts s b l a i r n h g = Perm.trans (perm_exchange s i l r) (
    Perm.trans (Perm.append_left (s ++ l) g) (
      Perm.trans
        (rw (append_assoc s l (b ++ n), append_assoc s (b ++ l) n) (Perm.append_left s (exchange)))
        (Perm.append_right n h)))
  where
    exchange : Perm (l ++ (b ++ n)) ((b ++ l) ++ n)
    exchange = rw (← append_assoc l b n) (Perm.append_right n (perm_append_comm l b))

-- a poll that raises: `p` comes into the buffers and `q` is lost
pub conserve_raise :
    {A : Type 0} (s b l a p q : List A)
    → Perm (s ++ (b ++ l)) a
    → Perm (s ++ ((b ++ p) ++ (l ++ q))) (a ++ (p ++ q))
conserve_raise s b l a p q h =
    Perm.trans (Perm.append_left s (perm_exchange b p l q))
      (rw (← append_assoc s (b ++ l) (p ++ q)) (Perm.append_right (p ++ q) h))

pub conserve_nothing :
    {A : Type 0} (s b l a n : List A)
    → Perm (s ++ (b ++ l)) a
    → b ++ n ≡ []
    → Perm (s ++ l) (a ++ n)
conserve_nothing s [] l a [] h e = rw (append-nil a) h
conserve_nothing s [] l a (x ∷ n) h e = absurd (cc)
conserve_nothing s (x ∷ b) l a n h e = absurd (cc)

-- a buffer for each topic
unfoldable pub empty_buffers : {Row Other : Type 0} → List String → Buffers Row Other
empty_buffers [] = []
empty_buffers (t ∷ ts) = (t, []) ∷ empty_buffers ts

keys-empty_buffers :
    (Row Other : Type 0) (ts : List String)
    → keys (empty_buffers {Row = Row} {Other = Other} ts) ≡ ts
unfolding empty_buffers
keys-empty_buffers Row Other [] = refl
keys-empty_buffers Row Other (t ∷ ts) = ap (λ l. t ∷ l) (keys-empty_buffers Row Other ts)

get-empty_buffers :
    {Row Other : Type 0} (k : String) (ts : List String)
    → get k (empty_buffers {Row = Row} {Other = Other} ts) ≡ []
unfolding empty_buffers
get-empty_buffers k [] = refl
get-empty_buffers k (t ∷ ts) = elim (Bool-cases (str_eq t k)) [
  | inl e ↦ rw e refl
  | inr e ↦ rw e (get-empty_buffers k ts)
]

module _ {Row Other : Type 0} (parse : Row → Row) (limit : ℕ) (commit_offset : ℕ → ℕ → ℕ) where
  -- any number of cycles
  pub data History (s : Loop Row Other) : Loop Row Other → Type 0 where
    here : History s s
    next :
        {t u : Loop Row Other} (ms : List (Message Row Other))
        → History s t
        → Cycled commit_offset parse limit ms t u
        → History s u

  -- the loop before its first cycle
  abbrev pub before_cycles : List String → Loop Row Other
  before_cycles topics = record {
    log = [];
    buffers = empty_buffers topics;
    stored = [];
    unseen = [];
    committed = 0;
    storage_commits = 0;
    storage_errors = 0;
  }

  -- Each row accepted for a topic is in a batch whose insert has returned, in the buffer or lost, once; and
  -- nothing is lost as long as the error counter is 0.
  pub record IsConserved (topics : List String) (s : Loop Row Other) : Type 0 where
    pub lost : String → List (Item Row Other)
    pub topics_kept : keys s.buffers ≡ topics
    pub exact :
        (k : String)
        → Perm (rows_of k s.stored ++ (get k s.buffers ++ lost k)) (accepted parse k s.log)
    pub honest : (0 < s.storage_errors) ⊎ ((k : String) → lost k ≡ [])

  pub accepted-append :
      (k : String) (xs ys : List (Message Row Other))
      → accepted parse k (xs ++ ys) ≡ accepted parse k xs ++ accepted parse k ys
  accepted-append k [] ys = refl
  accepted-append k (m ∷ ms) ys =
      rw (accepted-append k ms ys)
        (sym (append_assoc _ (accepted parse k ms) (accepted parse k ys)))

  pub before_cycles-IsConserved : (topics : List String) → IsConserved topics (before_cycles topics)
  before_cycles-IsConserved topics = record {
    lost = λ k. [];
    topics_kept = keys-empty_buffers Row Other topics;
    exact = λ k. rw (get-empty_buffers k topics) (Perm.refl []);
    honest = inr (λ k. refl);
  }

  -- what a cycle has inserted of a topic, and the rest of its batch, which is empty unless an insert failed
  pub cycle_rows :
      (batches : Buffers Row Other) {c : Cycle (Item Row Other)} (f : Bool)
      → IsDistinct (keys batches)
      → Reach (start limit batches) c
      → all_settled c.tasks ≡ true
      → c.shared.any_insert_failed ≡ f
      → (rest : String → List (Item Row Other)) × ((k : String)
          → Perm (rows_of k c.shared.inserted ++ rest k) (get k batches))
        × (f ≡ false → (k : String) → rest k ≡ [])
  cycle_rows batches {c} false d r a e = (
    λ k. [],
    λ k.
        rw
          (
            append-nil (rows_of k c.shared.inserted),
            sym (rows_of-get k batches d),
            sym (rows_of-non_empty k batches),
          )
          (rows_of-Perm k ((commit_after_inserts limit batches r a).2 e)),
    λ h k. refl,
  )
  cycle_rows batches {c} true d r a e =
      let i = Reach-IsFaithful limit batches r in
      (
        λ k. rows_of k (left_over c.tasks),
        λ k.
            rw (sym (rows_of-get k batches d), sym (rows_of-non_empty k batches), sym i.same)
              (Perm.trans
                (Perm.append_right (rows_of k (left_over c.tasks)) (rows_of-Perm k i.exact))
                (taken_or_left k c.tasks)),
        λ h. absurd (cc),
      )

  pub get_of_none : (k : String) (b : Buffers Row Other) → total b ≡ 0 → get k b ≡ []
  unfolding total
  get_of_none k [] h = refl
  get_of_none k ((j, []) ∷ rest) h = elim (Bool-cases (str_eq j k)) [
    | inl e ↦ rw e refl
    | inr e ↦ rw e (get_of_none k rest (omega (arith, h)))
  ]
  get_of_none k ((j, x ∷ xs) ∷ rest) h = absurd (omega (arith, h))
