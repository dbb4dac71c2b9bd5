-- ===== src/Storage/Loop/Rows.antt =====
-- The rows of a topic in a list of batches, in any order of the batches.
use mathlib.Core.Logic.{∥∥₁_elim}
use mathlib.Core.List.{append-nil, append_assoc, Perm, perm_append_comm, Perm-prop, Permᴰ}
use mathlib.Core.List.Perm
use realtime_analytics_pipel.Prelude.{
  ◌≡◌, refl, sym, ap, ◌∙◌, Bool, false, ◌||◌, List, [], ◌∷◌, ◌++◌, String, str_eq, eq_iff,
  if◌then◌else◌, Bool-cases, inl, inr, arith,
}
use realtime_analytics_pipel.Storage.Consumer.{Buffers}
use realtime_analytics_pipel.Storage.Consumer.Accepted.{get}
use realtime_analytics_pipel.Storage.Consumer.Keys.{keys}
use realtime_analytics_pipel.Storage.Inserts.{Stage, stored, Task}
use realtime_analytics_pipel.Storage.Inserts.Safety.{Jobs, jobs, job, taken, taken_all, non_empty}

-- an exchange of the middle of four lists
pub perm_exchange :
    {A : Type 0} (a b c d : List A) → Perm ((a ++ b) ++ (c ++ d)) ((a ++ c) ++ (b ++ d))
perm_exchange a b c d =
    rw
      (
        append_assoc a b (c ++ d),
        append_assoc a c (b ++ d),
        ← append_assoc b c d,
        ← append_assoc c b d,
      )
      (Perm.append_left a (Perm.append_right d (perm_append_comm b c)))

perm_front : {A : Type 0} (a b c : List A) → Perm (a ++ (b ++ c)) (b ++ (a ++ c))
perm_front a b c =
    rw (← append_assoc a b c, ← append_assoc b a c) (Perm.append_right c (perm_append_comm a b))

module _ {Row : Type 0} where
  -- the rows that the batches hold for the topic `k`
  abbrev pub rows_of : String → List (String × List Row) → List Row
  rows_of k [] = []
  rows_of k ((j, items) ∷ rest) = (if str_eq j k then items else []) ++ rows_of k rest

  pub rows_of-append :
      (k : String) (xs ys : List (String × List Row))
      → rows_of k (xs ++ ys) ≡ rows_of k xs ++ rows_of k ys
  rows_of-append k [] ys = refl
  rows_of-append k ((j, items) ∷ rest) ys =
      rw (rows_of-append k rest ys) (sym (append_assoc (if str_eq j k then items else []) _ _))

  rows_of_derivation :
      (k : String) {xs ys : List (String × List Row)}
      → Permᴰ xs ys
      → Perm (rows_of k xs) (rows_of k ys)
  rows_of_derivation k Permᴰ.nil = Perm.refl []
  rows_of_derivation k (Permᴰ.cons {a} {b} e p) =
      rw e (Perm.append_left (if str_eq b.0 k then b.1 else []) (rows_of_derivation k p))
  rows_of_derivation k (Permᴰ.swap {a} {b} {a'} {b'} {l} e f) =
      rw (e, f)
        (perm_front (if str_eq b'.0 k then b'.1 else []) (if str_eq a'.0 k then a'.1 else [])
          (rows_of k l))
  rows_of_derivation k (Permᴰ.trans p q) =
      Perm.trans (rows_of_derivation k p) (rows_of_derivation k q)

  pub rows_of-Perm :
      (k : String) {xs ys : List (String × List Row)}
      → Perm xs ys
      → Perm (rows_of k xs) (rows_of k ys)
  rows_of-Perm k p = ∥∥₁_elim p Perm-prop (rows_of_derivation k)

  pub rows_of-non_empty : (k : String) (b : Jobs Row) → rows_of k (non_empty b) ≡ rows_of k b
  unfolding non_empty
  rows_of-non_empty k [] = refl
  rows_of-non_empty k ((topic, []) ∷ rest) = elim (Bool-cases (str_eq topic k)) [
    | inl e ↦ rw e (rows_of-non_empty k rest)
    | inr e ↦ rw e (rows_of-non_empty k rest)
  ]
  rows_of-non_empty k ((topic, r ∷ rs) ∷ rest) =
      ap (λ l. (if str_eq topic k then r ∷ rs else []) ++ l) (rows_of-non_empty k rest)

  -- the batch of a task, unless it is stored
  abbrev left_of : Stage → String × List Row → Jobs Row
  left_of stored j = []
  left_of _ j = j ∷ []

  -- the batches of the tasks that are not stored
  abbrev pub left_over : List (Task Row) → Jobs Row
  left_over [] = []
  left_over (t ∷ ts) = left_of t.stage (job t) ++ left_over ts

  pub taken_or_left :
      (k : String) (ts : List (Task Row))
      → Perm (rows_of k (taken_all ts) ++ rows_of k (left_over ts)) (rows_of k (jobs ts))
  taken_or_left k [] = Perm.refl []
  taken_or_left k (t ∷ ts) = go t.stage (taken_or_left k ts)
    where
      mine : List Row
      mine = if str_eq t.topic k then t.batch else []

      go :
          (st : Stage)
          → Perm (rows_of k (taken_all ts) ++ rows_of k (left_over ts)) (rows_of k (jobs ts))
          → Perm
              (rows_of k (taken st (job t) ++ taken_all ts)
                ++ rows_of k (left_of st (job t) ++ left_over ts))
              (mine ++ rows_of k (jobs ts))
      go stored ih =
          rw (append_assoc mine (rows_of k (taken_all ts)) (rows_of k (left_over ts)))
            (Perm.append_left mine ih)
      go _ ih =
          Perm.trans (perm_front (rows_of k (taken_all ts)) mine (rows_of k (left_over ts)))
            (Perm.append_left mine ih)

abbrev pub is_in : String → List String → Bool
is_in k [] = false
is_in k (j ∷ js) = str_eq j k || is_in k js

-- no topic occurs twice
abbrev pub IsDistinct : List String → Type 0
IsDistinct [] = Unit
IsDistinct (j ∷ js) = (is_in j js ≡ false) × IsDistinct js

module _ {Row Other : Type 0} where
  rows_of_absent :
      (k : String) (b : Buffers Row Other) → is_in k (keys b) ≡ false → rows_of k b ≡ []
  rows_of_absent k [] h = refl
  rows_of_absent k ((j, items) ∷ rest) h = elim (Bool-cases (str_eq j k)) [
    | inl e ↦ absurd (ground (arith, h, e))
    | inr e ↦ rw e (rows_of_absent k rest (ground (arith, h, e)))
  ]

  pub rows_of-get :
      (k : String) (b : Buffers Row Other) → IsDistinct (keys b) → rows_of k b ≡ get k b
  rows_of-get k [] h = refl
  rows_of-get k ((j, items) ∷ rest) h = elim (Bool-cases (str_eq j k)) [
    | inl e ↦ rw e (
        ap (λ l. items ++ l)
          (rows_of_absent k rest (ap (λ i. is_in i (keys rest)) (sym ((eq_iff j k).0 e)) ∙ h.0))
        ∙ append-nil items)
    | inr e ↦ rw e (rows_of-get k rest h.1)
  ]
