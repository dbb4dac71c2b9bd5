-- ===== src/Cache/Index/Latest.antt =====
-- The latest members of a sorted set: trimming it after each write loses nothing that trimming once
-- at the end would keep.
use realtime_analytics_pipel.Prelude.{
  ℕ, zero, suc, ◌-◌, ◌≤◌, ◌≡◌, refl, sym, ap, ◌∙◌, true, List, [], ◌∷◌, Bool-cases, inl, inr, arith,
  All, length, length-drop, drop, last, leb, leb→le,
}
use realtime_analytics_pipel.Prelude.Order.{Order}
use realtime_analytics_pipel.Cache.Index.{
  insert, insert_all, compared, insert_below, insert_above, insert_equal, insert_first,
}

over : (m n : ℕ) → n ≤ m → suc m - n ≡ suc (m - n)
over m n h = omega arith

none_over : (m n : ℕ) → m ≤ n → m - n ≡ 0
none_over m n h = omega arith

module _ {A : Type 0} where
  pub last-cons : (n : ℕ) (x : A) (xs : List A) → n ≤ length xs → last n (x ∷ xs) ≡ last n xs
  last-cons n x xs h = ap (λ i. drop i (x ∷ xs)) (over (length xs) n h)

  pub last_short : (n : ℕ) (xs : List A) → length xs ≤ n → last n xs ≡ xs
  last_short n xs h = ap (λ i. drop i xs) (none_over (length xs) n h)

  pub length-last : (n : ℕ) (xs : List A) → length (last n xs) ≤ n
  length-last n xs = omega (arith, length-drop (length xs - n) xs)

  pub last_twice : (n : ℕ) (xs : List A) → last n (last n xs) ≡ last n xs
  last_twice n xs = last_short n (last n xs) (length-last n xs)

module _ {W : Type 0} (order : Order W) where
  abbrev pub IsSorted : List W → Type 0
  IsSorted [] = Unit
  IsSorted (x ∷ xs) = All (λ y. order.less x y ≡ true) xs × IsSorted xs

  length-insert : (w : W) (xs : List W) → length xs ≤ length (insert order w xs)
  length-insert w [] = omega arith
  length-insert w (x ∷ xs) = elim (compared order w x) [
    | inl l ↦ rw (insert_below order w x xs l) (omega arith)
    | inr (inl g) ↦ rw (insert_above order w x xs g) (omega (arith, length-insert w xs))
    | inr (inr e) ↦ rw (e, insert_equal order x xs) (omega arith)
  ]

  All-less :
      (w x : W) (xs : List W)
      → order.less w x ≡ true
      → All (λ y. order.less x y ≡ true) xs
      → All (λ y. order.less w y ≡ true) xs
  All-less w x [] l h = tt
  All-less w x (y ∷ ys) l h = (order.transitive w x y l h.0, All-less w x ys l h.1)

  insert_least :
      (w : W) (xs : List W) → All (λ y. order.less w y ≡ true) xs → insert order w xs ≡ w ∷ xs
  insert_least w [] h = insert_first order w
  insert_least w (x ∷ xs) h = insert_below order w x xs h.0

  All-insert :
      (z w : W) (xs : List W)
      → order.less z w ≡ true
      → All (λ y. order.less z y ≡ true) xs
      → All (λ y. order.less z y ≡ true) (insert order w xs)
  All-insert z w [] l h = rw (insert_first order w) (l, tt)
  All-insert z w (x ∷ xs) l h = elim (compared order w x) [
    | inl b ↦ rw (insert_below order w x xs b) (l, h)
    | inr (inl g) ↦ rw (insert_above order w x xs g) (h.0, All-insert z w xs l h.1)
    | inr (inr e) ↦ rw (e, insert_equal order x xs) h
  ]

  pub insert-IsSorted : (w : W) (xs : List W) → IsSorted xs → IsSorted (insert order w xs)
  insert-IsSorted w [] h = rw (insert_first order w) (tt, tt)
  insert-IsSorted w (x ∷ xs) h = elim (compared order w x) [
    | inl l ↦ rw (insert_below order w x xs l) ((l, All-less w x xs l h.0), h)
    | inr (inl g) ↦
        rw (insert_above order w x xs g) (All-insert x w xs g h.0, insert-IsSorted w xs h.1)
    | inr (inr e) ↦ rw (e, insert_equal order x xs) h
  ]

  pub insert_all-IsSorted : (ws xs : List W) → IsSorted xs → IsSorted (insert_all order ws xs)
  insert_all-IsSorted [] xs h = h
  insert_all-IsSorted (w ∷ ws) xs h =
      insert_all-IsSorted ws (insert order w xs) (insert-IsSorted w xs h)

  drop-IsSorted : (i : ℕ) (xs : List W) → IsSorted xs → IsSorted (drop i xs)
  drop-IsSorted zero xs h = h
  drop-IsSorted (suc i) [] h = tt
  drop-IsSorted (suc i) (x ∷ xs) h = drop-IsSorted i xs h.1

  pub last-IsSorted : (n : ℕ) (xs : List W) → IsSorted xs → IsSorted (last n xs)
  last-IsSorted n xs h = drop-IsSorted (length xs - n) xs h

  -- a new head below the latest `n` members changes nothing
  step_over :
      (n : ℕ) (w x : W) (xs : List W)
      → IsSorted (x ∷ xs)
      → n ≤ length xs
      → last n (insert order w (x ∷ xs)) ≡ last n (insert order w xs)
  step_over n w x xs h m = elim (compared order w x) [
    | inl l ↦
        rw (insert_below order w x xs l, insert_least w xs (All-less w x xs l h.0))
          (last-cons n w (x ∷ xs) (omega arith) ∙ last-cons n x xs m ∙ sym (last-cons n w xs m))
    | inr (inl g) ↦
        rw (insert_above order w x xs g)
          (last-cons n x (insert order w xs) (omega (arith, m, length-insert w xs)))
    | inr (inr e) ↦ rw (e, insert_equal order x xs, insert_least x xs h.0) refl
  ]

  -- inserting into the latest `n` members and inserting into all of them has the same latest `n`
  pub last-insert :
      (n : ℕ) (w : W) (xs : List W)
      → IsSorted xs
      → last n (insert order w (last n xs)) ≡ last n (insert order w xs)
  last-insert n w [] h = ap (λ l. last n (insert order w l)) (last_short n [] (omega arith))
  last-insert n w (x ∷ xs) h = elim (Bool-cases (leb n (length xs))) [
    | inl m ↦
        ap (λ l. last n (insert order w l)) (last-cons n x xs (leb→le n (length xs) m))
        ∙ last-insert n w xs h.1
        ∙ sym (step_over n w x xs h (leb→le n (length xs) m))
    | inr m ↦ ap (λ l. last n (insert order w l)) (last_short n (x ∷ xs) (ground (arith, m)))
  ]

  -- sorted sets with the same latest `n` members keep them in common, whatever is inserted into both
  pub latest_same :
      (n : ℕ) (ws xs ys : List W)
      → IsSorted xs
      → IsSorted ys
      → last n xs ≡ last n ys
      → last n (insert_all order ws xs) ≡ last n (insert_all order ws ys)
  latest_same n [] xs ys p q e = e
  latest_same n (w ∷ ws) xs ys p q e =
      latest_same n ws (insert order w xs) (insert order w ys) (insert-IsSorted w xs p)
        (insert-IsSorted w ys q)
        (sym (last-insert n w xs p) ∙ ap (λ l. last n (insert order w l)) e ∙ last-insert n w ys q)
