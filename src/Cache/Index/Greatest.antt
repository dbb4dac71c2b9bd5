-- ===== src/Cache/Index/Greatest.antt =====
-- A member that is not below any other is the first that a read of the latest members gives.
use mathlib.Core.List.{reverse-append}
use realtime_analytics_pipel.Prelude.{
  ℕ, zero, suc, ◌-◌, ◌≤◌, ◌≡◌, refl, sym, ap, ◌∙◌, true, false, List, [], ◌∷◌, ◌++◌, reverse, inl,
  inr, arith, All, length, length-append, drop, take, last,
}
use realtime_analytics_pipel.Prelude.Order.{Order}
use realtime_analytics_pipel.Cache.Index.{
  insert, compared, insert_above, insert_equal, insert_first,
}
use realtime_analytics_pipel.Cache.Index.Latest.{IsSorted}

module _ {A : Type 0} where
  drop-concat :
      (i : ℕ) (xs : List A) (x : A) → i ≤ length xs → drop i (xs ++ x ∷ []) ≡ drop i xs ++ x ∷ []
  drop-concat zero xs x h = refl
  drop-concat (suc i) [] x h = absurd (omega (arith, h))
  drop-concat (suc i) (y ∷ ys) x h = drop-concat i ys x (omega (arith, h))

  within : (n : ℕ) (xs : List A) (x : A) → length (xs ++ x ∷ []) - suc n ≤ length xs
  within n xs x = omega (arith, length-append xs (x ∷ []))

  -- the last item comes first when the latest are read in reverse
  first_of_last :
      (n : ℕ) (xs : List A) (x : A) → take 1 (reverse (last (suc n) (xs ++ x ∷ []))) ≡ x ∷ []
  first_of_last n xs x =
      ap (λ l. take 1 (reverse l))
        (drop-concat (length (xs ++ x ∷ []) - suc n) xs x (within n xs x))
      ∙ ap (take 1) (reverse-append (drop (length (xs ++ x ∷ []) - suc n) xs) (x ∷ []))

module _ {W : Type 0} (order : Order W) where
  alone :
      (w : W) (xs : List W)
      → All (λ y. order.less w y ≡ true) xs
      → All (λ y. order.less w y ≡ false) xs
      → xs ≡ []
  alone w [] h k = refl
  alone w (x ∷ xs) h k = absurd (cc)

  insert_greatest :
      (w : W) (xs : List W)
      → IsSorted order xs
      → All (λ y. order.less w y ≡ false) xs
      → (ys : List W) × (insert order w xs ≡ ys ++ w ∷ [])
  insert_greatest w [] s h = ([], insert_first order w)
  insert_greatest w (x ∷ xs) s h = elim (compared order w x) [
    | inl l ↦ absurd (cc)
    | inr (inl g) ↦
        let r = insert_greatest w xs s.1 h.1 in
        (x ∷ r.0, insert_above order w x xs g ∙ ap (λ l. x ∷ l) r.1)
    | inr (inr e) ↦ (
      [],
      ap (λ v. insert order v (x ∷ xs)) e
          ∙ insert_equal order x xs
          ∙ ap (λ l. x ∷ l) (alone x xs s.0 (rw (sym e) h.1))
          ∙ ap (λ v. v ∷ []) (sym e),
    )
  ]

  pub latest_is_greatest :
      (n : ℕ) (w : W) (xs : List W)
      → IsSorted order xs
      → All (λ y. order.less w y ≡ false) xs
      → take 1 (reverse (last (suc n) (insert order w xs))) ≡ w ∷ []
  latest_is_greatest n w xs s h =
      let r = insert_greatest w xs s h in
      ap (λ l. take 1 (reverse (last (suc n) l))) r.1 ∙ first_of_last n r.0 w
