-- ===== src/Cache/Index.antt =====
-- A sorted set of Redis whose members are their own scores, as the window indices of
-- services/cache/src/infrastructure/redis/repository.py are: its members in ascending order.
pub mod Greatest
pub mod Latest
pub mod Pending
use mathlib.Core.Path.{subst}
use realtime_analytics_pipel.Prelude.{
  ◌≡◌, refl, sym, ap, ◌∙◌, true, false, List, [], ◌∷◌, Bool-cases, inl, inr, if◌then◌else◌, arith,
  ◌⊎◌, ◌++◌,
}
use realtime_analytics_pipel.Prelude.Order.{Order}

-- some elements of a list, in their order
pub data IsPartOf {A : Type 0} : List A → List A → Type 0 where
  none_left : IsPartOf [] []
  taken : {xs ys : List A} (x : A) → IsPartOf xs ys → IsPartOf (x ∷ xs) (x ∷ ys)
  left_out : {xs ys : List A} (x : A) → IsPartOf xs ys → IsPartOf xs (x ∷ ys)

module _ {W : Type 0} (order : Order W) where
  unfoldable pub insert : W → List W → List W
  insert w [] = w ∷ []
  insert w (x ∷ xs) =
      let rest = insert w xs in
      if order.less w x then w ∷ x ∷ xs else if order.less x w then x ∷ rest else x ∷ xs

  abbrev pub insert_all : List W → List W → List W
  insert_all [] xs = xs
  insert_all (w ∷ ws) xs = insert_all ws (insert w xs)

  abbrev pub Compared : W → W → Type 0
  Compared a b = (order.less a b ≡ true) ⊎ ((order.less b a ≡ true) ⊎ (a ≡ b))

  pub compared : (a b : W) → Compared a b
  compared a b = elim (Bool-cases (order.less a b)) [
    | inl l ↦ inl l
    | inr n ↦ elim (Bool-cases (order.less b a)) [
      | inl g ↦ inr (inl g)
      | inr m ↦ inr (inr (order.connected a b n m))
    ]
  ]

  pub asymmetric : (a b : W) → order.less a b ≡ true → order.less b a ≡ false
  asymmetric a b h = elim (Bool-cases (order.less b a)) [
    | inl g ↦ absurd (ground (arith, order.transitive a b a h g, order.irreflexive a))
    | inr n ↦ n
  ]

  pub insert_below :
      (a x : W) (xs : List W) → order.less a x ≡ true → insert a (x ∷ xs) ≡ a ∷ x ∷ xs
  unfolding insert
  insert_below a x xs h = rw h refl

  pub insert_above :
      (a x : W) (xs : List W) → order.less x a ≡ true → insert a (x ∷ xs) ≡ x ∷ insert a xs
  unfolding insert
  insert_above a x xs h = rw (asymmetric x a h, h) refl

  pub insert_equal : (x : W) (xs : List W) → insert x (x ∷ xs) ≡ x ∷ xs
  unfolding insert
  insert_equal x xs = rw (order.irreflexive x) refl

  pub insert_first : (a : W) → insert a [] ≡ a ∷ []
  unfolding insert
  insert_first a = refl

  insert_twice : (a : W) (xs : List W) → insert a (insert a xs) ≡ insert a xs
  insert_twice a [] = rw (insert_first a) (insert_equal a [])
  insert_twice a (x ∷ xs) = elim (compared a x) [
    | inl l ↦ rw (insert_below a x xs l) (insert_equal a (x ∷ xs))
    | inr (inl g) ↦
        rw (insert_above a x xs g, insert_above a x (insert a xs) g)
          (ap (λ r. x ∷ r) (insert_twice a xs))
    | inr (inr e) ↦ rw (e, insert_equal x xs) (insert_equal x xs)
  ]

  -- `a` and `b` trade places when `a` goes before `x` and `b` does not
  insert_around :
      (a b x : W) (xs : List W)
      → order.less a x ≡ true
      → order.less a b ≡ true
      → insert a (insert b (x ∷ xs)) ≡ insert b (insert a (x ∷ xs))
  insert_around a b x xs l m = elim (compared b x) [
    | inl l' ↦
        rw
          (
            insert_below b x xs l',
            insert_below a x xs l,
            insert_below a b (x ∷ xs) m,
            insert_above b a (x ∷ xs) m,
            insert_below b x xs l',
          )
          refl
    | inr (inl g) ↦
        rw
          (
            insert_above b x xs g,
            insert_below a x xs l,
            insert_below a x (insert b xs) l,
            insert_above b a (x ∷ xs) m,
            insert_above b x xs g,
          )
          refl
    | inr (inr e) ↦
        rw
          (
            e,
            insert_equal x xs,
            insert_below a x xs l,
            insert_above x a (x ∷ xs) l,
            insert_equal x xs,
          )
          refl
  ]

  insert_comm_below :
      (a b : W) (xs : List W)
      → order.less a b ≡ true
      → insert a (insert b xs) ≡ insert b (insert a xs)
  insert_comm_below a b [] m =
      rw
        (
          insert_first b,
          insert_first a,
          insert_below a b [] m,
          insert_above b a [] m,
          insert_first b,
        )
        refl
  insert_comm_below a b (x ∷ xs) m = elim (compared a x) [
    | inl l ↦ insert_around a b x xs l m
    | inr (inl g) ↦
        let h : order.less x b ≡ true = order.transitive x a b g m in
        rw
          (
            insert_above b x xs h,
            insert_above a x xs g,
            insert_above a x (insert b xs) g,
            insert_above b x (insert a xs) h,
          )
          (ap (λ r. x ∷ r) (insert_comm_below a b xs m))
    | inr (inr e) ↦
        let h : order.less x b ≡ true = subst (λ y. order.less y b ≡ true) e m in
        rw
          (
            e,
            insert_above b x xs h,
            insert_equal x xs,
            insert_equal x (insert b xs),
            insert_above b x xs h,
          )
          refl
  ]

  insert_comm : (a b : W) (xs : List W) → insert a (insert b xs) ≡ insert b (insert a xs)
  insert_comm a b xs = elim (compared a b) [
    | inl l ↦ insert_comm_below a b xs l
    | inr (inl g) ↦ sym (insert_comm_below b a xs g)
    | inr (inr e) ↦ rw e refl
  ]

  insert_all-insert :
      (a : W) (ws xs : List W) → insert_all ws (insert a xs) ≡ insert a (insert_all ws xs)
  insert_all-insert a [] xs = refl
  insert_all-insert a (w ∷ ws) xs =
      ap (insert_all ws) (insert_comm w a xs) ∙ insert_all-insert a ws (insert w xs)

  pub insert_all_twice : (ws xs : List W) → insert_all ws (insert_all ws xs) ≡ insert_all ws xs
  insert_all_twice [] xs = refl
  insert_all_twice (w ∷ ws) xs =
      ap (insert_all ws)
        (sym (insert_all-insert w ws (insert w xs)) ∙ ap (insert_all ws) (insert_twice w xs))
      ∙ insert_all_twice ws (insert w xs)

  pub insert_all-append :
      (us ws xs : List W) → insert_all (us ++ ws) xs ≡ insert_all ws (insert_all us xs)
  insert_all-append [] ws xs = refl
  insert_all-append (u ∷ us) ws xs = insert_all-append us ws (insert u xs)

  -- inserting some of the members first, in any selection, changes nothing
  pub insert_all_part :
      {us ws : List W} (xs : List W)
      → IsPartOf us ws
      → insert_all ws (insert_all us xs) ≡ insert_all ws xs
  insert_all_part xs none_left = refl
  insert_all_part xs (taken {xs = us} {ys = ws} w p) =
      ap (insert_all ws)
        (sym (insert_all-insert w us (insert w xs)) ∙ ap (insert_all us) (insert_twice w xs))
      ∙ insert_all_part (insert w xs) p
  insert_all_part xs (left_out {xs = us} {ys = ws} w p) =
      ap (insert_all ws) (sym (insert_all-insert w us xs)) ∙ insert_all_part (insert w xs) p

  -- inserting some of the members first, as a write that broke off does, changes nothing
  pub insert_all_again :
      (us ws xs : List W) → insert_all (us ++ ws) (insert_all us xs) ≡ insert_all (us ++ ws) xs
  insert_all_again us ws xs =
      insert_all-append us ws (insert_all us xs)
      ∙ ap (insert_all ws) (insert_all_twice us xs)
      ∙ sym (insert_all-append us ws xs)
