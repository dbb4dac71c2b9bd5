-- ===== src/Cache/Index/Pending.antt =====
-- A sorted set that is trimmed to its latest `n` members while some writes are still to come or have
-- been made in part.
use mathlib.Core.List.{append-nil, append_assoc}
use realtime_analytics_pipel.Prelude.{
  ℕ, ◌≤◌, ◌≡◌, refl, sym, ap, ◌∙◌, List, [], ◌∷◌, ◌++◌, length, last,
}
use realtime_analytics_pipel.Prelude.Order.{Order}
use realtime_analytics_pipel.Cache.Index.{
  IsPartOf, none_left, taken, left_out, insert_all_part, insert_all, insert_all_again,
  insert_all_twice, insert_all-append,
}
use realtime_analytics_pipel.Cache.Index.Latest.{
  IsSorted, insert_all-IsSorted, last-IsSorted, latest_same, length-last, last_twice, last_short,
}

module _ {W : Type 0} (order : Order W) (n : ℕ) (base : List W)
    (base_sorted : IsSorted order base) where
  -- `m` holds what is kept of `base` and the members `written`, and perhaps some of `pending`: once these
  -- are inserted the latest `n` are those of all members ever inserted.
  pub record IsPending (pending written m : List W) : Type 0 where
    pub sorted : IsSorted order m
    pub same :
        last n (insert_all order pending m) ≡ last n (insert_all order (written ++ pending) base)
    pub bounded : pending ≡ [] → length m ≤ n

  pub fresh-IsPending : length base ≤ n → IsPending [] [] base
  fresh-IsPending h = record { sorted = base_sorted; same = refl; bounded = λ e. h }

  append_empty : {A : Type 0} (xs ys : List A) → xs ++ ys ≡ [] → xs ≡ []
  append_empty [] ys h = refl
  append_empty (x ∷ xs) ys h = cc

  pub more-IsPending : (p r q m : List W) → IsPending p q m → IsPending (p ++ r) q m
  more-IsPending p r q m i = record {
    sorted = i.sorted;
    same =
        rw
          (
            insert_all-append order p r m,
            sym (append_assoc q p r),
            insert_all-append order (q ++ p) r base,
          )
          (latest_same order n r (insert_all order p m) (insert_all order (q ++ p) base)
            (insert_all-IsSorted order p m i.sorted)
            (insert_all-IsSorted order (q ++ p) base base_sorted) i.same);
    bounded = λ e. i.bounded (append_empty p r e);
  }

  pub unchanged-IsPending : (q m : List W) → IsPending [] q m → IsPending [] (q ++ []) m
  unchanged-IsPending q m i = rw (append-nil q) i

  pub trimmed-IsPending :
      (p q m : List W) → IsPending p q m → IsPending [] (q ++ p) (last n (insert_all order p m))
  trimmed-IsPending p q m i = record {
    sorted = last-IsSorted order n (insert_all order p m) (insert_all-IsSorted order p m i.sorted);
    same = rw (append-nil (q ++ p)) (last_twice n (insert_all order p m) ∙ i.same);
    bounded = λ e. length-last n (insert_all order p m);
  }

  pub partly-IsPending :
      (us vs q m : List W)
      → IsPending (us ++ vs) q m
      → IsPending (us ++ vs) q (insert_all order us m)
  partly-IsPending us vs q m i = record {
    sorted = insert_all-IsSorted order us m i.sorted;
    same = rw (insert_all_again order us vs m) i.same;
    bounded = λ e. rw (append_empty us vs e) (i.bounded e);
  }

  part_of_empty : {us ws : List W} → IsPartOf us ws → ws ≡ [] → us ≡ []
  part_of_empty none_left e = refl
  part_of_empty (taken w p) e = absurd (cc)
  part_of_empty (left_out w p) e = absurd (cc)

  pub part-IsPending :
      (us p q m : List W) → IsPartOf us p → IsPending p q m → IsPending p q (insert_all order us m)
  part-IsPending us p q m r i = record {
    sorted = insert_all-IsSorted order us m i.sorted;
    same = ap (last n) (insert_all_part order m r) ∙ i.same;
    bounded = λ e. rw (part_of_empty r e) (i.bounded e);
  }

  pub partly_trimmed-IsPending :
      (p q m : List W) → IsPending p q m → IsPending p q (last n (insert_all order p m))
  partly_trimmed-IsPending p q m i =
      let all = insert_all order p m in
      let all_sorted : IsSorted order all = insert_all-IsSorted order p m i.sorted in
      record {
        sorted = last-IsSorted order n all all_sorted;
        same =
            latest_same order n p (last n all) all (last-IsSorted order n all all_sorted) all_sorted
              (last_twice n all)
            ∙ ap (last n) (insert_all_twice order p m)
            ∙ i.same;
        bounded = λ e. length-last n all;
      }

  pub settled-IsPending : (q m : List W) → IsPending [] q m → m ≡ last n (insert_all order q base)
  settled-IsPending q m i =
      sym (last_short n m (i.bounded refl))
      ∙ i.same
      ∙ ap (λ l. last n (insert_all order l base)) (append-nil q)
