-- ===== src/Shared/Metrics.antt =====
-- shared/metrics.py. A name is the list of its code points; a metric of prometheus_client is what its
-- constructor is given, with bounds of buckets as numbers.
pub mod Tests
use realtime_analytics_pipel.Prelude.{
  ℕ, ◌≡◌, refl, sym, ap, ◌∙◌, Bool, true, false, not, ◌&&◌, ◌||◌, Option, none, some, List, [], ◌∷◌,
  ◌++◌, Outcome, ok, raise, ◌>>=◌, value_error, ◌==◌, leb, if◌then◌else◌, Bool-cases, inl, inr,
  arith, ok_injective,
}
use mathlib.Core.Path.{subst}

abbrev pub Name : Type 0
Name = List ℕ

-- `[a-z_]` and `[a-z0-9_]`
abbrev pub is_first : ℕ → Bool
is_first c = (leb 97 c && leb c 122) || c == 95

abbrev pub is_later : ℕ → Bool
is_later c = is_first c || (leb 48 c && leb c 57)

-- `[a-z0-9_]*$`, where `$` also matches before a newline at the end
unfoldable pub matches_rest : Name → Bool
matches_rest [] = true
matches_rest (c ∷ []) = is_later c || c == 10
matches_rest (c ∷ d ∷ cs) = is_later c && matches_rest (d ∷ cs)

-- `_NAME_RE.match`
unfoldable pub matches : Name → Bool
matches [] = false
matches (c ∷ cs) = is_first c && matches_rest cs

-- `_validate`
unfoldable pub validate : Name → Outcome Name
validate name = if matches name then ok name else raise value_error

unfoldable pub starts_with : Name → Name → Bool
starts_with [] name = true
starts_with (c ∷ cs) [] = false
starts_with (c ∷ cs) (d ∷ ds) = let rest = starts_with cs ds in c == d && rest

abbrev pub underscore : ℕ
underscore = 95

-- `_prefix`, where a service that is `None` or empty adds nothing
unfoldable pub prefix : Name → Option Name → Name
prefix name none = name
prefix name (some []) = name
prefix name (some (c ∷ cs)) =
    if not (starts_with ((c ∷ cs) ++ underscore ∷ []) name)
    then (c ∷ cs) ++ underscore ∷ name
    else name

-- the name under which `get_counter`, `get_gauge` and `get_histogram` register a metric
unfoldable pub full_name : Name → Option Name → Outcome Name
full_name name service = validate (prefix name service)

pub data Metric : Type 0 where
  counter : (name documentation : Name) → Metric
  histogram : (name documentation : Name) → (buckets : Option (List ℕ)) → Metric
  gauge : (name documentation : Name) → Metric

unfoldable pub get_counter : (name documentation : Name) → Option Name → Outcome Metric
get_counter name documentation service =
    full_name name service >>= (λ full. ok (counter full documentation))

unfoldable pub get_histogram :
    (name documentation : Name) → Option Name → (buckets : Option (List ℕ)) → Outcome Metric
get_histogram name documentation service buckets =
    full_name name service >>= (λ full. ok (histogram full documentation buckets))

unfoldable pub get_gauge : (name documentation : Name) → Option Name → Outcome Metric
get_gauge name documentation service =
    full_name name service >>= (λ full. ok (gauge full documentation))

-- the three functions that it returns
pub record Factory : Type 0 where
  pub make_counter : (name documentation : Name) → Outcome Metric
  pub make_histogram : (name documentation : Name) → (buckets : Option (List ℕ)) → Outcome Metric
  pub make_gauge : (name documentation : Name) → Outcome Metric

unfoldable pub metric_factory : Name → Factory
metric_factory service = record {
  make_counter = λ name documentation. get_counter name documentation (some service);
  make_histogram =
      λ name documentation buckets. get_histogram name documentation (some service) buckets;
  make_gauge = λ name documentation. get_gauge name documentation (some service);
}

starts_with-append : (s t : Name) → starts_with s (s ++ t) ≡ true
unfolding starts_with
starts_with-append [] t = refl
starts_with-append (c ∷ cs) t = let rest = starts_with-append cs t in ground (arith, rest)

underscore_between : (s name : Name) → (s ++ underscore ∷ []) ++ name ≡ s ++ underscore ∷ name
underscore_between [] name = refl
underscore_between (c ∷ cs) name = ap (λ r. c ∷ r) (underscore_between cs name)

starts_with-prefix :
    (s name : Name) → starts_with (s ++ underscore ∷ []) (s ++ underscore ∷ name) ≡ true
starts_with-prefix s name =
    ap (starts_with (s ++ underscore ∷ [])) (sym (underscore_between s name))
    ∙ starts_with-append (s ++ underscore ∷ []) name

prefix_twice :
    (name : Name) (service : Option Name)
    → prefix (prefix name service) service ≡ prefix name service
unfolding prefix
prefix_twice name none = refl
prefix_twice name (some []) = refl
prefix_twice name (some (c ∷ cs)) =
    elim (Bool-cases (starts_with (c ∷ (cs ++ underscore ∷ [])) name)) [
      | inl e ↦ rw (e, e) refl
      | inr e ↦ rw (e, starts_with-prefix (c ∷ cs) name) refl
    ]

-- A name that was registered for a service is registered for it again under the same name: the prefix
-- is not added twice and the name is still valid.
pub full_name_twice :
    (name : Name) (service : Option Name) (full : Name)
    → full_name name service ≡ ok full
    → full_name full service ≡ ok full
unfolding full_name validate
full_name_twice name service full h = elim (Bool-cases (matches (prefix name service))) [
  | inl e ↦
      subst (λ f. full_name f service ≡ ok f) {x = prefix name service}
        (ok_injective (ground (arith, h, e))) (rw (prefix_twice name service, e) refl)
  | inr e ↦ absurd (ground (arith, h, e))
]
