-- ===== src/Shared/Redaction.antt =====
-- `SensitiveDataFilter` and `CustomJsonFormatter.format` of shared/logging/json.py. A key is the list of
-- its code points and `lower` is `str.lower`; a scalar is any value that is neither a dict nor a list of
-- values that may be dicts.
pub mod Tests
use realtime_analytics_pipel.Prelude.{
  ℕ, ◌≡◌, refl, sym, ap, ◌∙◌, Bool, true, false, ◌&&◌, ◌||◌, Option, none, some, List, [], ◌∷◌,
  ◌==◌, if◌then◌else◌, Bool-cases, inl, inr, ◌⊎◌,
}
use realtime_analytics_pipel.Shared.Metrics.{Name, starts_with}

-- a dict, entry by entry: a scalar, a dict or a list under a key, and the entries after it; the members
-- of a list are entries whose keys are not used
pub data Dict (Scalar : Type 0) : Type 0 where
  end : Dict Scalar
  scalar : Name → Scalar → Dict Scalar → Dict Scalar
  nested : Name → Dict Scalar → Dict Scalar → Dict Scalar
  listed : Name → (members : Dict Scalar) → Dict Scalar → Dict Scalar

-- `pattern in key`
unfoldable pub occurs_in : Name → Name → Bool
occurs_in pattern [] = starts_with pattern []
occurs_in pattern (c ∷ cs) =
    let later = occurs_in pattern cs in starts_with pattern (c ∷ cs) || later

unfoldable pub any_occurs : List Name → Name → Bool
any_occurs [] key = false
any_occurs (p ∷ ps) key = occurs_in p key || any_occurs ps key

unfoldable pub lower_all : (Name → Name) → List Name → List Name
lower_all lower [] = []
lower_all lower (p ∷ ps) = lower p ∷ lower_all lower ps

module _ {Scalar : Type 0} where
  -- `data[key] = value`, where `entry` puts the value under a key: in its place if the key is there, and
  -- at the end otherwise
  unfoldable pub set :
      (same : Name → Name → Bool)
      → Name
      → (entry : Name → Dict Scalar → Dict Scalar) → Dict Scalar
      → Dict Scalar
  set same key entry end = entry key end
  set same key entry (scalar k v rest) =
      let later = set same key entry rest in if same k key then entry k rest else scalar k v later
  set same key entry (nested k d rest) =
      let later = set same key entry rest in if same k key then entry k rest else nested k d later
  set same key entry (listed k members rest) =
      let later = set same key entry rest in
      if same k key then entry k rest else listed k members later

  unfoldable pub set_all :
      (same : Name → Name → Bool) → List (Name × Scalar) → Dict Scalar → Dict Scalar
  set_all same [] d = d
  set_all same ((key, v) ∷ rest) d =
      set_all same rest (set same key (λ k later. scalar k v later) d)

  unfoldable pub with_exception :
      (same : Name → Name → Bool) → Name → Option (Dict Scalar) → Dict Scalar → Dict Scalar
  with_exception same key none d = d
  with_exception same key (some e) d = set same key (λ k later. nested k e later) d

-- `redacted` is the text "[REDACTED]"
module _ {Scalar : Type 0} (lower : Name → Name) (patterns : List Name) (redacted : Scalar) where
  -- `self.patterns` are in lower case
  abbrev pub is_sensitive : Name → Bool
  is_sensitive key = any_occurs (lower_all lower patterns) (lower key)

  unfoldable pub filter : Dict Scalar → Dict Scalar
  filter end = end
  filter (scalar k v rest) =
      let later = filter rest in
      if is_sensitive k then scalar k redacted later else scalar k v later
  filter (nested k d rest) =
      let inner = filter d in
      let later = filter rest in
      if is_sensitive k then scalar k redacted later else nested k inner later
  filter (listed k members rest) =
      let later = filter rest in
      if is_sensitive k then scalar k redacted later else listed k members later

  -- no sensitive key of the dict, or of a dict in it that is reached through dicts only, holds anything but
  -- the text; what the members of a list hold is left open
  abbrev pub IsClean : Dict Scalar → Type 0
  IsClean end = Unit
  IsClean (scalar k v rest) = ((is_sensitive k ≡ false) ⊎ (v ≡ redacted)) × IsClean rest
  IsClean (nested k d rest) = (is_sensitive k ≡ false) × IsClean d × IsClean rest
  IsClean (listed k members rest) = (is_sensitive k ≡ false) × IsClean rest

  -- After the filter no sensitive key, at any depth of dicts, holds anything but the text "[REDACTED]".
  pub filter-IsClean : (d : Dict Scalar) → IsClean (filter d)
  unfolding filter
  filter-IsClean end = tt
  filter-IsClean (scalar k v rest) = elim (Bool-cases (is_sensitive k)) [
    | inl e ↦ rw e (inr refl, filter-IsClean rest)
    | inr e ↦ rw e (inl e, filter-IsClean rest)
  ]
  filter-IsClean (nested k d rest) = elim (Bool-cases (is_sensitive k)) [
    | inl e ↦ rw e (inr refl, filter-IsClean rest)
    | inr e ↦ rw e (e, filter-IsClean d, filter-IsClean rest)
  ]
  filter-IsClean (listed k members rest) = elim (Bool-cases (is_sensitive k)) [
    | inl e ↦ rw e (inr refl, filter-IsClean rest)
    | inr e ↦ rw e (e, filter-IsClean rest)
  ]

  -- A dict in which no sensitive key holds anything but the text is left as it is.
  filter_clean : (d : Dict Scalar) → IsClean d → filter d ≡ d
  unfolding filter
  filter_clean end h = refl
  filter_clean (scalar k v rest) h = elim h.0 [
    | inl e ↦ rw e (ap (scalar k v) (filter_clean rest h.1))
    | inr q ↦ elim (Bool-cases (is_sensitive k)) [
      | inl e ↦
          rw e
            (ap (λ w. scalar k w (filter rest)) (sym q) ∙ ap (scalar k v) (filter_clean rest h.1))
      | inr e ↦ rw e (ap (scalar k v) (filter_clean rest h.1))
    ]
  ]
  filter_clean (nested k d rest) h = rw (h.0) (
      ap (λ x. nested k x (filter rest)) (filter_clean d h.1)
      ∙ ap (nested k d) (filter_clean rest h.2))
  filter_clean (listed k members rest) h = rw (h.0) (ap (listed k members) (filter_clean rest h.1))

  -- Filtering twice is filtering once.
  pub filter_twice : (d : Dict Scalar) → filter (filter d) ≡ filter d
  filter_twice d = filter_clean (filter d) (filter-IsClean d)

  -- What `format` gives to `json.dumps`: `attributes` are those of the record, `context` the timestamp,
  -- service, hostname, pid and environment, and `exception` what `format_exception` makes of `exc_info`.
  unfoldable pub format :
      (same : Name → Name → Bool)
      → (context : List (Name × Scalar)) → (exception_key : Name)
      → (exception : Option (Dict Scalar)) → (attributes : Dict Scalar) → Dict Scalar
  format same context exception_key exception attributes =
      filter (with_exception same exception_key exception (set_all same context attributes))

  -- In every line that the formatter writes no sensitive key, at any depth of dicts, holds anything but the
  -- text "[REDACTED]", whatever the record, the context and the exception hold.
  pub format-IsClean :
      (same : Name → Name → Bool) (context : List (Name × Scalar)) (exception_key : Name)
      (exception : Option (Dict Scalar)) (attributes : Dict Scalar)
      → IsClean (format same context exception_key exception attributes)
  unfolding format
  format-IsClean same context exception_key exception attributes =
      filter-IsClean (with_exception same exception_key exception (set_all same context attributes))
