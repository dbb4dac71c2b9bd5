-- ===== src/Shared/RedisKeys/Apart.antt =====
-- The keys of different windows are different, and none is the key of an index.
use Prim.Native.String.{slice}
use text.Mathlib.TextLemmas.{append_assoc, append_cancel_left}
use text.Mathlib.TextPositions.{slice-append_left}
use realtime_analytics_pipel.Prelude.{
  ◌≡◌, refl, sym, ap, ◌∙◌, Bool, true, false, ◌||◌, Option, none, some, String, text_append, str_eq,
  eq_iff, Exn, ok, raise, ok_injective, Bool-cases, inl, inr,
}
use realtime_analytics_pipel.Shared.RedisKeys.{
  window_event_hash, window_perf_hash, window_session_hash, window_event_index, window_perf_index,
  window_session_index, pattern_of, formatted, window_key,
}

-- the types of metrics and their patterns
data Known (metric_type : String) : Option String → Type 0 where
  event_known : metric_type ≡ "event" → Known metric_type (some window_event_hash)
  perf_known : metric_type ≡ "performance" → Known metric_type (some window_perf_hash)
  session_known : metric_type ≡ "session" → Known metric_type (some window_session_hash)
  unknown : Known metric_type none

pattern_of-Known : (t : String) → Known t (pattern_of t)
unfolding pattern_of
pattern_of-Known t = elim (Bool-cases (str_eq t "event")) [
  | inl e ↦ rw e (event_known ((eq_iff t "event").0 e))
  | inr n ↦ elim (Bool-cases (str_eq t "performance")) [
    | inl e ↦ rw (n, e) (perf_known ((eq_iff t "performance").0 e))
    | inr m ↦ elim (Bool-cases (str_eq t "session")) [
      | inl e ↦ rw (n, m, e) (session_known ((eq_iff t "session").0 e))
      | inr l ↦ rw (n, m, l) unknown
    ]
  ]
]

differ : (a b : String) → str_eq a b ≡ false → ¬ (a ≡ b)
differ a b f e = absurd (true_false (sym ((eq_iff a b).1 e) ∙ f))
  where
    true_false : ¬ (true ≡ false)
    true_false h = cc

is_not : (a b : String) → ¬ (a ≡ b) → str_eq a b ≡ false
is_not a b n = elim (Bool-cases (str_eq a b)) [ inl e ↦ absurd (n ((eq_iff a b).0 e)) | inr e ↦ e ]

-- two texts with heads of nine characters that differ
heads_differ :
    (h t s k u v : String)
    → slice (text_append h (text_append t s)) 0 9 ≡ h
    → slice (text_append k (text_append u v)) 0 9 ≡ k
    → str_eq h k ≡ false
    → ¬ (text_append (text_append h t) s ≡ text_append (text_append k u) v)
heads_differ h t s k u v a b f e =
    differ h k f
      (sym a ∙ ap (λ x. slice x 0 9) (sym (append_assoc h t s) ∙ e ∙ append_assoc k u v) ∙ b)

event_head : (x : String) → slice (text_append "metrics:e" x) 0 9 ≡ "metrics:e"
event_head x = slice-append_left "metrics:e" x

perf_head : (x : String) → slice (text_append "metrics:p" x) 0 9 ≡ "metrics:p"
perf_head x = slice-append_left "metrics:p" x

session_head : (x : String) → slice (text_append "metrics:s" x) 0 9 ≡ "metrics:s"
session_head x = slice-append_left "metrics:s" x

event_perf : (s v : String) → ¬ (text_append window_event_hash s ≡ text_append window_perf_hash v)
event_perf s v =
    heads_differ "metrics:e" "vent:" s "metrics:p" "erf:" v (event_head _) (perf_head _) refl

event_session :
    (s v : String) → ¬ (text_append window_event_hash s ≡ text_append window_session_hash v)
event_session s v =
    heads_differ "metrics:e" "vent:" s "metrics:s" "ession:" v (event_head _) (session_head _) refl

perf_session :
    (s v : String) → ¬ (text_append window_perf_hash s ≡ text_append window_session_hash v)
perf_session s v =
    heads_differ "metrics:p" "erf:" s "metrics:s" "ession:" v (perf_head _) (session_head _) refl

same_texts :
    (t u p q s v : String)
    → Known t (some p)
    → Known u (some q)
    → text_append p s ≡ text_append q v
    → (t ≡ u) × (s ≡ v)
same_texts t u _ _ s v (event_known a) (event_known b) e =
    (a ∙ sym b, append_cancel_left window_event_hash s v e)
same_texts t u _ _ s v (event_known a) (perf_known b) e = absurd (event_perf s v e)
same_texts t u _ _ s v (event_known a) (session_known b) e = absurd (event_session s v e)
same_texts t u _ _ s v (perf_known a) (event_known b) e = absurd (event_perf v s (sym e))
same_texts t u _ _ s v (perf_known a) (perf_known b) e =
    (a ∙ sym b, append_cancel_left window_perf_hash s v e)
same_texts t u _ _ s v (perf_known a) (session_known b) e = absurd (perf_session s v e)
same_texts t u _ _ s v (session_known a) (event_known b) e = absurd (event_session v s (sym e))
same_texts t u _ _ s v (session_known a) (perf_known b) e = absurd (perf_session v s (sym e))
same_texts t u _ _ s v (session_known a) (session_known b) e =
    (a ∙ sym b, append_cancel_left window_session_hash s v e)

raise_ok : {A : Type 0} {a : A} {e : Exn} → ¬ (raise e ≡ ok a)
raise_ok h = cc

-- the keys of the three indices
abbrev pub is_index : String → Bool
is_index k =
    str_eq k window_event_index || (str_eq k window_perf_index || str_eq k window_session_index)

module _ {W : Type 0} (show : W → String) where
  record IsKey (t : String) (w : W) (k : String) : Type 0 where
    spelling : String
    known : Known t (some spelling)
    spelled : k ≡ text_append spelling (show w)

  window_key-IsKey : (t : String) (w : W) (k : String) → window_key show t w ≡ ok k → IsKey t w k
  unfolding window_key formatted
  window_key-IsKey t w k h = go (pattern_of t) (pattern_of-Known t) h
    where
      go : (o : Option String) → Known t o → formatted show w o ≡ ok k → IsKey t w k
      go none d e = absurd (raise_ok e)
      go (some p) d e = record { spelling = p; known = d; spelled = sym (ok_injective e) }

  not_index :
      (t : String) (w : W) (k : String) → ¬ (show w ≡ "windows") → IsKey t w k → is_index k ≡ false
  not_index t w k n i =
      rw
        (
          is_not k window_event_index (λ e.
              n
                (same_texts t "event" i.spelling window_event_hash (show w) "windows" i.known
                  (event_known refl) (sym i.spelled ∙ e)).1),
          is_not k window_perf_index (λ e.
              n
                (same_texts t "performance" i.spelling window_perf_hash (show w) "windows" i.known
                  (perf_known refl) (sym i.spelled ∙ e)).1),
          is_not k window_session_index (λ e.
              n
                (same_texts t "session" i.spelling window_session_hash (show w) "windows" i.known
                  (session_known refl) (sym i.spelled ∙ e)).1),
        )
        refl

  -- If numbers are written differently when they are different, and never as "windows", then two calls of
  -- `window_key` that return the same key have the same type of metric and the same start of the window,
  -- and the key is not that of an index.
  pub window_key_injective :
      ((w v : W) → show w ≡ show v → w ≡ v)
      → ((w : W) → ¬ (show w ≡ "windows"))
      → (t u : String) (w v : W) (k : String) → window_key show t w ≡ ok k
      → window_key show u v ≡ ok k
      → (t ≡ u) × (w ≡ v) × (is_index k ≡ false)
  window_key_injective injective no_index t u w v k h g =
      let i = window_key-IsKey t w k h in
      let j = window_key-IsKey u v k g in
      let same =
        same_texts t u i.spelling j.spelling (show w) (show v) i.known j.known
          (sym i.spelled ∙ j.spelled) in
      (same.0, injective w v same.1, not_index t w k (no_index w) i)
