-- ===== src/Chain/Unary.antt =====
-- Numbers as texts of their length and hashes as lists, for the tests: texts that can be read back.
use Prim.Native.String.{len, slice}
use package.text.Mathlib.TextPositions.{len-append, slice-append_left}
use package.text.Mathlib.TextLemmas.{append_cancel_left}
use realtime_analytics_pipel.Prelude.{
  ℕ, zero, suc, ◌-◌, ◌≡◌, refl, sym, ap, ◌∙◌, true, false, Option, none, some, List, [], ◌∷◌,
  String, str_eq, eq_iff, text_append, Bool-cases, inl, inr, if◌then◌else◌, arith,
}
use realtime_analytics_pipel.Cache.Redis.{Kind, event, perf}
use realtime_analytics_pipel.Cache.Parser.{Value, text}
use realtime_analytics_pipel.Cache.Repository.Conversion.{Number, whole, real, lookup, IsText}
use realtime_analytics_pipel.Chain.Records.{metrics_of}
use realtime_analytics_pipel.Chain.RoundTrip.{newest, held, Overwrites}

abbrev pub unary : ℕ → String
unary zero = ""
unary (suc n) = text_append "1" (unary n)

len-unary : (n : ℕ) → len (unary n) ≡ n
len-unary zero = refl
len-unary (suc n) = omega (arith, len-append "1" (unary n), len-unary n)

-- a float begins with a dot
abbrev pub show : Number ℕ ℕ → String
show (whole i) = unary i
show (real x) = text_append "." (unary x)

abbrev pub parse_int : String → Option ℕ
parse_int t = if str_eq (slice t 0 1) "." then none else some (len t)

abbrev pub parse_float : String → Option ℕ
parse_float t = some (len t - 1)

first_char : (n : ℕ) → str_eq (slice (unary n) 0 1) "." ≡ false
first_char zero = refl
first_char (suc n) = ap (λ c. str_eq c ".") (slice-append_left "1" (unary n))

dot : (n : ℕ) → str_eq (slice (text_append "." (unary n)) 0 1) "." ≡ true
dot n = ap (λ c. str_eq c ".") (slice-append_left "." (unary n))

after_dot : (n : ℕ) → len (text_append "." (unary n)) - 1 ≡ n
after_dot n = omega (arith, len-append "." (unary n), len-unary n)

pub unary-IsText : IsText parse_int parse_float show
unary-IsText = record {
  of_whole = λ i. rw (first_char i) (ap some (len-unary i));
  of_real = λ x. rw (dot x) refl;
  of_float = λ x. ap some (after_dot x);
}

-- a hash as a list, the entry written last in front
abbrev or_empty : Option (List (String × String)) → List (String × String)
or_empty none = []
or_empty (some d) = d

abbrev pub write :
    List (String × Number ℕ ℕ) → Option (List (String × String)) → List (String × String)
write [] d = or_empty d
write ((n, v) ∷ rest) d = write rest (some ((n, show v) ∷ or_empty d))

abbrev pub spell : Value ℕ ℕ → String → String
spell (text s) metric = text_append s (text_append "." metric)
spell v metric = metric

held_first : (x : String) (d : Option (List (String × String))) → lookup x (or_empty d) ≡ held x d
held_first x none = refl
held_first x (some d) = refl

pub write-Overwrites : Overwrites show write
write-Overwrites x [] d = held_first x d
write-Overwrites x ((n, v) ∷ rest) d =
    write-Overwrites x rest (some ((n, show v) ∷ or_empty d))
    ∙ ap (λ o. newest show x rest (if str_eq n x then some (show v) else o)) (held_first x d)

apart :
    (p q : String)
    → str_eq p q ≡ false
    → (s : String) → str_eq (text_append s p) (text_append s q) ≡ false
apart p q h s = elim (Bool-cases (str_eq (text_append s p) (text_append s q))) [
  | inr e ↦ e
  | inl e ↦
      absurd
        (different (append_cancel_left s p q ((eq_iff (text_append s p) (text_append s q)).0 e)))
]
  where
    different : ¬ (p ≡ q)
    different e = absurd (true_false (sym ((eq_iff p q).1 e) ∙ h))
      where
        true_false : ¬ (true ≡ false)
        true_false k = cc

pub names_apart :
    (kind : Kind) (c : Value ℕ ℕ)
    → str_eq (spell c (metrics_of kind).1) (spell c (metrics_of kind).0) ≡ false
names_apart event (text s) = apart ".users" ".count" refl s
names_apart perf (text s) = apart ".p95_load_time" ".avg_load_time" refl s
names_apart event _ = refl
names_apart perf _ = refl
