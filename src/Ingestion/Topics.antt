-- ===== src/Ingestion/Topics.antt =====
-- `create_topics` of services/ingestion/src/infrastructure/kafka/admin.py. The admin client answers with
-- an outcome for each topic; `code_of e` is what evaluating `e.args[0].code()` gives.
pub mod Tests
use realtime_analytics_pipel.Prelude.{
  ℕ, ◌≡◌, refl, ap, Bool, true, false, Option, none, some, List, [], ◌∷◌, ◌++◌, String, Exn,
  Outcome, ok, raise, is_exception, ◌==◌, if◌then◌else◌, Bool-cases, inl, inr, All,
}

-- `NewTopic`
pub record NewTopic : Type 0 where
  pub topic : String
  pub num_partitions : ℕ
  pub replication_factor : ℕ

unfoldable pub new_topics : List String → List NewTopic
new_topics [] = []
new_topics (t ∷ ts) =
    record { topic = t; num_partitions = 3; replication_factor = 1 } ∷ new_topics ts

-- `settings.kafka_consumer_topics or []`
unfoldable pub or_empty : Option (List String) → List String
or_empty none = []
or_empty (some topics) = topics

unfoldable pub requested :
    (events : String) → (consumer_topics : Option (List String)) → List NewTopic
requested events consumer_topics = new_topics (events ∷ or_empty consumer_topics)

-- `TopicExistsError`
abbrev pub topic_exists : ℕ
topic_exists = 36

module _ (code_of : Exn → Outcome ℕ) where
  -- the topics for which a failure was logged, with what the loop raises
  abbrev pub Checked : Type 0
  Checked = Outcome (Unit {0}) × List String

  -- the handler, after the code has been read
  unfoldable pub on_code : String → Outcome ℕ → Checked → Checked
  on_code topic (ok code) rest = if code == topic_exists then rest else (rest.0, topic ∷ rest.1)
  on_code topic (raise x) rest = (raise x, [])

  unfoldable pub on_result : String → Outcome (Unit {0}) → Checked → Checked
  on_result topic (ok _) rest = rest
  on_result topic (raise e) rest =
      if is_exception e then on_code topic (code_of e) rest else (raise e, [])

  unfoldable pub check_results : List (String × Outcome (Unit {0})) → Checked
  check_results [] = (ok tt, [])
  check_results ((topic, result) ∷ rest) = on_result topic result (check_results rest)

  -- what the loop makes of the answer of the admin client, or of what the call raises
  unfoldable pub on_answer : Outcome (List (String × Outcome (Unit {0}))) → Checked
  on_answer (ok results) = check_results results
  on_answer (raise e) = (raise e, [])

  unfoldable pub create_topics :
      (events : String)
      → (consumer_topics : Option (List String))
      → (answer : List NewTopic → Outcome (List (String × Outcome (Unit {0})))) → Checked
  create_topics events consumer_topics answer =
      on_answer (answer (requested events consumer_topics))

  -- an independent reading of one answer: created, there before, failed with another code, or unreadable
  pub data Answer : Outcome (Unit {0}) → Type 0 where
    created : Answer (ok tt)
    existed : {e : Exn} → is_exception e ≡ true → code_of e ≡ ok 36 → Answer (raise e)
    failed :
        {e : Exn} (code : ℕ)
        → is_exception e ≡ true
        → code_of e ≡ ok code
        → (code == 36) ≡ false
        → Answer (raise e)

  abbrev pub add_failure : {o : Outcome (Unit {0})} → Answer o → String → List String → List String
  add_failure created topic rest = rest
  add_failure (existed q k) topic rest = rest
  add_failure (failed code q k n) topic rest = topic ∷ rest

  -- the topics whose creation failed
  abbrev pub failures :
      (rs : List (String × Outcome (Unit {0}))) → All (λ r. Answer r.1) rs → List String
  failures [] h = []
  failures ((topic, o) ∷ rest) h = add_failure h.0 topic (failures rest h.1)

  -- When every answer is a success or an `Exception` whose code can be read, `create_topics` does not raise,
  -- and it logs a failure for exactly the topics whose code is not that of an existing topic, in order.
  pub check_results-failures :
      (rs : List (String × Outcome (Unit {0}))) (h : All (λ r. Answer r.1) rs)
      → check_results rs ≡ (ok tt, failures rs h)
  unfolding check_results on_result on_code
  check_results-failures [] h = refl
  check_results-failures ((topic, o) ∷ rest) h = go h.0 (check_results-failures rest h.1)
    where
      go :
          {p : Outcome (Unit {0})} (a : Answer p)
          → check_results rest ≡ (ok tt, failures rest h.1)
          → on_result topic p (check_results rest)
            ≡ (ok tt, add_failure a topic (failures rest h.1))
      go created i = i
      go (existed q k) i = rw (q, k) i
      go (failed code q k n) i = rw (q, k, n) (ap (λ (r : Checked). (r.0, topic ∷ r.1)) i)
