-- ===== src/Storage/Health.antt =====
-- The health server of the storage service: `Handler.do_GET` in services/storage/src/main.py, as the calls of
-- the handler's methods that it makes, in order. `dumps` is `json.dumps` of the payload with a service's name,
-- and `encoded_length` the number of bytes of a text.
pub mod Tests
use realtime_analytics_pipel.Prelude.{
  ℕ, ◌≡◌, refl, Bool, true, false, not, List, [], ◌∷◌, String, str_eq, if◌then◌else◌,
}

pub data Sending : Type 0 where
  send_response : (code : ℕ) → Sending
  send_header : (name value : String) → Sending
  end_headers : Sending
  write : (body : String) → Sending

unfoldable pub do_get :
    (dumps : String → String)
    → (encoded_length : String → ℕ) → (show : ℕ → String) → (otel_service_name path : String)
    → List Sending
do_get dumps encoded_length show otel_service_name path =
    if not (str_eq path "/healthz")
    then send_response 404 ∷ end_headers ∷ []
    else send_response 200
      ∷ send_header "Content-Type" "application/json"
      ∷ send_header "Content-Length" (show (encoded_length (dumps otel_service_name)))
      ∷ end_headers
      ∷ write (dumps otel_service_name)
      ∷ []
