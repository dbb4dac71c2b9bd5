-- ===== src/Storage/Health/Tests.antt =====
-- A path that is served, and one that is not.
use realtime_analytics_pipel.Prelude.{◌≡◌, refl, [], ◌∷◌}
use realtime_analytics_pipel.Storage.Health.{send_response, send_header, end_headers, write, do_get}

not_found :
    do_get (λ s. s) (λ s. 7) (λ n. "7") "storage" "/metrics" ≡ send_response 404 ∷ end_headers ∷ []
unfolding do_get
not_found = refl

healthy :
    do_get (λ s. s) (λ s. 7) (λ n. "7") "storage" "/healthz"
    ≡ send_response 200
      ∷ send_header "Content-Type" "application/json"
      ∷ send_header "Content-Length" "7"
      ∷ end_headers
      ∷ write "storage"
      ∷ []
unfolding do_get
healthy = refl
