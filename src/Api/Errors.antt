-- ===== src/Api/Errors.antt =====
-- api/client.ts: what `handleResponse` makes of every response.
use traffic_service.Base.Json.{arr, obj, Items, nil, cons, Fields, lookup_field}
use traffic_service.Api.Http.{
  Response, okay, failed, thrown, resolved, join_text, handle_response, raised, error_of,
}
use traffic_service.Base.{Text, codes, ◌≡◌, ◌↔◌, none, some, [], ◌∷◌, ◌++◌}

-- `handleResponse` resolves exactly when the status is 2xx and the body is JSON, with that value.
pub handle_response-resolved_iff :
    {T : Type 0} (r : Response T) (fallback : Text) (v : T)
    → (handle_response r fallback ≡ resolved v) ↔ (r ≡ okay (some v))
unfolding handle_response
handle_response-resolved_iff (okay none) fallback v = ((λ e. cc), (λ e. cc))
handle_response-resolved_iff (okay (some w)) fallback v = ((λ e. cc), (λ e. cc))
handle_response-resolved_iff (failed body) fallback v = ((λ e. cc), (λ e. cc))

-- An answer whose "detail" is a list of objects, as the services' validation errors are, shows
-- "[object Object]" for the first one and none of its text.
pub handle_response-validation :
    {T : Type 0} (fs problem : Fields Text) (rest : Items Text) (fallback : Text)
    → lookup_field (codes "detail") fs ≡ some (arr (cons (obj problem) rest))
    → (shown : Text) × (handle_response {T = T} (failed (some (obj fs))) fallback
        ≡ raised (thrown (codes "[object Object]" ++ shown)))
unfolding handle_response
handle_response-validation fs problem nil fallback e = ([], rw (e, error_of))
handle_response-validation fs problem (cons v vs) fallback e =
    (b',' ∷ join_text (cons v vs), rw (e, error_of))
