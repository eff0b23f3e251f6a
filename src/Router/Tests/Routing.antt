-- ===== src/Router/Tests/Routing.antt =====
-- Routing: a primary that answers 429 and a fallback that serves.
use quilr_ai_mcp.Prelude.{
  ℕ, ◌+◌, ◌≤◌, ◌≡◌, refl, String, Option, none, some, List, [], ◌∷◌, ◌++◌, map, ok, if◌then◌else◌,
  str_eq, ltb,
}
use quilr_ai_mcp.Prelude.Int.{pos}
use quilr_ai_mcp.Prelude.Dict.{Dict, put, merge}
use quilr_ai_mcp.Prelude.Json.{
  Json, int, str, arr, obj, nil, cons, Fields, end, field, get_field, put_field,
}
use quilr_ai_mcp.Router.Store.{Db, settled}
use quilr_ai_mcp.Router.Limit.Admission.{reserved_row}
use quilr_ai_mcp.Router.Limit.{remaining}
use quilr_ai_mcp.Router.Tests.Limiter.{limiter_program, lim, busy}
use quilr_ai_mcp.Router.Tokens.{
  reservation_size, estimate_input_tokens, max_tokens_of, actual_tokens, max_reservable_tokens,
}
use quilr_ai_mcp.Router.Tokens.Bounds.{reservation_size_bounds}
use quilr_ai_mcp.Router.Providers.{
  Provider, Attempt, success, rate_limited, responded, Client, succeeded, should_failover, classify,
  call_provider, attempt_of, payload, outbound, auth_headers,
}
use quilr_ai_mcp.Router.Providers.Classification.{Reported, call_provider-Reported}
use quilr_ai_mcp.Router.Route.{
  RouteResult, Router, dispatch, try_providers, route_decided, route, rate_limit_headers,
  success_result, bill, completion, completion_body,
}
use quilr_ai_mcp.Router.Route.Status.{Answered, FailedOver, route-Answered, route_failover}

abbrev pub no_dump : Json → ℕ
no_dump _ = 0

abbrev pub primary : Provider
primary = record {
  name = "primary";
  url = "http://p";
  model = "m1";
  timeout = 3;
  api_key = some "sk-up";
  api_key_header = "x-api-key";
}

abbrev pub fallback : Provider
fallback = record primary { name = "fallback"; url = "http://f"; model = "m2"; api_key = none }

abbrev pub gateway : Router
gateway = record { limiter = lim; primary = primary; fallbacks = fallback ∷ [] }

abbrev usage_body : Json
usage_body = obj (
    field "usage"
      (obj (field "input_tokens" (int (pos 3)) (field "output_tokens" (int (pos 4)) end))) end)

abbrev pub flaky : Client
flaky i p body headers =
    if str_eq p.name "primary"
    then (responded 429 none, 1)
    else (responded 200 (some usage_body), 2)

abbrev pub request : Fields
request =
    field "messages"
      (arr (cons (obj (field "role" (str "user") (field "content" (str "hi there") end))) nil))
      (field "max_tokens" (int (pos 10)) end)

request_size : reservation_size no_dump request ≡ ok 12
unfolding reservation_size estimate_input_tokens max_tokens_of get_field
request_size = refl

unfoldable pub route_program : Unit {0}
unfolding limiter_program reservation_size estimate_input_tokens max_tokens_of get_field put_field
    route route_decided dispatch try_providers call_provider payload outbound auth_headers merge put
    attempt_of classify succeeded should_failover success_result rate_limit_headers remaining bill
    actual_tokens
route_program = tt

abbrev no_headers : Dict String
no_headers = []

abbrev attempt : Provider → ℕ → Option Json → ℕ → Attempt
attempt p status body elapsed = record {
  provider = p;
  outcome = if ltb status 400 then success else rate_limited;
  status_code = some status;
  body = body;
  elapsed = elapsed;
}

abbrev pub answer : RouteResult
answer = record {
  status_code = 200;
  body = completion (completion_body (some usage_body));
  headers = record {
    limit_tokens = 100;
    remaining_tokens = 8;
    retry_after = none;
    gateway_provider = some "fallback";
    gateway_attempts = some 2;
  };
  attempts = attempt primary 429 none 1 ∷ attempt fallback 200 (some usage_body) 2 ∷ [];
}

abbrev pub after_route : Db
after_route = busy ++ (record (reserved_row "alpha" "r4" 7 20) { state = settled }) ∷ []

-- 7 tokens are charged in place of the 12 reserved.
route_fails_over :
    route no_dump gateway flaky (λ x. x) 20 "r4" "alpha" request no_headers busy
    ≡ (ok answer, after_route)
unfolding route_program
route_fails_over = refl

route-Answered_example : Answered (primary ∷ fallback ∷ []) answer
route-Answered_example =
    route-Answered no_dump gateway flaky (λ x. x) 20 "r4" "alpha" request no_headers busy answer
      after_route route_fails_over

route_failover_example :
    (unused : List Provider) × (map (λ a. a.provider) answer.attempts ++ unused
      ≡ primary ∷ fallback ∷ [])
    × FailedOver answer.attempts
route_failover_example =
    route_failover no_dump gateway flaky (λ x. x) 20 "r4" "alpha" request no_headers busy answer
      after_route route_fails_over

call_provider-Reported_example :
    Reported (responded 429 none) (call_provider flaky 0 primary request no_headers)
call_provider-Reported_example = call_provider-Reported flaky 0 primary request no_headers

reservation_size_bounds_example :
    (m : ℕ) × (estimate_input_tokens no_dump request ≡ ok m)
    × (1 ≤ m)
    × (m + 1 ≤ 12)
    × (12 ≤ m + max_reservable_tokens)
reservation_size_bounds_example = reservation_size_bounds no_dump request 12 request_size

abbrev no_json : List ℕ → Option Json
no_json _ = none
