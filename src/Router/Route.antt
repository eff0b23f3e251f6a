-- ===== src/Router/Route.antt =====
-- llm-gateway-router/src/llm_router/router.py: admission, failover and settling the bill. The state
-- is the limiter's table; a call gets the clock's reading, the new request id and the HTTP client.
-- Header values are numbers here, and a stream's media type is left out.
pub mod Attempts
pub mod Accounting
pub mod Charges
pub mod Status
use quilr_ai_mcp.Prelude.{
  ℕ, zero, suc, ◌+◌, ◌/◌, max, String, Bool, true, false, not, Option, none, some, List, [], ◌∷◌,
  ◌++◌, map, Result, ok, raise, ◌==◌, if◌then◌else◌, length, select,
}
use quilr_ai_mcp.Prelude.Dict.{Dict}
use quilr_ai_mcp.Prelude.Json.{Json, obj, Fields, end, get_field, or_null, truthy}
use quilr_ai_mcp.Router.Store.{Db, SqlError}
use quilr_ai_mcp.Router.Limit.{
  RateLimiter, Reservation, LimitDecision, remaining, check_and_reserve, settle, release,
}
use quilr_ai_mcp.Router.Tokens.{PyError, reservation_size, actual_tokens}
use quilr_ai_mcp.Router.Providers.{
  Outcome, timeout, Provider, Attempt, succeeded, should_failover, Client, Unhandled, call_provider,
  open_provider_stream,
}
use quilr_ai_mcp.Router.Errors.{
  rate_limit_error, api_error, invalid_request_error, timeout_error, AttemptReport, over_limit,
  refused_by_provider, attempts_made, GatewayError, gateway_error,
}

-- What leaves `route` as an exception.
pub data Failure : Type 0 where
  sql_failure : SqlError → Failure
  body_failure : PyError → Failure
  call_failure : Unhandled → Failure
  assertion_failure : Failure

pub data Payload : Type 0 where
  completion : Fields → Payload
  failure : GatewayError → Payload
  relayed_stream : Payload

pub record RouteHeaders : Type 0 where
  pub limit_tokens : ℕ
  pub remaining_tokens : ℕ
  pub retry_after : Option ℕ
  pub gateway_provider : Option String
  pub gateway_attempts : Option ℕ

pub record RouteResult : Type 0 where
  pub status_code : ℕ
  pub body : Payload
  pub headers : RouteHeaders
  pub attempts : List Attempt

-- `RouteResult.provider_used`: the first attempt that succeeded.
unfoldable pub provider_used : List Attempt → Option String
provider_used [] = none
provider_used (a ∷ rest) =
    let later = provider_used rest in if succeeded a then some a.provider.name else later

pub record Router : Type 0 where
  pub limiter : RateLimiter
  pub primary : Provider
  pub fallbacks : List Provider

-- `Router.providers`
abbrev pub providers : Router → List Provider
providers r = r.primary ∷ r.fallbacks

-- `max(1, int(retry_after_seconds + 0.999))`, from microseconds
unfoldable pub retry_after_header : ℕ → ℕ
retry_after_header wait = max 1 ((wait + 999_000) / 1_000_000)

unfoldable pub rate_limit_headers : LimitDecision → RouteHeaders
unfolding retry_after_header
rate_limit_headers d = record {
  limit_tokens = d.limit;
  remaining_tokens = remaining d;
  retry_after = elim d.retry_after [ none ↦ none | some wait ↦ some (retry_after_header wait) ];
  gateway_provider = none;
  gateway_attempts = none;
}

-- The 429 of `route`.
unfoldable pub over_limit_result : RateLimiter → LimitDecision → ℕ → RouteResult
unfolding gateway_error
over_limit_result lim d size = record {
  status_code = 429;
  body = failure (
      gateway_error rate_limit_error none (
        over_limit d.limit d.used_tokens size lim.window
          (elim d.retry_after [ none ↦ 0 | some wait ↦ wait ])));
  headers = rate_limit_headers d;
  attempts = [];
}

-- `failed.status_code or 400`
abbrev pub status_or_400 : Option ℕ → ℕ
status_or_400 none = 400
status_or_400 (some zero) = 400
status_or_400 (some (suc n)) = suc n

-- `_client_error_result`; `failed` is the last of `attempts`.
unfoldable pub client_error_result : LimitDecision → Attempt → List Attempt → RouteResult
unfolding gateway_error
client_error_result d failed attempts = record {
  status_code = status_or_400 failed.status_code;
  body = failure (
      gateway_error invalid_request_error none
        (refused_by_provider failed.status_code (length attempts)));
  headers = rate_limit_headers d;
  attempts = attempts;
}

abbrev pub is_timeout_outcome : Outcome → Bool
is_timeout_outcome timeout = true
is_timeout_outcome _ = false

abbrev pub is_timeout : Attempt → Bool
is_timeout a = is_timeout_outcome a.outcome

unfoldable pub report : Attempt → AttemptReport
report a = record { provider = a.provider.name; outcome = a.outcome; elapsed = a.elapsed }

unfoldable pub every_timeout : List Attempt → Bool
every_timeout attempts = length (select is_timeout attempts) == length attempts

-- `_exhausted`: the table, and the result.
unfoldable pub exhausted_db : Reservation → ℕ → List Attempt → Db → Db
exhausted_db res reserved attempts db =
    if length (select is_timeout attempts) == 0 then release res db else settle res reserved db

unfoldable pub exhausted_result : LimitDecision → List Attempt → RouteResult
unfolding gateway_error every_timeout
exhausted_result d attempts = record {
  status_code = if every_timeout attempts then 504 else 502;
  body = failure (
      gateway_error (if every_timeout attempts then timeout_error else api_error) none
        (attempts_made (map report attempts)));
  headers = rate_limit_headers d;
  attempts = attempts;
}

abbrev pub completion_body : Option Json → Fields
completion_body (some (obj d)) = d
completion_body _ = end

-- The 200 of `route`.
unfoldable pub success_result : LimitDecision → Attempt → List Attempt → Payload → RouteResult
success_result d a attempts body = record {
  status_code = 200;
  body = body;
  headers = record (rate_limit_headers d) {
    gateway_provider = some a.provider.name;
    gateway_attempts = some (length attempts);
  };
  attempts = attempts;
}

-- `actual_tokens(attempt.body)`, or the estimate if the provider reported no usage.
unfoldable pub bill : ℕ → Attempt → ℕ
unfolding actual_tokens
bill reserved a = elim (actual_tokens a.body) [ none ↦ reserved | some actual ↦ actual ]

module _ (client : Client) (body : Fields) (headers : Dict String) (d : LimitDecision)
    (res : Reservation) (reserved : ℕ) where
  -- The loop of `route` over the providers left, after the attempts so far, and its `except`.
  unfoldable pub try_providers : List Provider → List Attempt → Db → Result Failure RouteResult × Db
  try_providers [] attempts db =
      (ok (exhausted_result d attempts), exhausted_db res reserved attempts db)
  try_providers (p ∷ ps) attempts db =
      elim (call_provider client (length attempts) p body headers) [
        | raise e ↦ (raise (call_failure e), release res db)
        | ok a ↦
            let attempts' = attempts ++ a ∷ [] in
            let rest = try_providers ps attempts' db in
            if succeeded a
            then (
              ok (success_result d a attempts' (completion (completion_body a.body))),
              settle res (bill reserved a) db,
            )
            else if should_failover a
            then rest
            else (ok (client_error_result d a attempts'), settle res (bill reserved a) db)
      ]

  -- The loop of `_route_stream`. A stream that is opened leaves the reservation to its relay.
  unfoldable pub try_streams : List Provider → List Attempt → Db → Result Failure RouteResult × Db
  try_streams [] attempts db =
      (ok (exhausted_result d attempts), exhausted_db res reserved attempts db)
  try_streams (p ∷ ps) attempts db =
      elim (open_provider_stream client (length attempts) p body headers) [
        | raise e ↦ (raise (call_failure e), release res db)
        | ok a ↦
            let attempts' = attempts ++ a ∷ [] in
            let rest = try_streams ps attempts' db in
            if succeeded a
            then (ok (success_result d a attempts' relayed_stream), db)
            else if should_failover a
            then rest
            else (ok (client_error_result d a attempts'), settle res reserved db)
      ]

  -- After admission.
  unfoldable pub dispatch : List Provider → Db → Result Failure RouteResult × Db
  dispatch ps db =
      if truthy (or_null (get_field "stream" body))
      then try_streams ps [] db
      else try_providers ps [] db

-- The `finally` of a stream's relay, with what its collector saw.
unfoldable pub close_relay : Reservation → ℕ → Option ℕ → Db → Db
close_relay res reserved none db = settle res reserved db
close_relay res reserved (some actual) db = settle res actual db

-- `route` from the decision on. `others` is what the transactions of other requests do to the table
-- while the providers are called.
unfoldable pub route_decided :
    Router
    → Client
    → (Db → Db)
    → Fields
    → Dict String
    → ℕ
    → Result SqlError LimitDecision × Db
    → Result Failure RouteResult × Db
route_decided r client others body headers size (raise e, db) = (raise (sql_failure e), db)
route_decided r client others body headers size (ok d, db) =
    if d.allowed
    then (elim d.reservation [
      | none ↦ (raise assertion_failure, db)
      | some res ↦ dispatch client body headers d res size (providers r) (others db)
    ])
    else (ok (over_limit_result r.limiter d size), db)

module _ (dump_len : Json → ℕ) where
  unfoldable pub route :
      Router
      → Client
      → (Db → Db)
      → ℕ
      → String
      → String
      → Fields
      → Dict String
      → Db
      → Result Failure RouteResult × Db
  route r client others now request_id tenant body headers db =
      elim (reservation_size dump_len body) [
        | raise e ↦ (raise (body_failure e), db)
        | ok size ↦
            route_decided r client others body headers size
              (check_and_reserve r.limiter now request_id tenant size db)
      ]
