-- ===== src/Router/Providers.antt =====
-- llm-gateway-router/src/llm_router/providers.py: one attempt against one provider, classified. The
-- HTTP client is a parameter: what one exchange came to, with the time it took.
pub mod Outbound
pub mod Classification
use quilr_ai_mcp.Prelude.{
  ℕ, ◌+◌, ◌-◌, ◌≡◌, String, Bool, true, false, Option, none, some, [], ◌∷◌, Result, ok, raise, leb,
  ◌==◌, ◌||◌, if◌then◌else◌, str_eq,
}
use quilr_ai_mcp.Prelude.Dict.{Dict, merge}
use quilr_ai_mcp.Prelude.Json.{Json, str, Fields, put_field}

pub data Outcome : Type 0 where
  success rate_limited timeout unavailable client_error : Outcome

pub record Provider : Type 0 where
  pub name : String
  pub url : String
  pub model : String
  pub timeout : ℕ
  pub api_key : Option String
  pub api_key_header : String

-- `Provider.auth_headers`; an empty key is no key.
unfoldable pub auth_headers : Provider → Dict String
auth_headers p = headers p.api_key
  where
    headers : Option String → Dict String
    headers none = []
    headers (some key) = if str_eq key "" then [] else (p.api_key_header, key) ∷ []

-- `Attempt`, less the exception that is kept for the log.
pub record Attempt : Type 0 where
  pub provider : Provider
  pub outcome : Outcome
  pub status_code : Option ℕ
  pub body : Option Json
  pub elapsed : ℕ

-- `outcome is Outcome.SUCCESS`
abbrev pub is_success : Outcome → Bool
is_success success = true
is_success _ = false

unfoldable pub succeeded : Attempt → Bool
succeeded a = is_success a.outcome

abbrev pub is_failover : Outcome → Bool
is_failover rate_limited = true
is_failover timeout = true
is_failover unavailable = true
is_failover _ = false

unfoldable pub should_failover : Attempt → Bool
should_failover a = is_failover a.outcome

unfoldable pub classify : ℕ → Outcome
classify status =
    if status == 429
    then rate_limited
    else if status == 401 || status == 403
    then unavailable
    else if leb 500 status
    then unavailable
    else if leb 400 status
    then client_error
    else success

-- How a `client.post` under `asyncio.timeout` ends: by either timeout, by another `HTTPError`, by any
-- other exception, or with a response, whose body may be no JSON.
pub data Reply : Type 0 where
  timed_out : Reply
  http_error : Reply
  other_exception : Reply
  responded : ℕ → Option Json → Reply

-- An exchange: which call of the request it is, the provider, the payload and the headers sent.
abbrev pub Client : Type 0
Client = ℕ → Provider → Fields → Dict String → Reply × ℕ

-- What passes through `call_provider` unhandled.
pub data Unhandled : Type 0 where
  unhandled : Unhandled

-- `{**body, "model": provider.model}`
unfoldable pub payload : Provider → Fields → Fields
payload p body = put_field "model" (str p.model) body

-- `{**(headers or {}), **provider.auth_headers()}`
unfoldable pub outbound : Provider → Dict String → Dict String
outbound p headers = merge headers (auth_headers p)

unfoldable pub attempt_of : Provider → Reply × ℕ → Result Unhandled Attempt
attempt_of p (timed_out, elapsed) =
    ok (record {
      provider = p;
      outcome = timeout;
      status_code = none;
      body = none;
      elapsed = elapsed;
    })
attempt_of p (http_error, elapsed) = ok (record {
  provider = p;
  outcome = unavailable;
  status_code = none;
  body = none;
  elapsed = elapsed;
})
attempt_of p (other_exception, elapsed) = raise unhandled
attempt_of p (responded status parsed, elapsed) = ok (record {
  provider = p;
  outcome = classify status;
  status_code = some status;
  body = parsed;
  elapsed = elapsed;
})

unfoldable pub call_provider :
    Client → ℕ → Provider → Fields → Dict String → Result Unhandled Attempt
unfolding attempt_of
call_provider client i p body headers =
    attempt_of p (client i p (payload p body) (outbound p headers))

-- `open_provider_stream`: the body has not been read, and a refusal has closed the response.
unfoldable pub open_provider_stream :
    Client → ℕ → Provider → Fields → Dict String → Result Unhandled Attempt
unfolding call_provider
open_provider_stream client i p body headers = without_body (call_provider client i p body headers)
  where
    without_body : Result Unhandled Attempt → Result Unhandled Attempt
    without_body (raise e) = raise e
    without_body (ok a) = ok (record a { body = none })
