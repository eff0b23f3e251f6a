-- ===== src/Router/Errors.antt =====
-- llm-gateway-router/src/llm_router/errors.py: the one error shape. A `detail` is one of those that
-- the router builds; times in it are microseconds.
use quilr_ai_mcp.Prelude.{ℕ, String, Option, none, some, List, if◌then◌else◌, str_eq}
use quilr_ai_mcp.Router.Providers.{Outcome}

abbrev pub rate_limit_error : String
rate_limit_error = "rate_limit_error"

abbrev pub api_error : String
api_error = "api_error"

abbrev pub invalid_request_error : String
invalid_request_error = "invalid_request_error"

abbrev pub timeout_error : String
timeout_error = "timeout_error"

-- `_SAFE_MESSAGES.get(error_type, …)`
unfoldable pub safe_message : String → String
safe_message t =
    if str_eq t rate_limit_error
    then "Token rate limit exceeded for this API key."
    else if str_eq t api_error
    then "No model provider was able to serve this request."
    else if str_eq t invalid_request_error
    then "The request could not be processed."
    else if str_eq t timeout_error
    then "The request timed out before any provider responded."
    else "The request could not be completed."

-- One entry of the `attempts` detail.
pub record AttemptReport : Type 0 where
  pub provider : String
  pub outcome : Outcome
  pub elapsed : ℕ

pub data Detail : Type 0 where
  no_detail : Detail
  over_limit : ℕ → ℕ → ℕ → ℕ → ℕ → Detail
  refused_by_provider : Option ℕ → ℕ → Detail
  attempts_made : List AttemptReport → Detail

pub record GatewayError : Type 0 where
  pub error_type : String
  pub message : String
  pub detail : Detail

-- `message or _SAFE_MESSAGES.get(…)`
abbrev pub message_or : Option String → String → String
message_or none t = safe_message t
message_or (some m) t = if str_eq m "" then safe_message t else m

unfoldable pub gateway_error : String → Option String → Detail → GatewayError
gateway_error t message detail = record {
  error_type = t;
  message = message_or message t;
  detail = detail;
}
