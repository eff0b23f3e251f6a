-- ===== src/Router/Providers/Classification.antt =====
-- Which replies of a provider justify trying the next one.
use quilr_ai_mcp.Prelude.{
  ℕ, ◌≡◌, refl, Bool, true, false, none, some, String, ok, raise, Result, arith, ◌==◌, ◌||◌, leb,
  ltb,
}
use quilr_ai_mcp.Prelude.Dict.{Dict}
use quilr_ai_mcp.Prelude.Json.{Fields}
use quilr_ai_mcp.Router.Providers.{
  Provider, Attempt, succeeded, should_failover, is_failover, is_success, classify, Reply,
  timed_out, http_error, other_exception, responded, Client, Unhandled, attempt_of, call_provider,
  payload, outbound,
}

-- The statuses that are about the provider: its quota, this gateway's credential, or a server error.
abbrev pub about_provider : ℕ → Bool
about_provider status = status == 429 || status == 401 || status == 403 || leb 500 status

-- What an exchange means for the request.
abbrev pub Reported : Reply → Result Unhandled Attempt → Type 0
Reported timed_out (ok a) =
    (succeeded a ≡ false) × (should_failover a ≡ true) × (a.status_code ≡ none)
Reported http_error (ok a) =
    (succeeded a ≡ false) × (should_failover a ≡ true) × (a.status_code ≡ none)
Reported (responded status parsed) (ok a) =
    (a.status_code ≡ some status)
    × (a.body ≡ parsed)
    × (should_failover a ≡ about_provider status)
    × (succeeded a ≡ ltb status 400)
Reported other_exception (raise e) = Unit
Reported _ _ = ⊥

classify-failover : (status : ℕ) → is_failover (classify status) ≡ about_provider status
unfolding classify
classify-failover status = ground arith

classify-success : (status : ℕ) → is_success (classify status) ≡ ltb status 400
unfolding classify
classify-success status = ground arith

-- An attempt fails over exactly on a timeout, on a transport error and on a status that is about the
-- provider; it succeeds exactly on a status below 400; only an exception that is no `HTTPError` and
-- no timeout escapes.
pub call_provider-Reported :
    (client : Client) (i : ℕ) (p : Provider) (body : Fields) (headers : Dict String)
    → Reported
        (client i p (payload p body) (outbound p headers)).0
        (call_provider client i p body headers)
unfolding call_provider succeeded should_failover
call_provider-Reported client i p body headers =
    go (client i p (payload p body) (outbound p headers))
  where
    go : (x : Reply × ℕ) → Reported x.0 (attempt_of p x)
    go (timed_out, n) = (refl, refl, refl)
    go (http_error, n) = (refl, refl, refl)
    go (other_exception, n) = tt
    go (responded status parsed, n) =
        (refl, refl, classify-failover status, classify-success status)
