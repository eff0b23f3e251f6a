-- ===== src/Router/Route/Status.antt =====
-- The order of failover and the status of the answer, for whole and streamed responses.
use quilr_ai_mcp.Prelude.{
  ℕ, ◌≡◌, refl, ap, Bool, true, false, List, [], ◌∷◌, ◌++◌, map, Result, ok, raise, arith, String,
  length-select, if◌then◌else◌, Bool-cases, inl, inr, ◌⊎◌, Option-cases,
}
use quilr_ai_mcp.Prelude.Dict.{Dict}
use quilr_ai_mcp.Prelude.Json.{Json, Fields, get_field, or_null, truthy}
use quilr_ai_mcp.Router.Store.{Db, SqlError}
use quilr_ai_mcp.Router.Limit.{Reservation, LimitDecision, check_and_reserve}
use quilr_ai_mcp.Router.Tokens.{PyError, reservation_size}
use quilr_ai_mcp.Router.Providers.{Provider, Attempt, should_failover, Client}
use quilr_ai_mcp.Router.Route.{
  Failure, RouteResult, Router, providers, status_or_400, is_timeout, every_timeout, dispatch,
  route_decided, route, success_result, client_error_result, exhausted_result, over_limit_result,
}
use quilr_ai_mcp.Router.Route.Attempts.{
  Ending, served, refused, gave_up, Follows, none_left, serves, refuses, fails_over, Policy,
  Concludes, concluded, try_providers-Concludes, try_streams-Concludes,
}

-- Each attempt was a timeout.
abbrev pub all_timeout : List Attempt → Bool
all_timeout [] = true
all_timeout (a ∷ rest) = let later = all_timeout rest in if is_timeout a then later else false

every_timeout-all_timeout :
    (attempts : List Attempt) → every_timeout attempts ≡ all_timeout attempts
unfolding every_timeout
every_timeout-all_timeout [] = refl
every_timeout-all_timeout (a ∷ rest) = elim (Bool-cases (is_timeout a)) [
  | inl e ↦ rw e (ground (arith, every_timeout-all_timeout rest))
  | inr e ↦ rw e (ground (arith, length-select is_timeout rest))
]

-- The status that each ending is answered with.
abbrev pub status_of : Ending → List Attempt → ℕ
status_of (served a) attempts = 200
status_of (refused a) attempts = status_or_400 a.status_code
status_of gave_up attempts = if all_timeout attempts then 504 else 502

-- The answer to a request: refused by the limiter with no attempt made, or by how its attempts ended.
abbrev pub Answered : List Provider → RouteResult → Type 0
Answered ps result =
    ((result.status_code ≡ 429) × (result.attempts ≡ []))
    ⊎ ((e : Ending) × Follows ps result.attempts e
        × (result.status_code ≡ status_of e result.attempts))

status-concluded :
    (d : LimitDecision) (res : Reservation) (size : ℕ) (p : Policy) (ps : List Provider)
    (e : Ending) (attempts : List Attempt)
    → Follows ps attempts e
    → Answered ps (concluded d res size p e attempts)
unfolding success_result client_error_result exhausted_result
status-concluded d res size p ps (served a) attempts f = inr (served a, f, refl)
status-concluded d res size p ps (refused a) attempts f = inr (refused a, f, refl)
status-concluded d res size p ps gave_up attempts f =
    inr (gave_up, f, ap (λ b. if b then 504 else 502) (every_timeout-all_timeout attempts))

abbrev IfAnswered : List Provider → Result Failure RouteResult × Db → Type 0
IfAnswered ps (ok result, db) = Answered ps result
IfAnswered ps (raise f, db) = Unit

Concludes-IfAnswered :
    (d : LimitDecision) (res : Reservation) (size : ℕ) (p : Policy) (ps : List Provider) (db : Db)
    (x : Result Failure RouteResult × Db)
    → Concludes d res size p ps [] db x
    → IfAnswered ps x
Concludes-IfAnswered d res size p ps db (raise f, after) c = tt
Concludes-IfAnswered d res size p ps db (ok result, after) (attempts, e, follows, same, left) =
    rw same (status-concluded d res size p ps e attempts follows)

module _ (client : Client) (body : Fields) (headers : Dict String) where
  dispatch-IfAnswered :
      (d : LimitDecision) (res : Reservation) (size : ℕ) (ps : List Provider) (db : Db)
      → IfAnswered ps (dispatch client body headers d res size ps db)
  unfolding dispatch
  dispatch-IfAnswered d res size ps db =
      elim (Bool-cases (truthy (or_null (get_field "stream" body)))) [
        | inl e ↦ rw e (
            Concludes-IfAnswered d res size _ ps db _
              (try_streams-Concludes client body headers d res size ps [] db))
        | inr e ↦ rw e (
            Concludes-IfAnswered d res size _ ps db _
              (try_providers-Concludes client body headers d res size ps [] db))
      ]

  route_decided-IfAnswered :
      (r : Router) (others : Db → Db) (size : ℕ) (x : Result SqlError LimitDecision × Db)
      → IfAnswered (providers r) (route_decided r client others body headers size x)
  unfolding route_decided over_limit_result
  route_decided-IfAnswered r others size (raise e, db) = tt
  route_decided-IfAnswered r others size (ok d, db) = elim (Bool-cases d.allowed) [
    | inl e ↦ elim (Option-cases d.reservation) [
      | inl missing ↦ rw (e, route_decided) (rw missing tt)
      | inr (res, some_res) ↦
          rw (e, route_decided)
            (rw some_res (dispatch-IfAnswered d res size (providers r) (others db)))
    ]
    | inr e ↦ rw (e, route_decided) (inl (refl, refl))
  ]

-- Every attempt but the last was a failure that moves on to the next provider.
abbrev pub FailedOver : List Attempt → Type 0
FailedOver [] = Unit
FailedOver (a ∷ []) = Unit
FailedOver (a ∷ b ∷ rest) = (should_failover a ≡ true) × FailedOver (b ∷ rest)

Follows-order :
    {ps : List Provider} {attempts : List Attempt} {e : Ending}
    → Follows ps attempts e
    → (unused : List Provider) × (map (λ a. a.provider) attempts ++ unused ≡ ps)
Follows-order none_left = ([], refl)
Follows-order (serves {p} {ps} same won) = (ps, rw same)
Follows-order (refuses {p} {ps} same lost off) = (ps, rw same)
Follows-order (fails_over {p} {ps} same on f) =
    let (unused, order) = Follows-order f in (unused, rw (same, order))

FailedOver-cons :
    (a : Attempt) (rest : List Attempt)
    → should_failover a ≡ true
    → FailedOver rest
    → FailedOver (a ∷ rest)
FailedOver-cons a [] h k = tt
FailedOver-cons a (b ∷ rest) h k = (h, k)

Follows-FailedOver :
    {ps : List Provider} {attempts : List Attempt} {e : Ending}
    → Follows ps attempts e
    → FailedOver attempts
Follows-FailedOver none_left = tt
Follows-FailedOver (serves same won) = tt
Follows-FailedOver (refuses same lost off) = tt
Follows-FailedOver (fails_over {a = a} {rest = rest} same on f) =
    FailedOver-cons a rest on (Follows-FailedOver f)

module _ (dump_len : Json → ℕ) (r : Router) (client : Client) (others : Db → Db) (now : ℕ)
    (request_id tenant : String) (body : Fields) (headers : Dict String) (db : Db) where
  route-IfAnswered :
      IfAnswered
        (providers r)
        (route dump_len r client others now request_id tenant body headers db)
  unfolding route
  route-IfAnswered = go (reservation_size dump_len body) refl
    where
      go :
          (x : Result PyError ℕ)
          → reservation_size dump_len body ≡ x
          → IfAnswered
              (providers r)
              (route dump_len r client others now request_id tenant body headers db)
      go (raise e) eq = rw (eq, route) tt
      go (ok size) eq =
          rw (eq, route)
            (route_decided-IfAnswered client body headers r others size
              (check_and_reserve r.limiter now request_id tenant size db))

  module _ (result : RouteResult) (after : Db)
      (returned : route dump_len r client others now request_id tenant body headers db
        ≡ (ok result, after)) where
    -- Whatever the other requests do meanwhile, an answer is a 429 with no attempt made, or has the
    -- status of how its attempts ended: 200 for a success, the provider's own code for a failure of
    -- the request, 504 if every provider timed out and 502 if all failed otherwise.
    pub route-Answered : Answered (providers r) result
    route-Answered = rw returned at route-IfAnswered

    -- The attempts go through the configured providers in order from the primary, one each, and no
    -- provider is called after an attempt that does not fail over.
    pub route_failover :
        (unused : List Provider) × (map (λ a. a.provider) result.attempts ++ unused ≡ providers r)
        × FailedOver result.attempts
    route_failover = order route-Answered
      where
        order :
            Answered (providers r) result
            → (unused : List Provider) × (map (λ a. a.provider) result.attempts ++ unused
                ≡ providers r)
              × FailedOver result.attempts
        order (inl (status, none_made)) = (providers r, rw none_made, rw none_made tt)
        order (inr (e, follows, status)) =
            let (unused, same) = Follows-order follows in (unused, same, Follows-FailedOver follows)
