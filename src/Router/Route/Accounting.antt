-- ===== src/Router/Route/Accounting.antt =====
-- What a routed request leaves in the limiter's table, on every path through the router.
use quilr_ai_mcp.Prelude.{
  ℕ, ◌+◌, ◌≤◌, ◌<◌, ◌≡◌, refl, true, false, [], ◌∷◌, ◌++◌, Result, ok, String,
}
use quilr_ai_mcp.Prelude.Dict.{Dict}
use quilr_ai_mcp.Prelude.Json.{Json, Fields, get_field, or_null, truthy}
use quilr_ai_mcp.Router.Store.{Db}
use quilr_ai_mcp.Router.Limit.{RateLimiter, Reservation, LimitDecision, used, evict}
use quilr_ai_mcp.Router.Limit.Window.{IsFresh}
use quilr_ai_mcp.Router.Limit.Admission.{
  admitted, reservation, reserved_row, check_and_reserve-admitted, check_and_reserve-rejected,
}
use quilr_ai_mcp.Router.Tokens.{reservation_size}
use quilr_ai_mcp.Router.Providers.{Client}
use quilr_ai_mcp.Router.Route.{
  Failure, RouteResult, Router, providers, dispatch, route_decided, route, over_limit_result,
}
use quilr_ai_mcp.Router.Route.Attempts.{
  whole_response, streamed, Concludes, try_providers-Concludes, try_streams-Concludes,
}

module _ (dump_len : Json → ℕ) (r : Router) (client : Client) (others : Db → Db) (now : ℕ)
    (request_id tenant : String) (body : Fields) (headers : Dict String) (db : Db) (size : ℕ)
    (sized : reservation_size dump_len body ≡ ok size) where
  abbrev lim : RateLimiter
  lim = r.limiter

  abbrev kept : Db
  kept = (evict lim now db).1

  abbrev outcome : Result Failure RouteResult × Db
  outcome = route dump_len r client others now request_id tenant body headers db

  abbrev decision : LimitDecision
  decision = admitted lim now request_id tenant size db

  abbrev held : Reservation
  held = reservation lim now request_id tenant size db

  abbrev table : Db
  table = kept ++ reserved_row tenant request_id size now ∷ []

  route_admitted :
      IsFresh request_id kept
      → used lim tenant now db + size ≤ lim.limit
      → outcome ≡ dispatch client body headers decision held size (providers r) (others table)
  unfolding route route_decided
  route_admitted fresh fits =
      rw (sized, route)
        (rw (check_and_reserve-admitted lim now request_id tenant size db fresh fits) refl)

  -- An admitted request that asks for a whole response runs the providers in order, and its last
  -- transaction is the one of how they ended, on the table as the other requests have left it.
  pub route-Concludes :
      IsFresh request_id kept
      → used lim tenant now db + size ≤ lim.limit
      → truthy (or_null (get_field "stream" body)) ≡ false
      → Concludes decision held size
          (whole_response decision held size)
          (providers r)
          []
          (others table)
          outcome
  unfolding dispatch
  route-Concludes fresh fits whole = rw (route_admitted fresh fits) (
      rw whole (
        try_providers-Concludes client body headers decision held size (providers r) []
          (others table)))

  -- The same for a request that asks for a stream.
  pub route_stream-Concludes :
      IsFresh request_id kept
      → used lim tenant now db + size ≤ lim.limit
      → truthy (or_null (get_field "stream" body)) ≡ true
      → Concludes decision held size
          (streamed decision held size)
          (providers r)
          []
          (others table)
          outcome
  unfolding dispatch
  route_stream-Concludes fresh fits whole = rw (route_admitted fresh fits) (
      rw whole (
        try_streams-Concludes client body headers decision held size (providers r) []
          (others table)))

  -- A request that would pass the limit is answered 429 with no attempt, and holds nothing.
  pub route_over_limit :
      lim.limit < used lim tenant now db + size
      → (result : RouteResult) × (outcome ≡ (ok result, kept))
        × (result.status_code ≡ 429)
        × (result.attempts ≡ [])
  unfolding route route_decided over_limit_result
  route_over_limit over =
      let (d, decided, denied, _, _) =
        check_and_reserve-rejected lim now request_id tenant size db over in
      (
        over_limit_result lim d size,
        rw (sized, route) (rw decided (rw (denied, route_decided))),
        refl,
        refl,
      )
