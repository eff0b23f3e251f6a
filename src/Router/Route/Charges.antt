-- ===== src/Router/Route/Charges.antt =====
-- What an admitted request costs its tenant, on every path through the router, when no other request
-- comes in between.
use quilr_ai_mcp.Prelude.{
  ℕ, ◌+◌, ◌≤◌, ◌≡◌, List, [], ◌∷◌, ◌++◌, Result, ok, raise, length, String, select, ◌==◌,
  if◌then◌else◌,
}
use quilr_ai_mcp.Prelude.Dict.{Dict}
use quilr_ai_mcp.Prelude.Json.{Json, Fields}
use quilr_ai_mcp.Router.Store.{Db}
use quilr_ai_mcp.Router.Limit.{Reservation, used, evict}
use quilr_ai_mcp.Router.Limit.Window.{IsFresh}
use quilr_ai_mcp.Router.Limit.Admission.{charge, reserved_row}
use quilr_ai_mcp.Router.Tokens.{reservation_size}
use quilr_ai_mcp.Router.Providers.{Attempt, Client}
use quilr_ai_mcp.Router.Route.{Failure, RouteResult, Router, providers, is_timeout, bill}
use quilr_ai_mcp.Router.Route.Attempts.{Ending, served, refused, gave_up, Follows}

-- The tokens a completed request is charged: its usage or the estimate if a provider answered it, and
-- the estimate if every provider failed and one of them by a timeout.
abbrev pub charged_for : ℕ → Ending → List Attempt → ℕ
charged_for size (served a) attempts = bill size a
charged_for size (refused a) attempts = bill size a
charged_for size gave_up attempts = if length (select is_timeout attempts) == 0 then 0 else size

module _ (dump_len : Json → ℕ) (r : Router) (client : Client) (now : ℕ) (request_id tenant : String)
    (body : Fields) (headers : Dict String) (db : Db) (size : ℕ)
    (sized : reservation_size dump_len body ≡ ok size)
    (fresh : IsFresh request_id (evict r.limiter now db).1)
    (fits : used r.limiter tenant now db + size ≤ r.limiter.limit) (other : String) (t : ℕ)
    (later : now ≤ t) where
  abbrev charged : ℕ → ℕ
  charged n = charge r.limiter now request_id tenant size db other n t

  abbrev held : Reservation
  held = record { request_id = request_id; tenant = tenant; estimated_tokens = size }

  abbrev table : Db
  table = (evict r.limiter now db).1 ++ reserved_row tenant request_id size now ∷ []

  -- The window of any tenant after a routed request: an exception has cost nothing, and a result has
  -- cost its own tenant what its attempts are charged for.
  abbrev pub Accounted : Result Failure RouteResult × Db → Type 0
  Accounted (raise f, after) = used r.limiter other t after ≡ used r.limiter other t db
  Accounted (ok result, after) =
      (e : Ending) × Follows (providers r) result.attempts e
      × (used r.limiter other t after
          ≡ used r.limiter other t db + charged (charged_for size e result.attempts))
