-- ===== src/Router/Tests/Serving.antt =====
-- Runs of the router's handlers, and an instance of their theorem.
use quilr_ai_mcp.Prelude.{◌≡◌, refl, String, false, [], ◌∷◌, ok, codes, if◌then◌else◌}
use quilr_ai_mcp.Prelude.Body.{read_chunks, digits_value}
use quilr_ai_mcp.Prelude.Dict.{get, merge, select_keys}
use quilr_ai_mcp.Prelude.Strings.{char_of, text_of}
use quilr_ai_mcp.Prelude.Text.{text_eq}
use quilr_ai_mcp.Prelude.Json.{obj, end}
use quilr_ai_mcp.Router.Limit.{usage}
use quilr_ai_mcp.Router.Auth.{unknown_key}
use quilr_ai_mcp.Router.App.{
  parsed, invalid_json, AppState, IncomingRequest, no_tenant, not_json, no_messages, routed,
  authenticate, read_routed_body, forwarded, route_parsed, route_read, route_for,
  handle_routed_messages, window_usage, handle_usage,
}
use quilr_ai_mcp.Router.Tests.Limiter.{busy}
use quilr_ai_mcp.Router.Tests.Routing.{
  route_program, gateway, flaky, request, no_dump, answer, after_route,
}
use quilr_ai_mcp.Router.Tests.Tenants.{tenant_program, table, fingerprint}

-- Names every function that a request runs through.
unfoldable handler_program : Unit {0}
unfolding route_program tenant_program read_chunks digits_value get merge select_keys char_of
    text_of usage authenticate read_routed_body forwarded route_parsed route_read route_for
    handle_routed_messages handle_usage
handler_program = tt

-- The request's body is called "R", and an empty object "E".
abbrev state : AppState
state = record {
  tenants = table;
  allow_unauthenticated_tenants = false;
  fingerprint = fingerprint;
  router = gateway;
  client = flaky;
  loads = λ bytes.
      if text_eq bytes (codes "R")
      then parsed (obj request)
      else if text_eq bytes (codes "E")
      then parsed (obj end)
      else invalid_json;
  dump_len = no_dump;
}

abbrev incoming : String → String → IncomingRequest
incoming key body = record {
  headers = ("x-api-key", key) ∷ ("accept", "text/plain") ∷ [];
  chunks = codes body ∷ [];
}

routes_known_key :
    handle_routed_messages state (λ x. x) 20 "r4" (incoming "k1" "R") busy
    ≡ (routed (ok answer), after_route)
unfolding handler_program
routes_known_key = refl

refuses_unknown_key :
    handle_routed_messages state (λ x. x) 20 "r4" (incoming "k3" "R") busy
    ≡ (no_tenant unknown_key, busy)
unfolding handler_program
refuses_unknown_key = refl

refuses_no_messages :
    handle_routed_messages state (λ x. x) 20 "r4" (incoming "k1" "E") busy ≡ (no_messages, busy)
unfolding handler_program
refuses_no_messages = refl

refuses_no_json :
    handle_routed_messages state (λ x. x) 20 "r4" (incoming "k1" "{") busy ≡ (not_json, busy)
unfolding handler_program
refuses_no_json = refl

reports_usage : handle_usage state 64 (incoming "k1" "") busy ≡ window_usage 80 100 20
unfolding handler_program
reports_usage = refl
