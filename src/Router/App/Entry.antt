-- ===== src/Router/App/Entry.antt =====
-- Which requests reach the providers: llm-gateway-router/src/llm_router/app.py, `handle_messages`.
use quilr_ai_mcp.Prelude.{
  ℕ, ◌≤◌, ◌≡◌, ◌⊎◌, String, true, false, none, some, List, ok, raise, length,
}
use quilr_ai_mcp.Prelude.Dict.{Dict, get}
use quilr_ai_mcp.Prelude.Strings.{text_of}
use quilr_ai_mcp.Prelude.Json.{Json, obj, Fields, get_field, or_null, truthy, as_obj}
use quilr_ai_mcp.Router.Store.{Db}
use quilr_ai_mcp.Router.Route.{route}
use quilr_ai_mcp.Router.App.{
  max_body_bytes, parsed, invalid_json, invalid_text, AppState, IncomingRequest, AppReply,
  no_tenant, oversized, not_json, no_messages, escaped, routed, authenticate, read_routed_body,
  parse_raw, forwarded,
}

module _ (s : AppState) (others : Db → Db) (now : ℕ) (request_id : String) (r : IncomingRequest)
    (db : Db) where
  -- The result of `route` for a tenant and a body.
  abbrev pub routed_for : List ℕ → Fields → AppReply × Db
  routed_for tenant body =
      let (result, db') =
        route s.dump_len s.router s.client others now request_id (text_of tenant) body
          (forwarded r.headers) db in
      (routed result, db')

  -- The request goes on to `route`.
  abbrev pub Entered : AppReply × Db → Type 0
  Entered result =
      (tenant raw : List ℕ) × (body : Fields) × (authenticate s r ≡ ok tenant)
      × (read_routed_body r ≡ some raw)
      × (length raw ≤ max_body_bytes)
      × (parse_raw s raw ≡ parsed (obj body))
      × (truthy (or_null (get_field "messages" body)) ≡ true)
      × (get "authorization" (forwarded r.headers) ≡ none)
      × (get "x-api-key" (forwarded r.headers) ≡ none)
      × (result ≡ routed_for tenant body)

  -- The body that is read for a tenant.
  abbrev pub HasBody : List ℕ → Type 0
  HasBody raw = (tenant : List ℕ) × (authenticate s r ≡ ok tenant) × (read_routed_body r ≡ some raw)

  -- Why the handler answers by itself: a key that names no tenant, a body that is not read for its size, one
  -- that is no JSON or has an escape that is no text, or one that is no object with messages.
  abbrev pub IsOwn : AppReply → Type 0
  IsOwn (no_tenant e) = authenticate s r ≡ raise e
  IsOwn oversized =
      ((tenant : List ℕ) × (authenticate s r ≡ ok tenant)) × (read_routed_body r ≡ none)
  IsOwn not_json = (raw : List ℕ) × HasBody raw × (parse_raw s raw ≡ invalid_json)
  IsOwn escaped = (raw : List ℕ) × HasBody raw × (parse_raw s raw ≡ invalid_text)
  IsOwn no_messages =
      (raw : List ℕ) × (v : Json) × HasBody raw
      × (parse_raw s raw ≡ parsed v)
      × ((as_obj v ≡ none)
          ⊎ (body : Fields) × (v ≡ obj body)
            × (truthy (or_null (get_field "messages" body)) ≡ false))
  IsOwn (routed _) = ⊥

  abbrev pub Outcome : AppReply × Db → Type 0
  Outcome result = (IsOwn result.0 × (result.1 ≡ db)) ⊎ Entered result
