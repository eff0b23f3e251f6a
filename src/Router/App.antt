-- ===== src/Router/App.antt =====
-- llm-gateway-router/src/llm_router/app.py: `handle_messages` and `handle_usage`. json.loads on bytes is a
-- parameter; a header's value is a text, and so is a tenant's id.
pub mod Entry
use quilr_ai_mcp.Prelude.{
  ℕ, ◌-◌, String, Bool, true, false, not, Option, none, some, List, [], ◌∷◌, Result, ok, raise, ltb,
  codes, str_eq, any, if◌then◌else◌,
}
use quilr_ai_mcp.Prelude.Body.{read_chunks, declared_size}
use quilr_ai_mcp.Prelude.Dict.{Dict, get, merge, select_keys}
use quilr_ai_mcp.Prelude.Strings.{text_of}
use quilr_ai_mcp.Prelude.Json.{Json, obj, Fields, end, get_field, or_null, truthy}
use quilr_ai_mcp.Router.Store.{Db}
use quilr_ai_mcp.Router.Limit.{RateLimiter, usage}
use quilr_ai_mcp.Router.Providers.{Client}
use quilr_ai_mcp.Router.Route.{Failure, RouteResult, Router, route}
use quilr_ai_mcp.Router.Auth.{KeyError, Table, extract_api_key, resolve_tenant}

-- `_DROP_HEADERS`
abbrev pub drop_headers : List String
drop_headers =
    "host" ∷ "content-length" ∷ "connection" ∷ "transfer-encoding" ∷ "keep-alive" ∷ "authorization"
    ∷ "x-api-key" ∷ []

abbrev pub max_body_bytes : ℕ
max_body_bytes = 4_194_304

-- What `json.loads` makes of bytes: a value, a JSONDecodeError, or another exception.
pub data ParsedBody : Type 0 where
  parsed : Json → ParsedBody
  invalid_json : ParsedBody
  invalid_text : ParsedBody

-- What the handlers read of `Config`, and the code that they call.
pub record AppState : Type 0 where
  pub tenants : Table
  pub allow_unauthenticated_tenants : Bool
  pub fingerprint : List ℕ → List ℕ
  pub router : Router
  pub client : Client
  pub loads : List ℕ → ParsedBody
  pub dump_len : Json → ℕ

-- Header names are in lower case, as Starlette gives them.
pub record IncomingRequest : Type 0 where
  pub headers : Dict String
  pub chunks : List (List ℕ)

-- The answers of `handle_messages`; `escaped` is an exception of the decoder.
pub data AppReply : Type 0 where
  no_tenant : KeyError → AppReply
  oversized : AppReply
  not_json : AppReply
  no_messages : AppReply
  escaped : AppReply
  routed : Result Failure RouteResult → AppReply

abbrev pub header : String → IncomingRequest → Option (List ℕ)
header k r = elim (get k r.headers) [ none ↦ none | some v ↦ some (codes v) ]

abbrev pub tenant_of : AppState → Result KeyError (List ℕ) → Result KeyError (List ℕ)
tenant_of s (raise e) = raise e
tenant_of s (ok key) = resolve_tenant s.fingerprint key s.tenants s.allow_unauthenticated_tenants

-- `_authenticate`
unfoldable pub authenticate : AppState → IncomingRequest → Result KeyError (List ℕ)
unfolding get extract_api_key resolve_tenant
authenticate s r = tenant_of s (extract_api_key (header "x-api-key" r) (header "authorization" r))

-- `_read_bounded_body` under the limit of the module; `none` is `_BodyTooLarge`.
abbrev pub body_within : List (List ℕ) → Option ℕ → Option (List ℕ)
body_within chunks none = read_chunks max_body_bytes [] chunks
body_within chunks (some n) =
    let body = read_chunks max_body_bytes [] chunks in if ltb max_body_bytes n then none else body

unfoldable pub read_routed_body : IncomingRequest → Option (List ℕ)
unfolding get
read_routed_body r = body_within r.chunks (declared_size (header "content-length" r))

-- `json.loads(raw) if raw else {}`
abbrev pub parse_raw : AppState → List ℕ → ParsedBody
parse_raw s [] = parsed (obj end)
parse_raw s (b ∷ bs) = s.loads (b ∷ bs)

-- The headers that go upstream.
unfoldable pub forwarded : Dict String → Dict String
forwarded headers = merge [] (select_keys (λ k. not (any (str_eq k) drop_headers)) headers)

-- `handle_messages` from the parsed body on. `others` is what other requests do meanwhile.
unfoldable pub route_parsed :
    AppState → (Db → Db) → ℕ → String → IncomingRequest → List ℕ → ParsedBody → Db → AppReply × Db
unfolding route
route_parsed s others now request_id r tenant (parsed (obj body)) db =
    let (result, db') =
      route s.dump_len s.router s.client others now request_id (text_of tenant) body
        (forwarded r.headers) db in
    if truthy (or_null (get_field "messages" body)) then (routed result, db') else (no_messages, db)
route_parsed s others now request_id r tenant (parsed v) db = (no_messages, db)
route_parsed s others now request_id r tenant invalid_json db = (not_json, db)
route_parsed s others now request_id r tenant invalid_text db = (escaped, db)

unfoldable pub route_read :
    AppState
    → (Db → Db)
    → ℕ
    → String
    → IncomingRequest
    → List ℕ
    → Option (List ℕ)
    → Db
    → AppReply × Db
route_read s others now request_id r tenant none db = (oversized, db)
route_read s others now request_id r tenant (some raw) db =
    route_parsed s others now request_id r tenant (parse_raw s raw) db

unfoldable pub route_for :
    AppState
    → (Db → Db)
    → ℕ
    → String
    → IncomingRequest
    → Result KeyError (List ℕ)
    → Db
    → AppReply × Db
route_for s others now request_id r (raise e) db = (no_tenant e, db)
route_for s others now request_id r (ok tenant) db =
    route_read s others now request_id r tenant (read_routed_body r) db

-- `handle_messages`, with the clock's reading and the new request's id
unfoldable pub handle_routed_messages :
    AppState → (Db → Db) → ℕ → String → IncomingRequest → Db → AppReply × Db
handle_routed_messages s others now request_id r db =
    route_for s others now request_id r (authenticate s r) db

-- The answers of `handle_usage`: the tokens used, the limit and what remains.
pub data UsageReply : Type 0 where
  unknown_caller : KeyError → UsageReply
  window_usage : ℕ → ℕ → ℕ → UsageReply

abbrev pub usage_for : AppState → ℕ → Db → Result KeyError (List ℕ) → UsageReply
usage_for s now db (raise e) = unknown_caller e
usage_for s now db (ok tenant) =
    let lim = s.router.limiter in
    let used = usage lim now (text_of tenant) db in window_usage used lim.limit (lim.limit - used)

-- `handle_usage`
unfoldable pub handle_usage : AppState → ℕ → IncomingRequest → Db → UsageReply
unfolding usage
handle_usage s now r db = usage_for s now db (authenticate s r)
