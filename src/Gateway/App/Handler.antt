-- ===== src/Gateway/App/Handler.antt =====
-- mcp-gateway/src/mcp_gateway/app.py: `handle_mcp_post` and `_build_client_response`.
use quilr_ai_mcp.Prelude.{
  ℕ, String, Bool, true, false, Option, none, some, List, [], ◌∷◌, ◌++◌, Result, ok, raise, not,
  is_some, if◌then◌else◌, ◌&&◌, ◌==◌, length, map, codes,
}
use quilr_ai_mcp.Prelude.Dict.{get}
use quilr_ai_mcp.Prelude.Json.{Json, null, arr, obj, nil, Fields, end, to_list}
use quilr_ai_mcp.Prelude.Text.{drop_prefix}
use quilr_ai_mcp.Gateway.JsonRpc.{
  RpcMessage, InvalidPayload, ParsedPayload, LoadError, parse_payload, error_object,
  invalid_request, upstream_unavailable,
}
use quilr_ai_mcp.Gateway.Auth.{Principal, AuthError, resolve_principal}
use quilr_ai_mcp.Gateway.Policy.{Unicode}
use quilr_ai_mcp.Gateway.Proxy.{build_downstream_headers, filter_response_headers}
use quilr_ai_mcp.Gateway.App.{
  Config, Request, Sent, Response, Answer, unauthenticated, json_rpc, no_content, relayed,
  read_bounded_body, items, filter_payload, judge,
}

-- What the handlers call: `json.loads`, `json.dumps`, the texts of parse errors, the downstream
-- server, and the parse of its response, with `none` for a `ValueError`.
pub record Host : Type 0 where
  pub unicode : Unicode
  pub loads : (Fields → Result String Fields) → List ℕ → Result LoadError Json
  pub dumps : Json → List ℕ
  pub describe : InvalidPayload → String
  pub post : Sent → Result String Response
  pub response_json : Response → Option Json

abbrev pub content_type : Response → List ℕ
content_type r = elim (get "content-type" r.headers) [ none ↦ [] | some t ↦ t ]

abbrev pub is_json : Response → Bool
is_json r = is_some (drop_prefix (codes "application/json") (content_type r))

-- The elements of a payload.
abbrev pub payload_items : Json → List Json
payload_items (arr vs) = to_list vs
payload_items v = v ∷ []

-- The denials after the downstream's own answers.
unfoldable pub merge_denials : Json → List Json → Json
merge_denials payload [] = payload
merge_denials payload (d ∷ ds) = arr (items (payload_items payload ++ d ∷ ds))

-- The first answer of a batch of one.
unfoldable pub batch_or_first : Bool → List Json → Json
batch_or_first is_batch [] = arr nil
batch_or_first is_batch (d ∷ ds) = if is_batch then arr (items (d ∷ ds)) else d

abbrev pub is_nil : List Json → Bool
is_nil [] = true
is_nil (_ ∷ _) = false

-- A response to merge into.
unfoldable pub merge_response :
    Unicode → Config → Principal → Response → List Json → Option Json → Answer
unfolding merge_denials
merge_response unicode config p r denials none = json_rpc 502 (
    arr (
      items (
        denials
        ++ error_object upstream_unavailable "Malformed response from the upstream MCP server." end
            null
          ∷ [])))
merge_response unicode config p r denials (some payload) = json_rpc r.status_code (
    merge_denials (if config.filter_tools_list then filter_payload unicode p payload else payload)
      denials)

-- `_build_client_response`
unfoldable pub build_client_response : Host → Config → Principal → Response → List Json → Answer
unfolding merge_response
build_client_response host config p r denials =
    if is_nil denials && not (config.filter_tools_list && is_json r)
    then relayed r.status_code (filter_response_headers r.headers) r.content
    else if not (is_json r)
    then json_rpc r.status_code (arr (items denials))
    else merge_response host.unicode config p r denials (host.response_json r)

-- The body of the downstream request.
unfoldable pub forward_body :
    (Json → List ℕ) → List ℕ → ParsedPayload → RpcMessage → List RpcMessage → List ℕ
forward_body dumps body parsed first rest =
    if length (first ∷ rest) == length parsed.messages
    then body
    else if parsed.is_batch
    then dumps (arr (items (map (λ m. obj m.raw) (first ∷ rest))))
    else dumps (obj first.raw)

-- The end of `handle_mcp_post` once the downstream server has answered or failed.
unfoldable pub answer_forwarded :
    Host
    → Config
    → Principal
    → ParsedPayload
    → RpcMessage
    → List Json
    → Result String Response
    → Answer
unfolding build_client_response
answer_forwarded host config p parsed first denials (ok r) =
    build_client_response host config p r denials
answer_forwarded host config p parsed first denials (raise summary) =
    let id = if first.is_request then first.id else null in
    let upstream_error = error_object upstream_unavailable summary end id in
    json_rpc 502
      (if parsed.is_batch then arr (items (denials ++ upstream_error ∷ [])) else upstream_error)

-- `handle_mcp_post` from the verdicts on.
unfoldable pub forward_allowed :
    Host
    → Config
    → Request
    → Principal
    → List ℕ
    → ParsedPayload
    → List RpcMessage × List Json
    → Answer × List Sent
unfolding batch_or_first forward_body answer_forwarded
forward_allowed host config r p body parsed ([], []) = (no_content, [])
forward_allowed host config r p body parsed ([], d ∷ ds) =
    (json_rpc 200 (batch_or_first parsed.is_batch (d ∷ ds)), [])
forward_allowed host config r p body parsed (first ∷ rest, denials) =
    let sent : Sent = record {
      body = forward_body host.dumps body parsed first rest;
      headers = build_downstream_headers r.headers p;
    } in
    (answer_forwarded host config p parsed first denials (host.post sent), sent ∷ [])

unfoldable pub handle_parsed :
    Host
    → Config
    → Request
    → Principal
    → List ℕ
    → Result InvalidPayload ParsedPayload
    → Answer × List Sent
handle_parsed host config r p body (raise e) =
    (json_rpc 400 (error_object e.code (host.describe e) end e.id), [])
handle_parsed host config r p body (ok parsed) =
    forward_allowed host config r p body parsed
      (judge host.unicode p config.enforce_method_allowlist parsed.messages)

unfoldable pub handle_body :
    Host → Config → Request → Principal → Option (List ℕ) → Answer × List Sent
handle_body host config r p none = (
  json_rpc 413 (error_object invalid_request "Request body exceeds the configured limit." end null),
  [],
)
handle_body host config r p (some body) =
    handle_parsed host config r p body (parse_payload host.loads body)

unfoldable pub handle_authenticated :
    Host → Config → Request → Result AuthError Principal → Answer × List Sent
handle_authenticated host config r (raise e) = (unauthenticated e, [])
handle_authenticated host config r (ok p) =
    handle_body host config r p (read_bounded_body config.max_body_bytes r)

-- `handle_mcp_post`
unfoldable pub handle_mcp_post : Host → Config → Request → Answer × List Sent
handle_mcp_post host config r =
    handle_authenticated host config r
      (resolve_principal config.tokens (get "authorization" r.headers))
