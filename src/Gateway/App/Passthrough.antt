-- ===== src/Gateway/App/Passthrough.antt =====
-- mcp-gateway/src/mcp_gateway/app.py: `handle_mcp_passthrough`, which relays GET and DELETE. The audit
-- log is left out, and a streamed body stands for its bytes.
use quilr_ai_mcp.Prelude.{Option, none, some, List, [], ◌∷◌, Result, ok, raise}
use quilr_ai_mcp.Prelude.Dict.{get}
use quilr_ai_mcp.Prelude.Json.{null, end}
use quilr_ai_mcp.Gateway.JsonRpc.{error_object, upstream_unavailable}
use quilr_ai_mcp.Gateway.Auth.{Principal, AuthError, resolve_principal}
use quilr_ai_mcp.Gateway.Proxy.{Headers, build_downstream_headers, filter_response_headers}
use quilr_ai_mcp.Gateway.App.{Config, Request, Response, Answer, unauthenticated, json_rpc, relayed}

-- The answer to the relay; `none` is an `HTTPError`.
abbrev pub answer_relayed : Option Response → Answer
answer_relayed none =
    json_rpc 502
      (error_object upstream_unavailable "The upstream MCP server is unavailable." end null)
answer_relayed (some r) = relayed r.status_code (filter_response_headers r.headers) r.content

-- The answer, and the headers that have gone downstream.
unfoldable pub relay_for :
    (Headers → Option Response) → Headers → Result AuthError Principal → Answer × List Headers
relay_for send headers (raise e) = (unauthenticated e, [])
relay_for send headers (ok p) =
    let sent = build_downstream_headers headers p in (answer_relayed (send sent), sent ∷ [])

-- `handle_mcp_passthrough`
unfoldable pub handle_mcp_passthrough :
    (Headers → Option Response) → Config → Request → Answer × List Headers
unfolding relay_for get
handle_mcp_passthrough send config r =
    relay_for send r.headers (resolve_principal config.tokens (get "authorization" r.headers))
