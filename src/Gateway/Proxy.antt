-- ===== src/Gateway/Proxy.antt =====
-- mcp-gateway/src/mcp_gateway/proxy.py: the headers of a relayed request and of its response.
pub mod Identity
use quilr_ai_mcp.Prelude.{ℕ, String, Bool, List, [], ◌∷◌, not, str_eq, any}
use quilr_ai_mcp.Prelude.Dict.{Dict, put, merge, select_keys}
use quilr_ai_mcp.Gateway.Auth.{Principal}

-- `_HOP_BY_HOP`
abbrev pub hop_by_hop : List String
hop_by_hop =
    "connection" ∷ "keep-alive" ∷ "proxy-authenticate" ∷ "proxy-authorization" ∷ "te" ∷ "trailer"
    ∷ "transfer-encoding" ∷ "upgrade" ∷ "content-length" ∷ "host" ∷ []

-- `_STRIP_FROM_CLIENT`
abbrev pub strip_from_client : List String
strip_from_client = "authorization" ∷ "x-forwarded-user" ∷ "x-forwarded-role" ∷ hop_by_hop

-- Headers in lower case, as Starlette and httpx give them.
abbrev pub Headers : Type 0
Headers = Dict (List ℕ)

-- `build_downstream_headers`
unfoldable pub build_downstream_headers : Headers → Principal → Headers
build_downstream_headers incoming p = put "x-forwarded-role" p.role (
    put "x-forwarded-user" p.subject
      (merge [] (select_keys (λ k. not (any (str_eq k) strip_from_client)) incoming)))

-- `filter_response_headers`
unfoldable pub filter_response_headers : Headers → Headers
filter_response_headers headers =
    merge [] (select_keys (λ k. not (any (str_eq k) hop_by_hop)) headers)
