-- ===== src/Gateway/Proxy/Identity.antt =====
-- Who the downstream server hears is calling: mcp-gateway/src/mcp_gateway/proxy.py,
-- `build_downstream_headers`.
use quilr_ai_mcp.Prelude.{
  ◌≡◌, refl, String, true, none, some, [], str_eq, any, not, if◌then◌else◌, ap,
}
use quilr_ai_mcp.Prelude.Dict.{get, get-put, get-merge}
use quilr_ai_mcp.Gateway.Auth.{Principal}
use quilr_ai_mcp.Gateway.Proxy.{strip_from_client, Headers, build_downstream_headers}

-- The identity headers are the principal's, whatever the client sent; its credential and the headers
-- of its connection are gone.
pub get-build_downstream_headers :
    (incoming : Headers) (p : Principal) (k : String)
    → any (str_eq k) strip_from_client ≡ true
    → get k (build_downstream_headers incoming p) ≡ (
        if str_eq "x-forwarded-role" k
        then some p.role
        else if str_eq "x-forwarded-user" k
        then some p.subject
        else none)
unfolding build_downstream_headers get
get-build_downstream_headers incoming p k stripped =
    rw
      (
        get-put "x-forwarded-role" k p.role _,
        get-put "x-forwarded-user" k p.subject _,
        get-merge (λ j. not (any (str_eq j) strip_from_client)) k [] incoming (ap not stripped)
            refl,
      )
      refl
