-- ===== src/Gateway/Tests/Relaying.antt =====
-- Runs of the token table and of the relay of GET and DELETE.
use quilr_ai_mcp.Prelude.{◌≡◌, refl, true, Option, some, [], ◌∷◌, codes}
use quilr_ai_mcp.Prelude.Keys.{split_commas}
use quilr_ai_mcp.Gateway.Auth.{missing_header}
use quilr_ai_mcp.Gateway.Auth.Table.{
  default_tokens, put_principal, add_parts, add_token, add_tokens, token_table,
}
use quilr_ai_mcp.Gateway.Proxy.{Headers}
use quilr_ai_mcp.Gateway.App.{Config, Request, Response, unauthenticated, relayed}
use quilr_ai_mcp.Gateway.App.Passthrough.{relay_for, handle_mcp_passthrough}
use quilr_ai_mcp.Gateway.Tests.{gateway_program}

-- Names every function that a relay calls.
unfoldable relay_program : Unit {0}
unfolding gateway_program split_commas put_principal add_parts add_token add_tokens token_table
    relay_for handle_mcp_passthrough
relay_program = tt

-- An entry without a role is dropped, and a repeated token gets the last role.
token_table-entries :
    token_table (some (codes "t:a:viewer,u:b, ,t:a:admin"))
    ≡ (codes "t", record { subject = codes "a"; role = codes "admin" }) ∷ []
unfolding relay_program
token_table-entries = refl

abbrev config : Config
config = record {
  max_body_bytes = 100;
  enforce_method_allowlist = true;
  filter_tools_list = true;
  tokens = default_tokens;
}

abbrev downstream : Headers → Option Response
downstream headers = some (record { status_code = 200; headers = []; content = codes "event" })

abbrev request : Headers → Request
request headers = record { headers = headers; chunks = [] }

relays_identity :
    handle_mcp_passthrough downstream config (
      request (
        ("authorization", codes "Bearer viewer-token-second")
        ∷ ("x-forwarded-role", codes "admin")
        ∷ []))
    ≡ (
      relayed 200 [] (codes "event"),
      (("x-forwarded-user", codes "intern@example.com") ∷ ("x-forwarded-role", codes "viewer") ∷ [])
          ∷ [],
    )
unfolding relay_program
relays_identity = refl

refuses_nobody :
    handle_mcp_passthrough downstream config (request []) ≡ (unauthenticated missing_header, [])
unfolding relay_program
refuses_nobody = refl
