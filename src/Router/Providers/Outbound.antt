-- ===== src/Router/Providers/Outbound.antt =====
-- What is sent to a provider: its own credential and model, whatever the caller sent.
use quilr_ai_mcp.Prelude.{◌≡◌, ◌≢◌, String, none, some, arith, str_eq, eq_iff, if◌then◌else◌}
use quilr_ai_mcp.Prelude.Dict.{Dict, get, merge, get-put}
use quilr_ai_mcp.Prelude.Json.{str, Fields, get_field, get_field-put_field}
use quilr_ai_mcp.Router.Providers.{Provider, payload, outbound, auth_headers}

-- A provider's key overrides any header of that name that the caller's request carries, and no other
-- header changes.
pub outbound_credential :
    (p : Provider) (key name : String) (headers : Dict String)
    → p.api_key ≡ some key
    → key ≢ ""
    → get name (outbound p headers)
      ≡ (if str_eq p.api_key_header name then some key else get name headers)
unfolding outbound auth_headers merge
outbound_credential p key name headers given real =
    ground (arith, eq_iff key "", get-put p.api_key_header name key headers)

-- Without a key the caller's headers go out as they are.
pub outbound_anonymous :
    (p : Provider) (headers : Dict String) → p.api_key ≡ none → outbound p headers ≡ headers
unfolding outbound auth_headers merge
outbound_anonymous p headers absent = ground arith

-- The payload names the provider's model, and is the caller's body otherwise.
pub payload_model :
    (p : Provider) (key : String) (body : Fields)
    → get_field key (payload p body)
      ≡ (if str_eq "model" key then some (str p.model) else get_field key body)
unfolding payload
payload_model p key body = get_field-put_field "model" key (str p.model) body
