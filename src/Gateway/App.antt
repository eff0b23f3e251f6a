-- ===== src/Gateway/App.antt =====
-- mcp-gateway/src/mcp_gateway/app.py: authenticate, inspect, authorize, forward. A handler answers and
-- tells what it has sent downstream. The audit log is left out.
pub mod Handler
pub mod Forwarding
pub mod Denials
pub mod Listing
pub mod Passthrough
use quilr_ai_mcp.Prelude.{
  ℕ, ◌+◌, String, Bool, true, false, Option, none, some, List, [], ◌∷◌, ◌++◌, Result, ok, raise,
  not, str_eq, is_some, if◌then◌else◌, ◌&&◌, ◌||◌, ltb, leb, ◌==◌, length, map, codes, ◌*◌, ◌-◌,
}
use quilr_ai_mcp.Prelude.Body.{read_chunks, digits_value, declared_size}
use quilr_ai_mcp.Prelude.Dict.{get}
use quilr_ai_mcp.Prelude.Json.{
  Json, null, str, arr, obj, Items, nil, cons, Fields, end, field, get_field, put_field, or_null,
  to_list,
}
use quilr_ai_mcp.Prelude.Text.{drop_prefix}
use quilr_ai_mcp.Gateway.JsonRpc.{
  RpcMessage, tool_name, InvalidPayload, ParsedPayload, LoadError, parse_payload, error_object,
  invalid_request, upstream_unavailable,
}
use quilr_ai_mcp.Gateway.Auth.{Principal, is_admin, AuthError, Tokens, resolve_principal}
use quilr_ai_mcp.Gateway.Policy.{Unicode, Denial, is_privileged_tool, evaluate}
use quilr_ai_mcp.Gateway.Proxy.{Headers, build_downstream_headers, filter_response_headers}

-- What the handler reads of `Config`, and the token table.
pub record Config : Type 0 where
  pub max_body_bytes : ℕ
  pub enforce_method_allowlist : Bool
  pub filter_tools_list : Bool
  pub tokens : Tokens

-- A request: the body arrives in chunks.
pub record Request : Type 0 where
  pub headers : Headers
  pub chunks : List (List ℕ)

-- What goes downstream, and what comes back.
pub record Sent : Type 0 where
  pub body : List ℕ
  pub headers : Headers

pub record Response : Type 0 where
  pub status_code : ℕ
  pub headers : Headers
  pub content : List ℕ

-- `_unauthenticated`, `_json_rpc_response`, an empty response and a relayed one.
pub data Answer : Type 0 where
  unauthenticated : AuthError → Answer
  json_rpc : ℕ → Json → Answer
  no_content : Answer
  relayed : ℕ → Headers → List ℕ → Answer

-- `_read_bounded_body`
unfoldable pub read_bounded_body : ℕ → Request → Option (List ℕ)
unfolding read_chunks digits_value
read_bounded_body limit r = elim (declared_size (get "content-length" r.headers)) [
  | none ↦ read_chunks limit [] r.chunks
  | some n ↦ let body = read_chunks limit [] r.chunks in if ltb limit n then none else body
]

abbrev pub items : List Json → Items
items [] = nil
items (v ∷ vs) = cons v (items vs)

-- `_denial_response`
unfoldable pub denial_response : RpcMessage → Denial → List Json
denial_response m d =
    if m.is_request
    then error_object d.code d.message
        (field "data"
          (obj (
            field "method" (str m.method)
              (field "tool" (elim (tool_name m) [ none ↦ null | some name ↦ str name ]) end)))
          end)
        m.id
      ∷ []
    else []

module _ (unicode : Unicode) where
  -- A tool that `_filter_tools_list` takes out.
  unfoldable pub is_hidden : Json → Bool
  is_hidden (obj tool) = elim (get_field "name" tool) [
    | some (str name) ↦ is_privileged_tool unicode name
    | _ ↦ false
  ]
  is_hidden _ = false

  unfoldable pub visible_tools : Items → Items
  visible_tools nil = nil
  visible_tools (cons tool rest) =
      let others = visible_tools rest in if is_hidden tool then others else cons tool others

  unfoldable pub filter_result : Fields → Option Json → Json
  unfolding visible_tools
  filter_result payload (some (obj result)) = elim (get_field "tools" result) [
    | some (arr tools) ↦
        obj
          (put_field "result" (obj (put_field "tools" (arr (visible_tools tools)) result)) payload)
    | _ ↦ obj payload
  ]
  filter_result payload _ = obj payload

  -- `_filter_tools_list`
  unfoldable pub filter_tools_list : Principal → Json → Json
  unfolding filter_result
  filter_tools_list p (obj payload) =
      if is_admin p then obj payload else filter_result payload (get_field "result" payload)
  filter_tools_list p payload = payload

  abbrev pub filter_items : Principal → Items → Items
  filter_items p nil = nil
  filter_items p (cons v vs) = cons (filter_tools_list p v) (filter_items p vs)

  abbrev pub filter_payload : Principal → Json → Json
  filter_payload p (arr vs) = arr (filter_items p vs)
  filter_payload p v = filter_tools_list p v

  -- The loop over the messages: those that go on, and the errors of the blocked requests.
  unfoldable pub judge : Principal → Bool → List RpcMessage → List RpcMessage × List Json
  judge p enforce [] = ([], [])
  judge p enforce (m ∷ ms) =
      let (allowed, denials) = judge p enforce ms in
      elim (evaluate unicode p m enforce) [
        | none ↦ (m ∷ allowed, denials)
        | some d ↦ (allowed, denial_response m d ++ denials)
      ]
