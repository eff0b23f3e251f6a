-- ===== src/Gateway/Tests.antt =====
-- Runs of the gateway's model on concrete requests, and instances of its theorems.
mod Relaying
mod Blocking
use quilr_ai_mcp.Prelude.{
  ℕ, ◌≡◌, refl, String, true, false, none, some, List, [], ◌∷◌, ◌++◌, ◌↔◌, Result, ok, raise, arith,
  All, map, select, not, is_some, codes, if◌then◌else◌,
}
use quilr_ai_mcp.Prelude.Body.{read_chunks, digits_value}
use quilr_ai_mcp.Prelude.Dict.{get, put, merge, select_keys}
use quilr_ai_mcp.Prelude.Int.{pos}
use quilr_ai_mcp.Prelude.Keys.{lower, partition, match_key}
use quilr_ai_mcp.Prelude.Keys.Matching.{LastEntry}
use quilr_ai_mcp.Prelude.Rpc.{is_version, method_name}
use quilr_ai_mcp.Prelude.Json.{
  Json, null, int, str, arr, obj, Items, nil, cons, Fields, end, field, get_field, put_field,
  to_list,
}
use quilr_ai_mcp.Prelude.Text.{is_space, strip_start, strip, drop_prefix, text_eq}
use quilr_ai_mcp.Gateway.JsonRpc.{
  RpcMessage, ParsedPayload, LoadError, name_of, collect_keys, valid_id, valid_params,
  finish_message, read_method, parse_one, parse_items, parse_document, parse_loaded, is_blank,
  parse_payload, reject_duplicate_keys, unauthorized_tool_call,
}
use quilr_ai_mcp.Gateway.JsonRpc.Duplicates.{last_field, reject_duplicate_keys_agree}
use quilr_ai_mcp.Gateway.JsonRpc.Parsing.{items_of, AllRead, parse_payload-AllRead}
use quilr_ai_mcp.Gateway.Auth.{
  Principal, bearer_token, extract_bearer_token, check_token, resolve_principal, Tokens,
}
use quilr_ai_mcp.Gateway.Auth.Matching.{resolve_principal-LastEntry}
use quilr_ai_mcp.Gateway.Policy.{
  Unicode, insufficient_role, is_known, normalize_tool_name, is_privileged_tool, normalize_method,
  check_tool, evaluate,
}
use quilr_ai_mcp.Gateway.Policy.Decisions.{Permitted, evaluate_iff}
use quilr_ai_mcp.Gateway.Policy.Names.{IsVisible, is_privileged_tool-lower}
use quilr_ai_mcp.Gateway.Proxy.{build_downstream_headers, filter_response_headers}
use quilr_ai_mcp.Gateway.Proxy.Identity.{get-build_downstream_headers}
use quilr_ai_mcp.Gateway.App.{
  Config, Request, read_bounded_body, denial_response, judge, is_hidden, visible_tools,
  filter_result, filter_tools_list,
}
use quilr_ai_mcp.Gateway.App.Handler.{
  Host, merge_denials, batch_or_first, merge_response, build_client_response, forward_body,
  answer_forwarded, forward_allowed, handle_parsed, handle_body, handle_authenticated,
  handle_mcp_post,
}
use quilr_ai_mcp.Gateway.App.Forwarding.{
  Authorized, refusals, allowed_of, handle_mcp_post-Authorized,
}
use quilr_ai_mcp.Gateway.App.Denials.{
  local_answer, answer_id, Refuses, is_owed, map-refusals, handle_mcp_post_blocked,
}
use quilr_ai_mcp.Gateway.App.Listing.{filter_tools_list_viewer}

-- Names every function that a request runs through.
unfoldable pub gateway_program : Unit {0}
unfolding get put merge select_keys get_field put_field is_space strip_start strip drop_prefix
    name_of collect_keys valid_id is_version method_name valid_params finish_message read_method
    parse_one parse_items is_blank parse_document parse_loaded parse_payload last_field lower
    partition bearer_token extract_bearer_token match_key check_token is_known normalize_tool_name
    is_privileged_tool normalize_method check_tool evaluate build_downstream_headers
    filter_response_headers read_chunks digits_value read_bounded_body denial_response judge
    is_hidden visible_tools filter_result filter_tools_list merge_denials batch_or_first
    merge_response build_client_response forward_body answer_forwarded forward_allowed handle_parsed
    handle_body handle_authenticated handle_mcp_post
gateway_program = tt

-- A `unicodedata` that knows ASCII.
abbrev pub ascii : Unicode
ascii = record { nfkc = λ s. s; nfd = λ s. s; nfc = λ s. s; casefold = lower; category = λ _. "Ll" }

abbrev pub viewer : Principal
viewer = record { subject = codes "intern"; role = codes "viewer" }

abbrev pub admin : Principal
admin = record { subject = codes "ops"; role = codes "admin" }

abbrev pub tokens : Tokens
tokens = (codes "t1", viewer) ∷ (codes "t2", admin) ∷ []

abbrev pub config : Config
config = record {
  max_body_bytes = 100;
  enforce_method_allowlist = true;
  filter_tools_list = false;
  tokens = tokens;
}

abbrev pub message : Json → String → Json → Fields
message id method params =
    field "jsonrpc" (str "2.0")
      (field "id" id (field "method" (str method) (field "params" params end)))

abbrev pub tool : String → Json
tool name = obj (field "name" (str name) end)

abbrev listing : Fields
listing = message (int (pos 1)) "tools/list" null

abbrev reset : Fields
reset = message (int (pos 2)) "tools/call" (tool "admin_reset")

-- Bodies stand for their documents: 1 for a batch of both messages, 2 for the call alone.
abbrev document : List ℕ → Result LoadError Json
document body =
    if text_eq body (1 ∷ [])
    then ok (arr (cons (obj listing) (cons (obj reset) nil)))
    else ok (obj reset)

abbrev host : Host
host = record {
  unicode = ascii;
  loads = λ _ body. document body;
  dumps = λ _. 3 ∷ [];
  describe = λ _. "invalid";
  post = λ _. raise "down";
  response_json = λ _. none;
}

abbrev pub request : String → ℕ → Request
request token body = record {
  headers =
      ("authorization", codes "Bearer " ++ codes token)
      ∷ ("x-forwarded-role", codes "admin")
      ∷ ("mcp-session-id", codes "s")
      ∷ [];
  chunks = (body ∷ []) ∷ [];
}

sent-batch :
    (handle_mcp_post host config (request "t1" 1)).1
    ≡ (record {
      body = 3 ∷ [];
      headers =
          ("mcp-session-id", codes "s")
          ∷ ("x-forwarded-user", codes "intern")
          ∷ ("x-forwarded-role", codes "viewer")
          ∷ [];
    })
      ∷ []
unfolding gateway_program
sent-batch = refl

abbrev batch : ParsedPayload
batch = record {
  messages =
      (record {
        method = "tools/list";
        params = null;
        id = int (pos 1);
        is_request = true;
        raw = listing;
      })
      ∷ (record {
        method = "tools/call";
        params = tool "admin_reset";
        id = int (pos 2);
        is_request = true;
        raw = reset;
      })
      ∷ [];
  is_batch = true;
}

abbrev call : RpcMessage
call = record {
  method = "tools/call";
  params = tool "admin_reset";
  id = int (pos 2);
  is_request = true;
  raw = reset;
}

parse_payload-batch : parse_payload (host.loads) (1 ∷ []) ≡ ok batch
unfolding gateway_program
parse_payload-batch = refl

resolve_principal-second : resolve_principal tokens (some (codes "bearer  t2 ")) ≡ ok admin
unfolding gateway_program
resolve_principal-second = refl

-- A tool's name does not depend on its case.
is_privileged_tool-upper : is_privileged_tool ascii "ADMIN_reset" ≡ true
unfolding gateway_program
is_privileged_tool-upper = refl

handle_mcp_post-Authorized_example :
    All (Authorized host config (request "t1" 1)) (handle_mcp_post host config (request "t1" 1)).1
handle_mcp_post-Authorized_example = handle_mcp_post-Authorized host config (request "t1" 1)

abbrev single : ParsedPayload
single = record { messages = call ∷ []; is_batch = false }

-- The four facts about the single call that its theorem asks for.
known_token : resolve_principal tokens (get "authorization" (request "t1" 2).headers) ≡ ok viewer
unfolding gateway_program
known_token = refl

read_single : read_bounded_body 100 (request "t1" 2) ≡ some (2 ∷ [])
unfolding gateway_program
read_single = refl

parse_payload-single : parse_payload host.loads (2 ∷ []) ≡ ok single
unfolding gateway_program
parse_payload-single = refl

blocked_single : allowed_of host config (request "t1" 2) viewer single ≡ []
unfolding gateway_program
blocked_single = refl

handle_mcp_post_blocked_example :
    Refuses false
      (map (λ m. m.id) (select (is_owed ascii viewer true) (call ∷ [])))
      (handle_mcp_post host config (request "t1" 2)).0
    × ((handle_mcp_post host config (request "t1" 2)).1 ≡ [])
handle_mcp_post_blocked_example =
    handle_mcp_post_blocked host config (request "t1" 2) viewer (2 ∷ []) single known_token
      read_single parse_payload-single blocked_single

evaluate-reset : evaluate ascii admin call true ≡ none
unfolding gateway_program
evaluate-reset = refl

evaluate_iff_example : (evaluate ascii viewer call true ≡ none) ↔ Permitted ascii viewer call true
evaluate_iff_example = evaluate_iff ascii viewer call true

evaluate-viewer :
    evaluate ascii viewer call true
    ≡ some (record {
      code = unauthorized_tool_call;
      message = "Unauthorized Tool Call";
      reason = insufficient_role;
    })
unfolding gateway_program
evaluate-viewer = refl

IsVisible-name : All IsVisible (codes "Admin_x")
IsVisible-name = ground arith

parse_payload-AllRead_example :
    (read : Json) × (document (1 ∷ []) ≡ ok read) × AllRead batch.messages (items_of read)
parse_payload-AllRead_example = parse_payload-AllRead host.loads (1 ∷ []) batch parse_payload-batch

accepted : reject_duplicate_keys reset ≡ ok reset
unfolding gateway_program
accepted = refl

reject_duplicate_keys_agree_example :
    (get_field "method" reset ≡ get_field "method" reset)
    × (last_field "method" reset ≡ get_field "method" reset)
reject_duplicate_keys_agree_example = reject_duplicate_keys_agree reset reset "method" accepted

-- The same tool named twice in one object.
reject_duplicate_keys-twice :
    reject_duplicate_keys
      (field "name" (str "admin_reset") (field "name" (str "get_customer_record") end))
    ≡ raise "name"
unfolding gateway_program
reject_duplicate_keys-twice = refl

resolve_principal-LastEntry_example :
    (token : List ℕ) × (extract_bearer_token (some (codes "bearer  t2 ")) ≡ ok token)
    × LastEntry token admin tokens
resolve_principal-LastEntry_example =
    resolve_principal-LastEntry tokens (some (codes "bearer  t2 ")) admin resolve_principal-second

abbrev tools : Items
tools = cons (tool "admin_reset") (cons (tool "lookup") nil)

abbrev listed : Fields
listed = field "tools" (arr tools) end

found_result : get_field "result" (field "result" (obj listed) end) ≡ some (obj listed)
unfolding get_field
found_result = refl

found_tools : get_field "tools" listed ≡ some (arr tools)
unfolding get_field
found_tools = refl
