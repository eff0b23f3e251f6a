-- ===== src/Gateway/JsonRpc.antt =====
-- mcp-gateway/src/mcp_gateway/jsonrpc.py: the messages of a JSON-RPC body. Error texts are left out.
pub mod Parsing
pub mod Duplicates
use quilr_ai_mcp.Prelude.{
  ℕ, String, Bool, true, false, Option, none, some, List, [], ◌∷◌, Result, ok, raise, not, str_eq,
  is_some, if◌then◌else◌, ◌&&◌, ◌>>=◌, ◌||◌, leb, ◌==◌,
}
use quilr_ai_mcp.Prelude.Json.{
  Json, null, bool, int, float, str, arr, obj, Items, nil, cons, Fields, end, field, get_field,
  put_field, or_null,
}
use quilr_ai_mcp.Prelude.Rpc.{is_version, method_name}
use quilr_ai_mcp.Prelude.Int.{ℤ, negsuc}

-- `PARSE_ERROR` … `UPSTREAM_UNAVAILABLE`
pub data Code : Type 0 where
  parse_error invalid_request method_not_found invalid_params : Code
  unauthorized_tool_call upstream_unavailable : Code

-- Their numbers.
abbrev pub code_number : Code → ℤ
code_number parse_error = negsuc 32_699
code_number invalid_request = negsuc 32_599
code_number method_not_found = negsuc 32_600
code_number invalid_params = negsuc 32_601
code_number unauthorized_tool_call = negsuc 32_000
code_number upstream_unavailable = negsuc 32_001

-- `error_response`; the last fields of the error are its data.
abbrev pub error_object : Code → String → Fields → Json → Json
error_object code message data' id = obj (
    field "jsonrpc" (str "2.0") (
      field "id" id (
        field "error"
          (obj (field "code" (int (code_number code)) (field "message" (str message) data'))) end)))

pub record RpcMessage : Type 0 where
  pub method : String
  pub params : Json
  pub id : Json
  pub is_request : Bool
  pub raw : Fields

-- `RpcMessage.tool_name`, of the params
unfoldable pub name_of : Json → Option String
name_of (obj d) = elim (get_field "name" d) [ some (str name) ↦ some name | _ ↦ none ]
name_of _ = none

abbrev pub tool_name : RpcMessage → Option String
tool_name m = name_of m.params

-- `_reject_duplicate_keys`, with `seen`; a raise carries the key.
unfoldable pub collect_keys : Fields → Fields → Result String Fields
collect_keys seen end = ok seen
collect_keys seen (field k v rest) =
    let more = collect_keys (put_field k v seen) rest in
    if is_some (get_field k seen) then raise k else more

abbrev pub reject_duplicate_keys : Fields → Result String Fields
reject_duplicate_keys = collect_keys end

pub record InvalidPayload : Type 0 where
  pub code : Code
  pub id : Json

-- `_valid_id`
unfoldable pub valid_id : Json → Bool
valid_id null = true
valid_id (bool _) = false
valid_id (int _) = true
valid_id (float _) = true
valid_id (str _) = true
valid_id (arr _) = false
valid_id (obj _) = false

-- `params` that are absent, `None`, an object or an array.
unfoldable pub valid_params : Json → Bool
valid_params null = true
valid_params (obj _) = true
valid_params (arr _) = true
valid_params _ = false

abbrev pub invalid : Code → Json → InvalidPayload
invalid code id = record { code = code; id = id }

-- What is left of `_parse_one` once the method is read.
unfoldable pub finish_message : Fields → Json → String → Result InvalidPayload RpcMessage
unfolding valid_id valid_params
finish_message item message_id method =
    if not (valid_params (or_null (get_field "params" item)))
    then raise (invalid invalid_params message_id)
    else if is_some (get_field "id" item) && not (valid_id (or_null (get_field "id" item)))
    then raise (invalid invalid_request null)
    else ok (record {
      method = method;
      params = or_null (get_field "params" item);
      id = message_id;
      is_request = is_some (get_field "id" item);
      raw = item;
    })

-- The id that a rejection echoes.
abbrev pub recover_id : Fields → Json
recover_id item =
    let raw_id = or_null (get_field "id" item) in if valid_id raw_id then raw_id else null

unfoldable pub read_method : Fields → Json → Option String → Result InvalidPayload RpcMessage
read_method item message_id none = raise (invalid invalid_request message_id)
read_method item message_id (some method) = finish_message item message_id method

-- `_parse_one`
unfoldable pub parse_one : Json → Result InvalidPayload RpcMessage
unfolding read_method
parse_one (obj item) =
    if not (is_version (get_field "jsonrpc" item))
    then raise (invalid invalid_request (recover_id item))
    else read_method item (recover_id item) (method_name (get_field "method" item))
parse_one _ = raise (invalid invalid_request null)

pub record ParsedPayload : Type 0 where
  pub messages : List RpcMessage
  pub is_batch : Bool

-- `[_parse_one(item) for item in document]`
unfoldable pub parse_items : Items → Result InvalidPayload (List RpcMessage)
parse_items nil = ok []
parse_items (cons item rest) = do m ← parse_one item; ms ← parse_items rest; ok (m ∷ ms)

-- The two ways that `json.loads` with the hook fails.
pub data LoadError : Type 0 where
  duplicate_key : String → LoadError
  not_json : LoadError

-- The shapes of a document.
unfoldable pub parse_document : Json → Result InvalidPayload ParsedPayload
parse_document (arr nil) = raise (invalid invalid_request null)
parse_document (arr (cons item rest)) = do
  ms ← parse_items (cons item rest)
  ok (record { messages = ms; is_batch = true })
parse_document document = do
  m ← parse_one document
  ok (record { messages = m ∷ []; is_batch = false })

unfoldable pub parse_loaded : Result LoadError Json → Result InvalidPayload ParsedPayload
parse_loaded (raise (duplicate_key k)) = raise (invalid invalid_request null)
parse_loaded (raise not_json) = raise (invalid parse_error null)
parse_loaded (ok document) = parse_document document

-- `not body.strip()` on bytes
unfoldable pub is_blank : List ℕ → Bool
is_blank [] = true
is_blank (c ∷ cs) =
    let rest = is_blank cs in if (leb 9 c && leb c 13) || c == 32 then rest else false

-- `parse_payload`; `loads` is `json.loads`, which is given the hook, on a body that is UTF-8.
unfoldable pub parse_payload :
    ((Fields → Result String Fields) → List ℕ → Result LoadError Json)
    → List ℕ
    → Result InvalidPayload ParsedPayload
parse_payload loads body =
    if is_blank body
    then raise (invalid invalid_request null)
    else parse_loaded (loads reject_duplicate_keys body)
