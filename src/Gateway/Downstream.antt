-- ===== src/Gateway/Downstream.antt =====
-- mcp-gateway/src/mock_downstream/app.py: a downstream server that trusts its callers and records every
-- message that reaches it. `json.loads`, the texts of its answers and their rendering are parameters.
pub mod Executing
pub mod Answering
pub mod Blocked
use quilr_ai_mcp.Prelude.{
  ℕ, String, Bool, true, false, Option, none, some, List, [], ◌∷◌, ◌++◌, Result, ok, raise, str_eq,
  any, map, is_some, if◌then◌else◌,
}
use quilr_ai_mcp.Prelude.Json.{
  Json, null, bool, int, float, str, arr, obj, Items, nil, cons, Fields, end, field, get_field,
  or_null, truthy, as_obj,
}
use quilr_ai_mcp.Prelude.Int.{ℤ, negsuc}

-- What the handlers call: `request.json`, and the f-strings.
pub record MockHost : Type 0 where
  pub loads : List ℕ → Option Json
  pub executed_text : String → Json → String
  pub unknown_tool_text : Json → String
  pub unknown_method_text : Json → String

-- One entry of `TOOLS`, with its one argument.
pub record ToolEntry : Type 0 where
  pub name : String
  pub description : String
  pub argument : String

-- `TOOLS`
abbrev pub mock_tools : List ToolEntry
mock_tools =
    (record {
      name = "search_docs";
      description = "Search the internal documentation.";
      argument = "query";
    })
    ∷ (record {
      name = "get_ticket";
      description = "Fetch a support ticket by id.";
      argument = "ticket_id";
    })
    ∷ (record {
      name = "admin_reset_key";
      description = "Rotate a tenant's API key. Admin only.";
      argument = "tenant";
    })
    ∷ (record {
      name = "admin_delete_tenant";
      description = "Permanently delete a tenant. Admin only.";
      argument = "tenant";
    })
    ∷ []

abbrev pub tool_object : ToolEntry → Json
tool_object t =
    let schema = obj (
      field "type" (str "object") (
        field "properties" (obj (field t.argument (obj (field "type" (str "string") end)) end))
          (field "required" (arr (cons (str t.argument) nil)) end))) in
    obj (
      field "name" (str t.name)
        (field "description" (str t.description) (field "inputSchema" schema end)))

abbrev pub tool_objects : List ToolEntry → Items
tool_objects [] = nil
tool_objects (t ∷ ts) = cons (tool_object t) (tool_objects ts)

-- `name in known`, for a string
unfoldable pub is_tool : String → Bool
is_tool name = any (λ t. str_eq t.name name) mock_tools

-- An `AttributeError`, a `TypeError` or a `ValueError`, of which the server makes a 500.
pub data MockError : Type 0 where
  bad_shape : MockError

-- The closures `ok` and `fail`
abbrev pub answer_ok : Fields → Json → Option Json
answer_ok d result =
    if is_some (get_field "id" d)
    then some (
        obj (
          field "jsonrpc" (str "2.0")
            (field "id" (or_null (get_field "id" d)) (field "result" result end))))
    else none

abbrev pub answer_fail : Fields → String → Option Json
answer_fail d text =
    if is_some (get_field "id" d)
    then some (
        obj (
          field "jsonrpc" (str "2.0") (
            field "id" (or_null (get_field "id" d)) (
              field "error"
                (obj (field "code" (int (negsuc 32_600)) (field "message" (str text) end))) end))))
    else none

-- `value or {}`
abbrev pub or_empty : Json → Json
or_empty v = if truthy v then v else obj end

-- `method == name`
unfoldable pub is_method : Fields → String → Bool
is_method d name = elim (get_field "method" d) [ some (str s) ↦ str_eq s name | _ ↦ false ]

abbrev pub initialize_result : Json
initialize_result = obj (
    field "protocolVersion" (str "2025-06-18") (
      field "capabilities" (obj (field "tools" (obj (field "listChanged" (bool false) end)) end)) (
        field "serverInfo"
          (obj (field "name" (str "mock-downstream") (field "version" (str "0.1.0") end))) end)))

abbrev pub executed_result : String → Json
executed_result text = obj (
    field "content" (arr (cons (obj (field "type" (str "text") (field "text" (str text) end))) nil))
      (field "isError" (bool false) end))

abbrev pub json_items : List Json → Items
json_items [] = nil
json_items (v ∷ vs) = cons v (json_items vs)

module _ (mock : MockHost) where
  -- The end of a tools/call: a list or a dict has no hash.
  unfoldable pub call_named : Fields → Json → Json → Result MockError (Option Json)
  unfolding is_tool
  call_named d (str name) arguments =
      if is_tool name
      then ok (answer_ok d (executed_result (mock.executed_text name arguments)))
      else ok (answer_fail d (mock.unknown_tool_text (str name)))
  call_named d (arr _) arguments = raise bad_shape
  call_named d (obj _) arguments = raise bad_shape
  call_named d name arguments = ok (answer_fail d (mock.unknown_tool_text name))

  -- A tools/call, with its `params or {}`
  unfoldable pub call_tool : Fields → Option Fields → Result MockError (Option Json)
  unfolding call_named
  call_tool d none = raise bad_shape
  call_tool d (some params) =
      call_named d (or_null (get_field "name" params))
        (or_empty (or_null (get_field "arguments" params)))

  -- `_handle_message` once the message is recorded
  unfoldable pub answer_message : Json → Result MockError (Option Json)
  unfolding is_method call_tool
  answer_message (obj d) =
      if is_method d "initialize"
      then ok (answer_ok d initialize_result)
      else if is_method d "tools/list"
      then ok (answer_ok d (obj (field "tools" (arr (tool_objects mock_tools)) end)))
      else if is_method d "tools/call"
      then call_tool d (as_obj (or_empty (or_null (get_field "params" d))))
      else if is_method d "ping"
      then ok (answer_ok d (obj end))
      else ok (answer_fail d (mock.unknown_method_text (or_null (get_field "method" d))))
  answer_message _ = raise bad_shape

  -- `_handle_message`, with `received`
  unfoldable pub handle_message : Json → List Json → Result MockError (Option Json) × List Json
  unfolding answer_message
  handle_message message received = (answer_message message, received ++ message ∷ [])

  -- The answers of a batch: a message that raises ends it.
  abbrev pub after_answer :
      Option Json
      → Result MockError (List Json) × List Json
      → Result MockError (List Json) × List Json
  after_answer o (raise e, received) = (raise e, received)
  after_answer none (ok answers, received) = (ok answers, received)
  after_answer (some answer) (ok answers, received) = (ok (answer ∷ answers), received)

  abbrev pub go_on :
      Result MockError (Option Json)
      → List Json
      → Result MockError (List Json) × List Json
      → Result MockError (List Json) × List Json
  go_on (raise e) received later = (raise e, received)
  go_on (ok o) received later = after_answer o later

  unfoldable pub handle_batch : Items → List Json → Result MockError (List Json) × List Json
  unfolding handle_message
  handle_batch nil received = (ok [], received)
  handle_batch (cons message rest) received =
      let (result, received') = handle_message message received in
      go_on result received' (handle_batch rest received')

  -- `handle_post`: an empty 204, or JSON.
  abbrev pub reply_batch : Result MockError (List Json) → Result MockError (Option Json)
  reply_batch (raise e) = raise e
  reply_batch (ok []) = ok none
  reply_batch (ok (answer ∷ answers)) = ok (some (arr (json_items (answer ∷ answers))))

  unfoldable pub post_document : Json → List Json → Result MockError (Option Json) × List Json
  unfolding handle_batch
  post_document (arr messages) received =
      let (answers, received') = handle_batch messages received in (reply_batch answers, received')
  post_document message received = handle_message message received

  unfoldable pub post_loaded : Option Json → List Json → Result MockError (Option Json) × List Json
  unfolding post_document
  post_loaded none received = (raise bad_shape, received)
  post_loaded (some document) received = post_document document received

  unfoldable pub handle_post : List ℕ → List Json → Result MockError (Option Json) × List Json
  unfolding post_loaded
  handle_post body received = post_loaded (mock.loads body) received
