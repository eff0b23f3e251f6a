-- ===== src/Gateway/Downstream/Answering.antt =====
-- The server of mcp-gateway/src/mock_downstream/app.py executes what a message names, and tells so.
use quilr_ai_mcp.Prelude.{
  ◌≡◌, refl, String, true, false, Option, none, some, inl, inr, Result, ok, str_eq, arith, eq_iff,
  Bool-cases, Option-cases,
}
use quilr_ai_mcp.Prelude.Json.{
  Json, null, bool, int, float, str, arr, obj, Fields, get_field, or_null, as_obj,
}
use quilr_ai_mcp.Gateway.Downstream.{
  MockHost, MockError, answer_ok, executed_result, call_tool, call_named, is_method, or_empty,
  answer_message,
}
use quilr_ai_mcp.Gateway.Downstream.Executing.{executes, executes_call, executes_named-some}

is_method-other :
    (d : Fields) (name other : String)
    → is_method d name ≡ true
    → str_eq name other ≡ false
    → is_method d other ≡ false
unfolding is_method
is_method-other d name other h h' = elim (Option-cases (get_field "method" d)) [
  | inl missing ↦ ground (arith, h, missing)
  | inr (str s, found) ↦ ground (arith, h, h', found, eq_iff s name)
  | inr (null, found) ↦ ground (arith, h, found)
  | inr (bool _, found) ↦ ground (arith, h, found)
  | inr (int _, found) ↦ ground (arith, h, found)
  | inr (float _, found) ↦ ground (arith, h, found)
  | inr (arr _, found) ↦ ground (arith, h, found)
  | inr (obj _, found) ↦ ground (arith, h, found)
]

-- The server executes the tool, whoever asks, and tells so.
abbrev Told : MockHost → Fields → String → Result MockError (Option Json) → Type 0
Told mock d name r =
    (arguments : Json) × (r
      ≡ ok (answer_ok d (executed_result (mock.executed_text name arguments))))

call_tool-executes :
    (mock : MockHost) (d : Fields) (o : Option Fields) (name : String)
    → executes_call o ≡ some name
    → Told mock d name (call_tool mock d o)
unfolding call_tool call_named
call_tool-executes mock d none name h = ground (arith, h)
call_tool-executes mock d (some params) name h =
    let (named, tool) = executes_named-some (or_null (get_field "name" params)) name h in
    (or_empty (or_null (get_field "arguments" params)), rw (named, call_named, tool) refl)

answer_message-executes :
    (mock : MockHost) (d : Fields) (name : String)
    → executes (obj d) ≡ some name
    → Told mock d name (answer_message mock (obj d))
unfolding answer_message
answer_message-executes mock d name h = elim (Bool-cases (is_method d "tools/call")) [
  | inr other ↦ ground (arith, h, other)
  | inl call ↦
      rw
        (
          is_method-other d "tools/call" "initialize" call (ground arith),
          is_method-other d "tools/call" "tools/list" call (ground arith),
          call,
        )
        (call_tool-executes mock d (as_obj (or_empty (or_null (get_field "params" d)))) name
          (ground (arith, h, call)))
]
