-- ===== src/Gateway/App/Listing.antt =====
-- What a caller sees of a tools/list: mcp-gateway/src/mcp_gateway/app.py, `_filter_tools_list`.
use quilr_ai_mcp.Prelude.{◌≡◌, refl, false, some, arith, select, not}
use quilr_ai_mcp.Prelude.Json.{
  arr, obj, Items, nil, cons, Fields, get_field, put_field, get_field-put_field, to_list,
}
use quilr_ai_mcp.Gateway.Auth.{Principal, is_admin}
use quilr_ai_mcp.Gateway.Policy.{Unicode}
use quilr_ai_mcp.Gateway.App.{is_hidden, visible_tools, filter_result, filter_tools_list}

module _ (unicode : Unicode) where
  to_list-visible_tools :
      (tools : Items)
      → to_list (visible_tools unicode tools)
        ≡ select (λ tool. not (is_hidden unicode tool)) (to_list tools)
  unfolding visible_tools
  to_list-visible_tools nil = refl
  to_list-visible_tools (cons tool rest) = ground (arith, to_list-visible_tools rest)

  -- Of a result that lists tools, anyone but an admin gets, in the same place, the tools that are not
  -- hidden, in their order, and nothing else of the answer or of its result changes.
  pub filter_tools_list_viewer :
      (p : Principal) (payload result : Fields) (tools : Items)
      → is_admin p ≡ false
      → get_field "result" payload ≡ some (obj result)
      → get_field "tools" result ≡ some (arr tools)
      → (payload' result' : Fields) × (tools' : Items) × (filter_tools_list unicode p (obj payload)
          ≡ obj payload')
        × (get_field "result" payload' ≡ some (obj result'))
        × (get_field "tools" result' ≡ some (arr tools'))
        × (to_list tools' ≡ select (λ tool. not (is_hidden unicode tool)) (to_list tools))
  unfolding filter_tools_list filter_result
  filter_tools_list_viewer p payload result tools viewer found listed = (
    put_field "result" (obj (put_field "tools" (arr (visible_tools unicode tools)) result)) payload,
    put_field "tools" (arr (visible_tools unicode tools)) result,
    visible_tools unicode tools,
    ground (arith, viewer, found, listed),
    get_field-put_field "result" "result" _ payload,
    get_field-put_field "tools" "tools" _ result,
    to_list-visible_tools tools,
  )
