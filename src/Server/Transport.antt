-- ===== src/Server/Transport.antt =====
-- mcp-server/src/customer_mcp/transport.py, `classify_line`: the lines that never reach the SDK. Error
-- texts are left out.
pub mod Verdicts
pub mod Wire
use quilr_ai_mcp.Prelude.{
  ℕ, String, Bool, true, false, Option, none, some, List, [], ◌∷◌, not, is_some, ◌&&◌, ◌||◌,
  if◌then◌else◌,
}
use quilr_ai_mcp.Prelude.Json.{
  Json, null, bool, int, float, str, arr, obj, Fields, get_field, or_null,
}
use quilr_ai_mcp.Prelude.Rpc.{is_version, method_name}
use quilr_ai_mcp.Prelude.Text.{strip}

pub data ErrorCode : Type 0 where
  parse_error invalid_request invalid_params : ErrorCode

-- `True`, `None` and a `SessionMessage`, with its code and the id that it echoes.
pub data Verdict : Type 0 where
  pass drop : Verdict
  reply : ErrorCode → Json → Verdict

-- `_recoverable_id`, with `null` for None
unfoldable pub recoverable_id : Json → Json
recoverable_id (int z) = int z
recoverable_id (str s) = str s
recoverable_id _ = null

abbrev pub is_null : Json → Bool
is_null null = true
is_null _ = false

-- `params` that are absent, `None` or an object.
unfoldable pub object_params : Json → Bool
object_params null = true
object_params (obj _) = true
object_params _ = false

abbrev pub has : String → Fields → Bool
has k d = is_some (get_field k d)

-- The closure `reject`.
unfoldable pub reject : Fields → ErrorCode → Verdict
reject d code =
    if has "id" d then reply code (recoverable_id (or_null (get_field "id" d))) else drop

-- A response to a request of the server's own.
abbrev pub is_response : Fields → Bool
is_response d = not (has "method" d) && (has "result" d || has "error" d)

-- `classify_line` on an object
unfoldable pub classify_object : Fields → Verdict
unfolding reject
classify_object d =
    if is_response d
    then pass
    else if not (is_version (get_field "jsonrpc" d))
    then reject d invalid_request
    else if not (is_some (method_name (get_field "method" d)))
    then reject d invalid_request
    else if not (object_params (or_null (get_field "params" d)))
    then reject d invalid_params
    else if has "id" d && is_null (recoverable_id (or_null (get_field "id" d)))
    then reply invalid_request null
    else pass

unfoldable pub classify_loaded : Option Json → Verdict
classify_loaded none = reply parse_error null
classify_loaded (some (obj d)) = classify_object d
classify_loaded (some _) = reply invalid_request null

-- `classify_line`; `loads` is `json.loads`, with `none` for its errors.
unfoldable pub classify_line : (List ℕ → Option Json) → List ℕ → Verdict
classify_line loads line = elim (strip line) [ [] ↦ drop | _ ∷ _ ↦ classify_loaded (loads line) ]
