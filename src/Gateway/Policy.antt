-- ===== src/Gateway/Policy.antt =====
-- mcp-gateway/src/mcp_gateway/policy.py: who may call what. `unicodedata` and `str.casefold` are
-- parameters.
pub mod Decisions
pub mod Names
use quilr_ai_mcp.Prelude.{
  ℕ, String, Bool, true, false, Option, none, some, List, [], ◌∷◌, not, str_eq, any, select, codes,
  is_some, if◌then◌else◌, ◌&&◌, ◌||◌,
}
use quilr_ai_mcp.Prelude.Json.{Json, obj, as_obj}
use quilr_ai_mcp.Prelude.Text.{strip, text_eq, drop_prefix}
use quilr_ai_mcp.Gateway.JsonRpc.{
  Code, method_not_found, invalid_params, unauthorized_tool_call, RpcMessage, tool_name,
}
use quilr_ai_mcp.Gateway.Auth.{Principal, is_admin}

-- The parts of `unicodedata` and `str` that the policy calls.
pub record Unicode : Type 0 where
  pub nfkc : List ℕ → List ℕ
  pub nfd : List ℕ → List ℕ
  pub nfc : List ℕ → List ℕ
  pub casefold : List ℕ → List ℕ
  pub category : ℕ → String

-- `KNOWN_METHODS`
abbrev pub known_methods : List String
known_methods =
    "initialize" ∷ "ping" ∷ "completion/complete" ∷ "logging/setLevel" ∷ "prompts/list"
    ∷ "prompts/get" ∷ "resources/list" ∷ "resources/read" ∷ "resources/subscribe"
    ∷ "resources/unsubscribe" ∷ "resources/templates/list" ∷ "roots/list" ∷ "sampling/createMessage"
    ∷ "elicitation/create" ∷ "tools/list" ∷ "tools/call" ∷ "notifications/initialized"
    ∷ "notifications/cancelled" ∷ "notifications/progress" ∷ "notifications/message"
    ∷ "notifications/roots/list_changed" ∷ "notifications/resources/updated"
    ∷ "notifications/resources/list_changed" ∷ "notifications/tools/list_changed"
    ∷ "notifications/prompts/list_changed" ∷ []

pub data Reason : Type 0 where
  method_not_allowlisted malformed_params missing_tool_name insufficient_role : Reason

pub record Denial : Type 0 where
  pub code : Code
  pub message : String
  pub reason : Reason

-- `_INVISIBLE_CATEGORIES`
abbrev pub is_invisible : String → Bool
is_invisible c = any (str_eq c) ("Cc" ∷ "Cf" ∷ "Zs" ∷ "Zl" ∷ "Zp" ∷ [])

unfoldable pub is_known : String → Bool
is_known method = any (str_eq method) known_methods

module _ (unicode : Unicode) where
  -- `_normalize_tool_name`
  unfoldable pub normalize_tool_name : List ℕ → List ℕ
  normalize_tool_name name =
      let folded = select (λ c. not (is_invisible (unicode.category c))) (unicode.nfkc name) in
      let decomposed = unicode.nfd (unicode.casefold folded) in
      unicode.nfc (select (λ c. not (str_eq (unicode.category c) "Mn")) decomposed)

  -- `is_privileged_tool`
  unfoldable pub is_privileged_tool : String → Bool
  is_privileged_tool name =
      is_some (drop_prefix (codes "admin_") (normalize_tool_name (codes name)))

  -- `normalize_method`
  unfoldable pub normalize_method : String → List ℕ
  normalize_method method = unicode.casefold (strip (unicode.nfkc (codes method)))

  -- The tests on the name of a tools/call.
  unfoldable pub check_tool : Principal → Option String → Option Denial
  check_tool p none = some (record {
    code = invalid_params;
    message = "tools/call requires 'params.name' to be a string.";
    reason = missing_tool_name;
  })
  check_tool p (some name) =
      if is_privileged_tool name && not (is_admin p)
      then some (record {
        code = unauthorized_tool_call;
        message = "Unauthorized Tool Call";
        reason = insufficient_role;
      })
      else none

  -- `evaluate`
  unfoldable pub evaluate : Principal → RpcMessage → Bool → Option Denial
  evaluate p m enforce_allowlist =
      if enforce_allowlist && not (is_known m.method)
      then some (record {
        code = method_not_found;
        message = "Unknown method.";
        reason = method_not_allowlisted;
      })
      else if not (text_eq (normalize_method m.method) (codes "tools/call"))
      then none
      else if not (is_some (as_obj m.params))
      then some (record {
        code = invalid_params;
        message = "tools/call requires a params object containing 'name'.";
        reason = malformed_params;
      })
      else check_tool p (tool_name m)
