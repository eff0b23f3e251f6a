-- ===== src/Server/Tests/Calls.antt =====
-- Runs of tool calls, and instances of their theorem.
use quilr_ai_mcp.Prelude.{ℕ, ◌≡◌, refl, String, true, some, leb, ◌&&◌, if◌then◌else◌}
use quilr_ai_mcp.Prelude.Int.{pos}
use quilr_ai_mcp.Prelude.Strings.{char_of, text_of}
use quilr_ai_mcp.Prelude.Text.{is_space, strip_start, strip, drop_prefix}
use quilr_ai_mcp.Prelude.Json.{Json, int, bool, str, float, Fields, end, field, get_field}
use quilr_ai_mcp.Server.Store.{get_customer}
use quilr_ai_mcp.Server.Refunds.{State}
use quilr_ai_mcp.Server.Schemas.{
  Schema, has_only, visible_length, is_customer_id, read_customer_id, read_amount, read_reason,
  read_idempotency_key, validate_get_customer, validate_refund,
}
use quilr_ai_mcp.Server.Tools.{
  CallResult, invalid_params, unknown_tool, available_tools, Context, call_get_customer,
  call_refund, handle_call_tool,
}
use quilr_ai_mcp.Server.Tools.Effects.{Effect, handle_call_tool-Effect}
use quilr_ai_mcp.Server.Tests.{refund_program, digest, day, opening}

-- Names every function that a tool call runs.
unfoldable call_program : Unit {0}
unfolding refund_program char_of text_of is_space strip_start strip drop_prefix get_field
    get_customer has_only visible_length is_customer_id read_customer_id read_amount read_reason
    read_idempotency_key validate_get_customer validate_refund call_get_customer call_refund
    handle_call_tool
call_program = tt

-- ASCII: the space is the one character that nobody sees.
abbrev schema : Schema
schema = record {
  category = λ c. if leb 33 c then "Lo" else "Zs";
  is_digit = λ c. leb 48 c && leb c 57;
  shortest = λ x. x;
}

abbrev context : Context
context = record { now = 10; refund_id = "RFND-1"; stamp = "2026-01-01" }

abbrev arguments : Json → String → Fields
arguments amount reason =
    field "customer_id" (str "CUST-00042") (field "amount" amount (field "reason" (str reason) end))

abbrev amount_of : ℕ → ℕ → Json
amount_of m scale = float (record { mantissa = pos m; scale = scale })

abbrev call : String → Fields → CallResult × State
call name d = handle_call_tool schema digest day context name (some d) opening

-- 49.99 is debited, and a padded reason is stored without its padding.
balance_after_call :
    (call "trigger_refund" (arguments (amount_of 4_999 2) "  duplicate charge ")).1
    ≡ (call "trigger_refund" (arguments (amount_of 4_999 2) "duplicate charge")).1
unfolding call_program
balance_after_call = refl

refuses_fraction :
    call "trigger_refund" (arguments (amount_of 10_001 3) "duplicate charge")
    ≡ (invalid_params "trigger_refund", opening)
unfolding call_program
refuses_fraction = refl

refuses_boolean :
    call "trigger_refund" (arguments (bool true) "duplicate charge")
    ≡ (invalid_params "trigger_refund", opening)
unfolding call_program
refuses_boolean = refl

refuses_padding :
    call "trigger_refund" (arguments (int (pos 5)) "dup           ")
    ≡ (invalid_params "trigger_refund", opening)
unfolding call_program
refuses_padding = refl

refuses_unknown_tool :
    call "drop_tables" (arguments (int (pos 5)) "duplicate charge")
    ≡ (unknown_tool available_tools, opening)
unfolding call_program
refuses_unknown_tool = refl

handle_call_tool-Effect_example :
    Effect schema digest day context "trigger_refund"
      (some (arguments (amount_of 4_999 2) "duplicate charge"))
      opening
      (handle_call_tool schema digest day context "trigger_refund"
        (some (arguments (amount_of 4_999 2) "duplicate charge"))
        opening)
handle_call_tool-Effect_example =
    handle_call_tool-Effect schema digest day context "trigger_refund"
      (some (arguments (amount_of 4_999 2) "duplicate charge")) opening
