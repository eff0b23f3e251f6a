-- ===== src/Server/Tools.antt =====
-- mcp-server/src/customer_mcp/server.py: `handle_call_tool`, with the errors of errors.py by their kind.
pub mod Effects
use quilr_ai_mcp.Prelude.{
  ℕ, String, Bool, Option, none, some, List, [], ◌∷◌, Result, ok, raise, str_eq, codes,
  if◌then◌else◌,
}
use quilr_ai_mcp.Prelude.Strings.{text_of}
use quilr_ai_mcp.Prelude.Json.{Fields, end}
use quilr_ai_mcp.Server.Store.{Customer, DomainError, RefundPayload, get_customer}
use quilr_ai_mcp.Server.Refunds.{State, Call, create_refund}
use quilr_ai_mcp.Server.Schemas.{Schema, TriggerRefundInput, validate_get_customer, validate_refund}

-- What a call answers: a result, a refusal as a result with `isError`, or a JSON-RPC error.
pub data CallResult : Type 0 where
  customer : Customer → CallResult
  refund : RefundPayload → Bool → CallResult
  refused : DomainError → CallResult
  unknown_tool : List String → CallResult
  invalid_params : String → CallResult

-- The names of `TOOLS`, sorted
abbrev pub available_tools : List String
available_tools = "get_customer_record" ∷ "trigger_refund" ∷ []

-- The clock's reading, the id of a new refund and its time stamp.
pub record Context : Type 0 where
  pub now : ℕ
  pub refund_id : String
  pub stamp : String

-- The arguments of `create_refund`
abbrev pub call_of : Context → TriggerRefundInput → Call
call_of ctx a = record {
  now = ctx.now;
  refund_id = ctx.refund_id;
  stamp = ctx.stamp;
  customer_id = a.customer_id;
  amount = a.amount;
  reason = text_of a.reason;
  idempotency_key = elim a.idempotency_key [ none ↦ none | some k ↦ some (text_of k) ];
}

abbrev pub answer_customer : Result DomainError Customer → CallResult
answer_customer (ok c) = customer c
answer_customer (raise e) = refused e

abbrev pub answer_refund : Result DomainError (RefundPayload × Bool) → CallResult
answer_refund (ok (payload, replay)) = refund payload replay
answer_refund (raise e) = refused e

abbrev pub with_answer : Result DomainError (RefundPayload × Bool) × State → CallResult × State
with_answer (r, st) = (answer_refund r, st)

-- `params.arguments or {}`
abbrev pub arguments_or_empty : Option Fields → Fields
arguments_or_empty none = end
arguments_or_empty (some d) = d

module _ (schema : Schema) (digest : String → ℕ → String → List ℕ) (window : ℕ) where
  unfoldable pub call_get_customer : Option String → State → CallResult × State
  unfolding get_customer
  call_get_customer none st = (invalid_params "get_customer_record", st)
  call_get_customer (some id) st = (answer_customer (get_customer id st.1), st)

  unfoldable pub call_refund : Context → Option TriggerRefundInput → State → CallResult × State
  unfolding create_refund
  call_refund ctx none st = (invalid_params "trigger_refund", st)
  call_refund ctx (some a) st = with_answer (create_refund digest window (call_of ctx a) st)

  -- `handle_call_tool`
  unfoldable pub handle_call_tool : Context → String → Option Fields → State → CallResult × State
  handle_call_tool ctx name arguments st =
      let d = arguments_or_empty arguments in
      if str_eq name "get_customer_record"
      then call_get_customer (validate_get_customer schema d) st
      else if str_eq name "trigger_refund"
      then call_refund ctx (validate_refund schema d) st
      else (unknown_tool available_tools, st)
