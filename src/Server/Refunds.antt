-- ===== src/Server/Refunds.antt =====
-- mcp-server/src/customer_mcp/store.py, `create_refund`: the ledger around `_issue_refund`.
pub mod Money
pub mod Replay
use quilr_ai_mcp.Prelude.{ℕ, String, Bool, Option, List, [], ◌∷◌, Result}
use quilr_ai_mcp.Server.Store.{Store, DomainError, RefundPayload, issue_refund}
use quilr_ai_mcp.Server.Ledger.{Operation, Request, operation_key, run_once}

-- The ledger and the store.
abbrev pub State : Type 0
State = List (Operation RefundPayload) × Store

-- The arguments of `create_refund`, with the clock's reading, the new refund id and the time stamp.
pub record Call : Type 0 where
  pub now : ℕ
  pub refund_id : String
  pub stamp : String
  pub customer_id : String
  pub amount : ℕ
  pub reason : String
  pub idempotency_key : Option String

module _ (digest : String → ℕ → String → List ℕ) (window : ℕ) where
  abbrev pub key_of : Call → List ℕ
  key_of c = operation_key digest c.customer_id c.amount c.reason c.idempotency_key

  abbrev pub request : Call → Request
  request c = record {
    now = c.now;
    key = key_of c;
    id = c.customer_id;
    digest = digest c.customer_id c.amount c.reason;
  }

  unfoldable pub create_refund : Call → State → Result DomainError (RefundPayload × Bool) × State
  unfolding run_once issue_refund
  create_refund c =
      run_once window (request c) (issue_refund c.refund_id c.stamp c.customer_id c.amount c.reason)

  -- Calls one after another, from a state.
  unfoldable pub run_calls : List Call → State → State
  run_calls [] st = st
  run_calls (c ∷ cs) st = run_calls cs (create_refund c st).1
