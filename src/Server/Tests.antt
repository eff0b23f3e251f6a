-- ===== src/Server/Tests.antt =====
-- Runs of the customer server's model on the seed data, and instances of its theorems.
mod Calls
use quilr_ai_mcp.Prelude.{
  ℕ, ◌+◌, ◌≤◌, ◌≡◌, ◌⊎◌, refl, String, true, false, Option, none, some, List, [], ◌∷◌, ◌++◌, ok,
  raise, arith, codes,
}
use quilr_ai_mcp.Prelude.Dict.{get, put}
use quilr_ai_mcp.Prelude.Json.{Json, null, bool, str, obj, Fields, end, field, get_field}
use quilr_ai_mcp.Prelude.Rpc.{is_version, method_name}
use quilr_ai_mcp.Prelude.Text.{is_space, strip_start, strip}
use quilr_ai_mcp.Server.Transport.{
  drop, reply, invalid_request, recoverable_id, object_params, reject, classify_object,
  classify_loaded, classify_line,
}
use quilr_ai_mcp.Server.Transport.Wire.{
  rejection_buffer, Wire, opened, Round, refuse, skip, take, Rounds, none_yet, then_one,
  then_cancel,
}
use quilr_ai_mcp.Server.Transport.Wire.Fates.{passing, refused, Rounds-Answered}
use quilr_ai_mcp.Server.Transport.Verdicts.{LineFate, classify_line-LineFate}
use quilr_ai_mcp.Server.Store.{
  RefundPayload, initial_store, check_refund, record_refund, finish_refund, issue_refund,
  insufficient_refundable_balance, account_not_active,
}
use quilr_ai_mcp.Server.Ledger.{operation_key, find_response, conclude, replay_or_issue, run_once}
use quilr_ai_mcp.Server.Refunds.{State, Call, create_refund, run_calls}
use quilr_ai_mcp.Server.Refunds.Money.{
  Concluded, create_refund-Concluded, balance_of, paid_by, paid_out, balance_of-run_calls,
}
use quilr_ai_mcp.Server.Refunds.Replay.{create_refund_replayed}

-- Names every function that a refund calls.
unfoldable pub refund_program : Unit {0}
unfolding get put check_refund record_refund finish_refund issue_refund operation_key find_response
    conclude replay_or_issue run_once create_refund run_calls balance_of paid_by paid_out
refund_program = tt

-- Any injective serialisation serves as the digest.
abbrev pub digest : String → ℕ → String → List ℕ
digest id amount reason = codes id ++ amount ∷ codes reason

abbrev pub day : ℕ
day = 86_400

abbrev call : ℕ → String → ℕ → Option String → Call
call now id amount key = record {
  now = now;
  refund_id = "RFND-1";
  stamp = "2026-01-01";
  customer_id = id;
  amount = amount;
  reason = "duplicate charge";
  idempotency_key = key;
}

abbrev pub opening : State
opening = ([], initial_store)

abbrev first : Call
first = call 10 "CUST-00042" 12_000 (some "k1")

abbrev paid : RefundPayload
paid = record {
  refund = record {
    refund_id = "RFND-1";
    customer_id = "CUST-00042";
    amount = 12_000;
    reason = "duplicate charge";
    created_at = "2026-01-01";
  };
  remaining = 20_000;
}

abbrev after_first : State
after_first = (create_refund digest day first opening).1

create_refund-first : (create_refund digest day first opening).0 ≡ ok (paid, false)
unfolding refund_program
create_refund-first = refl

create_refund-frozen :
    (create_refund digest day (call 10 "CUST-01337" 100 none) opening).0
    ≡ raise (account_not_active "CUST-01337" "frozen")
unfolding refund_program
create_refund-frozen = refl

create_refund-too_much :
    (create_refund digest day (call 20 "CUST-00042" 20_001 none) after_first).0
    ≡ raise (insufficient_refundable_balance "CUST-00042" 20_001 20_000)
unfolding refund_program
create_refund-too_much = refl

-- The window ends a day after the refund: the same key then pays again.
create_refund-expired :
    balance_of digest day "CUST-00042"
      (create_refund digest day (call 86_410 "CUST-00042" 12_000 (some "k1")) after_first).1.1
    ≡ 8_000
unfolding refund_program
create_refund-expired = refl

create_refund-Concluded_example :
    Concluded digest day first opening (create_refund digest day first opening)
create_refund-Concluded_example = create_refund-Concluded digest day first opening

-- Two refunds and one replay.
abbrev calls : List Call
calls = first ∷ call 20 "CUST-00042" 5_000 none ∷ call 30 "CUST-00042" 12_000 (some "k1") ∷ []

balance_of-run_calls_example :
    balance_of digest day "CUST-00042" (run_calls digest day calls opening).1
      + paid_out digest day "CUST-00042" calls opening
    ≡ balance_of digest day "CUST-00042" initial_store
balance_of-run_calls_example = balance_of-run_calls digest day "CUST-00042" calls opening

paid_out-calls : paid_out digest day "CUST-00042" calls opening ≡ 17_000
unfolding refund_program
paid_out-calls = refl

abbrev between : List Call
between = call 20 "CUST-00042" 5_000 none ∷ call 30 "CUST-01337" 1 (some "k1") ∷ []

abbrev before : State
before = run_calls digest day between after_first

-- The first call's outcome in full.
issued : create_refund digest day first opening ≡ (ok (paid, false), after_first)
unfolding refund_program
issued = refl

create_refund_replayed_example :
    ((create_refund digest day (call 86_409 "CUST-00042" 99 (some "k1")) before).0
      ≡ ok (paid, true))
    × ((create_refund digest day (call 86_409 "CUST-00042" 99 (some "k1")) before).1.1 ≡ before.1)
unfolding operation_key
create_refund_replayed_example =
    create_refund_replayed digest day first opening after_first paid between
      (call 86_409 "CUST-00042" 99 (some "k1")) issued (omega arith, (omega arith, tt))
      (omega arith) refl

-- A request whose id is a Boolean.
abbrev odd_request : Fields
odd_request = field "jsonrpc" (str "2.0") (field "id" (bool true) (field "method" (str "ping") end))

abbrev odd_loads : List ℕ → Option Json
odd_loads _ = some (obj odd_request)

-- Names every function that a line runs through.
unfoldable pub transport_program : Unit {0}
unfolding is_space strip_start strip get_field is_version method_name recoverable_id object_params
    reject classify_object classify_loaded classify_line
transport_program = tt

classify_line-odd : classify_line odd_loads (codes "{}") ≡ reply invalid_request null
unfolding transport_program
classify_line-odd = refl

classify_line-blank : classify_line odd_loads (codes "  ") ≡ drop
unfolding transport_program
classify_line-blank = refl

classify_line-LineFate_example :
    LineFate odd_loads (codes "{}") (classify_line odd_loads (codes "{}"))
classify_line-LineFate_example = classify_line-LineFate odd_loads (codes "{}")

-- Both lines are read before the first error is taken up, and the session ends before it is written.
abbrev two_lines : List (List ℕ)
two_lines = codes "{}" ∷ codes "  " ∷ []

abbrev cut_short : Wire
cut_short = record {
  source = [];
  handed = [];
  queue = [];
  sending = some (invalid_request, null);
  written = [];
  pumping = false;
}

cut_short-Rounds : Rounds odd_loads 3 (opened two_lines) cut_short
cut_short-Rounds = then_cancel (
    then_one
      (then_one
        (then_one none_yet
          (refuse (codes "{}") invalid_request null refl classify_line-odd (omega arith) refl))
        (skip (codes "  ") refl classify_line-blank))
      (take (invalid_request, null) refl refl refl))

Rounds-Answered_example :
    ([] ≡ passing odd_loads two_lines)
    × ((invalid_request, null) ∷ [] ≡ refused odd_loads two_lines)
    × (0 ≤ rejection_buffer)
    × (3 ≤ 6)
    × ((([] ≡ passing odd_loads two_lines) × ([] ≡ refused odd_loads two_lines))
        ⊎ (false ≡ false)
        ⊎ ((w : Wire) × Round odd_loads cut_short w))
Rounds-Answered_example = Rounds-Answered odd_loads two_lines 3 cut_short cut_short-Rounds
