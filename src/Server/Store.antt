-- ===== src/Server/Store.antt =====
-- mcp-server/src/customer_mcp/store.py: customers, refunds and the business rules. An amount is in
-- cents, as the schema admits two decimals at most, and rounding to cents is then the identity. The
-- random part of a refund id and the time stamp are arguments.
use quilr_ai_mcp.Prelude.{
  ℕ, ◌-◌, String, Option, none, some, [], ◌∷◌, Result, ok, raise, ltb, str_eq, not, if◌then◌else◌,
}
use quilr_ai_mcp.Prelude.Dict.{Dict, get, put}

pub record Customer : Type 0 where
  pub customer_id : String
  pub name : String
  pub email : String
  pub status : String
  pub lifetime_spend : ℕ
  pub refundable_balance : ℕ
  pub signed_up : String

pub record Refund : Type 0 where
  pub refund_id : String
  pub customer_id : String
  pub amount : ℕ
  pub reason : String
  pub created_at : String

-- `_Store`; its lock makes each of the functions below one step.
pub record Store : Type 0 where
  pub customers : Dict Customer
  pub refunds : Dict Refund

-- `DomainError`, by its code, with its details.
pub data DomainError : Type 0 where
  customer_not_found : String → DomainError
  account_not_active : String → String → DomainError
  insufficient_refundable_balance : String → ℕ → ℕ → DomainError

-- `_seed`
abbrev pub seed : Dict Customer
seed =
    (
      "CUST-00042",
      record {
        customer_id = "CUST-00042";
        name = "Ada Lovelace";
        email = "ada@example.com";
        status = "active";
        lifetime_spend = 124_000;
        refundable_balance = 32_000;
        signed_up = "2023-04-11";
      },
    )
    ∷ (
      "CUST-00007",
      record {
        customer_id = "CUST-00007";
        name = "Grace Hopper";
        email = "grace@example.com";
        status = "active";
        lifetime_spend = 8_999;
        refundable_balance = 0;
        signed_up = "2024-01-30";
      },
    )
    ∷ (
      "CUST-01337",
      record {
        customer_id = "CUST-01337";
        name = "Alan Turing";
        email = "alan@example.com";
        status = "frozen";
        lifetime_spend = 450_000;
        refundable_balance = 120_000;
        signed_up = "2022-09-02";
      },
    )
    ∷ (
      "CUST-99999",
      record {
        customer_id = "CUST-99999";
        name = "Katherine Johnson";
        email = "katherine@example.com";
        status = "closed";
        lifetime_spend = 1_550;
        refundable_balance = 0;
        signed_up = "2021-06-18";
      },
    )
    ∷ []

abbrev pub initial_store : Store
initial_store = record { customers = seed; refunds = [] }

-- `get_customer`
unfoldable pub get_customer : String → Store → Result DomainError Customer
get_customer id s = elim (get id s.customers) [
  | none ↦ raise (customer_not_found id)
  | some c ↦ ok c
]

-- What `_issue_refund` returns.
pub record RefundPayload : Type 0 where
  pub refund : Refund
  pub remaining : ℕ

-- The three refusals of `_issue_refund`, in their order.
unfoldable pub check_refund : String → ℕ → Option Customer → Result DomainError Customer
check_refund id amount none = raise (customer_not_found id)
check_refund id amount (some c) =
    if not (str_eq c.status "active")
    then raise (account_not_active id c.status)
    else if ltb c.refundable_balance amount
    then raise (insufficient_refundable_balance id amount c.refundable_balance)
    else ok c

-- The two writes of `_issue_refund`.
unfoldable pub record_refund : Refund → Customer → Store → Store
record_refund refund c s = record {
  customers =
      put refund.customer_id
        (record c { refundable_balance = c.refundable_balance - refund.amount }) s.customers;
  refunds = put refund.refund_id refund s.refunds;
}

-- The rest of `_issue_refund` once the row is checked.
unfoldable pub finish_refund :
    Refund → Result DomainError Customer → Store → Result DomainError RefundPayload × Store
unfolding record_refund
finish_refund refund (raise e) s = (raise e, s)
finish_refund refund (ok c) s = (
  ok (record { refund = refund; remaining = c.refundable_balance - refund.amount }),
  record_refund refund c s,
)

unfoldable pub issue_refund :
    String → String → String → ℕ → String → Store → Result DomainError RefundPayload × Store
issue_refund refund_id stamp id amount reason s =
    finish_refund
      (record {
        refund_id = refund_id;
        customer_id = id;
        amount = amount;
        reason = reason;
        created_at = stamp;
      })
      (check_refund id amount (get id s.customers)) s
