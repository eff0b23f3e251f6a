-- ===== src/Server/Ledger.antt =====
-- mcp-server/src/customer_mcp/idempotency.py: the persistent record of refunds already issued. The
-- table is a list of its rows; a time is in microseconds and `created_at <= now - window` is written
-- `created_at + window ≤ now`. SHA-256 over the serialised fields is a parameter.
use quilr_ai_mcp.Prelude.{
  ℕ, ◌+◌, String, Bool, true, false, Option, none, some, List, [], ◌∷◌, ◌++◌, Result, ok, raise,
  ltb, str_eq, if◌then◌else◌, select, codes,
}
use quilr_ai_mcp.Prelude.Text.{text_eq}

-- One row of `refund_operations`; `response` is the payload that its JSON stands for.
pub record Operation (P : Type 0) : Type 0 where
  pub operation_key : List ℕ
  pub customer_id : String
  pub fingerprint : List ℕ
  pub response : P
  pub created_at : ℕ

-- `operation_key`; an empty key is no key.
unfoldable pub operation_key :
    (String → ℕ → String → List ℕ) → String → ℕ → String → Option String → List ℕ
operation_key digest id amount reason none = codes "auto:" ++ digest id amount reason
operation_key digest id amount reason (some supplied) =
    if str_eq supplied ""
    then codes "auto:" ++ digest id amount reason
    else codes "key:" ++ (codes id ++ (codes ":" ++ codes supplied))

-- What `run_once` is called with, and the clock's reading.
pub record Request : Type 0 where
  pub now : ℕ
  pub key : List ℕ
  pub id : String
  pub digest : List ℕ

module _ {P : Type 0} where
  -- A row that the housekeeping keeps.
  abbrev pub is_live : ℕ → ℕ → Operation P → Bool
  is_live window now r = ltb now (r.created_at + window)

  -- `SELECT response … WHERE operation_key = ?`
  unfoldable pub find_response : List ℕ → List (Operation P) → Option P
  find_response key [] = none
  find_response key (r ∷ rs) =
      let later = find_response key rs in
      if text_eq r.operation_key key then some r.response else later

  module _ {E S : Type 0} where
    -- The end of the transaction: a raise rolls the table back, housekeeping included.
    unfoldable pub conclude :
        Request
        → List (Operation P)
        → List (Operation P)
        → Result E P × S
        → Result E (P × Bool) × (List (Operation P) × S)
    conclude q before kept (raise e, s) = (raise e, (before, s))
    conclude q before kept (ok payload, s) = (
      ok (payload, false),
      (
        kept
            ++ (record {
              operation_key = q.key;
              customer_id = q.id;
              fingerprint = q.digest;
              response = payload;
              created_at = q.now;
            })
              ∷ [],
        s,
      ),
    )

    -- A replay if the lookup finds the operation, the refund itself if not.
    unfoldable pub replay_or_issue :
        Request
        → List (Operation P)
        → List (Operation P)
        → (S → Result E P × S)
        → S
        → Option P
        → Result E (P × Bool) × (List (Operation P) × S)
    unfolding conclude
    replay_or_issue q before kept issue s (some payload) = (ok (payload, true), (kept, s))
    replay_or_issue q before kept issue s none = conclude q before kept (issue s)

    -- `run_once`: the payload, and whether it is a replay.
    unfoldable pub run_once :
        ℕ
        → Request
        → (S → Result E P × S)
        → List (Operation P) × S
        → Result E (P × Bool) × (List (Operation P) × S)
    run_once window q issue (table, s) =
        let kept = select (is_live window q.now) table in
        replay_or_issue q table kept issue s (find_response q.key kept)
