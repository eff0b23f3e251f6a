-- ===== src/Server/Refunds/Money.antt =====
-- Where the money of a refund goes: mcp-server/src/customer_mcp/store.py, `create_refund`.
use quilr_ai_mcp.Prelude.{
  ℕ, ◌+◌, ◌-◌, ◌≤◌, ◌≡◌, refl, String, Bool, true, false, Option, none, some, List, [], ◌∷◌, Result,
  ok, raise, arith, select, str_eq, if◌then◌else◌, ap, eq_iff,
}
use quilr_ai_mcp.Prelude.Dict.{get, get-put}
use quilr_ai_mcp.Server.Store.{
  Customer, Refund, Store, DomainError, RefundPayload, check_refund, issue_refund, finish_refund,
  record_refund,
}
use quilr_ai_mcp.Server.Ledger.{
  Operation, is_live, find_response, conclude, replay_or_issue, run_once,
}
use quilr_ai_mcp.Server.Refunds.{State, Call, key_of, request, create_refund, run_calls}

-- The refusal that the customer's row calls for.
abbrev pub Refused : Call → Store → DomainError → Type 0
Refused c s e = check_refund c.customer_id c.amount (get c.customer_id s.customers) ≡ raise e

-- The customer's row after the refund.
abbrev pub debited : Call → Customer → Customer
debited c cu = record cu { refundable_balance = cu.refundable_balance - c.amount }

-- One refund paid: an active customer with enough balance, debited by the amount and nobody else; the
-- refund on record; the payload telling the new balance.
abbrev pub Paid : Call → Store → RefundPayload → Store → Type 0
Paid c s p s' =
    (cu : Customer) × (get c.customer_id s.customers ≡ some cu)
    × (cu.status ≡ "active")
    × (p.remaining + c.amount ≡ cu.refundable_balance)
    × ((j : String)
        → get j s'.customers
          ≡ (if str_eq c.customer_id j then some (debited c cu) else get j s.customers))
    × ((j : String)
        → get j s'.refunds ≡ (if str_eq c.refund_id j then some p.refund else get j s.refunds))
    × (p.refund.amount ≡ c.amount)

-- What issuing comes to: paid, or refused and nothing changed.
abbrev pub Issued : Call → Store → Result DomainError RefundPayload × Store → Type 0
Issued c s (ok p, s') = Paid c s p s'
Issued c s (raise e, s') = Refused c s e × (s' ≡ s)

abbrev pub issue : Call → Store → Result DomainError RefundPayload × Store
issue c = issue_refund c.refund_id c.stamp c.customer_id c.amount c.reason

check_refund-ok :
    (id : String) (amount : ℕ) (o : Option Customer) (cu : Customer)
    → check_refund id amount o ≡ ok cu
    → (o ≡ some cu) × (cu.status ≡ "active") × (amount ≤ cu.refundable_balance)
unfolding check_refund
check_refund-ok id amount none cu h = ground (arith, h)
check_refund-ok id amount (some x) cu h = ground (arith, h, eq_iff x.status "active")

issue-Issued : (c : Call) (s : Store) → Issued c s (issue c s)
unfolding issue_refund finish_refund record_refund
issue-Issued c s = go (check_refund c.customer_id c.amount (get c.customer_id s.customers)) refl
  where
    refund : Refund
    refund = record {
      refund_id = c.refund_id;
      customer_id = c.customer_id;
      amount = c.amount;
      reason = c.reason;
      created_at = c.stamp;
    }

    go :
        (r : Result DomainError Customer)
        → check_refund c.customer_id c.amount (get c.customer_id s.customers) ≡ r
        → Issued c s (finish_refund refund r s)
    go (raise e) h = (h, refl)
    go (ok cu) h =
        let (found, active, fits) = check_refund-ok _ _ _ cu h in
        (
          cu,
          found,
          active,
          omega (arith, fits),
          λ j. get-put c.customer_id j (debited c cu) s.customers,
          λ j. get-put c.refund_id j refund s.refunds,
          refl,
        )

module _ (digest : String → ℕ → String → List ℕ) (window : ℕ) where
  abbrev pub live : Call → State → List (Operation RefundPayload)
  live c st = select (is_live window c.now) st.0

  -- Each way that a call ends.
  abbrev pub Concluded : Call → State → Result DomainError (RefundPayload × Bool) × State → Type 0
  Concluded c st (ok (p, true), (table, s)) =
      (find_response (key_of digest window c) (live c st) ≡ some p) × (s ≡ st.1)
  Concluded c st (ok (p, false), (table, s)) =
      (find_response (key_of digest window c) (live c st) ≡ none) × Paid c st.1 p s
  Concluded c st (raise e, st') = Refused c st.1 e × (st' ≡ st)

  -- The ledger's end of a call that is not a replay.
  Concluded-conclude :
      (c : Call) (st : State) (r : Result DomainError RefundPayload × Store)
      → find_response (key_of digest window c) (live c st) ≡ none
      → Issued c st.1 r
      → Concluded c st (conclude (request digest window c) st.0 (live c st) r)
  unfolding conclude
  Concluded-conclude c st (ok p, s) fresh h = (fresh, h)
  Concluded-conclude c st (raise e, s) fresh h = (h.0, ap (λ x. (st.0, x)) h.1)

  -- A refund call ends in one of three ways. A replay answers the payload that the ledger holds and
  -- leaves the store alone. A new refund debits its customer, active and with enough balance, by the
  -- amount, leaves every other row, and is on record. A refusal is the one that the customer's row
  -- calls for, and changes neither the ledger nor the store.
  pub create_refund-Concluded :
      (c : Call) (st : State) → Concluded c st (create_refund digest window c st)
  unfolding create_refund run_once replay_or_issue
  create_refund-Concluded c st = go (find_response (key_of digest window c) (live c st)) refl
    where
      go :
          (o : Option RefundPayload)
          → find_response (key_of digest window c) (live c st) ≡ o
          → Concluded c st
              (replay_or_issue (request digest window c) st.0 (live c st) (issue c) st.1 o)
      go (some p) h = (h, refl)
      go none h = Concluded-conclude c st (issue c st.1) h (issue-Issued c st.1)

  unfoldable pub balance_of : String → Store → ℕ
  balance_of id s = elim (get id s.customers) [ none ↦ 0 | some cu ↦ cu.refundable_balance ]

  -- What a call's outcome pays to a customer.
  unfoldable pub paid_by : String → Call → Result DomainError (RefundPayload × Bool) → ℕ
  paid_by id c (ok (p, false)) = if str_eq c.customer_id id then p.refund.amount else 0
  paid_by id c (ok (p, true)) = 0
  paid_by id c (raise e) = 0

  unfoldable pub paid_out : String → List Call → State → ℕ
  paid_out id [] st = 0
  paid_out id (c ∷ cs) st =
      let (r, st') = create_refund digest window c st in paid_by id c r + paid_out id cs st'

  balance_of-Concluded :
      (id : String) (c : Call) (st : State) (r : Result DomainError (RefundPayload × Bool) × State)
      → Concluded c st r
      → balance_of id r.1.1 + paid_by id c r.0 ≡ balance_of id st.1
  unfolding balance_of paid_by
  balance_of-Concluded id c st (ok (p, true), (table, s)) h = rw (h.1) (omega arith)
  balance_of-Concluded id c st (ok (p, false), (table, s)) h =
      let (_, moved) = h in
      let (cu, found, active, left, rows, refunds, amount) = moved in
      ground (arith, found, left, rows id, amount, eq_iff c.customer_id id)
  balance_of-Concluded id c st (raise e, st') h = rw (h.1) (omega arith)

  -- Over any calls, what a customer's balance loses is what the refunds that were not replays paid.
  pub balance_of-run_calls :
      (id : String) (cs : List Call) (st : State)
      → balance_of id (run_calls digest window cs st).1 + paid_out id cs st ≡ balance_of id st.1
  unfolding run_calls paid_out
  balance_of-run_calls id [] st = omega arith
  balance_of-run_calls id (c ∷ cs) st = omega (
    arith,
    balance_of-run_calls id cs (create_refund digest window c st).1,
    balance_of-Concluded id c st _ (create_refund-Concluded c st),
  )
