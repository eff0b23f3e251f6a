-- ===== src/Server/Refunds/Replay.antt =====
-- A refund is issued once per operation key within the window: mcp-server/src/customer_mcp/store.py
-- and mcp-server/src/customer_mcp/idempotency.py.
use quilr_ai_mcp.Prelude.{
  ℕ, ◌+◌, ◌<◌, ◌≡◌, refl, String, Bool, true, false, Option, none, some, List, [], ◌∷◌, ◌++◌,
  Result, ok, raise, arith, select, max, ap, ◌∙◌, lt→ltb, All,
}
use mathlib.Core.Path.{subst}
use quilr_ai_mcp.Prelude.Text.{text_eq_refl}
use quilr_ai_mcp.Server.Store.{Store, DomainError, RefundPayload, issue_refund}
use quilr_ai_mcp.Server.Ledger.{
  Operation, Request, is_live, find_response, conclude, replay_or_issue, run_once,
}
use quilr_ai_mcp.Server.Refunds.{State, Call, key_of, request, create_refund, run_calls}

module _ {P : Type 0} where
  find_response-append :
      (key : List ℕ) (p : P) (xs ys : List (Operation P))
      → find_response key xs ≡ some p
      → find_response key (xs ++ ys) ≡ some p
  unfolding find_response
  find_response-append key p [] ys h = ground (arith, h)
  find_response-append key p (x ∷ xs) ys h = ground (arith, h, find_response-append key p xs ys)

  find_response-append_new :
      (key : List ℕ) (xs ys : List (Operation P))
      → find_response key xs ≡ none
      → find_response key (xs ++ ys) ≡ find_response key ys
  unfolding find_response
  find_response-append_new key [] ys h = refl
  find_response-append_new key (x ∷ xs) ys h = ground (arith, h, find_response-append_new key xs ys)

  find_response-select :
      (key : List ℕ) (f : Operation P → Bool) (xs : List (Operation P))
      → find_response key xs ≡ none
      → find_response key (select f xs) ≡ none
  unfolding find_response
  find_response-select key f [] h = refl
  find_response-select key f (x ∷ xs) h = ground (arith, h, find_response-select key f xs)

  select-append :
      (f : Operation P → Bool) (xs ys : List (Operation P))
      → select f (xs ++ ys) ≡ select f xs ++ select f ys
  select-append f [] ys = refl
  select-append f (x ∷ xs) ys = ground (arith, select-append f xs ys)

  -- The housekeeping of two calls in a row is that of the later one.
  select-select :
      (window t u : ℕ) (xs : List (Operation P))
      → select (is_live window t) (select (is_live window u) xs)
        ≡ select (is_live window (max t u)) xs
  select-select window t u [] = refl
  select-select window t u (x ∷ xs) = ground (arith, select-select window t u xs)

  module _ (window : ℕ) (key : List ℕ) (p : P) (limit : ℕ) where
    -- Until the limit a lookup by the key answers `p`.
    abbrev Recorded : List (Operation P) → Type 0
    Recorded table =
        (t : ℕ) → t < limit → find_response key (select (is_live window t) table) ≡ some p

    Recorded-select :
        (u : ℕ) (table : List (Operation P))
        → u < limit
        → Recorded table
        → Recorded (select (is_live window u) table)
    Recorded-select u table h rec t early =
        rw (select-select window t u table) (rec (max t u) (omega arith))

    Recorded-append : (table new : List (Operation P)) → Recorded table → Recorded (table ++ new)
    Recorded-append table new rec t early =
        rw (select-append (is_live window t) table new)
          (find_response-append key p (select (is_live window t) table) _ (rec t early))

    Recorded-run_once :
        {E S : Type 0}
        → (q : Request) (issue : S → Result E P × S) (table : List (Operation P)) (s : S)
        → q.now < limit
        → Recorded table
        → Recorded (run_once window q issue (table, s)).1.0
    unfolding run_once replay_or_issue conclude
    Recorded-run_once {E = E} {S = S} q issue table s early rec =
        go (find_response q.key (select (is_live window q.now) table))
      where
        kept : List (Operation P)
        kept = select (is_live window q.now) table

        go_issue : (r : Result E P × S) → Recorded (conclude q table kept r).1.0
        go_issue (raise e, s') = rec
        go_issue (ok payload, s') = Recorded-append kept _ (Recorded-select q.now table early rec)

        go : (o : Option P) → Recorded (replay_or_issue q table kept issue s o).1.0
        go (some payload) = Recorded-select q.now table early rec
        go none = go_issue (issue s)

module _ (digest : String → ℕ → String → List ℕ) (window : ℕ) where
  Recorded-run_calls :
      (key : List ℕ) (p : RefundPayload) (limit : ℕ) (cs : List Call) (st : State)
      → All (λ d. d.now < limit) cs
      → Recorded window key p limit st.0
      → Recorded window key p limit (run_calls digest window cs st).0
  unfolding run_calls create_refund
  Recorded-run_calls key p limit [] st early rec = rec
  Recorded-run_calls key p limit (c ∷ cs) st (e, es) rec =
      Recorded-run_calls key p limit cs (create_refund digest window c st).1 es
        (Recorded-run_once window key p limit (request digest window c) _ st.0 st.1 e rec)

  -- The row that a call adds to the ledger.
  abbrev row_of : Call → RefundPayload → Operation RefundPayload
  row_of c payload = record {
    operation_key = key_of digest window c;
    customer_id = c.customer_id;
    fingerprint = digest c.customer_id c.amount c.reason;
    response = payload;
    created_at = c.now;
  }

  Recorded-row_of :
      (c : Call) (kept : List (Operation RefundPayload)) (payload : RefundPayload)
      → find_response (key_of digest window c) kept ≡ none
      → Recorded window
          (key_of digest window c)
          payload
          (c.now + window)
          (kept ++ row_of c payload ∷ [])
  unfolding find_response
  Recorded-row_of c kept payload fresh t early =
      let dropped = find_response-select (key_of digest window c) (is_live window t) kept fresh in
      rw
        (
          select-append (is_live window t) kept (row_of c payload ∷ []),
          find_response-append_new (key_of digest window c) _
              (select (is_live window t) (row_of c payload ∷ [])) dropped,
          lt→ltb t (c.now + window) early,
          text_eq_refl (key_of digest window c),
        )
        refl

  Recorded-conclude :
      (c : Call) (before kept : List (Operation RefundPayload)) (p : RefundPayload)
      (r : Result DomainError RefundPayload × Store) (st' : State)
      → find_response (key_of digest window c) kept ≡ none
      → conclude (request digest window c) before kept r ≡ (ok (p, false), st')
      → Recorded window (key_of digest window c) p (c.now + window) st'.0
  unfolding conclude
  Recorded-conclude c before kept p (raise e, s) st' fresh h = ground (arith, ap (λ x. x.0) h)
  Recorded-conclude c before kept p (ok payload, s) st' fresh h =
      let same : payload ≡ p = ground (arith, ap (λ x. x.0) h) in
      λ t early.
        subst
          (λ table.
            find_response (key_of digest window c) (select (is_live window t) table) ≡ some p)
          (ap (λ x. x.1.0) h) (Recorded-row_of c kept payload fresh t early ∙ ap some same)

  Recorded-create_refund :
      (c : Call) (st st' : State) (p : RefundPayload)
      → create_refund digest window c st ≡ (ok (p, false), st')
      → Recorded window (key_of digest window c) p (c.now + window) st'.0
  unfolding create_refund run_once replay_or_issue
  Recorded-create_refund c st st' p = go (find_response (key_of digest window c) kept) refl
    where
      kept : List (Operation RefundPayload)
      kept = select (is_live window c.now) st.0

      go :
          (o : Option RefundPayload)
          → find_response (key_of digest window c) kept ≡ o
          → replay_or_issue
              (request digest window c)
              st.0
              kept
              (issue_refund c.refund_id c.stamp c.customer_id c.amount c.reason)
              st.1
              o
            ≡ (ok (p, false), st')
          → Recorded window (key_of digest window c) p (c.now + window) st'.0
      go (some payload) found h = ground (arith, ap (λ x. x.0) h)
      go none fresh h = Recorded-conclude c st.0 kept p _ st' fresh h

  -- A call that has issued a refund is replayed by every call with the same key within the window,
  -- whatever calls come in between: it answers the first payload, and the store does not move.
  pub create_refund_replayed :
      (c : Call) (st st' : State) (p : RefundPayload) (between : List Call) (again : Call)
      → create_refund digest window c st ≡ (ok (p, false), st')
      → All (λ d. d.now < c.now + window) between
      → again.now < c.now + window
      → key_of digest window again ≡ key_of digest window c
      → let before = run_calls digest window between st' in
        ((create_refund digest window again before).0 ≡ ok (p, true))
        × ((create_refund digest window again before).1.1 ≡ before.1)
  unfolding create_refund run_once replay_or_issue
  create_refund_replayed c st st' p between again issued early soon same =
      let rec =
        Recorded-run_calls (key_of digest window c) p (c.now + window) between st' early
          (Recorded-create_refund c st st' p issued) again.now soon in
      rw (same, rec) (refl, refl)
