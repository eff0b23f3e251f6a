-- ===== src/Router/Route/Attempts.antt =====
-- What a sequence of attempts may look like, and that both loops of the router follow it.
use quilr_ai_mcp.Prelude.{
  ℕ, ◌≡◌, refl, true, false, List, [], ◌∷◌, ◌++◌, Result, ok, raise, arith, length, String,
  Bool-cases, inl, inr,
}
use mathlib.Core.List.{append_assoc, append-nil}
use quilr_ai_mcp.Prelude.Dict.{Dict}
use quilr_ai_mcp.Prelude.Json.{Fields}
use quilr_ai_mcp.Router.Store.{Db}
use quilr_ai_mcp.Router.Limit.{Reservation, LimitDecision, settle, release}
use quilr_ai_mcp.Router.Providers.{
  Provider, Attempt, succeeded, should_failover, Client, Unhandled, call_provider,
  open_provider_stream,
}
use quilr_ai_mcp.Router.Route.{
  Failure, Payload, completion, completion_body, relayed_stream, RouteResult, client_error_result,
  exhausted_db, exhausted_result, success_result, bill, try_providers, try_streams,
}

-- How the attempts of a request end.
pub data Ending : Type 0 where
  served refused : Attempt → Ending
  gave_up : Ending

-- The providers are tried in order, one attempt each. A success or a failure that is the request's
-- own ends the sequence; any other failure moves on to the next provider.
pub data Follows : List Provider → List Attempt → Ending → Type 0 where
  none_left : Follows [] [] gave_up
  serves :
      {p : Provider} {ps : List Provider} {a : Attempt}
      → a.provider ≡ p
      → succeeded a ≡ true
      → Follows (p ∷ ps) (a ∷ []) (served a)
  refuses :
      {p : Provider} {ps : List Provider} {a : Attempt}
      → a.provider ≡ p
      → succeeded a ≡ false
      → should_failover a ≡ false
      → Follows (p ∷ ps) (a ∷ []) (refused a)
  fails_over :
      {p : Provider} {ps : List Provider} {a : Attempt} {rest : List Attempt} {e : Ending}
      → a.provider ≡ p
      → should_failover a ≡ true
      → Follows ps rest e
      → Follows (p ∷ ps) (a ∷ rest) e

call_provider-provider :
    (client : Client) (i : ℕ) (p : Provider) (body : Fields) (headers : Dict String) (a : Attempt)
    → call_provider client i p body headers ≡ ok a
    → a.provider ≡ p
unfolding call_provider
call_provider-provider client i p body headers a h = ground arith

open_provider_stream-provider :
    (client : Client) (i : ℕ) (p : Provider) (body : Fields) (headers : Dict String) (a : Attempt)
    → open_provider_stream client i p body headers ≡ ok a
    → a.provider ≡ p
unfolding open_provider_stream
open_provider_stream-provider client i p body headers a h = ground arith

-- The two loops differ in the body of a success and in the transaction of each ending.
pub record Policy : Type 0 where
  pub body_of : Attempt → Payload
  pub on_success : Attempt → Db → Db
  pub on_refusal : Attempt → Db → Db

module _ (d : LimitDecision) (res : Reservation) (reserved : ℕ) where
  abbrev pub whole_response : Policy
  whole_response = record {
    body_of = λ a. completion (completion_body a.body);
    on_success = λ a. settle res (bill reserved a);
    on_refusal = λ a. settle res (bill reserved a);
  }

  -- A stream that is opened is settled by its relay.
  abbrev pub streamed : Policy
  streamed = record {
    body_of = λ a. relayed_stream;
    on_success = λ a db. db;
    on_refusal = λ a. settle res reserved;
  }

  module _ (policy : Policy) where
    -- The result and the table of a completed request, by how its attempts ended.
    abbrev pub concluded : Ending → List Attempt → RouteResult
    concluded (served a) attempts = success_result d a attempts (policy.body_of a)
    concluded (refused a) attempts = client_error_result d a attempts
    concluded gave_up attempts = exhausted_result d attempts

    abbrev pub table_after : Ending → List Attempt → Db → Db
    table_after (served a) attempts db = policy.on_success a db
    table_after (refused a) attempts db = policy.on_refusal a db
    table_after gave_up attempts db = exhausted_db res reserved attempts db

    -- The outcome of a loop that began after `before`: an exception has released the reservation; a
    -- result is the one of its ending, after attempts that follow the providers.
    abbrev pub Concludes :
        List Provider → List Attempt → Db → Result Failure RouteResult × Db → Type 0
    Concludes ps before db (raise f, after) = after ≡ release res db
    Concludes ps before db (ok r, after) =
        (rest : List Attempt) × (e : Ending) × Follows ps rest e
        × (r ≡ concluded e (before ++ rest))
        × (after ≡ table_after e (before ++ rest) db)

    pub Concludes-cons :
        (p : Provider) (ps : List Provider) (before : List Attempt) (a : Attempt) (db : Db)
        (x : Result Failure RouteResult × Db)
        → a.provider ≡ p
        → should_failover a ≡ true
        → Concludes ps (before ++ a ∷ []) db x
        → Concludes (p ∷ ps) before db x
    Concludes-cons p ps before a db (raise f, after) same h c = c
    Concludes-cons p ps before a db (ok r, after) same h (rest, e, f, result, table) = (
      a ∷ rest,
      e,
      fails_over same h f,
      rw (← append_assoc before (a ∷ []) rest) result,
      rw (← append_assoc before (a ∷ []) rest) table,
    )

module _ (client : Client) (body : Fields) (headers : Dict String) (d : LimitDecision)
    (res : Reservation) (reserved : ℕ) where
  pub try_providers-Concludes :
      (ps : List Provider) (before : List Attempt) (db : Db)
      → Concludes d res reserved
          (whole_response d res reserved)
          ps
          before
          db
          (try_providers client body headers d res reserved ps before db)
  unfolding try_providers
  try_providers-Concludes [] before db =
      ([], gave_up, none_left, rw (append-nil before), rw (append-nil before))
  try_providers-Concludes (p ∷ ps) before db =
      go (call_provider client (length before) p body headers) refl
        (λ a. try_providers-Concludes ps (before ++ a ∷ []) db)
    where
      go :
          (x : Result Unhandled Attempt)
          → call_provider client (length before) p body headers ≡ x
          → ((a : Attempt)
              → Concludes d res reserved
                  (whole_response d res reserved)
                  ps
                  (before ++ a ∷ [])
                  db
                  (try_providers client body headers d res reserved ps (before ++ a ∷ []) db))
          → Concludes d res reserved
              (whole_response d res reserved)
              (p ∷ ps)
              before
              db
              (try_providers client body headers d res reserved (p ∷ ps) before db)
      go (raise e) eq ih = rw (eq, try_providers) refl
      go (ok a) eq ih =
          let same : a.provider ≡ p =
            call_provider-provider client (length before) p body headers a eq in
          elim (Bool-cases (succeeded a)) [
            | inl won ↦
                rw (eq, try_providers) (rw won (a ∷ [], served a, serves same won, refl, refl))
            | inr lost ↦ elim (Bool-cases (should_failover a)) [
              | inl on ↦
                  rw (eq, try_providers)
                    (rw (lost, on)
                      (Concludes-cons d res reserved (whole_response d res reserved) p ps before a
                        db _ same on (ih a)))
              | inr off ↦
                  rw (eq, try_providers)
                    (rw (lost, off) (a ∷ [], refused a, refuses same lost off, refl, refl))
            ]
          ]

  pub try_streams-Concludes :
      (ps : List Provider) (before : List Attempt) (db : Db)
      → Concludes d res reserved
          (streamed d res reserved)
          ps
          before
          db
          (try_streams client body headers d res reserved ps before db)
  unfolding try_streams
  try_streams-Concludes [] before db =
      ([], gave_up, none_left, rw (append-nil before), rw (append-nil before))
  try_streams-Concludes (p ∷ ps) before db =
      go (open_provider_stream client (length before) p body headers) refl
        (λ a. try_streams-Concludes ps (before ++ a ∷ []) db)
    where
      go :
          (x : Result Unhandled Attempt)
          → open_provider_stream client (length before) p body headers ≡ x
          → ((a : Attempt)
              → Concludes d res reserved
                  (streamed d res reserved)
                  ps
                  (before ++ a ∷ [])
                  db
                  (try_streams client body headers d res reserved ps (before ++ a ∷ []) db))
          → Concludes d res reserved
              (streamed d res reserved)
              (p ∷ ps)
              before
              db
              (try_streams client body headers d res reserved (p ∷ ps) before db)
      go (raise e) eq ih = rw (eq, try_streams) refl
      go (ok a) eq ih =
          let same : a.provider ≡ p =
            open_provider_stream-provider client (length before) p body headers a eq in
          elim (Bool-cases (succeeded a)) [
            | inl won ↦
                rw (eq, try_streams) (rw won (a ∷ [], served a, serves same won, refl, refl))
            | inr lost ↦ elim (Bool-cases (should_failover a)) [
              | inl on ↦
                  rw (eq, try_streams)
                    (rw (lost, on)
                      (Concludes-cons d res reserved (streamed d res reserved) p ps before a db _
                        same on (ih a)))
              | inr off ↦
                  rw (eq, try_streams)
                    (rw (lost, off) (a ∷ [], refused a, refuses same lost off, refl, refl))
            ]
          ]
