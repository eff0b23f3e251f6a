-- ===== src/Router/Store.antt =====
-- llm-gateway-router/src/llm_router/store.py: the `token_usage` table and the transaction helper.
-- The table is the list of its rows in insertion order. The connection, the WAL settings and the
-- worker thread are SQLite's and asyncio's; the lock and `BEGIN IMMEDIATE` make each transaction one
-- step.
use quilr_ai_mcp.Prelude.{ℕ, String, List, Result, ok, raise}

pub data RowState : Type 0 where
  reserved settled : RowState

-- One row of `token_usage`. Times are whole microseconds; the rowid orders the list.
pub record Row : Type 0 where
  pub tenant : String
  pub request_id : String
  pub tokens : ℕ
  pub created_at : ℕ
  pub state : RowState

abbrev pub Db : Type 0
Db = List Row

-- What a statement can raise: the unique index on `request_id`.
pub data SqlError : Type 0 where
  integrity_error : SqlError

-- A failed body rolls back to the table that the transaction began with.
unfoldable pub finish : {A : Type 0} → Db → Result SqlError A × Db → Result SqlError A × Db
finish before (ok a, after) = (ok a, after)
finish before (raise e, after) = (raise e, before)

-- `transaction(connection, work)`
unfoldable pub transaction :
    {A : Type 0} → (Db → Result SqlError A × Db) → Db → Result SqlError A × Db
unfolding finish
transaction work db = finish db (work db)
