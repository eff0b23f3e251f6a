-- ===== src/Router/Limit.antt =====
-- llm-gateway-router/src/llm_router/ratelimit.py: the sliding window over token spend. A time is in
-- microseconds, and `created_at > now - window` is written `now < created_at + window`, which is the
-- same on exact numbers. The clock and the uuid of a call are its arguments.
pub mod Window
pub mod Admission
pub mod RetryAfter
pub mod Retry
pub mod Schedule
use quilr_ai_mcp.Prelude.{
  ℕ, ◌+◌, ◌-◌, String, Bool, true, false, ◌&&◌, not, Option, none, some, List, [], ◌∷◌, ◌++◌, map,
  Result, ok, raise, ltb, leb, str_eq, if◌then◌else◌, select, any, length,
}
use quilr_ai_mcp.Router.Store.{
  Row, Db, RowState, reserved, settled, SqlError, integrity_error, transaction,
}

pub record Reservation : Type 0 where
  pub request_id : String
  pub tenant : String
  pub estimated_tokens : ℕ

pub record LimitDecision : Type 0 where
  pub allowed : Bool
  pub used_tokens : ℕ
  pub limit : ℕ
  pub reservation : Option Reservation
  pub retry_after : Option ℕ

-- `LimitDecision.remaining`: `max(0, limit - used_tokens)`
unfoldable pub remaining : LimitDecision → ℕ
remaining d = d.limit - d.used_tokens

-- The settings of a `RateLimiter`.
pub record RateLimiter : Type 0 where
  pub limit : ℕ
  pub window : ℕ

-- `created_at > now - window`
abbrev pub is_live : RateLimiter → ℕ → Row → Bool
is_live lim now r = ltb now (r.created_at + lim.window)

-- The `WHERE` of the two queries for one tenant.
abbrev pub is_counted : RateLimiter → String → ℕ → Row → Bool
is_counted lim tenant now r = if str_eq r.tenant tenant then is_live lim now r else false

-- `_evict`: the table that is left, and the count of the rows deleted.
unfoldable pub evict : RateLimiter → ℕ → Db → ℕ × Db
evict lim now db = let kept = select (is_live lim now) db in (length db - length kept, kept)

-- `SUM(tokens)`, 0 over no rows
unfoldable pub sum_tokens : List Row → ℕ
sum_tokens [] = 0
sum_tokens (r ∷ rs) = r.tokens + sum_tokens rs

-- `_used`
unfoldable pub used : RateLimiter → String → ℕ → Db → ℕ
unfolding sum_tokens
used lim tenant now db = sum_tokens (select (is_counted lim tenant now) db)

-- `ORDER BY created_at ASC`
unfoldable pub insert_by_age : Row → List Row → List Row
insert_by_age r [] = r ∷ []
insert_by_age r (s ∷ rs) =
    let rest = insert_by_age r rs in if leb r.created_at s.created_at then r ∷ s ∷ rs else s ∷ rest

unfoldable pub order_by_age : List Row → List Row
unfolding insert_by_age
order_by_age [] = []
order_by_age (r ∷ rs) = insert_by_age r (order_by_age rs)

-- The loop of `_retry_after`, over the rows left, with `freed` so far.
unfoldable pub first_enough : RateLimiter → ℕ → ℕ → ℕ → List Row → ℕ
first_enough lim now shortfall freed [] = lim.window
first_enough lim now shortfall freed (r ∷ rs) =
    let rest = first_enough lim now shortfall (freed + r.tokens) rs in
    if leb shortfall (freed + r.tokens) then (r.created_at + lim.window) - now else rest

-- `_retry_after`; the shortfall `used + needed - limit` is positive where the loop runs.
unfoldable pub retry_after : RateLimiter → String → ℕ → ℕ → Db → ℕ
unfolding sum_tokens order_by_age first_enough
retry_after lim tenant now needed db =
    let rows = order_by_age (select (is_counted lim tenant now) db) in
    let total = sum_tokens rows in
    if leb (total + needed) lim.limit
    then 0
    else first_enough lim now ((total + needed) - lim.limit) 0 rows

abbrev pub has_request : String → Row → Bool
has_request request_id r = str_eq r.request_id request_id

-- `INSERT INTO token_usage … 'reserved'`, under the unique index on `request_id`.
unfoldable pub insert_reserved : String → String → ℕ → ℕ → Db → Result SqlError (Unit {0}) × Db
insert_reserved tenant request_id tokens now db =
    if any (has_request request_id) db then (raise integrity_error, db) else (
      ok tt,
      db
          ++ (record {
            tenant = tenant;
            request_id = request_id;
            tokens = tokens;
            created_at = now;
            state = reserved;
          })
            ∷ [],
    )

-- The `return` of `body` after the insert.
abbrev pub reserved_decision :
    RateLimiter
    → String
    → String
    → ℕ
    → ℕ
    → Result SqlError (Unit {0}) × Db
    → Result SqlError LimitDecision × Db
reserved_decision lim tenant request_id total estimated (raise e, db) = (raise e, db)
reserved_decision lim tenant request_id total estimated (ok _, db) = (
  ok (record {
    allowed = true;
    used_tokens = total + estimated;
    limit = lim.limit;
    reservation =
        some (record { request_id = request_id; tenant = tenant; estimated_tokens = estimated });
    retry_after = none;
  }),
  db,
)

-- `body` of `check_and_reserve`
unfoldable pub admit :
    RateLimiter → ℕ → String → String → ℕ → Db → Result SqlError LimitDecision × Db
admit lim now request_id tenant estimated db =
    let kept = (evict lim now db).1 in
    let total = used lim tenant now kept in
    if ltb lim.limit (total + estimated)
    then (
      ok (record {
        allowed = false;
        used_tokens = total;
        limit = lim.limit;
        reservation = none;
        retry_after = some (retry_after lim tenant now estimated kept);
      }),
      kept,
    )
    else reserved_decision lim tenant request_id total estimated
        (insert_reserved tenant request_id estimated now kept)

unfoldable pub check_and_reserve :
    RateLimiter → ℕ → String → String → ℕ → Db → Result SqlError LimitDecision × Db
unfolding admit transaction
check_and_reserve lim now request_id tenant estimated =
    transaction (admit lim now request_id tenant estimated)

-- `UPDATE token_usage SET tokens = ?, state = 'settled' WHERE request_id = ?`
unfoldable pub settle_row : String → ℕ → Row → Row
settle_row request_id actual r =
    if has_request request_id r then record r { tokens = actual; state = settled } else r

unfoldable pub settle : Reservation → ℕ → Db → Db
unfolding settle_row
settle res actual = map (settle_row res.request_id actual)

-- `DELETE FROM token_usage WHERE request_id = ?`
unfoldable pub release : Reservation → Db → Db
release res = select (λ r. not (has_request res.request_id r))

-- `usage`: what `GET /v1/usage` reads.
unfoldable pub usage : RateLimiter → ℕ → String → Db → ℕ
unfolding used
usage lim now tenant db = used lim tenant now db

-- `row_count`
unfoldable pub row_count : Db → ℕ
row_count db = length db
