-- ===== src/Router/Limit/Admission.antt =====
-- `check_and_reserve` against its contract: when it admits, what it records, and what a settled or
-- released reservation leaves behind.
use quilr_ai_mcp.Prelude.{
  ℕ, ◌+◌, ◌≤◌, ◌<◌, ◌≡◌, refl, ◌≢◌, ◌⊎◌, String, true, false, none, some, [], ◌∷◌, ◌++◌, Result, ok,
  raise, arith, any, if◌then◌else◌, eq_iff, eq_refl,
}
use mathlib.Core.List.{append-nil}
use quilr_ai_mcp.Router.Store.{Row, Db, reserved, SqlError}
use quilr_ai_mcp.Router.Limit.{
  RateLimiter, Reservation, LimitDecision, is_counted, evict, used, settle, release, has_request,
  retry_after, insert_reserved, check_and_reserve,
}
use quilr_ai_mcp.Router.Limit.Window.{
  used-nil, used-cons, used-append, used-evict, IsFresh, release_fresh, settle_fresh,
  release-append, settle-append,
}

-- The row of an admitted request.
abbrev pub reserved_row : String → String → ℕ → ℕ → Row
reserved_row tenant request_id estimated now = record {
  tenant = tenant;
  request_id = request_id;
  tokens = estimated;
  created_at = now;
  state = reserved;
}

module _ (lim : RateLimiter) (now : ℕ) (request_id tenant : String) (estimated : ℕ) (db : Db) where
  abbrev kept : Db
  kept = (evict lim now db).1

  -- What the admitted request adds to a tenant's window at time `t`.
  abbrev pub charge : String → ℕ → ℕ → ℕ
  charge other amount t =
      if is_counted lim other t (reserved_row tenant request_id amount now) then amount else 0

  pub used-reserved :
      (other : String) (t : ℕ)
      → now ≤ t
      → used lim other t (kept ++ reserved_row tenant request_id estimated now ∷ [])
        ≡ used lim other t db + charge other estimated t
  used-reserved other t h =
      let row = reserved_row tenant request_id estimated now in
      rw used-append (
        omega (
          arith,
          used-evict lim other now t db h,
          used-cons lim other t row [],
          used-nil lim other t,
        ))

  abbrev pub admitted : LimitDecision
  admitted = record {
    allowed = true;
    used_tokens = used lim tenant now db + estimated;
    limit = lim.limit;
    reservation =
        some (record { request_id = request_id; tenant = tenant; estimated_tokens = estimated });
    retry_after = none;
  }

  -- A fresh request that fits is admitted, and its row is the one change to the evicted table.
  pub check_and_reserve-admitted :
      IsFresh request_id kept
      → used lim tenant now db + estimated ≤ lim.limit
      → check_and_reserve lim now request_id tenant estimated db
        ≡ (ok admitted, kept ++ reserved_row tenant request_id estimated now ∷ [])
  unfolding check_and_reserve insert_reserved
  check_and_reserve-admitted fresh fits =
      ground (arith, used-evict lim tenant now now db (omega arith))

  -- A request that does not fit leaves the evicted table, whoever asks.
  pub check_and_reserve-rejected :
      lim.limit < used lim tenant now db + estimated
      → (d : LimitDecision) × (check_and_reserve lim now request_id tenant estimated db
          ≡ (ok d, kept))
        × (d.allowed ≡ false)
        × (d.reservation ≡ none)
        × (d.used_tokens ≡ used lim tenant now db)
  unfolding check_and_reserve
  check_and_reserve-rejected over = (
    record {
      allowed = false;
      used_tokens = used lim tenant now db;
      limit = lim.limit;
      reservation = none;
      retry_after = some (retry_after lim tenant now estimated kept);
    },
    ground (arith, used-evict lim tenant now now db (omega arith)),
    refl,
    refl,
    refl,
  )

  -- An id that is in the table already raises, and the transaction rolls everything back.
  pub check_and_reserve-duplicate :
      any (has_request request_id) kept ≡ true
      → used lim tenant now db + estimated ≤ lim.limit
      → check_and_reserve lim now request_id tenant estimated db
        ≡ (raise SqlError.integrity_error, db)
  unfolding check_and_reserve insert_reserved
  check_and_reserve-duplicate taken fits =
      ground (arith, used-evict lim tenant now now db (omega arith))

  -- A reported wait means that the request was refused, on the table that is left.
  pub refused :
      (d : LimitDecision) (wait : ℕ)
      → (check_and_reserve lim now request_id tenant estimated db).0 ≡ ok d
      → d.retry_after ≡ some wait
      → (lim.limit < used lim tenant now db + estimated)
        × (wait ≡ retry_after lim tenant now estimated kept)
        × ((check_and_reserve lim now request_id tenant estimated db).1 ≡ kept)
  unfolding check_and_reserve insert_reserved
  refused d wait r w = ground (arith, used-evict lim tenant now now db (omega arith))

  -- The reservation that an admitted request holds.
  abbrev pub reservation : Reservation
  reservation = record { request_id = request_id; tenant = tenant; estimated_tokens = estimated }

  -- The window of every tenant after a call: an admitted request is counted in full and stays within
  -- the limit, a rejected one would have passed the limit, and a raise changes nothing.
  abbrev pub Outcome : Result SqlError LimitDecision × Db → Type 0
  Outcome (ok d, after) =
      (d.used_tokens ≡ used lim tenant now after)
      × (d.limit ≡ lim.limit)
      × (((d.allowed ≡ true)
            × (d.reservation ≡ some reservation)
            × (used lim tenant now after ≡ used lim tenant now db + estimated)
            × (used lim tenant now after ≤ lim.limit))
          ⊎ ((d.allowed ≡ false)
              × (d.reservation ≡ none)
              × (used lim tenant now after ≡ used lim tenant now db)
              × (lim.limit < used lim tenant now db + estimated)))
  Outcome (raise e, after) = after ≡ db

  used-kept : used lim tenant now kept ≡ used lim tenant now db
  used-kept = used-evict lim tenant now now db (omega arith)

  charge_own : 0 < lim.window → charge tenant estimated now ≡ estimated
  charge_own h = ground (arith, eq_iff tenant tenant)

  -- In a window of positive length, an admission check that does not raise reports the tenant's usage
  -- as it is afterwards, together with the limit. An admitted request is counted in full, its usage is
  -- within the limit and it holds a reservation. A refused one holds none, leaves the usage as it was,
  -- and would have passed the limit. A check that raises changes nothing.
  pub check_and_reserve-Outcome :
      0 < lim.window → Outcome (check_and_reserve lim now request_id tenant estimated db)
  unfolding check_and_reserve insert_reserved
  check_and_reserve-Outcome h =
      ground (arith, used-kept, charge_own h, used-reserved tenant now (omega arith))

  -- No other tenant's window moves, now or later.
  pub check_and_reserve-other :
      (other : String) (t : ℕ)
      → other ≢ tenant
      → now ≤ t
      → used lim other t (check_and_reserve lim now request_id tenant estimated db).1
        ≡ used lim other t db
  unfolding check_and_reserve insert_reserved
  check_and_reserve-other other t ne h =
      ground (arith, eq_iff tenant other, used-reserved other t h, used-evict lim other now t db h)

  release_own : release reservation (reserved_row tenant request_id estimated now ∷ []) ≡ []
  unfolding release
  release_own = rw (eq_refl request_id)

  -- Releasing the reservation gives back the table from before the insert.
  pub release-check_and_reserve :
      IsFresh request_id kept
      → used lim tenant now db + estimated ≤ lim.limit
      → release reservation (check_and_reserve lim now request_id tenant estimated db).1 ≡ kept
  release-check_and_reserve fresh fits =
      rw
        (
          check_and_reserve-admitted fresh fits,
          release-append,
          release_fresh reservation kept fresh,
        )
        (rw release_own (append-nil kept))

  used-settle_own :
      (actual : ℕ) (other : String) (t : ℕ)
      → used lim other t
          (settle reservation actual (reserved_row tenant request_id estimated now ∷ []))
        ≡ charge other actual t
  unfolding used settle
  used-settle_own actual other t = ground (arith, eq_iff request_id request_id)

  -- Settling replaces the estimate by the actual cost, and leaves the start of the request in place.
  pub used-settle-check_and_reserve :
      (actual : ℕ) (other : String) (t : ℕ)
      → IsFresh request_id kept
      → used lim tenant now db + estimated ≤ lim.limit
      → now ≤ t
      → used lim other t
          (settle reservation actual (check_and_reserve lim now request_id tenant estimated db).1)
        ≡ used lim other t db + charge other actual t
  used-settle-check_and_reserve actual other t fresh fits h =
      rw
        (
          check_and_reserve-admitted fresh fits,
          settle-append,
          settle_fresh reservation actual kept fresh,
          used-append,
        )
        (omega (arith, used-settle_own actual other t, used-evict lim other now t db h))
