-- ===== src/Router/Limit/Schedule.antt =====
-- The limiter under any interleaving: the store's lock makes each transaction one step, so a run is
-- a sequence of admissions, settlements and releases of any number of requests, at times that do
-- not go back.
use quilr_ai_mcp.Prelude.{
  ℕ, ◌+◌, ◌≤◌, ◌<◌, ◌≡◌, String, [], arith, Result, ok, raise, inl, inr, Bool-cases, str_eq, eq_iff,
}
use quilr_ai_mcp.Router.Store.{Db, SqlError}
use quilr_ai_mcp.Router.Limit.{
  RateLimiter, Reservation, LimitDecision, used, settle, release, check_and_reserve,
}
use quilr_ai_mcp.Router.Limit.Window.{
  used_antitone, used-release-le, used-settle-le, used-nil, overrun,
}
use quilr_ai_mcp.Router.Limit.Admission.{
  check_and_reserve-Outcome, check_and_reserve-other, Outcome,
}

-- The table, the time of the last step, and what the settlements so far have charged each tenant above what
-- was reserved.
pub record Moment : Type 0 where
  pub now : ℕ
  pub db : Db
  pub excess : String → ℕ

module _ (lim : RateLimiter) where
  -- One transaction of one request. A settlement may charge more than was reserved.
  pub data Step (m : Moment) : Moment → Type 0 where
    reserves :
        (t : ℕ) (request_id tenant : String) (estimated : ℕ)
        → m.now ≤ t
        → Step m (record {
          now = t;
          db = (check_and_reserve lim t request_id tenant estimated m.db).1;
          excess = m.excess;
        })
    settles :
        (t : ℕ) (res : Reservation) (actual : ℕ)
        → m.now ≤ t
        → Step m (record {
          now = t;
          db = settle res actual m.db;
          excess = λ tenant. m.excess tenant + overrun tenant res actual m.db;
        })
    releases :
        (t : ℕ) (res : Reservation)
        → m.now ≤ t
        → Step m (record { now = t; db = release res m.db; excess = m.excess })

  pub data Run (m : Moment) : Moment → Type 0 where
    start : Run m m
    extend : {n o : Moment} → Step n o → Run m n → Run m o

  -- No tenant's window is over the limit by more than its overruns, at the time of the last step.
  abbrev pub IsBounded : Moment → Type 0
  IsBounded m = (tenant : String) → used lim tenant m.now m.db ≤ lim.limit + m.excess tenant

  Outcome-bounded :
      (t : ℕ) (request_id tenant : String) (estimated : ℕ) (db : Db)
      (r : Result SqlError LimitDecision × Db) (excess : ℕ)
      → Outcome lim t request_id tenant estimated db r
      → used lim tenant t db ≤ lim.limit + excess
      → used lim tenant t r.1 ≤ lim.limit + excess
  Outcome-bounded t request_id tenant estimated db (ok d, after) excess h le = ground arith
  Outcome-bounded t request_id tenant estimated db (raise e, after) excess h le = rw h le

  reserves-IsBounded :
      (t : ℕ) (request_id tenant : String) (estimated : ℕ) (m : Moment) (other : String)
      → 0 < lim.window
      → m.now ≤ t
      → used lim other m.now m.db ≤ lim.limit + m.excess other
      → used lim other t (check_and_reserve lim t request_id tenant estimated m.db).1
        ≤ lim.limit + m.excess other
  reserves-IsBounded t request_id tenant estimated m other h ge le =
      let le' : used lim other t m.db ≤ lim.limit + m.excess other =
        omega (arith, used_antitone lim other m.now t m.db ge) in
      elim (Bool-cases (str_eq other tenant)) [
        | inl e ↦
            let same : other ≡ tenant = (eq_iff other tenant).0 e in
            rw same (
              Outcome-bounded t request_id tenant estimated m.db _ _
                (check_and_reserve-Outcome lim t request_id tenant estimated m.db h)
                (rw same at le'))
        | inr e ↦
            rw
              (check_and_reserve-other lim t request_id tenant estimated m.db other t
                (λ same. cc ((eq_iff other tenant).1 same)) (omega arith))
              le'
      ]

  Step-IsBounded : {m n : Moment} → 0 < lim.window → Step m n → IsBounded m → IsBounded n
  Step-IsBounded {m} h (reserves t request_id tenant estimated ge) b other =
      reserves-IsBounded t request_id tenant estimated m other h ge (b other)
  Step-IsBounded {m} h (settles t res actual ge) b other = omega (
    arith,
    b other,
    used-settle-le lim other res actual t m.db,
    used_antitone lim other m.now t m.db ge,
  )
  Step-IsBounded {m} h (releases t res ge) b other = omega (
    arith,
    b other,
    used-release-le lim other res t m.db,
    used_antitone lim other m.now t m.db ge,
  )

  Run-IsBounded : {m n : Moment} → 0 < lim.window → Run m n → IsBounded m → IsBounded n
  Run-IsBounded h start b = b
  Run-IsBounded h (extend s r) b = Step-IsBounded h s (Run-IsBounded h r b)

  -- From an empty table, whatever the interleaving of admissions, settlements and releases, the tokens
  -- counted for a tenant in the window that ends at any moment from the last step on exceed the limit by
  -- no more than what settlements have charged that tenant above what its requests had reserved.
  pub Run-used-le-limit :
      {t0 : ℕ} {m : Moment} (tenant : String) (t : ℕ)
      → 0 < lim.window
      → Run (record { now = t0; db = []; excess = λ _. 0 }) m
      → m.now ≤ t
      → used lim tenant t m.db ≤ lim.limit + m.excess tenant
  Run-used-le-limit {t0} {m} tenant t h r ge = omega (
    arith,
    used_antitone lim tenant m.now t m.db ge,
    Run-IsBounded h r (λ other. omega (arith, used-nil lim other t0)) tenant,
  )
