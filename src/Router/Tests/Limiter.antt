-- ===== src/Router/Tests/Limiter.antt =====
-- Runs of the router's model on concrete inputs, and instances of its theorems.
use quilr_ai_mcp.Prelude.{
  ℕ, ◌+◌, ◌≤◌, ◌≡◌, refl, String, true, false, none, some, [], ◌∷◌, ok, arith,
}
use quilr_ai_mcp.Router.Store.{Row, Db, reserved, finish, transaction}
use quilr_ai_mcp.Router.Limit.{
  RateLimiter, Reservation, LimitDecision, evict, sum_tokens, used, insert_by_age, order_by_age,
  first_enough, retry_after, insert_reserved, admit, check_and_reserve, settle_row, settle, release,
}
use quilr_ai_mcp.Router.Limit.Window.{overrun}
use quilr_ai_mcp.Router.Limit.Admission.{
  Outcome, check_and_reserve-Outcome, release-check_and_reserve, used-settle-check_and_reserve,
}
use quilr_ai_mcp.Router.Limit.Retry.{check_and_reserve_retry, check_and_reserve_too_early}
use quilr_ai_mcp.Router.Limit.Schedule.{
  Moment, Run, start, extend, reserves, settles, Run-used-le-limit,
}

-- Names every function that a run of the limiter calls.
unfoldable pub limiter_program : Unit {0}
unfolding evict sum_tokens used insert_by_age order_by_age first_enough retry_after insert_reserved
    admit check_and_reserve settle_row settle release transaction finish
limiter_program = tt

abbrev pub lim : RateLimiter
lim = record { limit = 100; window = 60 }

abbrev pub row : String → String → ℕ → ℕ → Row
row tenant request_id tokens created_at = record {
  tenant = tenant;
  request_id = request_id;
  tokens = tokens;
  created_at = created_at;
  state = reserved;
}

-- The older row leaves the window at 65, the newer at 70.
abbrev pub busy : Db
busy = row "alpha" "r2" 50 10 ∷ row "alpha" "r1" 30 5 ∷ row "beta" "r3" 99 7 ∷ []

used-busy : used lim "alpha" 64 busy ≡ 80
unfolding limiter_program
used-busy = refl

retry_after-busy : retry_after lim "alpha" 20 45 busy ≡ 45
unfolding limiter_program
retry_after-busy = refl

abbrev refusal : LimitDecision
refusal = record {
  allowed = false;
  used_tokens = 80;
  limit = 100;
  reservation = none;
  retry_after = some 45;
}

refused_busy : (check_and_reserve lim 20 "r4" "alpha" 45 busy).0 ≡ ok refusal
unfolding limiter_program
refused_busy = refl

check_and_reserve-Outcome_example :
    Outcome lim 20 "r4" "alpha" 15 busy (check_and_reserve lim 20 "r4" "alpha" 15 busy)
check_and_reserve-Outcome_example =
    check_and_reserve-Outcome lim 20 "r4" "alpha" 15 busy (omega arith)

check_and_reserve_retry_example :
    (e : LimitDecision) × ((check_and_reserve lim
        (20 + 45)
        "r5"
        "alpha"
        45
        (check_and_reserve lim 20 "r4" "alpha" 45 busy).1).0
      ≡ ok e)
    × (e.allowed ≡ true)
check_and_reserve_retry_example =
    check_and_reserve_retry lim 20 "r4" "r5" "alpha" 45 busy refusal 45 (omega arith) refused_busy
      refl refl

check_and_reserve_too_early_example :
    (e : LimitDecision) × ((check_and_reserve lim 64 "r5" "alpha" 45
        (check_and_reserve lim 20 "r4" "alpha" 45 busy).1).0
      ≡ ok e)
    × (e.allowed ≡ false)
check_and_reserve_too_early_example =
    check_and_reserve_too_early lim 20 "r4" "r5" "alpha" 45 busy refusal 45 (omega arith)
      refused_busy refl 64 (omega arith) (omega arith)

abbrev first : Reservation
first = record { request_id = "r4"; tenant = "alpha"; estimated_tokens = 15 }

release-check_and_reserve_example :
    release first (check_and_reserve lim 20 "r4" "alpha" 15 busy).1 ≡ busy
unfolding limiter_program
release-check_and_reserve_example =
    release-check_and_reserve lim 20 "r4" "alpha" 15 busy refl (omega arith)

used-settle-check_and_reserve_example :
    used lim "alpha" 30 (settle first 12 (check_and_reserve lim 20 "r4" "alpha" 15 busy).1)
    ≡ 80 + 12
unfolding limiter_program
used-settle-check_and_reserve_example =
    used-settle-check_and_reserve lim 20 "r4" "alpha" 15 busy 12 "alpha" 30 refl (omega arith)
      (omega arith)

abbrev reserved_once : Moment
reserved_once = record {
  now = 5;
  db = (check_and_reserve lim 5 "r4" "alpha" 15 []).1;
  excess = λ _. 0;
}

-- The response has used five tokens more than were reserved.
abbrev settled_once : Moment
settled_once = record {
  now = 9;
  db = settle first 20 reserved_once.db;
  excess = λ tenant. 0 + overrun tenant first 20 reserved_once.db;
}

settled_once-overrun : settled_once.excess "alpha" ≡ 5
unfolding limiter_program
settled_once-overrun = refl

settled_once-Run : Run lim (record { now = 0; db = []; excess = λ _. 0 }) settled_once
settled_once-Run =
    extend (settles 9 first 20 (omega arith))
      (extend (reserves 5 "r4" "alpha" 15 (omega arith)) start)

Run-used-le-limit_example : used lim "alpha" 40 settled_once.db ≤ 100 + settled_once.excess "alpha"
Run-used-le-limit_example =
    Run-used-le-limit lim "alpha" 40 (omega arith) settled_once-Run (omega arith)
