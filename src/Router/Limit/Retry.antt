-- ===== src/Router/Limit/Retry.antt =====
-- What a client that obeys `retry_after` meets: the wait is enough, and no shorter one is.
use quilr_ai_mcp.Prelude.{ℕ, ◌+◌, ◌≤◌, ◌<◌, ◌≡◌, refl, String, true, false, some, ok, arith, ap}
use quilr_ai_mcp.Router.Store.{Db}
use quilr_ai_mcp.Router.Limit.{RateLimiter, LimitDecision, used, check_and_reserve, evict}
use quilr_ai_mcp.Router.Limit.Window.{used-evict, evict_fresh, IsFresh}
use quilr_ai_mcp.Router.Limit.Admission.{
  check_and_reserve-admitted, check_and_reserve-rejected, admitted, refused,
}
use quilr_ai_mcp.Router.Limit.RetryAfter.{retry_after-suffices, retry_after_least}

module _ (lim : RateLimiter) (now : ℕ) (request_id again tenant : String) (estimated : ℕ) (db : Db)
    (d : LimitDecision) (wait : ℕ) (fits : estimated ≤ lim.limit)
    (returned : (check_and_reserve lim now request_id tenant estimated db).0 ≡ ok d)
    (refusal : d.retry_after ≡ some wait) where
  abbrev left : Db
  left = (evict lim now db).1

  over_left : lim.limit < used lim tenant now left + estimated
  over_left = omega (
    arith,
    (refused lim now request_id tenant estimated db d wait returned refusal).0,
    used-evict lim tenant now now db (omega arith),
  )

  -- A request that could fit and is refused with a wait is admitted after exactly that wait, under a
  -- new id, if nothing else happens in between.
  pub check_and_reserve_retry :
      IsFresh again db
      → (e : LimitDecision) × ((check_and_reserve lim
            (now + wait)
            again
            tenant
            estimated
            (check_and_reserve lim now request_id tenant estimated db).1).0
          ≡ ok e)
        × (e.allowed ≡ true)
  check_and_reserve_retry fresh =
      let (over, same, after) =
        refused lim now request_id tenant estimated db d wait returned refusal in
      let later : ℕ = now + wait in
      (
        admitted lim later again tenant estimated left,
        rw after (
            ap (λ p. p.0)
              (check_and_reserve-admitted lim later again tenant estimated left
                (evict_fresh lim again later left (evict_fresh lim again now db fresh))
                (rw same (retry_after-suffices lim tenant now estimated left fits over_left)))),
        refl,
      )

  -- On the table that a refused call leaves, so if nothing else happens in between, the same request is
  -- refused at any moment before the reported wait is over.
  pub check_and_reserve_too_early :
      (t : ℕ)
      → now ≤ t
      → t < now + wait
      → (e : LimitDecision) × ((check_and_reserve lim t again tenant estimated
            (check_and_reserve lim now request_id tenant estimated db).1).0
          ≡ ok e)
        × (e.allowed ≡ false)
  check_and_reserve_too_early t ge early =
      let (over, same, after) =
        refused lim now request_id tenant estimated db d wait returned refusal in
      let (e, result, denied, _, _) = check_and_reserve-rejected lim t again tenant estimated left (
        retry_after_least lim tenant now estimated left fits over_left t ge
          (omega (arith, same))) in
      (e, rw after (ap (λ p. p.0) result), denied)
