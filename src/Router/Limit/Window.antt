-- ===== src/Router/Limit/Window.antt =====
-- The sum over the window: what eviction, settling, releasing and the passing of time do to it.
use quilr_ai_mcp.Prelude.{
  ℕ, ◌+◌, ◌-◌, ◌≤◌, ◌≡◌, refl, String, false, [], ◌∷◌, ◌++◌, arith, any, if◌then◌else◌, eq_iff,
  str_eq,
}
use quilr_ai_mcp.Router.Store.{Row, Db}
use quilr_ai_mcp.Router.Limit.{
  RateLimiter, Reservation, is_counted, evict, used, settle, release, has_request,
}

-- What a settlement charges a tenant above what the request's rows hold.
abbrev pub overrun : String → Reservation → ℕ → Db → ℕ
overrun tenant res actual [] = 0
overrun tenant res actual (r ∷ db) =
    (if has_request res.request_id r
      then if str_eq r.tenant tenant then actual - r.tokens else 0
      else 0)
    + overrun tenant res actual db

module _ (lim : RateLimiter) (tenant : String) where
  -- One row at a time, which the proofs recur on.
  pub used-cons :
      (t : ℕ) (r : Row) (db : Db)
      → used lim tenant t (r ∷ db)
        ≡ (if is_counted lim tenant t r then r.tokens else 0) + used lim tenant t db
  unfolding used
  used-cons t r db = ground (arith, eq_iff r.tenant tenant)

  pub used-nil : (t : ℕ) → used lim tenant t [] ≡ 0
  unfolding used
  used-nil t = refl

  pub used-append :
      (t : ℕ) (xs ys : Db)
      → used lim tenant t (xs ++ ys) ≡ used lim tenant t xs + used lim tenant t ys
  used-append t [] ys = rw used-nil (omega arith)
  used-append t (r ∷ xs) ys =
      ground (arith, used-cons t r (xs ++ ys), used-cons t r xs, used-append t xs ys)

  -- Time only takes rows out of the window.
  pub used_antitone : (t u : ℕ) (db : Db) → t ≤ u → used lim tenant u db ≤ used lim tenant t db
  unfolding used
  used_antitone t u [] h = omega arith
  used_antitone t u (r ∷ db) h = ground (arith, used_antitone t u db h)

  -- Eviction deletes nothing that any later sum would count.
  pub used-evict :
      (t u : ℕ) (db : Db) → t ≤ u → used lim tenant u (evict lim t db).1 ≡ used lim tenant u db
  unfolding used evict
  used-evict t u [] h = refl
  used-evict t u (r ∷ db) h = ground (arith, used-evict t u db h)

  -- What releasing a request gives back, it gives back to its tenant's window only.
  pub used-release-le :
      (res : Reservation) (t : ℕ) (db : Db)
      → used lim tenant t (release res db) ≤ used lim tenant t db
  unfolding used release
  used-release-le res t [] = omega arith
  used-release-le res t (r ∷ db) = ground (arith, used-release-le res t db)

  pub used-settle-le :
      (res : Reservation) (actual t : ℕ) (db : Db)
      → used lim tenant t (settle res actual db)
        ≤ used lim tenant t db + overrun tenant res actual db
  unfolding used settle
  used-settle-le res actual t [] = omega arith
  used-settle-le res actual t (r ∷ db) = ground (arith, used-settle-le res actual t db)

-- A request that is not in the table.
abbrev pub IsFresh : String → Db → Type 0
IsFresh request_id db = any (has_request request_id) db ≡ false

pub release_fresh : (res : Reservation) (db : Db) → IsFresh res.request_id db → release res db ≡ db
unfolding release
release_fresh res [] h = refl
release_fresh res (r ∷ db) h = ground (arith, release_fresh res db)

pub settle_fresh :
    (res : Reservation) (actual : ℕ) (db : Db)
    → IsFresh res.request_id db
    → settle res actual db ≡ db
unfolding settle
settle_fresh res actual [] h = refl
settle_fresh res actual (r ∷ db) h = ground (arith, settle_fresh res actual db)

pub release-append :
    (res : Reservation) (xs ys : Db) → release res (xs ++ ys) ≡ release res xs ++ release res ys
unfolding release
release-append res [] ys = refl
release-append res (r ∷ xs) ys = ground (arith, release-append res xs ys)

pub settle-append :
    (res : Reservation) (actual : ℕ) (xs ys : Db)
    → settle res actual (xs ++ ys) ≡ settle res actual xs ++ settle res actual ys
unfolding settle
settle-append res actual [] ys = refl
settle-append res actual (r ∷ xs) ys = ground (arith, settle-append res actual xs ys)

pub evict_fresh :
    (lim : RateLimiter) (request_id : String) (now : ℕ) (db : Db)
    → IsFresh request_id db
    → IsFresh request_id (evict lim now db).1
unfolding evict
evict_fresh lim request_id now [] h = refl
evict_fresh lim request_id now (r ∷ db) h = ground (arith, evict_fresh lim request_id now db)
