-- ===== src/Router/Limit/RetryAfter.antt =====
-- `retry_after` is exact: after that wait the request fits, and at any earlier moment it does not.
use quilr_ai_mcp.Prelude.{
  ℕ, ◌+◌, ◌-◌, ◌≤◌, ◌<◌, ◌≡◌, refl, sym, ap, ◌∙◌, String, List, [], ◌∷◌, arith, leb, select, All,
  if◌then◌else◌, Bool-cases, inl, inr,
}
use quilr_ai_mcp.Router.Store.{Row, Db}
use quilr_ai_mcp.Router.Limit.{
  RateLimiter, is_live, is_counted, used, sum_tokens, insert_by_age, order_by_age, first_enough,
  retry_after,
}

module _ (lim : RateLimiter) where
  -- What rows of one tenant still count at time `t`.
  alive : ℕ → List Row → ℕ
  alive t [] = 0
  alive t (r ∷ rs) = (if is_live lim t r then r.tokens else 0) + alive t rs

  used-alive :
      (tenant : String) (now t : ℕ) (db : Db)
      → now ≤ t
      → used lim tenant t db ≡ alive t (select (is_counted lim tenant now) db)
  unfolding used alive
  used-alive tenant now t [] h = refl
  used-alive tenant now t (r ∷ db) h = ground (arith, used-alive tenant now t db h)

  alive-insert_by_age :
      (t : ℕ) (r : Row) (rs : List Row) → alive t (insert_by_age r rs) ≡ alive t (r ∷ rs)
  unfolding alive insert_by_age
  alive-insert_by_age t r [] = refl
  alive-insert_by_age t r (s ∷ rs) = ground (arith, alive-insert_by_age t r rs)

  alive-order_by_age : (t : ℕ) (rs : List Row) → alive t (order_by_age rs) ≡ alive t rs
  unfolding alive order_by_age
  alive-order_by_age t [] = refl
  alive-order_by_age t (r ∷ rs) =
      omega (arith, alive-insert_by_age t r (order_by_age rs), alive-order_by_age t rs)

  alive-le-sum_tokens : (t : ℕ) (rs : List Row) → alive t rs ≤ sum_tokens rs
  unfolding alive sum_tokens
  alive-le-sum_tokens t [] = omega arith
  alive-le-sum_tokens t (r ∷ rs) = ground (arith, alive-le-sum_tokens t rs)

  -- Oldest first, with each row still in the window at `now`.
  abbrev IsAged : ℕ → List Row → Type 0
  IsAged now [] = Unit
  IsAged now (r ∷ rs) =
      (now < r.created_at + lim.window) × All (λ s. r.created_at ≤ s.created_at) rs × IsAged now rs

  All-insert_by_age :
      (a : ℕ) (r : Row) (rs : List Row)
      → a ≤ r.created_at
      → All (λ s. a ≤ s.created_at) rs
      → All (λ s. a ≤ s.created_at) (insert_by_age r rs)
  unfolding insert_by_age
  All-insert_by_age a r [] h k = (h, tt)
  All-insert_by_age a r (s ∷ rs) h k = ground (arith, All-insert_by_age a r rs h k.1)

  All-le :
      (a b : ℕ) (rs : List Row)
      → a ≤ b
      → All (λ s. b ≤ s.created_at) rs
      → All (λ s. a ≤ s.created_at) rs
  All-le a b [] h k = tt
  All-le a b (s ∷ rs) h k = (omega arith, All-le a b rs h k.1)

  insert_by_age-IsAged :
      (now : ℕ) (r : Row) (rs : List Row)
      → now < r.created_at + lim.window
      → IsAged now rs
      → IsAged now (insert_by_age r rs)
  unfolding insert_by_age
  insert_by_age-IsAged now r [] h k = (h, tt, tt)
  insert_by_age-IsAged now r (s ∷ rs) h k = elim (Bool-cases (leb r.created_at s.created_at)) [
    | inl e ↦ rw e (h, (ground arith, All-le r.created_at s.created_at rs (ground arith) k.1), k)
    | inr e ↦ rw e (
      k.0,
      All-insert_by_age s.created_at r rs (ground arith) k.1,
      insert_by_age-IsAged now r rs h k.2,
    )
  ]

  order_by_age-IsAged :
      (tenant : String) (now : ℕ) (db : Db)
      → IsAged now (order_by_age (select (is_counted lim tenant now) db))
  unfolding order_by_age
  order_by_age-IsAged tenant now [] = tt
  order_by_age-IsAged tenant now (r ∷ db) = elim (Bool-cases (is_counted lim tenant now r)) [
    | inl e ↦ rw e (insert_by_age-IsAged now r _ (ground arith) (order_by_age-IsAged tenant now db))
    | inr e ↦ rw e (order_by_age-IsAged tenant now db)
  ]

  -- Later rows do not end the wait before an earlier one leaves the window.
  first_enough-ge :
      (now short freed a : ℕ) (rs : List Row)
      → now < a + lim.window
      → short ≤ freed + sum_tokens rs
      → freed < short
      → All (λ s. a ≤ s.created_at) rs
      → a + lim.window ≤ now + first_enough lim now short freed rs
  unfolding first_enough sum_tokens
  first_enough-ge now short freed a [] live enough more k = absurd (omega arith)
  first_enough-ge now short freed a (r ∷ rs) live enough more k =
      ground (arith, first_enough-ge now short (freed + r.tokens) a rs, k.1)

  first_enough-frees :
      (now short freed : ℕ) (rs : List Row)
      → short ≤ freed + sum_tokens rs
      → freed < short
      → IsAged now rs
      → alive (now + first_enough lim now short freed rs) rs + short ≤ freed + sum_tokens rs
  unfolding first_enough sum_tokens alive
  first_enough-frees now short freed [] enough more k = absurd (omega arith)
  first_enough-frees now short freed (r ∷ rs) enough more k =
      elim (Bool-cases (leb short (freed + r.tokens))) [
        | inl e ↦ ground (
          arith,
          e,
          k.0,
          alive-le-sum_tokens (now + first_enough lim now short freed (r ∷ rs)) rs,
        )
        | inr e ↦
            (ground (
              arith,
              e,
              first_enough-ge now short (freed + r.tokens) r.created_at rs k.0,
              k.1,
              first_enough-frees now short (freed + r.tokens) rs,
              k.2,
            ))
      ]

  alive_now : (now : ℕ) (rs : List Row) → IsAged now rs → alive now rs ≡ sum_tokens rs
  unfolding alive sum_tokens
  alive_now now [] k = refl
  alive_now now (r ∷ rs) k = ground (arith, k.0, alive_now now rs k.2)

  alive_of_later :
      (t a : ℕ) (rs : List Row)
      → t < a + lim.window
      → All (λ s. a ≤ s.created_at) rs
      → alive t rs ≡ sum_tokens rs
  unfolding alive sum_tokens
  alive_of_later t a [] h k = refl
  alive_of_later t a (r ∷ rs) h k = ground (arith, alive_of_later t a rs h k.1)

  first_enough_least :
      (now short freed t : ℕ) (rs : List Row)
      → short ≤ freed + sum_tokens rs
      → freed < short
      → IsAged now rs
      → t < now + first_enough lim now short freed rs
      → freed + sum_tokens rs < alive t rs + short
  unfolding first_enough sum_tokens alive
  first_enough_least now short freed t [] enough more k early = absurd (omega arith)
  first_enough_least now short freed t (r ∷ rs) enough more k early =
      elim (Bool-cases (leb short (freed + r.tokens))) [
        | inl e ↦ ground (arith, e, k.0, k.1, early, alive_of_later t r.created_at rs)
        | inr e ↦
            ground (arith, e, early, k.2, first_enough_least now short (freed + r.tokens) t rs)
      ]

module _ (lim : RateLimiter) (tenant : String) (now needed : ℕ) (db : Db) where
  total_alive :
      (t : ℕ)
      → now ≤ t
      → used lim tenant t db ≡ alive lim t (order_by_age (select (is_counted lim tenant now) db))
  total_alive t h = rw (used-alive lim tenant now t db h) (sym (alive-order_by_age lim t _))

  module _ (fits : needed ≤ lim.limit) (over : lim.limit < used lim tenant now db + needed) where
    abbrev rows : List Row
    rows = order_by_age (select (is_counted lim tenant now) db)

    total_now : sum_tokens rows ≡ used lim tenant now db
    total_now =
        sym (alive_now lim now rows (order_by_age-IsAged lim tenant now db))
        ∙ sym (total_alive now (omega arith))

    retry_after-first_enough :
        retry_after lim tenant now needed db
        ≡ first_enough lim now ((sum_tokens rows + needed) - lim.limit) 0 rows
    unfolding retry_after
    retry_after-first_enough = ground (arith, total_now)

    -- After the reported wait the request fits.
    pub retry_after-suffices :
        used lim tenant (now + retry_after lim tenant now needed db) db + needed ≤ lim.limit
    retry_after-suffices = omega (
      arith,
      total_now,
      ap (λ w. used lim tenant (now + w) db) retry_after-first_enough,
      total_alive (now + first_enough lim now ((sum_tokens rows + needed) - lim.limit) 0 rows)
          (omega arith),
      first_enough-frees lim now ((sum_tokens rows + needed) - lim.limit) 0 rows
          (omega (arith, total_now)) (omega (arith, total_now))
          (order_by_age-IsAged lim tenant now db),
    )

    -- At any earlier moment it does not.
    pub retry_after_least :
        (t : ℕ)
        → now ≤ t
        → t < now + retry_after lim tenant now needed db
        → lim.limit < used lim tenant t db + needed
    retry_after_least t h early = omega (
      arith,
      total_now,
      retry_after-first_enough,
      total_alive t h,
      first_enough_least lim now ((sum_tokens rows + needed) - lim.limit) 0 t rows
          (omega (arith, total_now)) (omega (arith, total_now))
          (order_by_age-IsAged lim tenant now db) (omega (arith, retry_after-first_enough)),
    )
