-- ===== src/Router/Tokens/Bounds.antt =====
-- The bounds of a reservation and of a charge.
use quilr_ai_mcp.Prelude.{
  Result, ℕ, zero, suc, ◌+◌, ◌≤◌, ◌<◌, ◌≡◌, refl, ap, Option, some, ok, arith, min, ◌>>=◌, raise,
}
use quilr_ai_mcp.Prelude.Int.{pos}
use quilr_ai_mcp.Prelude.Json.{Json, int, obj, Fields, get_field, or_null}
use quilr_ai_mcp.Router.Tokens.{
  PyError, max_reservable_tokens, estimate_input_tokens, max_tokens_of, at_least_minimum,
  minimum_charge, reservation_size, usage_total, actual_tokens,
}

max_tokens_of_pos : (v : Json) → 0 < max_tokens_of v
unfolding max_tokens_of
max_tokens_of_pos (int (pos zero)) = omega arith
max_tokens_of_pos (int (pos (suc n))) = omega arith
max_tokens_of_pos _ = omega arith

held_size :
    (estimate : Result PyError ℕ) (k n : ℕ)
    → (estimate >>= λ m. ok (m + k)) ≡ ok n
    → (m : ℕ) × (estimate ≡ ok m) × (m + k ≡ n)
held_size (ok m) k n h = (m, refl, ground arith)
held_size (raise e) k n h = cc

module _ (dump_len : Json → ℕ) where
  estimate_pos : (body : Fields) (n : ℕ) → estimate_input_tokens dump_len body ≡ ok n → 0 < n
  unfolding estimate_input_tokens
  estimate_pos body n h = ground arith

  -- A reservation holds the whole estimate of the prompt, at least one token of completion, and at
  -- most `max_reservable_tokens` of it.
  pub reservation_size_bounds :
      (body : Fields) (n : ℕ)
      → reservation_size dump_len body ≡ ok n
      → (m : ℕ) × (estimate_input_tokens dump_len body ≡ ok m)
        × (1 ≤ m)
        × (m + 1 ≤ n)
        × (n ≤ m + max_reservable_tokens)
  unfolding reservation_size
  reservation_size_bounds body n h =
      let k : ℕ = max_tokens_of (or_null (get_field "max_tokens" body)) in
      let (m, estimated, same) =
        held_size (estimate_input_tokens dump_len body) (min k max_reservable_tokens) n h in
      (
        m,
        estimated,
        estimate_pos body m estimated,
        omega (arith, max_tokens_of_pos (or_null (get_field "max_tokens" body))),
        omega arith,
      )

  -- A positive `max_tokens` within the cap is held exactly, on top of the estimate.
  pub reservation_size_exact :
      (body : Fields) (k m : ℕ)
      → get_field "max_tokens" body ≡ some (int (pos (suc k)))
      → suc k ≤ max_reservable_tokens
      → estimate_input_tokens dump_len body ≡ ok m
      → reservation_size dump_len body ≡ ok (m + suc k)
  unfolding reservation_size max_tokens_of
  reservation_size_exact body k m given le estimated = rw (estimated, given) (ap ok (omega arith))

at_least_minimum-ge : (o : Option ℕ) (n : ℕ) → at_least_minimum o ≡ some n → minimum_charge ≤ n
at_least_minimum-ge o n h = ground arith

usage_total-ge : (v : Json) (n : ℕ) → usage_total v ≡ some n → minimum_charge ≤ n
unfolding usage_total
usage_total-ge (obj usage) n h = at_least_minimum-ge _ n h
usage_total-ge _ n h = cc

-- A response that reports usage is never free.
pub actual_tokens-ge :
    (body : Option Json) (n : ℕ) → actual_tokens body ≡ some n → minimum_charge ≤ n
unfolding actual_tokens
actual_tokens-ge (some (obj body)) n h = usage_total-ge (or_null (get_field "usage" body)) n h
actual_tokens-ge _ n h = cc
