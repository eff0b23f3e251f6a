-- ===== src/Guardrail/Redactor/Spans/Floor.antt =====
-- What `validate_min_length` saves: llm-gateway-guardrail/src/llm_guardrail/redactor.py, `_validated_end`, with the
-- detector that sets it, `CREDIT_CARD` of llm-gateway-guardrail/src/llm_guardrail/patterns.py.
use quilr_ai_mcp.Prelude.{
  ℕ, zero, suc, ◌+◌, ◌-◌, ◌≤◌, ◌<◌, max, ◌≡◌, refl, true, Option, none, List, [], ◌∷◌, arith, leb,
  length, Option-cases, Bool-cases, inl, inr,
}
use quilr_ai_mcp.Prelude.Text.{slice}
use quilr_ai_mcp.Prelude.Text.Slices.{length-slice}
use quilr_ai_mcp.Guardrail.Luhn.{numbers_of, luhn_valid}
use quilr_ai_mcp.Guardrail.Patterns.{Pattern, accepts}
use quilr_ai_mcp.Guardrail.Patterns.Detectors.{UnicodeData, Engine, credit_card}
use quilr_ai_mcp.Guardrail.Redactor.{back_off, validated_end}
use quilr_ai_mcp.Guardrail.Redactor.Matching.{IsEngine}

length-numbers_of :
    (digit_of : ℕ → Option ℕ) (text : List ℕ) → length (numbers_of digit_of text) ≤ length text
unfolding numbers_of
length-numbers_of digit_of [] = omega arith
length-numbers_of digit_of (c ∷ cs) = ground (arith, length-numbers_of digit_of cs)

-- The checksum accepts no text of fewer than thirteen characters.
luhn_valid-length :
    (digit_of : ℕ → Option ℕ) (text : List ℕ) → luhn_valid digit_of text ≡ true → 13 ≤ length text
unfolding luhn_valid
luhn_valid-length digit_of text h = ground (arith, h, length-numbers_of digit_of text)

module _ (p : Pattern) (engine : IsEngine p) (text : List ℕ) (least : ℕ)
    (enough : (t : List ℕ) → accepts p t ≡ true → least ≤ length t) where
  -- No candidate that ends before the floor is accepted.
  back_off_below :
      (fuel s floor finish : ℕ) → finish < s + least → back_off fuel p text s floor finish ≡ none
  unfolding back_off
  back_off_below zero s floor finish h = refl
  back_off_below (suc fuel) s floor finish h = elim (Option-cases (p.match_within text s finish)) [
    | inl lost ↦ ground (arith, lost)
    | inr (k, found) ↦
        let (low, high, m) = engine.matched text s finish k found in
        elim (Bool-cases (accepts p (slice s k text))) [
          | inl fits ↦
              absurd
                (omega (arith, enough (slice s k text) fits, length-slice s k text, low, high, h))
          | inr refused ↦
              ground (
                arith,
                found,
                refused,
                back_off_below fuel s floor (k - 1) (omega (arith, h, high)),
              )
        ]
  ]

  back_off_floor :
      (fuel s finish : ℕ)
      → back_off fuel p text s (s + max least 1) finish ≡ back_off fuel p text s (s + 1) finish
  unfolding back_off
  back_off_floor zero s finish = refl
  back_off_floor (suc fuel) s finish = elim (Bool-cases (leb (s + max least 1) finish)) [
    | inr below ↦ ground (arith, below, back_off_below (suc fuel) s (s + 1) finish)
    | inl reached ↦ elim (Option-cases (p.match_within text s finish)) [
      | inl lost ↦ ground (arith, reached, lost)
      | inr (k, found) ↦ ground (arith, reached, found, back_off_floor fuel s (k - 1))
    ]
  ]

-- The floor of the credit card detector loses no detection: where the engine finds matches of its
-- expression, `_validated_end` gives what backing off down to a single character would give.
pub validated_end_floor :
    (u : UnicodeData) (engine : Engine) (text : List ℕ) (s finish : ℕ)
    → IsEngine (credit_card u engine)
    → validated_end (credit_card u engine) text s finish
      ≡ back_off (suc finish) (credit_card u engine) text s (s + 1) finish
unfolding validated_end accepts
validated_end_floor u engine text s finish is =
    back_off_floor (credit_card u engine) is text 13 (λ t h. luhn_valid-length u.digit_of t h)
      (suc finish) s finish
