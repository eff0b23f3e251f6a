-- ===== src/Guardrail/Redactor/Spans/Fuel.antt =====
-- The loops of `_redact` and `_validated_end` end by themselves:
-- llm-gateway-guardrail/src/llm_guardrail/redactor.py.
use quilr_ai_mcp.Prelude.{
  ℕ, zero, suc, ◌+◌, ◌-◌, ◌≤◌, ◌<◌, ◌≡◌, refl, sym, Bool, List, ◌++◌, arith, ltb, length,
  Option-cases, inl, inr, if◌then◌else◌,
}
use quilr_ai_mcp.Prelude.Text.{drop, slice}
use quilr_ai_mcp.Guardrail.Patterns.{Pattern}
use quilr_ai_mcp.Guardrail.Redactor.{
  RedactionStats, RedactorConfig, count_match, back_off, Found, exhausted, skipped, replaced,
  find_next, redact_from,
}
use quilr_ai_mcp.Guardrail.Redactor.Matching.{IsEngine, IsFound, find_next-IsFound}

-- Backing off takes at least one character off the candidate in each round.
pub back_off_fuel :
    (p : Pattern) (text : List ℕ) (f g s floor finish : ℕ)
    → IsEngine p
    → 0 < floor
    → finish < f
    → finish < g
    → back_off f p text s floor finish ≡ back_off g p text s floor finish
unfolding back_off
back_off_fuel p text zero g s floor finish engine pos hf hg = absurd (omega arith)
back_off_fuel p text (suc f) zero s floor finish engine pos hf hg = absurd (omega arith)
back_off_fuel p text (suc f) (suc g) s floor finish engine pos hf hg =
    elim (Option-cases (p.match_within text s finish)) [
      | inl lost ↦ ground (arith, lost)
      | inr (k, found) ↦
          let bounds = engine.matched text s finish k found in
          ground (arith, found, bounds, back_off_fuel p text f g s floor (k - 1) engine pos)
    ]

module _ (c : RedactorConfig) (p : Pattern) (engine : IsEngine p) (protect_tail : Bool)
    (text : List ℕ) where
  find_next-exhausted :
      (from : ℕ) → length text + 2 ≤ from → find_next p protect_tail text from ≡ exhausted
  unfolding find_next
  find_next-exhausted from h = ground arith

  redact_from-past :
      (g position from : ℕ) (stats : RedactionStats)
      → length text + 2 ≤ from
      → redact_from g c p protect_tail text position from stats ≡ (drop position text, stats)
  unfolding redact_from
  redact_from-past zero position from stats h = refl
  redact_from-past (suc g) position from stats h = rw (find_next-exhausted from h, redact_from) refl

  -- Where the engine keeps to its bounds, each round of the loop searches further on, so that any fuel
  -- past the rest of the text gives the same result as any other: the loop ends by its own test.
  pub redact_from_fuel :
      (f g position from : ℕ) (stats : RedactionStats)
      → length text + 2 ≤ f + from
      → length text + 2 ≤ g + from
      → redact_from f c p protect_tail text position from stats
        ≡ redact_from g c p protect_tail text position from stats
  unfolding redact_from
  redact_from_fuel zero g position from stats hf hg =
      sym (redact_from-past g position from stats (omega (arith, hf)))
  redact_from_fuel (suc f) zero position from stats hf hg =
      redact_from-past (suc f) position from stats (omega (arith, hg))
  redact_from_fuel (suc f) (suc g) position from stats hf hg =
      go (find_next p protect_tail text from) (find_next-IsFound p engine text protect_tail from)
        (λ position' from' stats' lt.
          redact_from_fuel f g position' from' stats' (omega (arith, hf, lt))
            (omega (arith, hg, lt)))
    where
      run : ℕ → Found → List ℕ × RedactionStats
      run fuel exhausted = (drop position text, stats)
      run fuel (skipped next) = redact_from fuel c p protect_tail text position next stats
      run fuel (replaced start e) =
          let (rest, stats') =
            redact_from fuel c p protect_tail text e (if ltb start e then e else start + 1)
              (count_match p.name stats) in
          (slice position start text ++ c.placeholder ++ rest, stats')

      go :
          (found : Found)
          → IsFound p engine text from found
          → ((position' from' : ℕ) (stats' : RedactionStats)
              → from < from'
              → redact_from f c p protect_tail text position' from' stats'
                ≡ redact_from g c p protect_tail text position' from' stats')
          → run f found ≡ run g found
      go exhausted _ more = refl
      go (skipped next) (lt, _) more = more position next stats lt
      go (replaced s e) (low, le, high, _, _) more =
          rw
            (more e (if ltb s e then e else s + 1) (count_match p.name stats)
              (ground (arith, low, le)))
            refl
