-- ===== src/Guardrail/Redactor/Spans.antt =====
-- What redaction replaces: llm-gateway-guardrail/src/llm_guardrail/redactor.py, `_redact`.
pub mod Fuel
pub mod Floor
use quilr_ai_mcp.Prelude.{
  ℕ, zero, suc, ◌+◌, ◌-◌, ◌≤◌, ◌<◌, max, ◌≡◌, refl, sym, ap, is_some, ◌⊎◌, ◌∙◌, String, Bool, true,
  false, Option, none, some, List, [], ◌∷◌, ◌++◌, arith, ltb, leb, ◌==◌, ◌&&◌, length, All,
  Bool-cases, Option-cases, inl, inr, if◌then◌else◌, eq_iff, eq_refl,
}
use mathlib.Core.Path.{subst}
use mathlib.Core.List.{append-nil}
use quilr_ai_mcp.Prelude.Dict.{Dict, get, put, get-put}
use quilr_ai_mcp.Prelude.Text.{take, drop, slice}
use quilr_ai_mcp.Prelude.Text.Slices.{
  slice-append-drop, drop-slices, take-append-slice, take-slices,
}
use quilr_ai_mcp.Guardrail.Regex.{Matches}
use quilr_ai_mcp.Guardrail.Patterns.{Pattern, accepts}
use quilr_ai_mcp.Guardrail.Redactor.{
  RedactionStats, RedactorConfig, count_match, back_off, validated_end, Found, exhausted, skipped,
  replaced, judge_match, find_next, redact_from, redact_pattern, redact,
}
use quilr_ai_mcp.Guardrail.Redactor.Matching.{IsEngine, IsMatch, IsFound, find_next-IsFound}

-- The text after `front`, with `n` matches of the pattern that its validator accepts replaced, and the
-- text between them kept.
pub data Redacted (c : RedactorConfig) (p : Pattern) : List ℕ → List ℕ → List ℕ → ℕ → Type 0 where
  keep : {front text : List ℕ} → Redacted c p front text text 0
  replace :
      {front text out rest after : List ℕ} {n : ℕ} (before span seen beyond : List ℕ)
      → text ≡ before ++ (span ++ rest)
      → rest ≡ seen ++ beyond
      → (beyond ≡ []) ⊎ (is_some p.validate ≡ true)
      → Matches p.expression (front ++ before) span seen
      → accepts p span ≡ true
      → Redacted c p (front ++ (before ++ span)) rest after n
      → out ≡ before ++ c.placeholder ++ after
      → Redacted c p front text out (suc n)

-- How often a pattern has been recorded.
abbrev pub count_of : String → RedactionStats → ℕ
count_of name s = elim (get name s.counts) [ none ↦ 0 | some n ↦ n ]

count_of-count_match :
    (name : String) (s : RedactionStats)
    → count_of name (count_match name s) ≡ suc (count_of name s)
unfolding count_match
count_of-count_match name s =
    ground (arith, get-put name name (count_of name s + 1) s.counts, eq_refl name)

module _ (c : RedactorConfig) (p : Pattern) (engine : IsEngine p) (protect_tail : Bool)
    (text : List ℕ) where
  -- The outcome of a loop that stands at `position` with the count `n`.
  abbrev Outcome : ℕ → RedactionStats → List ℕ × RedactionStats → Type 0
  Outcome position stats (out, stats') =
      (n : ℕ) × Redacted c p (take position text) (drop position text) out n
      × (count_of p.name stats' ≡ count_of p.name stats + n)

  redact_from-Outcome :
      (fuel position from : ℕ) (stats : RedactionStats)
      → position ≤ from
      → Outcome position stats (redact_from fuel c p protect_tail text position from stats)
  unfolding redact_from
  redact_from-Outcome zero position from stats h = (0, keep, omega arith)
  redact_from-Outcome (suc fuel) position from stats h =
      go (find_next p protect_tail text from) (find_next-IsFound p engine text protect_tail from)
        (λ position' from' stats' h'. redact_from-Outcome fuel position' from' stats' h')
    where
      go :
          (f : Found)
          → IsFound p engine text from f
          → ((position' from' : ℕ) (stats' : RedactionStats)
              → position' ≤ from'
              → Outcome position' stats'
                  (redact_from fuel c p protect_tail text position' from' stats'))
          → Outcome position stats (elim f [
            | exhausted ↦ (drop position text, stats)
            | skipped next ↦ redact_from fuel c p protect_tail text position next stats
            | replaced start e ↦
                let (rest, stats') =
                  redact_from fuel c p protect_tail text e
                    (if ltb start e then e else start + 1)
                    (count_match p.name stats) in
                (slice position start text ++ c.placeholder ++ rest, stats')
          ])
      go exhausted _ more = (0, keep, omega arith)
      go (skipped next) (lt, _) more = more position next stats (omega (arith, lt, h))
      go (replaced s e) (low, le, high, fits, (seen, beyond, hidden, cut, m)) more =
          let (n, done, counted) =
            more e (if ltb s e then e else s + 1) (count_match p.name stats) (ground (arith, le)) in
          (
            suc n,
            replace (slice position s text) (slice s e text) seen beyond
                (drop-slices position s e text (omega (arith, h, low)) le) hidden cut
                (rw (take-append-slice position s text (omega (arith, h, low))) m) fits
                (rw (take-slices position s e text (omega (arith, h, low)) le) done) refl,
            omega (arith, counted, count_of-count_match p.name stats),
          )

  redact_pattern-Outcome :
      (stats : RedactionStats) → Outcome 0 stats (redact_pattern c protect_tail p (text, stats))
  unfolding redact_pattern
  redact_pattern-Outcome stats = redact_from-Outcome (length text + 2) 0 0 stats (omega arith)

-- One pattern after the other, each on the text that the one before has left.
abbrev pub RedactedBy : RedactorConfig → List Pattern → List ℕ → List ℕ → Type 0
RedactedBy c [] text out = text ≡ out
RedactedBy c (p ∷ ps) text out =
    (middle : List ℕ) × (n : ℕ) × Redacted c p [] text middle n × RedactedBy c ps middle out

-- Where the engine finds matches of the expressions, redaction only ever replaces, while streaming and at
-- the end, spans that match the expression of the pattern where they stand and that its validator
-- accepts, each by one placeholder; and it keeps the text between them in its order: each pattern in
-- turn on the text that the one before it has left. A pattern without a validator matches with all that
-- follows in sight; a pattern with one, with what follows in sight up to some point, as where a search
-- with an `endpos` has backed off.
pub redact-RedactedBy :
    (c : RedactorConfig) (protect_tail : Bool) (ps : List Pattern) (text : List ℕ)
    (stats : RedactionStats)
    → All IsEngine ps
    → RedactedBy c ps text (redact c protect_tail ps (text, stats)).0
unfolding redact take drop
redact-RedactedBy c protect_tail [] text stats h = refl
redact-RedactedBy c protect_tail (p ∷ ps) text stats (engine, engines) =
    let (n, replaced_n, _) = redact_pattern-Outcome c p engine protect_tail text stats in
    (
      (redact_pattern c protect_tail p (text, stats)).0,
      n,
      replaced_n,
      redact-RedactedBy c protect_tail ps _ _ engines,
    )
