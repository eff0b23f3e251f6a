-- ===== src/Guardrail/Redactor/Silence.antt =====
-- Text that no pattern reaches flows through: llm-gateway-guardrail/src/llm_guardrail/redactor.py,
-- `process`.
use quilr_ai_mcp.Prelude.{
  ℕ, zero, suc, ◌+◌, ◌≡◌, refl, ap, Bool, true, false, none, List, [], ◌∷◌, ◌++◌, arith, length,
  All,
}
use mathlib.Core.List.{append-nil}
use quilr_ai_mcp.Prelude.Text.{take, drop}
use quilr_ai_mcp.Guardrail.Patterns.{Pattern}
use quilr_ai_mcp.Guardrail.Redactor.{
  RedactionStats, RedactorConfig, StreamRedactor, new_redactor, find_next, exhausted, redact_from,
  redact_pattern, redact,
}
use quilr_ai_mcp.Guardrail.Redactor.Feeding.{
  earliest_of, earliest_in, holdback_index, enforce_ceiling, account, emit_split, absorb, count_in,
  feed_redactor, feed_all, flush_redactor, finish_flush, process,
}

-- A pattern that has neither a match in the text nor the beginning of one.
abbrev pub IsSilent : List ℕ → Pattern → Type 0
IsSilent text p = (p.search text 0 ≡ none) × (p.find_partial text ≡ [])

find_next-IsSilent :
    (p : Pattern) (protect_tail : Bool) (text : List ℕ)
    → IsSilent text p
    → find_next p protect_tail text 0 ≡ exhausted
unfolding find_next
find_next-IsSilent p protect_tail text (silent, _) = ground (arith, silent)

redact_from-IsSilent :
    (fuel : ℕ) (c : RedactorConfig) (p : Pattern) (protect_tail : Bool) (text : List ℕ)
    (stats : RedactionStats)
    → IsSilent text p
    → redact_from fuel c p protect_tail text 0 0 stats ≡ (text, stats)
unfolding redact_from drop
redact_from-IsSilent zero c p protect_tail text stats h = refl
redact_from-IsSilent (suc fuel) c p protect_tail text stats h =
    rw (find_next-IsSilent p protect_tail text h, redact_from) refl

redact-IsSilent :
    (c : RedactorConfig) (protect_tail : Bool) (ps : List Pattern) (text : List ℕ)
    (stats : RedactionStats)
    → All (IsSilent text) ps
    → redact c protect_tail ps (text, stats) ≡ (text, stats)
unfolding redact redact_pattern
redact-IsSilent c protect_tail [] text stats h = refl
redact-IsSilent c protect_tail (p ∷ ps) text stats (h, hs) =
    rw (redact_from-IsSilent (length text + 2) c p protect_tail text stats h)
      (redact-IsSilent c protect_tail ps text stats hs)

earliest_in-IsSilent :
    (text : List ℕ) (earliest : ℕ) (ps : List Pattern)
    → All (IsSilent text) ps
    → earliest_in text earliest ps ≡ earliest
unfolding earliest_in earliest_of
earliest_in-IsSilent text earliest [] h = refl
earliest_in-IsSilent text earliest (p ∷ ps) ((_, silent), hs) =
    rw silent (earliest_in-IsSilent text earliest ps hs)

take-length : (text : List ℕ) → take (length text) text ≡ text
unfolding take
take-length [] = refl
take-length (x ∷ xs) = ap (λ t. x ∷ t) (take-length xs)

drop-length : (text : List ℕ) → drop (length text) text ≡ []
unfolding drop
drop-length [] = refl
drop-length (x ∷ xs) = drop-length xs

-- A redactor that holds nothing.
abbrev IsIdle : StreamRedactor → Type 0
IsIdle r = (r.buffer ≡ []) × (r.suppressing ≡ false)

emit_split-IsSilent :
    (c : RedactorConfig) (text : List ℕ) (stats : RedactionStats)
    → All (IsSilent text) c.patterns
    → ((emit_split c false (text, stats)).0 ≡ text) × IsIdle (emit_split c false (text, stats)).1
unfolding emit_split enforce_ceiling account holdback_index
emit_split-IsSilent c text stats h =
    rw (earliest_in-IsSilent text (length text) c.patterns h, take-length text, drop-length text)
      (ground arith)

feed_redactor-IsSilent :
    (c : RedactorConfig) (text : List ℕ) (r : StreamRedactor)
    → IsIdle r
    → All (IsSilent text) c.patterns
    → ((feed_redactor c text r).0 ≡ text) × IsIdle (feed_redactor c text r).1
unfolding feed_redactor absorb
feed_redactor-IsSilent c [] r idle h = (refl, idle)
feed_redactor-IsSilent c (x ∷ xs) r (empty, awake) h =
    rw
      (
        awake,
        feed_redactor,
        empty,
        redact-IsSilent c true c.patterns (x ∷ xs) (count_in (x ∷ xs) r).stats h,
      )
      (emit_split-IsSilent c (x ∷ xs) (count_in (x ∷ xs) r).stats h)

-- `"".join(chunks)`
abbrev pub flat : List (List ℕ) → List ℕ
flat [] = []
flat (chunk ∷ chunks) = chunk ++ flat chunks

feed_all-IsSilent :
    (c : RedactorConfig) (chunks : List (List ℕ)) (r : StreamRedactor)
    → IsIdle r
    → All (λ chunk. All (IsSilent chunk) c.patterns) chunks
    → ((feed_all c chunks r).0 ≡ flat chunks) × IsIdle (feed_all c chunks r).1
unfolding feed_all
feed_all-IsSilent c [] r idle h = (refl, idle)
feed_all-IsSilent c (chunk ∷ chunks) r idle (h, hs) =
    let (same, idle') = feed_redactor-IsSilent c chunk r idle h in
    let (same', idle'') = feed_all-IsSilent c chunks (feed_redactor c chunk r).1 idle' hs in
    (rw (same, same') refl, idle'')

-- A stream of which no piece has a match of any pattern, or the beginning of one, comes out as it went
-- in: nothing is changed, and nothing is held over from one piece to the next.
pub process-IsSilent :
    (c : RedactorConfig) (chunks : List (List ℕ))
    → All (λ chunk. All (IsSilent chunk) c.patterns) chunks
    → All (IsSilent []) c.patterns
    → process c chunks ≡ flat chunks
unfolding process flush_redactor finish_flush
process-IsSilent c chunks h nothing =
    let (same, (empty, _)) = feed_all-IsSilent c chunks new_redactor (refl, refl) h in
    rw (same, empty, redact-IsSilent c false c.patterns [] _ nothing) (append-nil (flat chunks))
