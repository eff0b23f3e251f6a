-- ===== src/Guardrail/Redactor/Holding.antt =====
-- The bound on what is held: llm-gateway-guardrail/src/llm_guardrail/redactor.py, `feed`.
use quilr_ai_mcp.Prelude.{
  ℕ, ◌≤◌, ◌≡◌, refl, Bool, true, false, List, [], ◌∷◌, arith, length, ◌⊎◌, inl, inr, if◌then◌else◌,
}
use quilr_ai_mcp.Prelude.Text.{take, drop}
use quilr_ai_mcp.Guardrail.Redactor.{RedactionStats, RedactorConfig, StreamRedactor}
use quilr_ai_mcp.Guardrail.Redactor.Feeding.{
  holdback_index, split_run, resume, count_in, drop_suppressed_prefix, fail_closed, enforce_ceiling,
  account, emit_split, absorb, feed_redactor, feed_all,
}

-- What the redactor keeps: at most the ceiling, and nothing while it suppresses a run.
abbrev pub Held : RedactorConfig → StreamRedactor → Type 0
Held c r = (length r.buffer ≤ c.max_holdback) × ((r.suppressing ≡ false) ⊎ (r.buffer ≡ []))

enforce_ceiling-Held :
    (c : RedactorConfig) (emit : List ℕ) (r : StreamRedactor)
    → r.suppressing ≡ false
    → Held c (enforce_ceiling c emit r).1
unfolding enforce_ceiling fail_closed
enforce_ceiling-Held c emit r h = ground (arith, h)

emit_split-Held :
    (c : RedactorConfig) (text : List ℕ) (stats : RedactionStats)
    → Held c (emit_split c false (text, stats)).1
unfolding emit_split account
emit_split-Held c text stats =
    enforce_ceiling-Held c (take (holdback_index c text) text)
      (record { buffer = drop (holdback_index c text) text; suppressing = false; stats = stats })
      refl

absorb-Held :
    (c : RedactorConfig) (text : List ℕ) (r : StreamRedactor)
    → Held c r
    → (text ≡ []) ⊎ (r.suppressing ≡ false)
    → Held c (absorb c (text, r)).1
unfolding absorb
absorb-Held c [] r h live = h
absorb-Held c (x ∷ xs) r h live =
    let awake : r.suppressing ≡ false = ground (arith, live) in rw awake (emit_split-Held c _ _)

-- A text to absorb, with the redactor that is to absorb it.
abbrev Ready : RedactorConfig → List ℕ × StreamRedactor → Type 0
Ready c (text, r) = Held c r × ((text ≡ []) ⊎ (r.suppressing ≡ false))

resume-Ready :
    (c : RedactorConfig) (r : StreamRedactor) (rest : List ℕ) → Held c r → Ready c (resume r rest)
unfolding resume
resume-Ready c r [] h = (h, inl refl)
resume-Ready c r (x ∷ xs) h = ((h.0, inl refl), inr refl)

drop_suppressed_prefix-Ready :
    (c : RedactorConfig) (text : List ℕ) (r : StreamRedactor)
    → Held c r
    → Ready c (drop_suppressed_prefix c text r)
unfolding drop_suppressed_prefix
drop_suppressed_prefix-Ready c text r h = resume-Ready c _ (split_run c.is_run text).1 h

feed_redactor-Held :
    (c : RedactorConfig) (text : List ℕ) (r : StreamRedactor)
    → Held c r
    → Held c (feed_redactor c text r).1
unfolding feed_redactor
feed_redactor-Held c [] r h = h
feed_redactor-Held c (x ∷ xs) r h = go r.suppressing refl
  where
    counted : StreamRedactor
    counted = count_in (x ∷ xs) r

    go :
        (b : Bool)
        → r.suppressing ≡ b
        → Held c
            (absorb c
              (if b then drop_suppressed_prefix c (x ∷ xs) counted else (x ∷ xs, counted))).1
    go true e =
        let (held, live) = drop_suppressed_prefix-Ready c (x ∷ xs) counted h in
        absorb-Held c (drop_suppressed_prefix c (x ∷ xs) counted).0 _ held live
    go false e = absorb-Held c (x ∷ xs) counted h (inr e)

-- However a stream is cut into pieces, the redactor never holds back more than its ceiling, and it
-- holds nothing while it suppresses the rest of a run.
pub feed_all-Held :
    (c : RedactorConfig) (chunks : List (List ℕ)) (r : StreamRedactor)
    → Held c r
    → Held c (feed_all c chunks r).1
unfolding feed_all
feed_all-Held c [] r h = h
feed_all-Held c (chunk ∷ chunks) r h =
    feed_all-Held c chunks (feed_redactor c chunk r).1 (feed_redactor-Held c chunk r h)
