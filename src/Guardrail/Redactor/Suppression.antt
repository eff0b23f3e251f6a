-- ===== src/Guardrail/Redactor/Suppression.antt =====
-- The fail-closed path: llm-gateway-guardrail/src/llm_guardrail/redactor.py, `_fail_closed` and
-- `_drop_suppressed_prefix`.
use quilr_ai_mcp.Prelude.{
  ℕ, ◌≡◌, refl, ◌∙◌, true, false, List, [], ◌∷◌, ◌++◌, arith, All, ◌+◌, ap, length, length-append,
}
use mathlib.Core.List.{append-nil}
use quilr_ai_mcp.Prelude.Text.{take}
use quilr_ai_mcp.Guardrail.Redactor.{RedactionStats, RedactorConfig, StreamRedactor, redact}
use quilr_ai_mcp.Guardrail.Redactor.Feeding.{
  holdback_index, split_run, resume, drop_suppressed_prefix, fail_closed, enforce_ceiling, account,
  emit_split, absorb, count_in, suppress, feed_redactor, feed_all,
}

abbrev pub IsRun : RedactorConfig → List ℕ → Type 0
IsRun c = All (λ x. c.is_run x ≡ true)

split_run-IsRun :
    (c : RedactorConfig) (text : List ℕ) → IsRun c text → (split_run c.is_run text).1 ≡ []
unfolding split_run
split_run-IsRun c [] h = refl
split_run-IsRun c (x ∷ xs) (h, hs) = ground (arith, h, split_run-IsRun c xs hs)

-- A piece of the run is dropped whole.
feed_redactor-IsRun :
    (c : RedactorConfig) (text : List ℕ) (r : StreamRedactor)
    → r.suppressing ≡ true
    → IsRun c text
    → ((feed_redactor c text r).0 ≡ [])
      × ((feed_redactor c text r).1.suppressing ≡ true)
      × ((feed_redactor c text r).1.buffer ≡ r.buffer)
unfolding feed_redactor absorb drop_suppressed_prefix resume
feed_redactor-IsRun c [] r asleep h = (refl, asleep, refl)
feed_redactor-IsRun c (x ∷ xs) r asleep h = ground (arith, asleep, split_run-IsRun c (x ∷ xs) h)

feed_all-IsRun :
    (c : RedactorConfig) (chunks : List (List ℕ)) (r : StreamRedactor)
    → r.suppressing ≡ true
    → All (IsRun c) chunks
    → ((feed_all c chunks r).0 ≡ [])
      × ((feed_all c chunks r).1.suppressing ≡ true)
      × ((feed_all c chunks r).1.buffer ≡ r.buffer)
unfolding feed_all
feed_all-IsRun c [] r asleep h = (refl, asleep, refl)
feed_all-IsRun c (chunk ∷ chunks) r asleep (h, hs) =
    let (quiet, asleep', same) = feed_redactor-IsRun c chunk r asleep h in
    let (quiet', asleep'', same') =
      feed_all-IsRun c chunks (feed_redactor c chunk r).1 asleep' hs in
    (rw (quiet, quiet') refl, asleep'', same' ∙ same)

emit_split-settled :
    (c : RedactorConfig) (text : List ℕ) (stats : RedactionStats)
    → (emit_split c false (text, stats)).1.suppressing ≡ true
    → ((emit_split c false (text, stats)).0 ≡ take (holdback_index c text) text ++ c.placeholder)
      × ((emit_split c false (text, stats)).1.buffer ≡ [])
unfolding emit_split enforce_ceiling account fail_closed
emit_split-settled c text stats asleep = ground (arith, asleep)

-- The buffer as `feed` redacts it.
abbrev pub scanned : RedactorConfig → List ℕ → StreamRedactor → List ℕ
scanned c text r = (redact c true c.patterns (r.buffer ++ text, (count_in text r).stats)).0

-- The part of it that no pattern may still reach.
abbrev pub settled : RedactorConfig → List ℕ → StreamRedactor → List ℕ
settled c text r = take (holdback_index c (scanned c text r)) (scanned c text r)

feed_redactor-settled :
    (c : RedactorConfig) (text : List ℕ) (r : StreamRedactor)
    → r.suppressing ≡ false
    → (feed_redactor c text r).1.suppressing ≡ true
    → ((feed_redactor c text r).0 ≡ settled c text r ++ c.placeholder)
      × ((feed_redactor c text r).1.buffer ≡ [])
unfolding feed_redactor absorb
feed_redactor-settled c [] r awake = λ asleep. ground (arith, awake, asleep)
feed_redactor-settled c (x ∷ xs) r awake =
    rw (awake, feed_redactor) λ asleep. emit_split-settled c _ _ asleep

-- While the run goes on, nothing of it is emitted or held.
pub feed_all-settled :
    (c : RedactorConfig) (text : List ℕ) (chunks : List (List ℕ)) (r : StreamRedactor)
    → r.suppressing ≡ false
    → (feed_redactor c text r).1.suppressing ≡ true
    → All (IsRun c) chunks
    → ((feed_all c (text ∷ chunks) r).0 ≡ settled c text r ++ c.placeholder)
      × ((feed_all c (text ∷ chunks) r).1.buffer ≡ [])
      × ((feed_all c (text ∷ chunks) r).1.suppressing ≡ true)
unfolding feed_all
feed_all-settled c text chunks r awake asleep h =
    let (quiet, asleep', same) = feed_all-IsRun c chunks (feed_redactor c text r).1 asleep h in
    let (emitted, empty) = feed_redactor-settled c text r awake asleep in
    (rw quiet (append-nil _ ∙ emitted), same ∙ empty, asleep')

split_run-stops :
    (c : RedactorConfig) (run : List ℕ) (x : ℕ) (rest : List ℕ)
    → IsRun c run
    → c.is_run x ≡ false
    → split_run c.is_run (run ++ x ∷ rest) ≡ (length run, x ∷ rest)
unfolding split_run
split_run-stops c [] x rest h stops = rw stops refl
split_run-stops c (y ∷ run) x rest (h, hs) stops =
    rw (split_run-stops c run x rest hs stops, h) (ap (λ n. (n, x ∷ rest)) (omega arith))

-- A redactor that holds nothing and is not suppressing.
abbrev pub woken : RedactionStats → StreamRedactor
woken stats = record { buffer = []; suppressing = false; stats = stats }

-- The counts once the end of a run has been dropped.
abbrev run_dropped : ℕ → RedactionStats → RedactionStats
run_dropped n s = suppress n (record s { characters_in = s.characters_in + n })

resume-stops :
    (c : RedactorConfig) (run : List ℕ) (x : ℕ) (rest : List ℕ) (stats : RedactionStats)
    → IsRun c run
    → c.is_run x ≡ false
    → absorb c (
        drop_suppressed_prefix c
          (run ++ x ∷ rest)
          (count_in (run ++ x ∷ rest) (record { buffer = []; suppressing = true; stats = stats })))
      ≡ absorb c (x ∷ rest, count_in (x ∷ rest) (woken (run_dropped (length run) stats)))
unfolding drop_suppressed_prefix resume
resume-stops c run x rest stats h stops =
    rw (split_run-stops c run x rest h stops, length-append run (x ∷ rest))
      (ap
        (λ k.
          absorb c (x ∷ rest, woken (suppress (length run) (record stats { characters_in = k }))))
        (omega arith))

feed_redactor-wakes :
    (c : RedactorConfig) (run : List ℕ) (x : ℕ) (rest : List ℕ) (r : StreamRedactor)
    → r.suppressing ≡ true
    → r.buffer ≡ []
    → IsRun c run
    → c.is_run x ≡ false
    → feed_redactor c (run ++ x ∷ rest) r
      ≡ feed_redactor c (x ∷ rest) (woken (run_dropped (length run) r.stats))
unfolding feed_redactor
feed_redactor-wakes c [] x rest r asleep empty h stops =
    rw (asleep, empty) (resume-stops c [] x rest r.stats h stops)
feed_redactor-wakes c (y ∷ run) x rest r asleep empty h stops =
    rw (asleep, empty) (resume-stops c (y ∷ run) x rest r.stats h stops)

feed_all-wakes :
    (c : RedactorConfig) (chunks : List (List ℕ)) (run : List ℕ) (x : ℕ) (rest : List ℕ)
    (r : StreamRedactor)
    → r.suppressing ≡ true
    → r.buffer ≡ []
    → All (IsRun c) chunks
    → IsRun c run
    → c.is_run x ≡ false
    → (stats : RedactionStats) × (feed_all c (chunks ++ (run ++ x ∷ rest) ∷ []) r
        ≡ feed_redactor c (x ∷ rest) (woken stats))
unfolding feed_all
feed_all-wakes c [] run x rest r asleep empty h last stops = (
  run_dropped (length run) r.stats,
  rw (feed_redactor-wakes c run x rest r asleep empty last stops) (
      ap (λ emit. (emit, (feed_redactor c (x ∷ rest) (woken (run_dropped (length run) r.stats))).1))
        (append-nil _)),
)
feed_all-wakes c (chunk ∷ chunks) run x rest r asleep empty (h, hs) last stops =
    let (quiet, asleep', same) = feed_redactor-IsRun c chunk r asleep h in
    let (stats, woke) =
      feed_all-wakes c chunks run x rest (feed_redactor c chunk r).1 asleep' (same ∙ empty) hs last
        stops in
    (stats, rw (quiet, woke) refl)

-- When a piece of the stream makes the redactor give up on what it holds, the output is the settled
-- text before it and one placeholder; whatever pieces the rest of the run arrives in, nothing of it is
-- emitted; and of the piece in which the run ends, exactly what follows the run is treated, as a
-- redactor treats it that holds nothing.
pub feed_all-resumed :
    (c : RedactorConfig) (text : List ℕ) (chunks : List (List ℕ)) (run : List ℕ) (x : ℕ)
    (rest : List ℕ) (r : StreamRedactor)
    → r.suppressing ≡ false
    → (feed_redactor c text r).1.suppressing ≡ true
    → All (IsRun c) chunks
    → IsRun c run
    → c.is_run x ≡ false
    → (stats : RedactionStats) × (feed_all c (text ∷ (chunks ++ (run ++ x ∷ rest) ∷ [])) r ≡ (
      (settled c text r ++ c.placeholder) ++ (feed_redactor c (x ∷ rest) (woken stats)).0,
      (feed_redactor c (x ∷ rest) (woken stats)).1,
    ))
unfolding feed_all
feed_all-resumed c text chunks run x rest r awake asleep h last stops =
    let (emitted, empty) = feed_redactor-settled c text r awake asleep in
    let (stats, woke) =
      feed_all-wakes c chunks run x rest (feed_redactor c text r).1 asleep empty h last stops in
    (stats, rw (emitted, woke) refl)
