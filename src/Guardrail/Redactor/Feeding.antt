-- ===== src/Guardrail/Redactor/Feeding.antt =====
-- llm-gateway-guardrail/src/llm_guardrail/redactor.py: `feed`, `flush` and the ceiling on what is held.
use quilr_ai_mcp.Prelude.{
  ℕ, ◌+◌, min, max, Bool, true, false, List, [], ◌∷◌, ◌++◌, ltb, ◌==◌, ◌||◌, length, if◌then◌else◌,
}
use quilr_ai_mcp.Prelude.Text.{take, drop}
use quilr_ai_mcp.Guardrail.Patterns.{Match, Pattern}
use quilr_ai_mcp.Guardrail.Redactor.{
  RedactionStats, count_match, RedactorConfig, StreamRedactor, new_redactor, redact,
}

-- The inner loop of `_holdback_index`.
unfoldable pub earliest_of : ℕ → ℕ → List Match → ℕ
earliest_of size earliest [] = earliest
earliest_of size earliest (m ∷ ms) =
    earliest_of size (if m.partial || m.finish == size then min earliest m.start else earliest) ms

unfoldable pub earliest_in : List ℕ → ℕ → List Pattern → ℕ
earliest_in text earliest [] = earliest
earliest_in text earliest (p ∷ ps) =
    earliest_in text (earliest_of (length text) earliest (p.find_partial text)) ps

-- `_holdback_index`
unfoldable pub holdback_index : RedactorConfig → List ℕ → ℕ
unfolding earliest_in earliest_of
holdback_index c text = earliest_in text (length text) c.patterns

-- What follows the leading run, and the length of the run.
unfoldable pub split_run : (ℕ → Bool) → List ℕ → ℕ × List ℕ
split_run is_run [] = (0, [])
split_run is_run (x ∷ xs) =
    let (n, rest) = split_run is_run xs in if is_run x then (n + 1, rest) else (0, x ∷ xs)

abbrev pub suppress : ℕ → RedactionStats → RedactionStats
suppress n s = record s { suppressed_characters = s.suppressed_characters + n }

-- The end of `_drop_suppressed_prefix`: the run goes on, or the rest of the text is live again.
unfoldable pub resume : StreamRedactor → List ℕ → List ℕ × StreamRedactor
resume r [] = ([], r)
resume r (x ∷ xs) = (x ∷ xs, record r { suppressing = false })

-- `_drop_suppressed_prefix`
unfoldable pub drop_suppressed_prefix :
    RedactorConfig → List ℕ → StreamRedactor → List ℕ × StreamRedactor
drop_suppressed_prefix c text r =
    let (consumed, rest) = split_run c.is_run text in
    resume (record r { stats = suppress consumed r.stats }) rest

-- `_fail_closed`, without the placeholder that it returns
unfoldable pub fail_closed : StreamRedactor → StreamRedactor
fail_closed r = record {
  buffer = [];
  suppressing = true;
  stats = suppress (length r.buffer) (count_match "overflow" r.stats);
}

-- The ceiling: what `feed` emits, and what it leaves.
unfoldable pub enforce_ceiling : RedactorConfig → List ℕ → StreamRedactor → List ℕ × StreamRedactor
enforce_ceiling c emit r =
    if ltb c.max_holdback (length r.buffer)
    then (emit ++ c.placeholder, fail_closed r)
    else (emit, r)

unfoldable pub account : List ℕ × StreamRedactor → List ℕ × StreamRedactor
account (emit, r) = (
  emit,
  record r {
    stats = record r.stats {
      max_holdback_seen = max r.stats.max_holdback_seen (length r.buffer);
      characters_out = r.stats.characters_out + length emit;
    };
  },
)

-- The end of `feed` on the redacted buffer.
unfoldable pub emit_split :
    RedactorConfig → Bool → List ℕ × RedactionStats → List ℕ × StreamRedactor
unfolding enforce_ceiling account
emit_split c suppressing (text, stats) =
    let split = holdback_index c text in
    account (
      enforce_ceiling c (take split text)
        (record { buffer = drop split text; suppressing = suppressing; stats = stats }))

-- `feed` from the suppressed prefix on
unfoldable pub absorb : RedactorConfig → List ℕ × StreamRedactor → List ℕ × StreamRedactor
absorb c ([], r) = ([], r)
absorb c (x ∷ xs, r) =
    emit_split c r.suppressing (redact c true c.patterns (r.buffer ++ x ∷ xs, r.stats))

abbrev pub count_in : List ℕ → StreamRedactor → StreamRedactor
count_in text r = record r {
  stats = record r.stats { characters_in = r.stats.characters_in + length text };
}

-- `feed`
unfoldable pub feed_redactor : RedactorConfig → List ℕ → StreamRedactor → List ℕ × StreamRedactor
feed_redactor c [] r = ([], r)
feed_redactor c (x ∷ xs) r =
    let counted = count_in (x ∷ xs) r in
    absorb c
      (if r.suppressing then drop_suppressed_prefix c (x ∷ xs) counted else (x ∷ xs, counted))

-- `flush`
unfoldable pub finish_flush : List ℕ × RedactionStats → List ℕ × StreamRedactor
finish_flush (remaining, stats) = (
  remaining,
  record {
    buffer = [];
    suppressing = false;
    stats = record stats { characters_out = stats.characters_out + length remaining };
  },
)

unfoldable pub flush_redactor : RedactorConfig → StreamRedactor → List ℕ × StreamRedactor
unfolding finish_flush
flush_redactor c r = finish_flush (redact c false c.patterns (r.buffer, r.stats))

-- The pieces of `process` before the flush.
unfoldable pub feed_all : RedactorConfig → List (List ℕ) → StreamRedactor → List ℕ × StreamRedactor
feed_all c [] r = ([], r)
feed_all c (chunk ∷ chunks) r =
    let (emit, r') = feed_redactor c chunk r in
    let (more, r'') = feed_all c chunks r' in (emit ++ more, r'')

-- `process`
unfoldable pub process : RedactorConfig → List (List ℕ) → List ℕ
process c chunks =
    let (emitted, r) = feed_all c chunks new_redactor in emitted ++ (flush_redactor c r).0

-- `redact_text`
abbrev pub redact_text : RedactorConfig → List ℕ → List ℕ
redact_text c text = process c (text ∷ [])
