-- ===== src/Guardrail/Redactor/Overlong.antt =====
-- A match too long for the buffer: llm-gateway-guardrail/src/llm_guardrail/redactor.py, `_fail_closed` and
-- `_drop_suppressed_prefix`, with the detectors of llm-gateway-guardrail/src/llm_guardrail/patterns.py.
use quilr_ai_mcp.Prelude.{
  ℕ, ◌≡◌, ◌⊎◌, true, false, List, [], ◌∷◌, ◌++◌, All, All-prefix, All-suffix,
}
use mathlib.Core.Path.{subst, sym}
use quilr_ai_mcp.Guardrail.Regex.{Matches}
use quilr_ai_mcp.Guardrail.Patterns.{Pattern}
use quilr_ai_mcp.Guardrail.Patterns.Detectors.{
  UnicodeData, Engine, is_alphanumeric, is_overlong, email, api_key,
}
use quilr_ai_mcp.Guardrail.Patterns.Detectors.Bounds.{UnboundedPatterns-overlong}
use quilr_ai_mcp.Guardrail.Redactor.{RedactorConfig, StreamRedactor}
use quilr_ai_mcp.Guardrail.Redactor.Feeding.{feed_redactor, feed_all}
use quilr_ai_mcp.Guardrail.Redactor.Silence.{flat}
use quilr_ai_mcp.Guardrail.Redactor.Suppression.{settled, feed_all-settled}

All-flat : (p : ℕ → Type 0) (chunks : List (List ℕ)) → All p (flat chunks) → All (All p) chunks
All-flat p [] h = tt
All-flat p (chunk ∷ chunks) h =
    (All-prefix p chunk (flat chunks) h, All-flat p chunks (All-suffix p chunk (flat chunks) h))

-- When a piece of the stream makes the redactor give up in the middle of what the email or the API key
-- detector matches, the output is the settled text before it and one placeholder, however the rest of
-- the match is split into pieces. The class of the run is that of `OVERLONG_RUN`, and the Unicode data
-- count the ASCII letters and digits and the underscore as word characters.
pub feed_all-Matches :
    (u : UnicodeData) (engine : Engine) (p : Pattern) (c : RedactorConfig)
    (before held after text : List ℕ) (chunks : List (List ℕ)) (r : StreamRedactor)
    → ((x : ℕ) → is_alphanumeric x ≡ true → u.is_word x ≡ true)
    → u.is_word b'_' ≡ true
    → c.is_run ≡ is_overlong u
    → (p ≡ email u engine) ⊎ (p ≡ api_key u engine)
    → Matches p.expression before (held ++ flat chunks) after
    → r.suppressing ≡ false
    → (feed_redactor c text r).1.suppressing ≡ true
    → ((feed_all c (text ∷ chunks) r).0 ≡ settled c text r ++ c.placeholder)
      × ((feed_all c (text ∷ chunks) r).1.buffer ≡ [])
      × ((feed_all c (text ∷ chunks) r).1.suppressing ≡ true)
feed_all-Matches u engine p c before held after text chunks r ascii underscore run is m awake
      asleep =
    let drawn =
      UnboundedPatterns-overlong u ascii underscore engine p before (held ++ flat chunks) after is
        m in
    feed_all-settled c text chunks r awake asleep (
      subst (λ run. All (All (λ x. run x ≡ true)) chunks) (sym run)
        (All-flat (λ x. is_overlong u x ≡ true) chunks
          (All-suffix (λ x. is_overlong u x ≡ true) held (flat chunks) drawn)))
