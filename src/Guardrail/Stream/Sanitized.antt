-- ===== src/Guardrail/Stream/Sanitized.antt =====
-- What a stream sends: llm-gateway-guardrail/src/llm_guardrail/stream.py, `handle` and
-- `redact_sse_stream`.
use quilr_ai_mcp.Prelude.{
  ℕ, ◌≡◌, ◌⊎◌, String, true, false, Option, some, List, [], ◌∷◌, ◌++◌, All, codes,
}
use quilr_ai_mcp.Prelude.Text.{text_eq}
use quilr_ai_mcp.Prelude.Json.{Json}
use quilr_ai_mcp.Guardrail.Redactor.{StreamRedactor}
use quilr_ai_mcp.Guardrail.Redactor.Feeding.{flush_redactor, redact_text}
use quilr_ai_mcp.Guardrail.Leaves.{redact_leaves}
use quilr_ai_mcp.Guardrail.Payload.Paths.{get_at, Apart}
use quilr_ai_mcp.Guardrail.Payload.{Step, Located, locate_texts}
use quilr_ai_mcp.Guardrail.Stream.Rewriting.{IsRedacted}
use quilr_ai_mcp.Guardrail.Stream.Remembering.{Among, Remembered, Knows}
use quilr_ai_mcp.Guardrail.Sse.{SseEvent, SseParser, feed_chunk, flush}
use quilr_ai_mcp.Guardrail.Stream.{
  StreamConfig, Rebuild, Channels, config_of, serialise, rebuild_event, Emitted,
}
use quilr_ai_mcp.Guardrail.Stream.Relay.{error_event}

-- What the parser reads from the chunks of the upstream, to the end.
abbrev pub frames_read : StreamConfig → SseParser → List (List ℕ) → List SseEvent
frames_read c p [] = (flush p).1
frames_read c p (t ∷ ts) =
    (feed_chunk c.decode p t).1 ++ frames_read c (feed_chunk c.decode p t).0 ts

-- A payload in which every located text has been through the redactor of its channel, and which is
-- otherwise that of the frame.
abbrev pub Rewrites : StreamConfig → Json → Json → Type 0
Rewrites c payload updated =
    (l : Located) × (ls : List Located) × (locate_texts c.format payload ≡ l ∷ ls)
    × All (IsRedacted c updated) (l ∷ ls)
    × ((q : List Step) → All (λ m. Apart m.path q) (l ∷ ls) → get_at q updated ≡ get_at q payload)

-- The events that the redaction makes of the frames read. No frame is among them as it came.
pub data Sanitized (c : StreamConfig) (frames : List SseEvent) : SseEvent → Type 0 where
  raw :
      (frame : SseEvent)
      → Among frames frame
      → Sanitized c frames
          (record { event = frame.event; data' = redact_text c.other_redactor frame.data' })
  leaves :
      (frame : SseEvent) (payload : Json)
      → Among frames frame
      → c.loads frame.data' ≡ some payload
      → Sanitized c frames (serialise c frame.event (redact_leaves c.other_redactor payload))
  texts :
      (frame : SseEvent) (payload updated : Json)
      → Among frames frame
      → c.loads frame.data' ≡ some payload
      → Rewrites c payload updated
      → Sanitized c frames (serialise c frame.event updated)
  tail :
      (k : String) (rebuild : Option Rebuild) (r : StreamRedactor) (ev : SseEvent)
      → Remembered c frames rebuild
      → rebuild_event c rebuild (flush_redactor (config_of c k) r).0 ≡ some ev
      → Sanitized c frames ev
  notice : Sanitized c frames (error_event c)

-- Every event that a generator yields, and what it leaves the channels to remember.
abbrev AllSanitized : StreamConfig → List SseEvent → Emitted → Type 0
AllSanitized c frames e = All (Sanitized c frames) e.events × Knows c frames e.channels

-- The policy asks for no frame to pass as it came.
abbrev pub IsStrict : StreamConfig → Type 0
IsStrict c =
    ((text_eq c.policy.thinking (codes "drop") ≡ true)
      ⊎ (text_eq c.policy.thinking (codes "redact") ≡ true))
    × (text_eq c.policy.unknown_schema (codes "pass") ≡ false)
