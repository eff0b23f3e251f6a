-- ===== src/Guardrail/Sse/Chunks.antt =====
-- A stream in chunks is read as its text is: llm-gateway-guardrail/src/llm_guardrail/sse.py, on a text
-- without "\r".
use quilr_ai_mcp.Prelude.{ℕ, ◌≡◌, refl, List, [], ◌∷◌, ◌++◌, All}
use quilr_ai_mcp.Guardrail.Sse.{SseEvent, SseParser, feed_text}
use quilr_ai_mcp.Guardrail.Sse.Lines.{
  Lacks, IsOpen, read_text, read_text-append, feed_text-read_text, IsOpen-read_text,
}

-- The chunks of a stream, one after the other
abbrev pub feed_chunks : SseParser → List (List ℕ) → SseParser × List SseEvent
feed_chunks p [] = (p, [])
feed_chunks p (text ∷ texts) =
    let (q, events) = feed_text p text in
    let (q', later) = feed_chunks q texts in (q', events ++ later)

abbrev pub joined : List (List ℕ) → List ℕ
joined [] = []
joined (text ∷ texts) = text ++ joined texts

pub feed_chunks-read_text :
    (p : SseParser) (texts : List (List ℕ))
    → IsOpen p
    → All (Lacks 13) texts
    → feed_chunks p texts ≡ read_text p (joined texts)
unfolding read_text
feed_chunks-read_text p [] is h = refl
feed_chunks-read_text p (text ∷ texts) (line, clean) (h, hs) =
    rw
      (
        feed_text-read_text p text line clean h,
        read_text-append p text (joined texts),
        feed_chunks-read_text (read_text p text).0 texts (IsOpen-read_text p text (line, clean) h)
            hs,
      )
      refl
