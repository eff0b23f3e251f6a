-- ===== src/Guardrail/App/Replies.antt =====
-- What an answer of the guardrail holds: llm-gateway-guardrail/src/llm_guardrail/app.py,
-- `handle_messages`.
use quilr_ai_mcp.Prelude.{ℕ, ◌≤◌, ◌≡◌, Bool, true, false, none, some, List, length, ◌&&◌}
use quilr_ai_mcp.Prelude.Body.{whole_body}
use quilr_ai_mcp.Prelude.Json.{Json}
use quilr_ai_mcp.Guardrail.Leaves.{redact_leaves}
use quilr_ai_mcp.Guardrail.Stream.Relay.{redact_sse_stream}
use quilr_ai_mcp.Guardrail.App.{
  forward_headers, response_headers, loaded, malformed, undecodable, Upstream, GuardConfig,
  MessagesRequest, Reply, unauthorized, too_large, unavailable, crashed, relayed_raw, redacted,
  streamed, authorized, read_limited_body, wants_stream, is_event_stream,
}

-- What an answer shows of the provider's answer `u`, by whether a stream was asked for: nothing but redacted
-- payloads and redacted streams, or a whole body that is no JSON.
pub data Shown (c : GuardConfig) (u : Upstream) (wants : Bool) : Reply → Type 0 where
  cut_off : (wants && is_event_stream u) ≡ false → u.raw ≡ none → Shown c u wants crashed
  garbled :
      (raw : List ℕ)
      → (wants && is_event_stream u) ≡ false
      → u.raw ≡ some raw
      → c.loads_bytes raw ≡ undecodable
      → Shown c u wants crashed
  payload :
      (raw : List ℕ) (v : Json)
      → (wants && is_event_stream u) ≡ false
      → u.raw ≡ some raw
      → c.loads_bytes raw ≡ loaded v
      → Shown c u wants
          (redacted u.status (response_headers u.headers) (redact_leaves c.stream.other_redactor v))
  events :
      (wants && is_event_stream u) ≡ true
      → Shown c u wants (
          streamed u.status
            (response_headers u.headers)
            (redact_sse_stream c.stream u.fails u.chunks))
  unread :
      (raw : List ℕ)
      → (wants && is_event_stream u) ≡ false
      → u.raw ≡ some raw
      → c.loads_bytes raw ≡ malformed
      → Shown c u wants (relayed_raw u.status (response_headers u.headers) raw)

-- The body of a request that is let in: all that came, and within the limit.
abbrev pub IsBody : GuardConfig → MessagesRequest → List ℕ → Type 0
IsBody c r body =
    (authorized c.tokens r.headers ≡ true)
    × (body ≡ whole_body r.chunks)
    × (length body ≤ c.max_body_bytes)

-- What becomes of a request.
pub data Guarded (c : GuardConfig) (r : MessagesRequest) : Reply → Type 0 where
  kept_out : authorized c.tokens r.headers ≡ false → Guarded c r unauthorized
  refused :
      authorized c.tokens r.headers ≡ true
      → read_limited_body c.max_body_bytes r ≡ none
      → Guarded c r too_large
  broken : (body : List ℕ) → IsBody c r body → wants_stream c body ≡ none → Guarded c r crashed
  unreached :
      (body : List ℕ)
      → IsBody c r body
      → c.send (forward_headers r.headers) body ≡ none
      → Guarded c r unavailable
  answered :
      (body : List ℕ) (wants : Bool) (u : Upstream) (reply : Reply)
      → IsBody c r body
      → wants_stream c body ≡ some wants
      → c.send (forward_headers r.headers) body ≡ some u
      → Shown c u wants reply
      → Guarded c r reply
