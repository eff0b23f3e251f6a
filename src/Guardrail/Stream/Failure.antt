-- ===== src/Guardrail/Stream/Failure.antt =====
-- How a stream ends: llm-gateway-guardrail/src/llm_guardrail/stream.py, `redact_sse_stream`.
use quilr_ai_mcp.Prelude.{ℕ, true, List}
use quilr_ai_mcp.Guardrail.Sse.{new_parser}
use quilr_ai_mcp.Guardrail.Stream.{StreamConfig, new_channels, Emitted}
use quilr_ai_mcp.Guardrail.Stream.Relay.{flush_channels, relay_chunks}

-- What has been sent when the upstream fails, and what is then released of the channels.
abbrev pub relayed_before : StreamConfig → List (List ℕ) → Emitted
relayed_before c chunks = relay_chunks c true chunks new_parser new_channels

abbrev pub held_tails : StreamConfig → List (List ℕ) → Emitted
held_tails c chunks = flush_channels c (relayed_before c chunks).channels
