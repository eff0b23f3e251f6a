-- ===== src/Guardrail.antt =====
-- llm-gateway-guardrail: redaction of what a model streams.
pub mod Luhn
pub mod Regex
pub mod Patterns
pub mod Redactor
pub mod Sse
pub mod Leaves
pub mod Payload
pub mod Stream
pub mod App
mod Tests
