-- ===== src/Guardrail/App.antt =====
-- llm-gateway-guardrail/src/llm_guardrail/app.py: `handle_messages`, which relays a request to the model
-- provider and redacts what comes back. The HTTP client and json.loads on bytes are parameters. The
-- address of the upstream and the timeouts are left out.
pub mod Replies
use quilr_ai_mcp.Prelude.{
  ℕ, String, Bool, true, false, not, Option, none, some, List, [], ◌∷◌, ltb, codes, str_eq, any,
  is_some, if◌then◌else◌,
}
use quilr_ai_mcp.Prelude.Body.{read_chunks, declared_size}
use quilr_ai_mcp.Prelude.Dict.{Dict, get, merge, select_keys}
use quilr_ai_mcp.Prelude.Keys.{lower, partition}
use quilr_ai_mcp.Prelude.Text.{text_eq, strip, drop_prefix}
use quilr_ai_mcp.Prelude.Json.{Json, bool, obj, Fields, get_field, truthy}
use quilr_ai_mcp.Guardrail.Leaves.{redact_leaves}
use quilr_ai_mcp.Guardrail.Sse.{SseEvent}
use quilr_ai_mcp.Guardrail.Stream.{StreamConfig}
use quilr_ai_mcp.Guardrail.Stream.Relay.{Ending, redact_sse_stream}

-- `_DROP_REQUEST_HEADERS`
abbrev pub drop_request_headers : List String
drop_request_headers =
    "host" ∷ "content-length" ∷ "connection" ∷ "transfer-encoding" ∷ "keep-alive" ∷ "upgrade" ∷ []

-- `_DROP_RESPONSE_HEADERS`
abbrev pub drop_response_headers : List String
drop_response_headers =
    "content-length" ∷ "content-encoding" ∷ "connection" ∷ "transfer-encoding" ∷ "keep-alive" ∷ []

-- Headers in lower case, as Starlette and httpx give them.
abbrev pub HeaderTable : Type 0
HeaderTable = Dict (List ℕ)

abbrev pub keep_headers : List String → HeaderTable → HeaderTable
keep_headers dropped headers = merge [] (select_keys (λ k. not (any (str_eq k) dropped)) headers)

-- `_forward_headers`
unfoldable pub forward_headers : HeaderTable → HeaderTable
forward_headers headers = keep_headers drop_request_headers headers

-- `_response_headers`
unfoldable pub response_headers : HeaderTable → HeaderTable
response_headers headers = keep_headers drop_response_headers headers

-- What `json.loads` makes of bytes: a value, a JSONDecodeError, or another exception.
pub data Loaded : Type 0 where
  loaded : Json → Loaded
  malformed : Loaded
  undecodable : Loaded

-- The provider's answer. `raw` is its whole body, unless reading it fails; `chunks` are the pieces of a
-- streamed one, decoded, and `fails` tells whether the stream then breaks.
pub record Upstream : Type 0 where
  pub status : ℕ
  pub headers : HeaderTable
  pub raw : Option (List ℕ)
  pub chunks : List (List ℕ)
  pub fails : Bool

-- What the handler reads of `Config`, and the code that it calls; `none` is an `HTTPError` of the client.
pub record GuardConfig : Type 0 where
  pub tokens : List (List ℕ)
  pub max_body_bytes : ℕ
  pub stream : StreamConfig
  pub loads_bytes : List ℕ → Loaded
  pub send : HeaderTable → List ℕ → Option Upstream

pub record MessagesRequest : Type 0 where
  pub headers : HeaderTable
  pub chunks : List (List ℕ)

-- The answers of the handler; `crashed` is an exception that it does not catch.
pub data Reply : Type 0 where
  unauthorized : Reply
  too_large : Reply
  unavailable : Reply
  crashed : Reply
  relayed_raw : ℕ → HeaderTable → List ℕ → Reply
  redacted : ℕ → HeaderTable → Json → Reply
  streamed : ℕ → HeaderTable → List SseEvent × Ending → Reply

-- `d.get(k, "")`
abbrev pub header_or_empty : String → HeaderTable → List ℕ
header_or_empty k headers = elim (get k headers) [ none ↦ [] | some v ↦ v ]

-- `_authorized`
abbrev pub is_known_token : List (List ℕ) → List ℕ × List ℕ → Bool
is_known_token tokens (scheme, token) =
    let known = any (text_eq (strip token)) tokens in
    if text_eq (lower scheme) (codes "bearer") then known else false

unfoldable pub authorized : List (List ℕ) → HeaderTable → Bool
unfolding get lower partition strip
authorized [] headers = true
authorized (t ∷ ts) headers =
    is_known_token (t ∷ ts) (partition 32 (header_or_empty "authorization" headers))

-- `_read_bounded_body`; `none` is `_BodyTooLarge`.
abbrev pub within_declared : ℕ → List (List ℕ) → Option ℕ → Option (List ℕ)
within_declared limit chunks none = read_chunks limit [] chunks
within_declared limit chunks (some n) =
    let body = read_chunks limit [] chunks in if ltb limit n then none else body

unfoldable pub read_limited_body : ℕ → MessagesRequest → Option (List ℕ)
unfolding get
read_limited_body limit r =
    within_declared limit r.chunks (declared_size (get "content-length" r.headers))

-- `json.loads(body).get("stream", True)`, where a JSONDecodeError and an AttributeError give `True`;
-- `none` is another exception.
abbrev pub stream_flag : Loaded → Option Bool
stream_flag (loaded (obj d)) = elim (get_field "stream" d) [
  | none ↦ some true
  | some v ↦ some (truthy v)
]
stream_flag (loaded _) = some true
stream_flag malformed = some true
stream_flag undecodable = none

unfoldable pub wants_stream : GuardConfig → List ℕ → Option Bool
wants_stream c [] = some true
wants_stream c (b ∷ bs) = stream_flag (c.loads_bytes (b ∷ bs))

-- `upstream.headers.get("content-type", "").startswith("text/event-stream")`
unfoldable pub is_event_stream : Upstream → Bool
unfolding get drop_prefix
is_event_stream u =
    is_some (drop_prefix (codes "text/event-stream") (header_or_empty "content-type" u.headers))

-- A body that is read whole.
abbrev pub redact_loaded : GuardConfig → Upstream → List ℕ → Loaded → Reply
redact_loaded c u raw (loaded payload) =
    redacted u.status (response_headers u.headers) (redact_leaves c.stream.other_redactor payload)
redact_loaded c u raw malformed = relayed_raw u.status (response_headers u.headers) raw
redact_loaded c u raw undecodable = crashed

unfoldable pub reply_whole : GuardConfig → Upstream → Option (List ℕ) → Reply
reply_whole c u none = crashed
reply_whole c u (some raw) = redact_loaded c u raw (c.loads_bytes raw)

unfoldable pub reply_stream : GuardConfig → Upstream → Reply
reply_stream c u =
    streamed u.status (response_headers u.headers) (redact_sse_stream c.stream u.fails u.chunks)

-- The answer to the caller, from the provider's.
unfoldable pub reply_to : GuardConfig → Bool → Option Upstream → Reply
reply_to c wants none = unavailable
reply_to c wants (some u) =
    if not wants
    then reply_whole c u u.raw
    else if not (is_event_stream u)
    then reply_whole c u u.raw
    else reply_stream c u

-- Sending the request on; a body that cannot be decoded ends in an exception.
abbrev pub send_on : GuardConfig → HeaderTable → List ℕ → Option Bool → Reply
send_on c headers body none = crashed
send_on c headers body (some wants) = reply_to c wants (c.send (forward_headers headers) body)

abbrev pub handle_read : GuardConfig → HeaderTable → Option (List ℕ) → Reply
handle_read c headers none = too_large
handle_read c headers (some body) = send_on c headers body (wants_stream c body)

-- `handle_messages`
unfoldable pub handle_messages : GuardConfig → MessagesRequest → Reply
handle_messages c r =
    if authorized c.tokens r.headers
    then handle_read c r.headers (read_limited_body c.max_body_bytes r)
    else unauthorized
