-- ===== src/Guardrail/Stream.antt =====
-- llm-gateway-guardrail/src/llm_guardrail/stream.py: the redaction of the events of a stream. `decode` is
-- that of a chunk of bytes, and `loads` is `json.loads`, with `none` for its errors; `dumps` and the text of
-- a value in a key are parameters too. The state is passed on; logging is left out.
pub mod Relay
pub mod Rewriting
pub mod Remembering
pub mod Sanitized
pub mod Replay
pub mod Failure
use quilr_ai_mcp.Prelude.{
  ℕ, suc, ◌+◌, String, Bool, true, false, Option, none, some, List, [], ◌∷◌, ◌++◌, ◌||◌, str_eq,
  codes, map, if◌then◌else◌,
}
use quilr_ai_mcp.Prelude.Dict.{Dict, get, put}
use quilr_ai_mcp.Prelude.Strings.{text_of}
use quilr_ai_mcp.Prelude.Text.{text_eq, strip}
use quilr_ai_mcp.Prelude.Json.{Json, null, str, int, obj, end, field, get_field, or_null}
use quilr_ai_mcp.Prelude.Int.{pos}
use quilr_ai_mcp.Guardrail.Redactor.{RedactorConfig, StreamRedactor, new_redactor}
use quilr_ai_mcp.Guardrail.Redactor.Feeding.{feed_redactor, flush_redactor, redact_text}
use quilr_ai_mcp.Guardrail.Leaves.{redact_leaves}
use quilr_ai_mcp.Guardrail.Payload.{
  Step, key, replace_at, Located, main_text, is_str, locate_texts, is_thinking,
}
use quilr_ai_mcp.Guardrail.Sse.{SseEvent}

-- `StreamPolicy`, with its words as code points
pub record StreamPolicy : Type 0 where
  pub thinking : List ℕ
  pub unknown_schema : List ℕ

-- `source.get(name, default).strip()`
abbrev word_or : List ℕ → Option (List ℕ) → List ℕ
word_or default none = strip default
word_or default (some w) = strip w

-- `StreamPolicy.from_env`, with `str.lower`
unfoldable pub policy_from_env : (List ℕ → List ℕ) → Dict (List ℕ) → StreamPolicy
unfolding strip get
policy_from_env lower environ = record {
  thinking = lower (word_or (codes "drop") (get "GUARDRAIL_THINKING_POLICY" environ));
  unknown_schema = lower (word_or (codes "redact") (get "GUARDRAIL_ON_UNKNOWN_SCHEMA" environ));
}

-- What a stream is redacted with: the redactor that the caller injects, and that of any other channel.
pub record StreamConfig : Type 0 where
  pub decode : List ℕ → List ℕ
  pub loads : List ℕ → Option Json
  pub dumps : Json → List ℕ
  pub format : Json → List ℕ
  pub main_redactor : RedactorConfig
  pub other_redactor : RedactorConfig
  pub policy : StreamPolicy

-- The values that a `rebuild` closes over.
pub record Rebuild : Type 0 where
  pub event : Option (List ℕ)
  pub payload : Json
  pub path : List Step

-- `_Channel`
pub record Channel : Type 0 where
  pub redactor : StreamRedactor
  pub rebuild : Option Rebuild

abbrev pub new_channel : Channel
new_channel = record { redactor = new_redactor; rebuild = none }

-- `_Channels`; the main channel has its own fields.
pub record Channels : Type 0 where
  pub main : Channel
  pub others : Dict Channel
  pub saw_text : Bool

abbrev pub new_channels : Channels
new_channels = record { main = new_channel; others = []; saw_text = false }

-- `_Channels.get`; the redactor of a new channel is stored when it is fed.
unfoldable pub get_channel : String → Channels → Channel
unfolding get
get_channel k ch =
    if str_eq k main_text
    then ch.main
    else elim (get k ch.others) [ none ↦ new_channel | some channel ↦ channel ]

unfoldable pub put_channel : String → Channel → Channels → Channels
unfolding put
put_channel k channel ch =
    if str_eq k main_text
    then record ch { main = channel }
    else record ch { others = put k channel ch.others }

abbrev pub config_of : StreamConfig → String → RedactorConfig
config_of c k = if str_eq k main_text then c.main_redactor else c.other_redactor

-- `_Channels.remember`
unfoldable pub remember : String → Rebuild → Channels → Channels
remember k rebuild ch = put_channel k (record (get_channel k ch) { rebuild = some rebuild }) ch

-- `_serialise`
unfoldable pub serialise : StreamConfig → Option (List ℕ) → Json → SseEvent
serialise c event payload = record { event = event; data' = c.dumps payload }

-- `_default_text_rebuild`
unfoldable pub default_text_rebuild : StreamConfig → List ℕ → SseEvent
unfolding serialise
default_text_rebuild c text = serialise c (some (codes "content_block_delta")) (
    obj (
      field "type" (str "content_block_delta") (
        field "index" (int (pos 0)) (
          field "delta"
            (obj (field "type" (str "text_delta") (field "text" (str (text_of text)) end))) end))))

-- `rebuild(remaining)`; `none` is an exception.
unfoldable pub rebuild_event : StreamConfig → Option Rebuild → List ℕ → Option SseEvent
rebuild_event c none text = some (default_text_rebuild c text)
rebuild_event c (some r) text = elim (replace_at r.path (str (text_of text)) r.payload) [
  | none ↦ none
  | some payload ↦ some (serialise c r.event payload)
]

-- What a generator has yielded, whether it then raised, and the channels it leaves.
pub record Emitted : Type 0 where
  pub events : List SseEvent
  pub raised : Bool
  pub channels : Channels

abbrev pub yielding : List SseEvent → Channels → Emitted
yielding events ch = record { events = events; raised = false; channels = ch }

abbrev pub raising : Channels → Emitted
raising ch = record { events = []; raised = true; channels = ch }

-- What comes after, unless an exception does.
unfoldable pub followed_by : Emitted → (Channels → Emitted) → Emitted
followed_by e next =
    if e.raised
    then e
    else let later = next e.channels in record later { events = e.events ++ later.events }

abbrev pub sent : Channels → Option SseEvent → Emitted
sent ch none = raising ch
sent ch (some event) = yielding (event ∷ []) ch

-- Nothing is sent of a channel that holds nothing.
abbrev pub release_tail : StreamConfig → Option Rebuild → Channels → List ℕ → Emitted
release_tail c rebuild ch [] = yielding [] ch
release_tail c rebuild ch (x ∷ xs) = sent ch (rebuild_event c rebuild (x ∷ xs))

-- One round of the loop of `_Channels.flush`.
unfoldable pub flush_channel : StreamConfig → String → Channels → Emitted
flush_channel c k ch =
    let channel = get_channel k ch in
    let (remaining, r) = flush_redactor (config_of c k) channel.redactor in
    release_tail c channel.rebuild (put_channel k (record channel { redactor = r }) ch) remaining

unfoldable pub flush_keys : StreamConfig → List String → Channels → Emitted
unfolding followed_by
flush_keys c [] ch = yielding [] ch
flush_keys c (k ∷ ks) ch = followed_by (flush_channel c k ch) (λ ch'. flush_keys c ks ch')
