-- ===== src/Guardrail/Stream/Relay.antt =====
-- llm-gateway-guardrail/src/llm_guardrail/stream.py: `handle`, and `redact_sse_stream` from the first
-- chunk to the last event. The chunks are bytes, each decoded by itself; the upstream may fail after the
-- last of them.
use Prim.Native.Nat.{Ordering}
use Prim.Native.String.{compare}
use quilr_ai_mcp.Prelude.{
  ℕ, String, Bool, true, false, Option, none, some, List, [], ◌∷◌, ◌++◌, ◌||◌, codes, if◌then◌else◌,
}
use quilr_ai_mcp.Prelude.Dict.{Dict}
use quilr_ai_mcp.Prelude.Strings.{text_of}
use quilr_ai_mcp.Prelude.Text.{text_eq}
use quilr_ai_mcp.Prelude.Json.{Json, null, str, obj, end, field, get_field, or_null}
use quilr_ai_mcp.Guardrail.Redactor.Feeding.{feed_redactor, redact_text}
use quilr_ai_mcp.Guardrail.Leaves.{redact_leaves}
use quilr_ai_mcp.Guardrail.Payload.{
  replace_at, Located, main_text, is_str, locate_texts, is_thinking,
}
use quilr_ai_mcp.Guardrail.Sse.{SseEvent, SseParser, new_parser, feed_chunk, flush}
use quilr_ai_mcp.Guardrail.Stream.{
  StreamConfig, Channel, Channels, new_channels, get_channel, put_channel, config_of, remember,
  serialise, Emitted, yielding, raising, followed_by, flush_keys,
}

-- `sorted`, by insertion
unfoldable pub insert_key : String → List String → List String
insert_key k [] = k ∷ []
insert_key k (j ∷ js) =
    let rest = insert_key k js in elim (compare j k) [ Ordering.gt ↦ k ∷ j ∷ js | _ ↦ j ∷ rest ]

unfoldable pub sorted_keys : Dict Channel → List String
unfolding insert_key
sorted_keys [] = []
sorted_keys ((k, _) ∷ others) = insert_key k (sorted_keys others)

-- `_Channels.flush`
unfoldable pub flush_channels : StreamConfig → Channels → Emitted
unfolding flush_keys sorted_keys
flush_channels c ch = flush_keys c (main_text ∷ sorted_keys ch.others) ch

-- Where the loop over the located texts stands; `updated` is `none` after an exception.
pub record Rewritten : Type 0 where
  pub updated : Option Json
  pub released_any : Bool
  pub channels : Channels

abbrev pub is_nonempty : List ℕ → Bool
is_nonempty [] = false
is_nonempty (_ ∷ _) = true

-- What is left of a text after its channel's redactor, and the channels then.
unfoldable pub feed_channel :
    StreamConfig → Option (List ℕ) → Json → Located → Channels → List ℕ × Channels
feed_channel c event payload l ch =
    let ch' = remember l.channel (record { event = event; payload = payload; path = l.path }) ch in
    let channel = get_channel l.channel ch' in
    let (safe, r) = feed_redactor (config_of c l.channel) (codes l.text) channel.redactor in
    (safe, put_channel l.channel (record channel { redactor = r }) ch')

-- On with the loop, unless `_replace_at` raises.
abbrev pub on_replaced : (Json → Rewritten) → Bool → Channels → Option Json → Rewritten
on_replaced more released_any ch none = record {
  updated = none;
  released_any = released_any;
  channels = ch;
}
on_replaced more released_any ch (some next) = more next

-- The loop over the located texts.
unfoldable pub rewrite_texts :
    StreamConfig → Option (List ℕ) → Json → List Located → Json → Bool → Channels → Rewritten
rewrite_texts c event payload [] updated released_any ch = record {
  updated = some updated;
  released_any = released_any;
  channels = ch;
}
rewrite_texts c event payload (l ∷ ls) updated released_any ch =
    let (safe, ch') = feed_channel c event payload l ch in
    on_replaced
      (λ next. rewrite_texts c event payload ls next (released_any || is_nonempty safe) ch')
      released_any ch' (replace_at l.path (str (text_of safe)) updated)

-- What the loop leaves: an exception, an event, or nothing that can be sent yet.
unfoldable pub send_rewritten :
    StreamConfig → Option (List ℕ) → Bool → Channels → Option Json → Emitted
send_rewritten c event released_any ch none = raising ch
send_rewritten c event false ch (some updated) = yielding [] ch
send_rewritten c event true ch (some updated) = yielding (serialise c event updated ∷ []) ch

-- A frame of unknown shape, under the policy.
unfoldable pub pass_on : StreamConfig → SseEvent → Json → Channels → Emitted
pass_on c ev payload ch =
    if text_eq c.policy.unknown_schema (codes "block")
    then yielding [] ch
    else if text_eq c.policy.unknown_schema (codes "pass")
    then yielding (ev ∷ []) ch
    else yielding (serialise c ev.event (redact_leaves c.other_redactor payload) ∷ []) ch

abbrev pub is_stop_name : Option (List ℕ) → Bool
is_stop_name none = false
is_stop_name (some name) = text_eq name (codes "content_block_stop")

-- `payload.get("type") == BLOCK_STOP_EVENT`; only a `dict` has `get`.
abbrev pub is_stop_payload : Json → Option Bool
is_stop_payload (obj d) = some (is_str "content_block_stop" (or_null (get_field "type" d)))
is_stop_payload _ = none

-- Whether the frame ends a block.
unfoldable pub is_stop : SseEvent → Json → Option Bool
is_stop ev payload = if is_stop_name ev.event then some true else is_stop_payload payload

-- The tails of the channels go before the end of a block.
abbrev pub stop_or_pass : StreamConfig → SseEvent → Json → Channels → Option Bool → Emitted
stop_or_pass c ev payload ch none = raising ch
stop_or_pass c ev payload ch (some true) =
    followed_by (flush_channels c ch) (λ ch'. pass_on c ev payload ch')
stop_or_pass c ev payload ch (some false) = pass_on c ev payload ch

unfoldable pub handle_unrecognised : StreamConfig → SseEvent → Json → Channels → Emitted
handle_unrecognised c ev payload ch = stop_or_pass c ev payload ch (is_stop ev payload)

-- A thinking frame, under the policy.
unfoldable pub handle_thinking : StreamConfig → SseEvent → Json → Channels → Emitted
handle_thinking c ev payload ch =
    if text_eq c.policy.thinking (codes "drop")
    then yielding [] ch
    else if text_eq c.policy.thinking (codes "redact")
    then yielding (serialise c ev.event (redact_leaves c.other_redactor payload) ∷ []) ch
    else yielding (ev ∷ []) ch

unfoldable pub handle_texts : StreamConfig → SseEvent → Json → List Located → Channels → Emitted
handle_texts c ev payload [] ch = handle_unrecognised c ev payload ch
handle_texts c ev payload (l ∷ ls) ch =
    let w =
      rewrite_texts c ev.event payload (l ∷ ls) payload false (record ch { saw_text = true }) in
    send_rewritten c ev.event w.released_any w.channels w.updated

abbrev pub handle_as : StreamConfig → SseEvent → Json → Channels → Option Bool → Emitted
handle_as c ev payload ch none = raising ch
handle_as c ev payload ch (some true) = handle_thinking c ev payload ch
handle_as c ev payload ch (some false) =
    handle_texts c ev payload (locate_texts c.format payload) ch

unfoldable pub handle_payload : StreamConfig → SseEvent → Json → Channels → Emitted
handle_payload c ev payload ch = handle_as c ev payload ch (is_thinking payload)

-- A frame that is not JSON
unfoldable pub handle_raw : StreamConfig → SseEvent → Channels → Emitted
handle_raw c ev ch =
    yielding ((record { event = ev.event; data' = redact_text c.other_redactor ev.data' }) ∷ []) ch

unfoldable pub handle_loaded : StreamConfig → SseEvent → Option Json → Channels → Emitted
handle_loaded c ev none ch = handle_raw c ev ch
handle_loaded c ev (some null) ch = handle_raw c ev ch
handle_loaded c ev (some payload) ch = handle_payload c ev payload ch

-- `handle`
unfoldable pub handle : StreamConfig → SseEvent → Channels → Emitted
handle c ev ch = handle_loaded c ev (c.loads ev.data') ch

unfoldable pub handle_all : StreamConfig → List SseEvent → Channels → Emitted
unfolding followed_by
handle_all c [] ch = yielding [] ch
handle_all c (ev ∷ evs) ch = followed_by (handle c ev ch) (λ ch'. handle_all c evs ch')

-- The body of `try` in `redact_sse_stream`.
unfoldable pub relay_chunks : StreamConfig → Bool → List (List ℕ) → SseParser → Channels → Emitted
unfolding followed_by
relay_chunks c fails [] p ch = if fails then raising ch else handle_all c (flush p).1 ch
relay_chunks c fails (t ∷ ts) p ch =
    let (p', evs) = feed_chunk c.decode p t in
    followed_by (handle_all c evs ch) (λ ch'. relay_chunks c fails ts p' ch')

-- How the stream ends: by itself, with an error event, or with an exception that nobody reports.
pub data Ending : Type 0 where
  completed : Ending
  reported : Ending
  aborted : Ending

unfoldable pub error_event : StreamConfig → SseEvent
error_event c = record {
  event = some (codes "error");
  data' = c.dumps (
      obj (
        field "type" (str "error") (
          field "error"
            (obj (
              field "type" (str "api_error") (
                field "message"
                  (str "The upstream model provider failed part-way through this response.") end)))
            end)));
}

abbrev pub last_events : StreamConfig → Bool → Bool → List SseEvent
last_events c true false = error_event c ∷ []
last_events c _ _ = []

abbrev pub ending_of : Bool → Bool → Ending
ending_of failed true = aborted
ending_of true false = reported
ending_of false false = completed

-- The `except` block, and what follows the `try`.
unfoldable pub end_stream : StreamConfig → Emitted → List SseEvent × Ending
end_stream c e =
    let tail = flush_channels c e.channels in
    (
      e.events ++ (tail.events ++ last_events c e.raised tail.raised),
      ending_of e.raised tail.raised,
    )

-- `redact_sse_stream`, before its events are encoded
unfoldable pub redact_sse_stream : StreamConfig → Bool → List (List ℕ) → List SseEvent × Ending
redact_sse_stream c fails chunks =
    end_stream c (relay_chunks c fails chunks new_parser new_channels)
