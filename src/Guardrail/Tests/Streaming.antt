-- ===== src/Guardrail/Tests/Streaming.antt =====
-- Runs of the stream's redaction on frames of two choices, and instances of its theorems.
use quilr_ai_mcp.Prelude.{
  ℕ, ◌≡◌, refl, String, false, Option, none, some, List, [], ◌∷◌, ◌++◌, codes, if◌then◌else◌,
}
use quilr_ai_mcp.Prelude.Dict.{get, put}
use quilr_ai_mcp.Prelude.Strings.{char_of, text_of}
use quilr_ai_mcp.Prelude.Text.{text_eq}
use quilr_ai_mcp.Prelude.Json.{Json, str, arr, obj, nil, cons, end, field, get_field, put_field}
use quilr_ai_mcp.Guardrail.Leaves.{redact_string, redact_leaves}
use quilr_ai_mcp.Guardrail.Payload.{
  Step, key, position, replace_item, replace_field, replace_at, Located, locate_delta,
  locate_choice, locate_choices, locate_texts, is_thinking,
}
use quilr_ai_mcp.Guardrail.Payload.Paths.{get_at, Apart}
use quilr_ai_mcp.Guardrail.Sse.{SseEvent}
use quilr_ai_mcp.Guardrail.Stream.{
  StreamConfig, new_channels, Channels, get_channel, put_channel, remember, serialise,
  default_text_rebuild, rebuild_event, followed_by, flush_channel, flush_keys,
}
use quilr_ai_mcp.Guardrail.Stream.Relay.{
  insert_key, sorted_keys, flush_channels, feed_channel, rewrite_texts, send_rewritten, pass_on,
  is_stop, handle_unrecognised, handle_thinking, handle_texts, handle_payload, handle_raw,
  handle_loaded, handle, handle_all, relay_chunks, completed, error_event, end_stream,
  redact_sse_stream,
}
use quilr_ai_mcp.Guardrail.Stream.Sanitized.{Sanitized}
use quilr_ai_mcp.Guardrail.Stream.Replay.{tail_of, flush_channel-feed_channel}
use quilr_ai_mcp.Guardrail.Tests.{guardrail_program}
use quilr_ai_mcp.Guardrail.Tests.Redaction.{redactor_program, config}

-- Names every function that a stream calls.
unfoldable pub streaming_program : Unit {0}
unfolding guardrail_program redactor_program get put char_of text_of get_field put_field
    redact_string redact_leaves replace_item replace_field replace_at locate_delta locate_choice
    locate_choices locate_texts is_thinking get_at get_channel put_channel remember serialise
    default_text_rebuild rebuild_event followed_by flush_channel flush_keys insert_key sorted_keys
    flush_channels feed_channel rewrite_texts send_rewritten pass_on is_stop handle_unrecognised
    handle_thinking handle_texts handle_payload handle_raw handle_loaded handle handle_all
    relay_chunks error_event end_stream redact_sse_stream
streaming_program = tt

-- `{"delta": {"content": text}}`
abbrev pub choice : String → Json
choice text = obj (field "delta" (obj (field "content" (str text) end)) end)

abbrev pub frame : String → String → Json
frame first second =
    obj (field "choices" (arr (cons (choice first) (cons (choice second) nil))) end)

abbrev pub content_at : ℕ → List Step
content_at n = key "choices" ∷ position n ∷ key "delta" ∷ key "content" ∷ []

abbrev pub content_of : Option Json → List ℕ
content_of (some (str s)) = codes s
content_of _ = codes "?"

-- Frames are called by name, and written as the texts of their two choices.
unfoldable pub loads : List ℕ → Option Json
loads t = if text_eq t (codes "F") then some (frame "ba" "#c") else none

unfoldable pub dumps : Json → List ℕ
unfolding get_at
dumps v = content_of (get_at (content_at 0) v) ++ codes "|" ++ content_of (get_at (content_at 1) v)

abbrev pub strict : StreamConfig
strict = record {
  decode = λ t. t;
  loads = loads;
  dumps = dumps;
  format = λ v. codes "1";
  main_redactor = config;
  other_redactor = config;
  policy = record { thinking = codes "drop"; unknown_schema = codes "redact" };
}

-- The frame "F", in two pieces
abbrev pieces : List (List ℕ)
pieces = codes "data:" ∷ (codes " F" ++ 10 ∷ 10 ∷ []) ∷ []

abbrev sent_text : String → SseEvent
sent_text text = record { event = none; data' = codes text }

-- The "a" that the first choice holds back is released in a frame that has the "#" of the second.
redact_sse_stream-replays :
    redact_sse_stream strict false pieces ≡ (sent_text "b|[X]c" ∷ sent_text "a|#c" ∷ [], completed)
unfolding streaming_program loads dumps
redact_sse_stream-replays = refl

abbrev first_text : Located
first_text = record { channel = ""; path = content_at 0; text = "ba" }

abbrev fed : Channels
fed = (feed_channel strict none (frame "ba" "#c") first_text new_channels).1

flushed : (flush_channel strict "" fed).events ≡ sent_text "a|#c" ∷ []
unfolding streaming_program dumps
flushed = refl

flush_channel-feed_channel_example :
    (e : Json) × (sent_text "a|#c" ≡ serialise strict none e)
    × (get_at (content_at 0) e ≡ some (str (text_of (tail_of strict "" fed))))
    × ((q : List Step) → Apart (content_at 0) q → get_at q e ≡ get_at q (frame "ba" "#c"))
flush_channel-feed_channel_example =
    flush_channel-feed_channel strict none (frame "ba" "#c") first_text new_channels
      (sent_text "a|#c") flushed
