-- ===== src/Guardrail/Tests/Serving.antt =====
-- Runs of the handler, and an instance of its theorem.
use quilr_ai_mcp.Prelude.{◌≡◌, refl, String, false, Option, none, some, [], ◌∷◌, codes}
use quilr_ai_mcp.Prelude.Body.{read_chunks, digits_value}
use quilr_ai_mcp.Prelude.Dict.{merge, select_keys}
use quilr_ai_mcp.Prelude.Keys.{lower, partition}
use quilr_ai_mcp.Prelude.Text.{is_space, strip_start, strip, drop_prefix}
use quilr_ai_mcp.Prelude.Json.{Json}
use quilr_ai_mcp.Guardrail.App.{
  forward_headers, response_headers, Loaded, loaded, malformed, GuardConfig, MessagesRequest,
  unauthorized, too_large, relayed_raw, redacted, authorized, read_limited_body, wants_stream,
  is_event_stream, reply_whole, reply_stream, reply_to, handle_messages,
}
use quilr_ai_mcp.Guardrail.Tests.Streaming.{streaming_program, frame, loads, dumps, strict}

-- Names every function that the handler calls.
unfoldable serving_program : Unit {0}
unfolding streaming_program loads dumps read_chunks digits_value merge select_keys lower partition
    is_space strip_start strip drop_prefix forward_headers response_headers authorized
    read_limited_body wants_stream is_event_stream reply_whole reply_stream reply_to handle_messages
serving_program = tt

abbrev loaded_or_not : Option Json → Loaded
loaded_or_not none = malformed
loaded_or_not (some v) = loaded v

-- A provider that sends one body.
abbrev config_for : String → GuardConfig
config_for body = record {
  tokens = codes "t" ∷ [];
  max_body_bytes = 4;
  stream = strict;
  loads_bytes = λ bytes. loaded_or_not (loads bytes);
  send = λ headers sent_body.
      some (record {
        status = 200;
        headers = [];
        raw = some (codes body);
        chunks = [];
        fails = false;
      });
}

abbrev request : String → String → MessagesRequest
request credential body = record {
  headers = ("authorization", codes credential) ∷ [];
  chunks = codes body ∷ [];
}

redacts_json :
    handle_messages (config_for "F") (request "Bearer t" "?") ≡ redacted 200 [] (frame "ba" "[X]c")
unfolding serving_program
redacts_json = refl

-- What is no JSON comes through as it is.
relays_text :
    handle_messages (config_for "b#c") (request "Bearer t" "?") ≡ relayed_raw 200 [] (codes "b#c")
unfolding serving_program
relays_text = refl

refuses_token : handle_messages (config_for "F") (request "Bearer u" "?") ≡ unauthorized
unfolding serving_program
refuses_token = refl

refuses_long : handle_messages (config_for "F") (request "Bearer t" "12345") ≡ too_large
unfolding serving_program
refuses_long = refl
