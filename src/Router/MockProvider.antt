-- ===== src/Router/MockProvider.antt =====
-- llm-gateway-router/src/mock_model_provider/app.py: a provider whose failures its caller chooses. The texts of its
-- answers, and `int` and `float` on what is no int, are parameters. A pause is a number of milliseconds.
pub mod Reading
pub mod Metered
use quilr_ai_mcp.Prelude.{
  ℕ, zero, suc, String, Bool, true, false, Option, none, some, List, [], ◌∷◌, ◌++◌, codes, str_eq,
  if◌then◌else◌, ◌||◌,
}
use quilr_ai_mcp.Prelude.Int.{ℤ, pos, negsuc, is_nonzero}
use quilr_ai_mcp.Prelude.Json.{
  Json, null, bool, int, float, str, arr, obj, Items, nil, cons, Fields, end, field, Float,
  get_field, put_field, truthy,
}
use quilr_ai_mcp.Prelude.Strings.{text_of}

-- One provider: `app.state.name`, and what the handler calls.
pub record MockModel : Type 0 where
  pub name : String
  pub delta_text : ℕ → String
  pub answer_text : String
  pub int_of : Json → Option ℤ
  pub float_of : Json → Option Float

-- A number of milliseconds, or the half minute of "slow".
pub data MockPause : Type 0 where
  milliseconds : Float → MockPause
  half_a_minute : MockPause

-- A JSON answer with its status and `retry-after`, the events of a stream, or an exception.
pub data MockAnswer : Type 0 where
  json_answer : ℕ → Option String → Json → MockAnswer
  event_stream : List (String × Json) → MockAnswer
  server_error : MockAnswer

-- The closure `knob`
unfoldable pub knob : String → Fields → String → Json → Json
unfolding get_field text_of
knob name body key default =
    elim (get_field (text_of (codes name ++ (codes "_" ++ codes key))) body) [
      | some v ↦ v
      | none ↦ elim (get_field key body) [ some v ↦ v | none ↦ default ]
    ]

-- `int(value)`
unfoldable pub int_value : MockModel → Json → Option ℤ
int_value m (int z) = some z
int_value m (bool b) = some (pos (if b then 1 else 0))
int_value m v = m.int_of v

-- `body.get("model", "unknown")`
abbrev pub model_of : Fields → Json
model_of body = elim (get_field "model" body) [ none ↦ str "unknown" | some v ↦ v ]

abbrev pub typed : String → Fields → Json
typed kind rest = obj (field "type" (str kind) rest)

abbrev pub start_event : Fields → ℤ → String × Json
start_event body input_tokens = (
  "message_start",
  typed "message_start" (
      field "message"
        (obj (
          field "id" (str "msg_mock_stream") (
            field "role" (str "assistant") (
              field "model" (model_of body) (
                field "content" (arr nil) (
                  field "usage"
                    (obj (
                      field "input_tokens" (int input_tokens)
                        (field "output_tokens" (int (pos 0)) end)))
                    end))))))
        end),
)

abbrev pub block_start_event : String × Json
block_start_event = (
  "content_block_start",
  typed "content_block_start" (
      field "index" (int (pos 0))
        (field "content_block" (typed "text" (field "text" (str "") end)) end)),
)

abbrev pub delta_event : MockModel → ℕ → String × Json
delta_event m index = (
  "content_block_delta",
  typed "content_block_delta" (
      field "index" (int (pos 0))
        (field "delta" (typed "text_delta" (field "text" (str (m.delta_text index)) end)) end)),
)

-- The loop over `range(chunks)`, from an index on.
abbrev pub delta_events : MockModel → ℕ → ℕ → List (String × Json)
delta_events m index zero = []
delta_events m index (suc n) = delta_event m index ∷ delta_events m (suc index) n

abbrev pub block_stop_event : String × Json
block_stop_event =
    ("content_block_stop", typed "content_block_stop" (field "index" (int (pos 0)) end))

abbrev pub usage_event : ℤ → String × Json
usage_event output_tokens = (
  "message_delta",
  typed "message_delta" (
      field "delta" (obj (field "stop_reason" (str "end_turn") end))
        (field "usage" (obj (field "output_tokens" (int output_tokens) end)) end)),
)

abbrev pub stop_event : String × Json
stop_event = ("message_stop", typed "message_stop" end)

abbrev pub last_mock_events : ℤ → List (String × Json)
last_mock_events output_tokens = block_stop_event ∷ usage_event output_tokens ∷ stop_event ∷ []

abbrev pub range_length : ℤ → ℕ
range_length (pos n) = n
range_length (negsuc _) = 0

-- The generator of `_stream_response`
abbrev pub mock_events : MockModel → Fields → ℤ → ℤ → ℤ → List (String × Json)
mock_events m body chunks input_tokens output_tokens =
    start_event body input_tokens
    ∷ block_start_event
    ∷ (delta_events m 0 (range_length chunks) ++ last_mock_events output_tokens)

-- `_stream_response`: the four knobs are read first.
abbrev pub stream_of :
    MockModel → Fields → Option ℤ → Option Float → Option ℤ → Option ℤ → MockAnswer
stream_of m body (some chunks) (some gap) (some input_tokens) (some output_tokens) =
    event_stream (mock_events m body chunks input_tokens output_tokens)
stream_of m body _ _ _ _ = server_error

unfoldable pub stream_response : MockModel → Fields → MockAnswer
unfolding knob int_value
stream_response m body =
    stream_of m body (int_value m (knob m.name body "stream_chunks" (int (pos 3))))
      (m.float_of (knob m.name body "stream_gap_ms" (int (pos 0))))
      (int_value m (knob m.name body "input_tokens" (int (pos 50))))
      (int_value m (knob m.name body "output_tokens" (int (pos 100))))

-- The closure `frame`, and the text of the stream; `dumps` is `json.dumps`.
abbrev pub frame : (Json → List ℕ) → String × Json → List ℕ
frame dumps (event, payload) =
    (codes "event: " ++ codes event)
    ++ (10 ∷ ((codes "data: " ++ dumps payload) ++ (10 ∷ (10 ∷ []))))

abbrev pub frames_text : (Json → List ℕ) → List (String × Json) → List ℕ
frames_text dumps [] = []
frames_text dumps (f ∷ fs) = frame dumps f ++ frames_text dumps fs

abbrev pub error_answer : ℕ → Option String → String → String → MockAnswer
error_answer status retry_after kind message =
    json_answer status retry_after
      (typed "error" (field "error" (typed kind (field "message" (str message) end)) end))

-- `behaviour == s`
abbrev pub is_text : Json → String → Bool
is_text (str t) s = str_eq t s
is_text v s = false

-- The usage that a whole answer reports
abbrev pub with_usage : Bool → Fields → Option ℤ → Option ℤ → MockAnswer
with_usage true answer input_tokens output_tokens = json_answer 200 none (obj answer)
with_usage false answer (some input_tokens) (some output_tokens) = json_answer 200 none (
    obj (
      put_field "usage"
        (obj
          (field "input_tokens" (int input_tokens) (field "output_tokens" (int output_tokens) end)))
        answer))
with_usage false answer _ _ = server_error

unfoldable pub whole_answer : MockModel → Fields → MockAnswer
unfolding knob int_value put_field
whole_answer m body =
    with_usage (truthy (knob m.name body "omit_usage" (bool false)))
      (field "id" (str "msg_mock") (
        field "type" (str "message") (
          field "role" (str "assistant") (
            field "model" (model_of body) (
              field "content" (arr (cons (typed "text" (field "text" (str m.answer_text) end)) nil))
                (field "stop_reason" (str "end_turn") end))))))
      (int_value m (knob m.name body "input_tokens" (int (pos 50))))
      (int_value m (knob m.name body "output_tokens" (int (pos 100))))

-- The branches of `handle_messages` after the pause
unfoldable pub answer_as : MockModel → Fields → Json → MockAnswer
unfolding stream_response whole_answer
answer_as m body behaviour =
    if is_text behaviour "rate_limited"
    then error_answer 429 (some "42") "rate_limit_error"
        "quota exhausted on deployment prod-eu-3 (tenant acct_9931, internal-llm.prod.svc)"
    else if is_text behaviour "error"
    then error_answer 500 none "api_error" "internal failure at /srv/model/worker.py:412"
    else if is_text behaviour "bad_request"
    then error_answer 400 none "invalid_request_error" "max_tokens exceeds model limit"
    else if is_text behaviour "unauthorized" || is_text behaviour "forbidden"
    then error_answer (if is_text behaviour "unauthorized" then 401 else 403) none
        "authentication_error"
        "invalid x-api-key for org org_88213 (key sk-live-9f3a...b21, vault prod/eu)"
    else if truthy (knob m.name body "stream" (bool false))
    then stream_response m body
    else whole_answer m body

-- `asyncio.sleep`, if it is called
unfoldable pub pause_before : Json → Float → Option MockPause
pause_before behaviour delay =
    if is_text behaviour "slow"
    then some (if is_nonzero delay.mantissa then milliseconds delay else half_a_minute)
    else if is_nonzero delay.mantissa
    then some (milliseconds delay)
    else none

-- What follows `delay_ms`
abbrev pub answer_after : MockModel → Fields → Json → Option Float → Option MockPause × MockAnswer
answer_after m body behaviour none = (none, server_error)
answer_after m body behaviour (some delay) =
    (pause_before behaviour delay, answer_as m body behaviour)

-- `handle_messages` on a body that is a dict, with `received`.
unfoldable pub serve_mock :
    MockModel → Fields → List Json → (Option MockPause × MockAnswer) × List Json
unfolding answer_as pause_before
serve_mock m body received = (
  answer_after m body (knob m.name body "behaviour" (str "ok"))
      (m.float_of (knob m.name body "delay_ms" (int (pos 0)))),
  received ++ obj body ∷ [],
)
