-- ===== src/Router/Tests/Metering.antt =====
-- A stream of the mock provider on the router's meter, and an instance of their theorem.
use quilr_ai_mcp.Prelude.{
  ℕ, ◌+◌, max, ◌≡◌, refl, ap, ◌∙◌, String, false, Option, none, some, List, [], ◌∷◌, ◌++◌, arith,
  ◌==◌, codes, str_eq, All, if◌then◌else◌,
}
use quilr_ai_mcp.Prelude.Int.{pos}
use quilr_ai_mcp.Prelude.Json.{
  Json, null, bool, int, float, str, arr, obj, Fields, end, field, get_field, put_field,
}
use quilr_ai_mcp.Prelude.Strings.{char_of, text_of}
use quilr_ai_mcp.Prelude.Text.{text_eq, take, drop}
use quilr_ai_mcp.Prelude.Text.Slices.{take-append-drop}
use mathlib.Core.List.{append-nil}
use quilr_ai_mcp.Router.Tokens.{minimum_charge}
use quilr_ai_mcp.Router.Tokens.Stream.{new_collector, total}
use quilr_ai_mcp.Router.MockProvider.{
  MockModel, knob, int_value, stream_response, whole_answer, answer_as, pause_before, serve_mock,
  half_a_minute, error_answer, mock_events, frames_text, start_event, block_start_event,
  delta_event, block_stop_event, usage_event, stop_event,
}
use quilr_ai_mcp.Router.MockProvider.Reading.{feed_chunks, joined}
use quilr_ai_mcp.Router.MockProvider.Metered.{total-feed_chunks}

abbrev backup : MockModel
backup = record {
  name = "fallback";
  delta_text = λ _. "chunk";
  answer_text = "Answered.";
  int_of = λ _. none;
  float_of = λ _. some (record { mantissa = pos 0; scale = 0 });
}

-- Names every function that a request to the provider calls.
unfoldable mock_program : Unit {0}
unfolding get_field put_field char_of text_of knob int_value stream_response whole_answer answer_as
    pause_before serve_mock
mock_program = tt

abbrev failover_body : Fields
failover_body =
    field "behaviour" (str "rate_limited") (field "fallback_behaviour" (str "unauthorized") end)

-- The provider's own knob comes first.
serve_mock-own :
    (serve_mock backup failover_body []).0.1
    ≡ error_answer 401 none "authentication_error"
        "invalid x-api-key for org org_88213 (key sk-live-9f3a...b21, vault prod/eu)"
unfolding mock_program
serve_mock-own = refl

serve_mock-slow :
    (serve_mock backup (field "behaviour" (str "slow") end) []).0.0 ≡ some half_a_minute
unfolding mock_program
serve_mock-slow = refl

abbrev events : List (String × Json)
events = mock_events backup end (pos 1) (pos 50) (pos 7)

-- An encoding that tells the events of this stream apart by their types.
abbrev letter : Option Json → ℕ
letter (some (str s)) =
    if str_eq s "message_start"
    then 49
    else if str_eq s "content_block_start"
    then 50
    else if str_eq s "content_block_delta"
    then 51
    else if str_eq s "content_block_stop"
    then 52
    else if str_eq s "message_delta"
    then 53
    else 54
letter _ = 54

abbrev dumps : Json → List ℕ
dumps (obj d) = b'{' ∷ ((letter (get_field "type" d) ∷ []) ++ b'}' ∷ [])
dumps _ = []

abbrev loads : List ℕ → Option Json
loads text =
    if text_eq text (codes "{1}")
    then some (start_event end (pos 50)).1
    else if text_eq text (codes "{2}")
    then some block_start_event.1
    else if text_eq text (codes "{3}")
    then some (delta_event backup 0).1
    else if text_eq text (codes "{4}")
    then some block_stop_event.1
    else if text_eq text (codes "{5}")
    then some (usage_event (pos 7)).1
    else some stop_event.1

letter-line : (o : Option Json) → (letter o == 10) ≡ false
letter-line (some (str s)) = ground arith
letter-line none = refl
letter-line (some null) = refl
letter-line (some (bool _)) = refl
letter-line (some (int _)) = refl
letter-line (some (float _)) = refl
letter-line (some (arr _)) = refl
letter-line (some (obj _)) = refl

dumps-line : (v : Json) → All (λ c. (c == 10) ≡ false) (dumps v)
dumps-line (obj d) = (refl, (letter-line (get_field "type" d), (refl, tt)))
dumps-line null = tt
dumps-line (bool _) = tt
dumps-line (int _) = tt
dumps-line (float _) = tt
dumps-line (str _) = tt
dumps-line (arr _) = tt

loads-dumps : All (λ f. loads (dumps f.1) ≡ some f.1) events
unfolding get_field
loads-dumps = (refl, (refl, (refl, (refl, (refl, (refl, tt))))))

-- Two pieces, cut in the middle of a line
abbrev whole : List ℕ
whole = frames_text dumps events

abbrev pieces : List (List ℕ)
pieces = take 25 whole ∷ drop 25 whole ∷ []

joined-pieces : joined loads pieces ≡ whole
joined-pieces =
    ap (λ t. take 25 whole ++ t) (append-nil (drop 25 whole)) ∙ take-append-drop 25 whole

total-feed_chunks_example :
    total (feed_chunks loads new_collector pieces) ≡ some (max minimum_charge (50 + 7))
total-feed_chunks_example =
    total-feed_chunks loads dumps dumps-line (λ d. (letter (get_field "type" d) ∷ [], refl)) backup
      end (pos 1) 50 7 pieces loads-dumps joined-pieces
