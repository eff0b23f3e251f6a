-- ===== src/Router/MockProvider/Metered.antt =====
-- The stream of one service and the meter of the other: llm-gateway-router/src/mock_model_provider/app.py,
-- `_stream_response`, and llm-gateway-router/src/llm_router/tokens.py, `StreamUsageCollector`.
use quilr_ai_mcp.Prelude.{
  ℕ, zero, suc, ◌+◌, max, ◌≡◌, refl, sym, ap, ◌∙◌, String, true, Option, some, List, [], ◌∷◌, ◌++◌,
  arith, All, All-prefix, All-suffix,
}
use mathlib.Core.List.{append_assoc, append-nil}
use quilr_ai_mcp.Prelude.Int.{ℤ, pos}
use quilr_ai_mcp.Prelude.Json.{Json, obj, Fields, get_field}
use quilr_ai_mcp.Prelude.Text.{is_space, strip, strip_start, drop_prefix}
use quilr_ai_mcp.Router.Tokens.{minimum_charge}
use quilr_ai_mcp.Router.Tokens.Stream.{
  StreamUsageCollector, new_collector, split_lines, counted_value, add_input, set_output,
  take_usage, message_usage, find_usage, consume, consume_lines, feed, total,
}
use quilr_ai_mcp.Router.MockProvider.{
  MockModel, delta_event, block_start_event, usage_event, stop_event, delta_events,
  last_mock_events, range_length, mock_events, frame, frames_text,
}
use quilr_ai_mcp.Router.MockProvider.Reading.{
  IsOneLine, feed_chunks, joined, feed_chunks-joined, IsSilent, consume-frame,
}

module _ (loads : List ℕ → Option Json) (dumps : Json → List ℕ)
    (one_line : (v : Json) → IsOneLine (dumps v))
    (braces : (d : Fields) → (inner : List ℕ) × (dumps (obj d) ≡ b'{' ∷ (inner ++ b'}' ∷ []))) where
  block_delta-IsSilent : IsSilent loads dumps one_line braces "content_block_delta"
  unfolding consume drop_prefix strip strip_start is_space
  block_delta-IsSilent = (ground arith, λ c. refl)

  -- The events of the text report no usage.
  consume-delta_events :
      (m : MockModel) (c : StreamUsageCollector) (index n : ℕ) (rest : List ℕ)
      → All (λ f. loads (dumps f.1) ≡ some f.1) (delta_events m index n)
      → consume_lines loads c (split_lines (frames_text dumps (delta_events m index n) ++ rest)).0
        ≡ consume_lines loads c (split_lines rest).0
  unfolding take_usage find_usage message_usage get_field
  consume-delta_events m c index zero rest h = refl
  consume-delta_events m c index (suc n) rest (h, hs) =
      let more = frames_text dumps (delta_events m (suc index) n) in
      ap (λ t. consume_lines loads c (split_lines t).0)
        (append_assoc (frame dumps (delta_event m index)) more rest)
      ∙ (consume-frame loads dumps one_line braces c "content_block_delta" _ (more ++ rest)
            block_delta-IsSilent h
          ∙ consume-delta_events m c (suc index) n rest hs)

  frame_on :
      (c : StreamUsageCollector) (name : String) (d : Fields) (fs : List (String × Json))
      (rest : List ℕ)
      → IsSilent loads dumps one_line braces name
      → loads (dumps (obj d)) ≡ some (obj d)
      → consume_lines loads c (split_lines (frames_text dumps ((name, obj d) ∷ fs) ++ rest)).0
        ≡ consume_lines loads
            (take_usage c (find_usage d))
            (split_lines (frames_text dumps fs ++ rest)).0
  frame_on c name d fs rest silent back =
      ap (λ t. consume_lines loads c (split_lines t).0)
        (append_assoc (frame dumps (name, obj d)) (frames_text dumps fs) rest)
      ∙ consume-frame loads dumps one_line braces c name d (frames_text dumps fs ++ rest) silent
          back

  stop-IsSilent : IsSilent loads dumps one_line braces "content_block_stop"
  unfolding consume drop_prefix strip strip_start is_space
  stop-IsSilent = (ground arith, λ c. refl)

  start-IsSilent : IsSilent loads dumps one_line braces "content_block_start"
  unfolding consume drop_prefix strip strip_start is_space
  start-IsSilent = (ground arith, λ c. refl)

  message_start-IsSilent : IsSilent loads dumps one_line braces "message_start"
  unfolding consume drop_prefix strip strip_start is_space
  message_start-IsSilent = (ground arith, λ c. refl)

  message_delta-IsSilent : IsSilent loads dumps one_line braces "message_delta"
  unfolding consume drop_prefix strip strip_start is_space
  message_delta-IsSilent = (ground arith, λ c. refl)

  message_stop-IsSilent : IsSilent loads dumps one_line braces "message_stop"
  unfolding consume drop_prefix strip strip_start is_space
  message_stop-IsSilent = (ground arith, λ c. refl)

  -- The last events set the number of output tokens.
  consume-last_mock_events :
      (c : StreamUsageCollector) (o : ℕ)
      → All (λ f. loads (dumps f.1) ≡ some f.1) (last_mock_events (pos o))
      → consume_lines loads c (split_lines (frames_text dumps (last_mock_events (pos o)) ++ [])).0
        ≡ record c { output_tokens = o; saw_usage = true }
  unfolding take_usage find_usage message_usage get_field set_output add_input counted_value
      split_lines consume_lines
  consume-last_mock_events c o (h, (h', (h'', _))) =
      frame_on c "content_block_stop" _ (usage_event (pos o) ∷ stop_event ∷ []) [] stop-IsSilent h
      ∙ (frame_on c "message_delta" _ (stop_event ∷ []) [] message_delta-IsSilent h'
          ∙ frame_on (record c { output_tokens = o; saw_usage = true }) "message_stop" _ [] []
              message_stop-IsSilent h'')

  frames_text-append :
      (fs gs : List (String × Json))
      → frames_text dumps (fs ++ gs) ≡ frames_text dumps fs ++ frames_text dumps gs
  frames_text-append [] gs = refl
  frames_text-append (f ∷ fs) gs =
      rw (frames_text-append fs gs)
        (sym (append_assoc (frame dumps f) (frames_text dumps fs) (frames_text dumps gs)))

  consume-mock_events :
      (m : MockModel) (body : Fields) (chunks : ℤ) (i o : ℕ)
      → All (λ f. loads (dumps f.1) ≡ some f.1) (mock_events m body chunks (pos i) (pos o))
      → consume_lines loads new_collector
          (split_lines (frames_text dumps (mock_events m body chunks (pos i) (pos o)) ++ [])).0
        ≡ record new_collector { input_tokens = 0 + i; output_tokens = o; saw_usage = true }
  unfolding take_usage find_usage message_usage get_field set_output add_input counted_value
  consume-mock_events m body chunks i o (h, (h', hs)) =
      let deltas = delta_events m 0 (range_length chunks) in
      let lasts = last_mock_events (pos o) in
      let P : String × Json → Type 0 = λ f. loads (dumps f.1) ≡ some f.1 in
      let c : StreamUsageCollector = record new_collector {
        input_tokens = 0 + i;
        saw_usage = true;
      } in
      frame_on new_collector "message_start" _ (block_start_event ∷ (deltas ++ lasts)) []
        message_start-IsSilent h
      ∙ (frame_on c "content_block_start" _ (deltas ++ lasts) [] start-IsSilent h'
          ∙ (ap (λ t. consume_lines loads c (split_lines t).0)
                (ap (λ t. t ++ []) (frames_text-append deltas lasts)
                  ∙ append_assoc (frames_text dumps deltas) (frames_text dumps lasts) [])
              ∙ (consume-delta_events m c 0 (range_length chunks) (frames_text dumps lasts ++ [])
                    (All-prefix P deltas lasts hs)
                  ∙ consume-last_mock_events c o (All-suffix P deltas lasts hs))))

  -- The total does not depend on what the buffer holds.
  total-feed :
      (text : List ℕ)
      → total (feed loads new_collector text)
        ≡ total (consume_lines loads new_collector (split_lines text).0)
  unfolding total feed
  total-feed text = refl

  total-counted :
      (i o : ℕ)
      → total (record new_collector { input_tokens = 0 + i; output_tokens = o; saw_usage = true })
        ≡ some (max minimum_charge (i + o))
  unfolding total
  total-counted i o = let e : 0 + i ≡ i = omega arith in rw e refl

  -- However the transport cuts the stream of the mock provider into chunks, the router's meter charges what
  -- the provider was told to report, its input and its output tokens, and one token if both are zero.
  -- `json.dumps` writes an object on one line and between braces, and `json.loads` reads back the
  -- payloads of the stream.
  pub total-feed_chunks :
      (m : MockModel) (body : Fields) (chunks : ℤ) (i o : ℕ) (texts : List (List ℕ))
      → All (λ f. loads (dumps f.1) ≡ some f.1) (mock_events m body chunks (pos i) (pos o))
      → joined loads texts ≡ frames_text dumps (mock_events m body chunks (pos i) (pos o))
      → total (feed_chunks loads new_collector texts) ≡ some (max minimum_charge (i + o))
  total-feed_chunks m body chunks i o texts h e =
      let text = frames_text dumps (mock_events m body chunks (pos i) (pos o)) in
      ap total (feed_chunks-joined loads texts)
      ∙ (ap (λ t. total (feed loads new_collector t)) e
          ∙ (total-feed text
              ∙ (ap (λ t. total (consume_lines loads new_collector (split_lines t).0))
                    (sym (append-nil text))
                  ∙ (ap total (consume-mock_events m body chunks i o h) ∙ total-counted i o))))
