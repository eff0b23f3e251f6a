-- ===== src/Guardrail/Tests.antt =====
-- Runs of the guardrail's model on concrete inputs, and instances of its theorems.
mod Detecting
mod Redaction
mod Streaming
mod Serving
use quilr_ai_mcp.Prelude.{
  ℕ, ◌-◌, ◌≡◌, refl, String, true, false, Option, none, some, List, [], ◌∷◌, ◌++◌, arith, leb, ◌&&◌,
  codes, if◌then◌else◌, map, ◌+◌,
}
use quilr_ai_mcp.Guardrail.Luhn.{weigh, checksum, numbers_of, luhn_valid}
use quilr_ai_mcp.Guardrail.Luhn.Errors.{luhn_valid_digit}
use quilr_ai_mcp.Guardrail.Sse.{
  SseEvent, new_parser, split_at, split_pair, not_last, find_line_end, join_lines, dispatch_event,
  handle_field, handle_line, drain_line, drain, feed_text, flush, data_lines, encode, feed_chunk,
}
use quilr_ai_mcp.Guardrail.Sse.Chunks.{joined, feed_chunks}
use quilr_ai_mcp.Guardrail.Sse.Encoding.{encode_all, feed_bytes, feed_bytes-encode_all}
use quilr_ai_mcp.Guardrail.Sse.Draining.{feed_text-find_line_end}

-- Names every function that a run calls.
unfoldable pub guardrail_program : Unit {0}
unfolding weigh checksum numbers_of luhn_valid split_at split_pair not_last find_line_end join_lines
    dispatch_event handle_field handle_line drain_line drain feed_text feed_chunk flush data_lines
    encode
guardrail_program = tt

abbrev ascii_digit : ℕ → Option ℕ
ascii_digit c = if leb 48 c && leb c 57 then some (c - 48) else none

luhn_valid-visa : luhn_valid ascii_digit (codes "4111-1111-1111-1111") ≡ true
unfolding guardrail_program
luhn_valid-visa = refl

luhn_valid_digit_example :
    luhn_valid ascii_digit (codes "4111-" ++ 50 ∷ codes "111-1111-1111") ≡ false
luhn_valid_digit_example =
    luhn_valid_digit ascii_digit (codes "4111-") (codes "111-1111-1111") 49 50 1 2 refl refl
      (omega arith) (omega arith) (ground arith) luhn_valid-visa

abbrev event : String → SseEvent
event text = record { event = none; data' = codes text }

-- An event over two chunks, with a comment and a line of two halves.
abbrev first_chunk : List ℕ
first_chunk = codes "data: one" ++ 10 ∷ codes ": ping" ++ 10 ∷ codes "data: t"

feed_text-chunks :
    (feed_text (feed_text new_parser first_chunk).0 (codes "wo" ++ 10 ∷ 10 ∷ [])).1
    ≡ (record { event = none; data' = codes "one" ++ 10 ∷ codes "two" }) ∷ []
unfolding guardrail_program
feed_text-chunks = refl

-- Line ends of two kinds in one buffer: the search for "\r\n" runs ahead of the "\n" before it, and
-- the two events become one.
feed_text-mixed :
    (feed_text new_parser
      (codes "data: a" ++ 10 ∷ 10 ∷ codes "data: b" ++ 13 ∷ 10 ∷ 13 ∷ 10 ∷ [])).1
    ≡ (record { event = none; data' = codes "a" ++ 10 ∷ 10 ∷ codes "data: b" }) ∷ []
unfolding guardrail_program
feed_text-mixed = refl

-- The same text in two chunks gives two.
feed_text-mixed_chunks : (feed_text new_parser (codes "data: a" ++ 10 ∷ 10 ∷ [])).1 ≡ event "a" ∷ []
unfolding guardrail_program
feed_text-mixed_chunks = refl

feed_text-find_line_end_example : find_line_end (feed_text new_parser first_chunk).0.buffer ≡ none
feed_text-find_line_end_example = feed_text-find_line_end new_parser first_chunk

flush-partial :
    (flush (feed_text new_parser first_chunk).0).1
    ≡ (record { event = none; data' = codes "one" ++ 10 ∷ codes "t" }) ∷ []
unfolding guardrail_program
flush-partial = refl

abbrev two_lines : SseEvent
two_lines = record { event = some (codes "ping"); data' = codes "one" ++ 10 ∷ codes " two" }

feed_text-encode : feed_text new_parser (encode two_lines) ≡ (new_parser, two_lines ∷ [])
unfolding guardrail_program
feed_text-encode = refl

abbrev three_chunks : List (List ℕ)
three_chunks =
    codes "event: p"
    ∷ (codes "ing" ++ (10 ∷ codes "data: o"))
    ∷ (codes "ne" ++ (10 ∷ (codes "data:  two" ++ (10 ∷ 10 ∷ []))))
    ∷ []

-- The bytes of these chunks are shifted by one, so that decoding is not idle.
abbrev shifted : List ℕ → List ℕ
shifted = map (λ b. b + 1)

abbrev byte_chunks : List (List ℕ)
byte_chunks = map (map (λ c. c - 1)) three_chunks

split_of : joined (map shifted byte_chunks) ≡ encode_all (two_lines ∷ [])
unfolding guardrail_program
split_of = refl

feed_bytes-encode_all_example :
    feed_bytes shifted new_parser byte_chunks ≡ (new_parser, two_lines ∷ [])
feed_bytes-encode_all_example =
    feed_bytes-encode_all shifted (two_lines ∷ []) byte_chunks ((ground arith, ground arith), tt)
      split_of
