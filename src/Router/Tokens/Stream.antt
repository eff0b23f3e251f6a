-- ===== src/Router/Tokens/Stream.antt =====
-- `StreamUsageCollector`: usage picked out of an SSE stream as its text goes past. A text is the
-- list of its code points; the JSON parser is a parameter.
pub mod Chunks
use quilr_ai_mcp.Prelude.{
  ℕ, ◌+◌, max, String, Bool, true, false, Option, none, some, List, [], ◌∷◌, ◌++◌, leb, ◌==◌, ◌||◌,
  ◌&&◌, if◌then◌else◌, codes,
}
use quilr_ai_mcp.Prelude.Int.{pos}
use quilr_ai_mcp.Prelude.Json.{Json, int, obj, Fields, get_field, or_null}
use quilr_ai_mcp.Prelude.Text.{strip, drop_prefix, text_eq}
use quilr_ai_mcp.Router.Tokens.{minimum_charge}

pub record StreamUsageCollector : Type 0 where
  pub buffer : List ℕ
  pub input_tokens : ℕ
  pub output_tokens : ℕ
  pub saw_usage : Bool

abbrev pub new_collector : StreamUsageCollector
new_collector = record { buffer = []; input_tokens = 0; output_tokens = 0; saw_usage = false }

-- Adds a character to the first line, which is the rest if no line is complete.
unfoldable pub push_char : ℕ → List (List ℕ) × List ℕ → List (List ℕ) × List ℕ
push_char c ([], rest) = ([], c ∷ rest)
push_char c (l ∷ ls, rest) = ((c ∷ l) ∷ ls, rest)

-- `*lines, rest = text.split("\n")`
unfoldable pub split_lines : List ℕ → List (List ℕ) × List ℕ
unfolding push_char
split_lines [] = ([], [])
split_lines (c ∷ cs) = let r = split_lines cs in if c == 10 then ([] ∷ r.0, r.1) else push_char c r

-- `isinstance(value, int) and not isinstance(value, bool) and value >= 0`
unfoldable pub counted_value : Json → Option ℕ
counted_value (int (pos n)) = some n
counted_value _ = none

unfoldable pub add_input : StreamUsageCollector → Option ℕ → StreamUsageCollector
add_input c none = c
add_input c (some n) = record c { input_tokens = c.input_tokens + n; saw_usage = true }

unfoldable pub set_output : StreamUsageCollector → Option ℕ → StreamUsageCollector
set_output c none = c
set_output c (some n) = record c { output_tokens = n; saw_usage = true }

-- `_consume` from the `usage` dict on
unfoldable pub take_usage : StreamUsageCollector → Json → StreamUsageCollector
take_usage c (obj usage) =
    let value = λ (k : String). counted_value (or_null (get_field k usage)) in
    let inputs =
      add_input
        (add_input (add_input c (value "input_tokens")) (value "cache_creation_input_tokens"))
        (value "cache_read_input_tokens") in
    set_output inputs (value "output_tokens")
take_usage c _ = c

-- The `usage` of an event: its own, or its message's.
unfoldable pub message_usage : Json → Json → Json
message_usage usage (obj message) = or_null (get_field "usage" message)
message_usage usage _ = usage

unfoldable pub find_usage : Fields → Json
find_usage event = pick (or_null (get_field "usage" event))
  where
    pick : Json → Json
    pick (obj usage) = obj usage
    pick other = message_usage other (or_null (get_field "message" event))

module _ (loads : List ℕ → Option Json) where
  unfoldable pub consume_event : StreamUsageCollector → Option Json → StreamUsageCollector
  consume_event c (some (obj event)) = take_usage c (find_usage event)
  consume_event c _ = c

  unfoldable pub consume_payload : StreamUsageCollector → List ℕ → StreamUsageCollector
  consume_payload c [] = c
  consume_payload c payload =
      if text_eq payload (codes "[DONE]") then c else consume_event c (loads payload)

  -- `_consume`, on a stripped line
  unfoldable pub consume : StreamUsageCollector → List ℕ → StreamUsageCollector
  consume c line = elim (drop_prefix (codes "data:") line) [
    | none ↦ c
    | some rest ↦ consume_payload c (strip rest)
  ]

  unfoldable pub consume_lines : StreamUsageCollector → List (List ℕ) → StreamUsageCollector
  consume_lines c [] = c
  consume_lines c (l ∷ ls) = consume_lines (consume c (strip l)) ls

  -- `feed`, on a decoded chunk
  unfoldable pub feed : StreamUsageCollector → List ℕ → StreamUsageCollector
  feed c text =
      let (lines, rest) = split_lines (c.buffer ++ text) in
      record (consume_lines c lines) { buffer = rest }

-- `total`
unfoldable pub total : StreamUsageCollector → Option ℕ
total c = if c.saw_usage then some (max minimum_charge (c.input_tokens + c.output_tokens)) else none
