-- ===== src/Router/Tokens.antt =====
-- llm-gateway-router/src/llm_router/tokens.py: the estimate before a call and the usage after it.
-- `len(json.dumps(value))` is Python's serialiser and is a parameter.
pub mod Stream
pub mod Bounds
use quilr_ai_mcp.Prelude.{
  ℕ, zero, suc, ◌+◌, ◌/◌, min, max, String, Bool, true, false, Option, none, some, List, [], ◌∷◌,
  Result, ok, raise, ◌>>=◌, leb, if◌then◌else◌, len_text,
}
use quilr_ai_mcp.Prelude.Int.{ℤ, pos, negsuc}
use quilr_ai_mcp.Prelude.Json.{
  Json, null, bool, int, float, str, arr, obj, Items, nil, cons, Fields, end, field, get_field,
  or_null, truthy,
}

abbrev pub chars_per_token : ℕ
chars_per_token = 4

abbrev pub default_max_tokens : ℕ
default_max_tokens = 1_024

abbrev pub max_reservable_tokens : ℕ
max_reservable_tokens = 1_000_000

abbrev pub minimum_charge : ℕ
minimum_charge = 1

-- `for message in 5` raises.
pub data PyError : Type 0 where
  type_error : PyError

-- `max_tokens` after its checks: a bool, a number that is no int and what is not positive give the
-- default.
unfoldable pub max_tokens_of : Json → ℕ
max_tokens_of (int (pos zero)) = default_max_tokens
max_tokens_of (int (pos (suc n))) = suc n
max_tokens_of _ = default_max_tokens

module _ (dump_len : Json → ℕ) where
  unfoldable pub system_length : Json → ℕ
  system_length (str s) = len_text s
  system_length (arr vs) = dump_len (arr vs)
  system_length _ = 0

  unfoldable pub content_length : Json → ℕ
  content_length (str s) = len_text s
  content_length null = 0
  content_length v = dump_len v

  unfoldable pub message_length : Json → ℕ
  unfolding content_length
  message_length (obj d) = content_length (or_null (get_field "content" d))
  message_length _ = 0

  unfoldable pub items_length : Items → ℕ
  unfolding message_length
  items_length nil = 0
  items_length (cons v vs) = message_length v + items_length vs

  -- The loop over `body.get("messages", []) or []`. The characters of a text and the keys of a dict
  -- are no dicts and count nothing; a number that is true cannot be iterated.
  unfoldable pub messages_length : Json → Result PyError ℕ
  unfolding items_length
  messages_length (arr vs) = ok (items_length vs)
  messages_length (obj d) = ok 0
  messages_length (str s) = ok 0
  messages_length v = if truthy v then raise type_error else ok 0

  unfoldable pub tools_length : Json → ℕ
  tools_length v = if truthy v then dump_len v else 0

  unfoldable pub estimate_input_tokens : Fields → Result PyError ℕ
  unfolding system_length messages_length tools_length
  estimate_input_tokens body = do
    messages ← messages_length (or_null (get_field "messages" body))
    ok (
        max 1 (
          (system_length (or_null (get_field "system" body))
            + messages
            + tools_length (or_null (get_field "tools" body)))
          / chars_per_token))

  unfoldable pub reservation_size : Fields → Result PyError ℕ
  reservation_size body = do
    estimate ← estimate_input_tokens body
    ok (
        estimate
        + min (max_tokens_of (or_null (get_field "max_tokens" body))) max_reservable_tokens)

-- `isinstance(value, int) and value >= 0`, with the value; a bool is an int here.
unfoldable pub usage_value : Json → Option ℕ
usage_value (int (pos n)) = some n
usage_value (bool true) = some 1
usage_value (bool false) = some 0
usage_value _ = none

-- `total` and `found` after one key.
unfoldable pub add_usage : Option ℕ → Option ℕ → Option ℕ
add_usage none total = total
add_usage (some n) none = some n
add_usage (some n) (some total) = some (total + n)

abbrev pub usage_keys : List String
usage_keys =
    "input_tokens" ∷ "output_tokens" ∷ "cache_creation_input_tokens" ∷ "cache_read_input_tokens"
    ∷ []

-- The loop over the keys; `none` is `found = False`.
unfoldable pub sum_usage : Fields → List String → Option ℕ → Option ℕ
unfolding usage_value add_usage
sum_usage usage [] total = total
sum_usage usage (k ∷ ks) total =
    sum_usage usage ks (add_usage (usage_value (or_null (get_field k usage))) total)

abbrev pub at_least_minimum : Option ℕ → Option ℕ
at_least_minimum none = none
at_least_minimum (some total) = some (max minimum_charge total)

-- `actual_tokens` from its `usage` on.
unfoldable pub usage_total : Json → Option ℕ
unfolding sum_usage
usage_total (obj usage) = at_least_minimum (sum_usage usage usage_keys none)
usage_total _ = none

-- `actual_tokens`; a body that is not JSON is `None`.
unfoldable pub actual_tokens : Option Json → Option ℕ
unfolding usage_total
actual_tokens (some (obj body)) = usage_total (or_null (get_field "usage" body))
actual_tokens _ = none
