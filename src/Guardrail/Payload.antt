-- ===== src/Guardrail/Payload.antt =====
-- llm-gateway-guardrail/src/llm_guardrail/stream.py: where the texts of a frame are, and how one is
-- replaced. An exception that Python raises is `none`.
pub mod Places
pub mod Paths
pub mod Channels
use quilr_ai_mcp.Prelude.{
  ℕ, zero, suc, ◌+◌, String, Bool, true, false, not, Option, none, some, List, [], ◌∷◌, ◌++◌, ◌==◌,
  ◌&&◌, ◌||◌, str_eq, is_some, codes, if◌then◌else◌,
}
use quilr_ai_mcp.Prelude.Int.{ℤ, pos}
use quilr_ai_mcp.Prelude.Strings.{text_of}
use quilr_ai_mcp.Prelude.Json.{
  Json, null, bool, int, float, str, arr, obj, Items, nil, cons, Fields, end, field, get_field,
  put_field, or_null, truthy, as_obj,
}

-- One step of a path into a payload.
pub data Step : Type 0 where
  key : String → Step
  position : ℕ → Step

-- `items[n] = f(items[n])`
unfoldable pub replace_item : (Json → Option Json) → ℕ → Items → Option Items
replace_item f n nil = none
replace_item f zero (cons v vs) = elim (f v) [ none ↦ none | some w ↦ some (cons w vs) ]
replace_item f (suc n) (cons v vs) = elim (replace_item f n vs) [
  | none ↦ none
  | some ws ↦ some (cons v ws)
]

-- `{**d, k: f(d[k])}`
unfoldable pub replace_field : (Json → Option Json) → String → Fields → Option Fields
replace_field f k d = elim (get_field k d) [
  | none ↦ none
  | some v ↦ elim (f v) [ none ↦ none | some w ↦ some (put_field k w d) ]
]

-- One step of the copy; a position is only ever asked of a list.
abbrev pub replace_below : Step → (Json → Option Json) → Json → Option Json
replace_below (position n) f (arr vs) = elim (replace_item f n vs) [
  | none ↦ none
  | some ws ↦ some (arr ws)
]
replace_below (key k) f (obj d) = elim (replace_field f k d) [ none ↦ none | some e ↦ some (obj e) ]
replace_below _ f _ = none

-- `_replace_at`
unfoldable pub replace_at : List Step → Json → Json → Option Json
replace_at [] value payload = some value
replace_at (s ∷ rest) value payload = replace_below s (replace_at rest value) payload

-- A channel's key, the path to the leaf, and its text.
pub record Located : Type 0 where
  pub channel : String
  pub path : List Step
  pub text : String

abbrev pub main_text : String
main_text = ""

-- `isinstance(value, str)`, with the value
abbrev pub as_str : Json → Option String
as_str (str s) = some s
as_str _ = none

-- `d.get(k)`, if it is a `str`
abbrev pub str_field : String → Fields → Option String
str_field k d = as_str (or_null (get_field k d))

-- `value == s`
abbrev pub is_str : String → Json → Bool
is_str s (str t) = str_eq t s
is_str s _ = false

-- `index in (0, None)`
abbrev pub is_main_index : Json → Bool
is_main_index null = true
is_main_index (bool b) = not b
is_main_index (int z) = not (truthy (int z))
is_main_index (float x) = not (truthy (float x))
is_main_index _ = false

-- `payload.get("index", 0)`
abbrev pub index_of : Fields → Json
index_of payload = elim (get_field "index" payload) [ none ↦ int (pos 0) | some v ↦ v ]

-- `f"{prefix}{value}"`, with `str` on the value.
abbrev pub prefixed : (Json → List ℕ) → String → Json → String
prefixed format prefix value = text_of (codes prefix ++ format value)

abbrev pub located_at : String → List Step → Option String → List Located
located_at channel path none = []
located_at channel path (some text) = (record { channel = channel; path = path; text = text }) ∷ []

-- The Anthropic half of `_locate_texts`, on `delta` and the frame's index.
unfoldable pub locate_delta : (Json → List ℕ) → Json → Json → List Located
locate_delta format index (obj delta) =
    let kind = or_null (get_field "type" delta) in
    if is_str "text_delta" kind && is_some (str_field "text" delta)
    then located_at (if is_main_index index then main_text else prefixed format "text:" index)
        (key "delta" ∷ key "text" ∷ []) (str_field "text" delta)
    else if is_str "input_json_delta" kind
    then located_at (prefixed format "json:" index) (key "delta" ∷ key "partial_json" ∷ [])
        (str_field "partial_json" delta)
    else []
locate_delta format index _ = []

-- `choice.get("delta") or choice.get("message")`
abbrev pub inner_of : Fields → Json
inner_of choice =
    let delta = or_null (get_field "delta" choice) in
    if truthy delta then delta else or_null (get_field "message" choice)

-- One choice of the OpenAI shape; `claimed` tells whether an Anthropic delta was found.
unfoldable pub locate_choice : (Json → List ℕ) → Bool → ℕ → Json → List Located
locate_choice format claimed n (obj choice) = elim (inner_of choice) [
  | obj inner ↦
      located_at
        (if n == 0 && not claimed then main_text else prefixed format "openai:" (int (pos n)))
        (key "choices"
          ∷ position n
          ∷ key (if is_some (get_field "delta" choice) then "delta" else "message")
          ∷ key "content"
          ∷ [])
        (str_field "content" inner)
  | _ ↦ []
]
locate_choice format claimed n _ = []

unfoldable pub locate_choices : (Json → List ℕ) → Bool → ℕ → Items → List Located
unfolding locate_choice
locate_choices format claimed n nil = []
locate_choices format claimed n (cons v vs) =
    locate_choice format claimed n v ++ locate_choices format claimed (n + 1) vs

abbrev pub is_found : List Located → Bool
is_found [] = false
is_found (_ ∷ _) = true

abbrev pub locate_openai : (Json → List ℕ) → Bool → Json → List Located
locate_openai format claimed (arr choices) = locate_choices format claimed 0 choices
locate_openai format claimed _ = []

-- `_locate_texts`
unfoldable pub locate_texts : (Json → List ℕ) → Json → List Located
unfolding locate_delta locate_choices
locate_texts format (obj payload) =
    let found = locate_delta format (index_of payload) (or_null (get_field "delta" payload)) in
    found ++ locate_openai format (is_found found) (or_null (get_field "choices" payload))
locate_texts format _ = []

-- `kind in THINKING_DELTA_TYPES`: a list or a `dict` is not hashable.
abbrev pub is_thinking_type : Json → Option Bool
is_thinking_type (str s) = some (str_eq s "thinking_delta" || str_eq s "signature_delta")
is_thinking_type (arr _) = none
is_thinking_type (obj _) = none
is_thinking_type _ = some false

-- `isinstance(block, dict) and block.get("type") == "thinking"`
abbrev pub is_thinking_block : Json → Bool
is_thinking_block (obj block) = is_str "thinking" (or_null (get_field "type" block))
is_thinking_block _ = false

abbrev pub is_thinking_delta : Json → Option Bool
is_thinking_delta (obj delta) = is_thinking_type (or_null (get_field "type" delta))
is_thinking_delta _ = some false

-- `_is_thinking`
unfoldable pub is_thinking : Json → Option Bool
is_thinking (obj payload) = elim (is_thinking_delta (or_null (get_field "delta" payload))) [
  | none ↦ none
  | some true ↦ some true
  | some false ↦ some (is_thinking_block (or_null (get_field "content_block" payload)))
]
is_thinking _ = some false
