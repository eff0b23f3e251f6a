-- ===== src/Gateway/Tests/Blocking.antt =====
-- Requests through the gateway to the server that trusts it, and an instance of their theorem.
use quilr_ai_mcp.Prelude.{
  ℕ, ◌≡◌, refl, Bool, Bool-cases, ◌⊎◌, inl, inr, true, false, Option, none, some, List, [], ◌∷◌,
  Result, ok, raise, arith, All, map, ap, ◌==◌, if◌then◌else◌,
}
use mathlib.Core.Path.{subst}
use quilr_ai_mcp.Prelude.Int.{pos}
use quilr_ai_mcp.Prelude.Json.{
  Json, null, int, arr, obj, Items, nil, cons, Fields, to_list, get_field,
}
use quilr_ai_mcp.Prelude.Dict.{get}
use quilr_ai_mcp.Gateway.Auth.{is_admin, resolve_principal}
use quilr_ai_mcp.Gateway.JsonRpc.{RpcMessage, LoadError, not_json}
use quilr_ai_mcp.Gateway.JsonRpc.Parsing.{items_of}
use quilr_ai_mcp.Gateway.App.{Request, Response, items}
use quilr_ai_mcp.Gateway.App.Handler.{Host}
use quilr_ai_mcp.Gateway.App.Forwarding.{encoded}
use quilr_ai_mcp.Gateway.Downstream.{
  MockHost, MockError, is_tool, is_method, call_named, call_tool, answer_message, handle_message,
  handle_batch, post_document, post_loaded, handle_post,
}
use quilr_ai_mcp.Gateway.Downstream.Executing.{IsHarmless}
use quilr_ai_mcp.Gateway.Downstream.Blocked.{
  IsUnicode, IsJson, IsOutsider, received_after, received_after-IsHarmless,
}
use quilr_ai_mcp.Gateway.Tests.{gateway_program, ascii, viewer, config, message, tool, request}

-- Names every function that a request through both services calls.
unfoldable blocking_program : Unit {0}
unfolding gateway_program is_tool is_method call_named call_tool answer_message handle_message
    handle_batch post_document post_loaded handle_post
blocking_program = tt

abbrev listing : Fields
listing = message (int (pos 1)) "tools/list" null

abbrev reset : Fields
reset = message (int (pos 2)) "tools/call" (tool "admin_reset_key")

-- An encoding of the two messages, 1 and 2, and of lists of them, after a 3.
abbrev letter : Json → ℕ
letter (obj d) = if is_method d "tools/list" then 1 else 2
letter _ = 0

abbrev word : Items → List ℕ
word nil = []
word (cons v vs) = letter v ∷ word vs

abbrev encode : Json → List ℕ
encode (arr vs) = 3 ∷ word vs
encode v = letter v ∷ []

abbrev read_letter : ℕ → Json
read_letter n = if n == 1 then obj listing else obj reset

abbrev read_word : List ℕ → List Json
read_word [] = []
read_word (n ∷ ns) = read_letter n ∷ read_word ns

abbrev decode : List ℕ → Option Json
decode [] = none
decode (n ∷ ns) = if n == 3 then some (arr (items (read_word ns))) else some (read_letter n)

abbrev strictly : Option Json → Result LoadError Json
strictly none = raise not_json
strictly (some v) = ok v

abbrev host : Host
host = record {
  unicode = ascii;
  loads = λ _ body. strictly (decode body);
  dumps = encode;
  describe = λ _. "invalid";
  post = λ _. raise "down";
  response_json = λ _. none;
}

abbrev mock : MockHost
mock = record {
  loads = decode;
  executed_text = λ name _. name;
  unknown_tool_text = λ _. "unknown";
  unknown_method_text = λ _. "unknown";
}

abbrev render : Result MockError (Option Json) → Response
render _ = record { status_code = 200; headers = []; content = [] }

abbrev requests : List Request
requests = request "t1" 2 ∷ (record (request "t1" 3) { chunks = (3 ∷ 1 ∷ 2 ∷ []) ∷ [] }) ∷ []

-- Of the call alone nothing arrives, and of the batch the listing.
received-viewer : received_after mock render host config requests [] ≡ obj listing ∷ []
unfolding blocking_program
received-viewer = refl

admin_resets : received_after mock render host config (request "t2" 2 ∷ []) [] ≡ obj reset ∷ []
unfolding blocking_program
admin_resets = refl

abbrev IsLetter : Json → Type 0
IsLetter v = (v ≡ obj listing) ⊎ (v ≡ obj reset)

read_letter-IsLetter : (n : ℕ) → IsLetter (read_letter n)
read_letter-IsLetter n = elim (Bool-cases (n == 1)) [
  | inl first ↦ inl (rw first refl)
  | inr other ↦ inr (rw other refl)
]

read_word-IsLetter : (ns : List ℕ) → All IsLetter (to_list (items (read_word ns)))
read_word-IsLetter [] = tt
read_word-IsLetter (n ∷ ns) = (read_letter-IsLetter n, read_word-IsLetter ns)

decode-IsLetter :
    (body : List ℕ) (v : Json)
    → strictly (decode body) ≡ ok v
    → All IsLetter (items_of v) × (decode body ≡ some v)
decode-IsLetter [] v h = ground (arith, h)
decode-IsLetter (n ∷ ns) v h = elim (Bool-cases (n == 3)) [
  | inl list ↦
      let same : arr (items (read_word ns)) ≡ v = ground (arith, h, list) in
      subst (λ x. All IsLetter (items_of x) × (decode (n ∷ ns) ≡ some x)) same
        (read_word-IsLetter ns, rw list refl)
  | inr other ↦
      let same : read_letter n ≡ v = ground (arith, h, other) in
      subst (λ x. All IsLetter (items_of x) × (decode (n ∷ ns) ≡ some x)) same
        (
          elim (Bool-cases (n == 1)) [
            | inl first ↦ rw first (inl refl, tt)
            | inr second ↦ rw second (inr refl, tt)
          ],
          rw other refl,
        )
]

read_letter-letter : (v : Json) → IsLetter v → read_letter (letter v) ≡ v
unfolding is_method get_field
read_letter-letter v (inl same) = rw same refl
read_letter-letter v (inr same) = rw same refl

read_word-word : (vs : List Json) → All IsLetter vs → read_word (word (items vs)) ≡ vs
read_word-word [] h = refl
read_word-word (v ∷ vs) (h, hs) = rw (read_letter-letter v h, read_word-word vs hs) refl

single : (v : Json) → IsLetter v → decode (encode v) ≡ some v
unfolding is_method get_field
single v (inl same) = rw same refl
single v (inr same) = rw same refl

decode-encode :
    (is_batch : Bool) (ms : List RpcMessage)
    → All IsLetter (map (λ m. obj m.raw) ms)
    → decode (encode (encoded is_batch ms)) ≡ some (encoded is_batch ms)
decode-encode true ms h =
    ap (λ vs. some (arr (items vs))) (read_word-word (map (λ m. obj m.raw) ms) h)
decode-encode false [] h = refl
decode-encode false (m ∷ ms) (h, hs) = single (obj m.raw) h

host-IsJson : IsJson host mock
host-IsJson = record {
  Loaded = IsLetter;
  load_strict = decode-IsLetter;
  load_dumps = decode-encode;
}

ascii-IsUnicode : IsUnicode ascii
ascii-IsUnicode = record {
  nfkc_plain = λ s h. refl;
  nfd_plain = λ s h. refl;
  nfc_plain = λ s h. refl;
  casefold_plain = λ s h. refl;
  seen = λ c h. refl;
  spacing = λ c h. refl;
}

-- The first token is a viewer's.
request-IsOutsider : (r : Request) → r.headers ≡ (request "t1" 0).headers → IsOutsider config r
unfolding gateway_program
request-IsOutsider r same p h =
    let known =
      subst (λ d. resolve_principal config.tokens (get "authorization" d) ≡ ok p) same h in
    let who : viewer ≡ p = ground (arith, known) in subst (λ q. is_admin q ≡ false) who refl

received_after-IsHarmless_example :
    All IsHarmless (received_after mock render host config requests [])
received_after-IsHarmless_example =
    received_after-IsHarmless host mock render config requests [] host-IsJson ascii-IsUnicode
      (
        request-IsOutsider (request "t1" 2) refl,
        (request-IsOutsider (record (request "t1" 3) { chunks = (3 ∷ 1 ∷ 2 ∷ []) ∷ [] }) refl, tt),
      )
      tt
