-- ===== src/Gateway/JsonRpc/Parsing.antt =====
-- Every element of a body is read: mcp-gateway/src/mcp_gateway/jsonrpc.py, `parse_payload`.
use quilr_ai_mcp.Prelude.{
  ℕ, ◌≡◌, refl, String, true, false, Option, none, some, List, [], ◌∷◌, Result, ok, raise, arith,
  is_some, map, All, ◌>>=◌, Result-cases, Bool-cases, inl, inr,
}
use mathlib.Core.Path.{subst}
use quilr_ai_mcp.Prelude.Rpc.{is_version, method_name, is_version-true, method_name-some}
use quilr_ai_mcp.Prelude.Json.{
  Json, null, bool, int, float, str, arr, obj, Items, nil, cons, Fields, get_field, or_null,
  to_list,
}
use quilr_ai_mcp.Gateway.JsonRpc.{
  RpcMessage, ParsedPayload, LoadError, duplicate_key, not_json, method_name, finish_message,
  read_method, parse_one, parse_items, parse_document, parse_loaded, parse_payload,
  reject_duplicate_keys, recover_id, is_blank,
}

-- A message says what its object says.
abbrev pub Reads : RpcMessage → Type 0
Reads m =
    (get_field "jsonrpc" m.raw ≡ some (str "2.0"))
    × (get_field "method" m.raw ≡ some (str m.method))
    × (m.params ≡ or_null (get_field "params" m.raw))
    × (m.is_request ≡ is_some (get_field "id" m.raw))
    × (m.id ≡ or_null (get_field "id" m.raw))

finish_message-Reads :
    (item : Fields) (method : String) (m : RpcMessage)
    → finish_message item (recover_id item) method ≡ ok m
    → is_version (get_field "jsonrpc" item) ≡ true
    → method_name (get_field "method" item) ≡ some method
    → (m.raw ≡ item) × Reads m
unfolding finish_message
finish_message-Reads item method m h version named = ground (
  arith,
  h,
  is_version-true (get_field "jsonrpc" item) version,
  method_name-some (get_field "method" item) method named,
)

read_method-Reads :
    (item : Fields) (o : Option String) (m : RpcMessage)
    → read_method item (recover_id item) o ≡ ok m
    → method_name (get_field "method" item) ≡ o
    → is_version (get_field "jsonrpc" item) ≡ true
    → (m.raw ≡ item) × Reads m
unfolding read_method
read_method-Reads item none m h named version = ground (arith, h)
read_method-Reads item (some method) m h named version =
    finish_message-Reads item method m h version named

parse_one-Reads :
    (item : Json) (m : RpcMessage) → parse_one item ≡ ok m → (obj m.raw ≡ item) × Reads m
unfolding parse_one
parse_one-Reads null m h = ground (arith, h)
parse_one-Reads (bool _) m h = ground (arith, h)
parse_one-Reads (int _) m h = ground (arith, h)
parse_one-Reads (float _) m h = ground (arith, h)
parse_one-Reads (str _) m h = ground (arith, h)
parse_one-Reads (arr _) m h = ground (arith, h)
parse_one-Reads (obj item) m h =
    ground (arith, h, read_method-Reads item (method_name (get_field "method" item)) m)

-- The messages are those of the elements, in their order.
abbrev pub AllRead : List RpcMessage → List Json → Type 0
AllRead ms items = (map (λ m. obj m.raw) ms ≡ items) × All Reads ms

parse_items-AllRead :
    (items : Items) (ms : List RpcMessage) → parse_items items ≡ ok ms → AllRead ms (to_list items)
unfolding parse_items
parse_items-AllRead nil ms h =
    let same : [] ≡ ms = ground (arith, h) in subst (λ x. AllRead x []) same (refl, tt)
parse_items-AllRead (cons item rest) ms h = elim (Result-cases (parse_one item)) [
  | inl (e, raised) ↦ ground (arith, h, raised)
  | inr (m, one) ↦ elim (Result-cases (parse_items rest)) [
    | inl (e, raised) ↦ ground (arith, h, one, raised)
    | inr (ms', others) ↦
        let (raw, reads) = parse_one-Reads item m one in
        let (raws, all_read) = parse_items-AllRead rest ms' others in
        let same : m ∷ ms' ≡ ms = ground (arith, h, one, others) in
        subst (λ x. AllRead x (item ∷ to_list rest)) same
          (ground (arith, raw, raws), (reads, all_read))
  ]
]

-- The elements of a batch; any other document is the one element.
abbrev pub items_of : Json → List Json
items_of (arr items) = to_list items
items_of document = document ∷ []

single-AllRead :
    (document : Json) (p : ParsedPayload)
    → (do m ← parse_one document; ok (record { messages = m ∷ []; is_batch = false })) ≡ ok p
    → AllRead p.messages (document ∷ [])
single-AllRead document p h = elim (Result-cases (parse_one document)) [
  | inl (e, raised) ↦ ground (arith, h, raised)
  | inr (m, one) ↦
      let (raw, reads) = parse_one-Reads document m one in
      let same : m ∷ [] ≡ p.messages = ground (arith, h, one) in
      subst (λ x. AllRead x (document ∷ [])) same (ground (arith, raw), (reads, tt))
]

parse_document-AllRead :
    (document : Json) (p : ParsedPayload)
    → parse_document document ≡ ok p
    → AllRead p.messages (items_of document)
unfolding parse_document
parse_document-AllRead (arr nil) p h = ground (arith, h)
parse_document-AllRead (arr (cons item rest)) p h =
    elim (Result-cases (parse_items (cons item rest))) [
      | inl (e, raised) ↦ ground (arith, h, raised)
      | inr (ms, items) ↦
          let same : ms ≡ p.messages = ground (arith, h, items) in
          subst (λ x. AllRead x (item ∷ to_list rest)) same
            (parse_items-AllRead (cons item rest) ms items)
    ]
parse_document-AllRead null p h = single-AllRead null p h
parse_document-AllRead (bool b) p h = single-AllRead (bool b) p h
parse_document-AllRead (int z) p h = single-AllRead (int z) p h
parse_document-AllRead (float x) p h = single-AllRead (float x) p h
parse_document-AllRead (str s) p h = single-AllRead (str s) p h
parse_document-AllRead (obj d) p h = single-AllRead (obj d) p h

-- A body that is accepted has been read as JSON under the hook against repeated keys, and every
-- element of its batch, or its one object, is a message in the list, in the same order, whose method,
-- params and id are those under the object's keys and whose version is 2.0.
pub parse_payload-AllRead :
    (loads : (Fields → Result String Fields) → List ℕ → Result LoadError Json) (body : List ℕ)
    (p : ParsedPayload)
    → parse_payload loads body ≡ ok p
    → (document : Json) × (loads reject_duplicate_keys body ≡ ok document)
      × AllRead p.messages (items_of document)
unfolding parse_payload parse_loaded
parse_payload-AllRead loads body p h = elim (Bool-cases (is_blank body)) [
  | inl blank ↦ ground (arith, h, blank)
  | inr text ↦ go (loads reject_duplicate_keys body) refl (ground (arith, h, text))
]
  where
    go :
        (r : Result LoadError Json)
        → loads reject_duplicate_keys body ≡ r
        → parse_loaded r ≡ ok p
        → (document : Json) × (loads reject_duplicate_keys body ≡ ok document)
          × AllRead p.messages (items_of document)
    go (raise (duplicate_key k)) e h' = ground (arith, h')
    go (raise not_json) e h' = ground (arith, h')
    go (ok document) e h' = (document, e, parse_document-AllRead document p h')
