-- ===== src/Gateway/JsonRpc/Duplicates.antt =====
-- What the hook against repeated keys buys: mcp-gateway/src/mcp_gateway/jsonrpc.py,
-- `_reject_duplicate_keys`.
use quilr_ai_mcp.Prelude.{
  ◌≡◌, refl, String, Option, none, some, ok, arith, str_eq, if◌then◌else◌, eq_iff,
}
use quilr_ai_mcp.Prelude.Json.{Json, Fields, end, field, get_field, put_field, get_field-put_field}
use quilr_ai_mcp.Gateway.JsonRpc.{collect_keys, reject_duplicate_keys}

-- The value of a parser that keeps the last of the values under a key.
unfoldable pub last_field : String → Fields → Option Json
last_field k end = none
last_field k (field j v rest) = elim (last_field k rest) [
  | some w ↦ some w
  | none ↦ if str_eq j k then some v else none
]

collect_keys-seen :
    (seen pairs d : Fields) (k : String) (w : Json)
    → collect_keys seen pairs ≡ ok d
    → get_field k seen ≡ some w
    → (get_field k d ≡ some w) × (get_field k pairs ≡ none) × (last_field k pairs ≡ none)
unfolding collect_keys get_field last_field
collect_keys-seen seen end d k w h e = ground (arith, h, e)
collect_keys-seen seen (field j v rest) d k w h e = ground (
  arith,
  h,
  e,
  eq_iff j k,
  get_field-put_field j k v seen,
  collect_keys-seen (put_field j v seen) rest d k w,
)

collect_keys-unseen :
    (seen pairs d : Fields) (k : String)
    → collect_keys seen pairs ≡ ok d
    → get_field k seen ≡ none
    → (get_field k d ≡ get_field k pairs) × (last_field k pairs ≡ get_field k pairs)
unfolding collect_keys get_field last_field
collect_keys-unseen seen end d k h e = ground (arith, h, e)
collect_keys-unseen seen (field j v rest) d k h e = ground (
  arith,
  h,
  e,
  eq_iff j k,
  get_field-put_field j k v seen,
  collect_keys-seen (put_field j v seen) rest d k v,
  collect_keys-unseen (put_field j v seen) rest d k,
)

-- In an object that the hook accepts, a parser that keeps the first value of a key and one that keeps
-- the last read the same value under every key, the one in the hook's result.
pub reject_duplicate_keys_agree :
    (pairs d : Fields) (k : String)
    → reject_duplicate_keys pairs ≡ ok d
    → (get_field k d ≡ get_field k pairs) × (last_field k pairs ≡ get_field k pairs)
unfolding get_field
reject_duplicate_keys_agree pairs d k h = collect_keys-unseen end pairs d k h refl
