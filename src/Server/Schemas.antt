-- ===== src/Server/Schemas.antt =====
-- mcp-server/src/customer_mcp/schemas.py: what the arguments of a tool call have to be. What pydantic
-- checks for a field's declaration is written out; the Unicode data, the digits of its regular
-- expressions and the shortest decimal of a float are parameters. Error texts are left out.
pub mod Validity
use Prim.Native.Nat.{◌^◌}
use quilr_ai_mcp.Prelude.{
  ℕ, suc, ◌+◌, ◌-◌, ◌*◌, String, Bool, true, false, not, Option, none, some, List, [], ◌∷◌, ltb,
  leb, ◌==◌, ◌&&◌, ◌||◌, length, codes, str_eq, any, if◌then◌else◌,
}
use quilr_ai_mcp.Prelude.Int.{ℤ, pos, negsuc}
use quilr_ai_mcp.Prelude.Text.{strip, drop_prefix}
use quilr_ai_mcp.Prelude.Json.{
  Json, null, bool, int, float, str, arr, obj, Float, Fields, end, field, get_field,
}

abbrev pub max_refund_amount : ℕ
max_refund_amount = 100_000

abbrev pub min_reason_length : ℕ
min_reason_length = 10

abbrev pub max_reason_length : ℕ
max_reason_length = 2_000

abbrev pub max_idempotency_key_length : ℕ
max_idempotency_key_length = 128

-- `_INVISIBLE_CATEGORIES`
abbrev pub invisible_categories : List String
invisible_categories = "Cc" ∷ "Cf" ∷ "Zs" ∷ "Zl" ∷ "Zp" ∷ []

-- `unicodedata.category`, the engine's `\d`, and the decimal that `str` prints of a float.
pub record Schema : Type 0 where
  pub category : ℕ → String
  pub is_digit : ℕ → Bool
  pub shortest : Float → Float

-- `extra="forbid"`
unfoldable pub has_only : List String → Fields → Bool
has_only allowed end = true
has_only allowed (field k v d) = any (str_eq k) allowed && has_only allowed d

-- The validated arguments of a refund; the amount is in cents, and a text is its code points.
pub record TriggerRefundInput : Type 0 where
  pub customer_id : String
  pub amount : ℕ
  pub reason : List ℕ
  pub idempotency_key : Option (List ℕ)

-- `gt=0`, `le=MAX_REFUND_AMOUNT` and `_two_decimals` on `m * 10 ^ (- scale)`, in cents
abbrev pub cents_of : ℕ → ℕ → Option ℕ
cents_of m scale =
    if m == 0 || (ltb 2 scale || ltb (max_refund_amount * 10 ^ scale) m)
    then none
    else some (m * 10 ^ (2 - scale))

abbrev pub positive_cents : Float → Option ℕ
positive_cents x = elim x.mantissa [ pos m ↦ cents_of m x.scale | negsuc _ ↦ none ]

module _ (schema : Schema) where
  -- `visible_length`
  unfoldable pub visible_length : List ℕ → ℕ
  visible_length [] = 0
  visible_length (c ∷ cs) =
      let rest = visible_length cs in
      if any (str_eq (schema.category c)) invisible_categories then rest else rest + 1

  abbrev pub is_digits : List ℕ → Bool
  is_digits [] = true
  is_digits (c ∷ cs) = schema.is_digit c && is_digits cs

  abbrev pub is_five_digits : Option (List ℕ) → Bool
  is_five_digits none = false
  is_five_digits (some s) = length s == 5 && is_digits s

  -- `CUSTOMER_ID_PATTERN`
  unfoldable pub is_customer_id : String → Bool
  is_customer_id s = is_five_digits (drop_prefix (codes "CUST-") (codes s))

  unfoldable pub read_customer_id : Option Json → Option String
  read_customer_id (some (str s)) = if is_customer_id s then some s else none
  read_customer_id _ = none

  -- `_reject_non_numeric`, then the conversion to a float, its bounds and `_two_decimals`. A whole number
  -- within the bounds is a float with one decimal, which is zero.
  unfoldable pub read_amount : Option Json → Option ℕ
  read_amount (some (int (pos n))) = cents_of n 0
  read_amount (some (float x)) = positive_cents (schema.shortest x)
  read_amount _ = none

  -- `_meaningful_reason`
  abbrev pub meaningful_reason : List ℕ → Option (List ℕ)
  meaningful_reason stripped =
      if ltb (visible_length stripped) min_reason_length then none else some stripped

  unfoldable pub read_reason : Option Json → Option (List ℕ)
  read_reason (some (str s)) =
      if ltb max_reason_length (length (codes s)) then none else meaningful_reason (strip (codes s))
  read_reason _ = none

  -- `_usable_idempotency_key`
  abbrev pub usable_idempotency_key : List ℕ → Option (Option (List ℕ))
  usable_idempotency_key stripped =
      if visible_length stripped == 0 then none else some (some stripped)

  unfoldable pub read_idempotency_key : Option Json → Option (Option (List ℕ))
  read_idempotency_key none = some none
  read_idempotency_key (some null) = some none
  read_idempotency_key (some (str s)) =
      if ltb max_idempotency_key_length (length (codes s))
      then none
      else usable_idempotency_key (strip (codes s))
  read_idempotency_key _ = none

  -- `GetCustomerRecordInput.model_validate`
  unfoldable pub validate_get_customer : Fields → Option String
  validate_get_customer arguments =
      let id = read_customer_id (get_field "customer_id" arguments) in
      if has_only ("customer_id" ∷ []) arguments then id else none

  -- Every field has to be valid.
  abbrev pub refund_input :
      Option String
      → Option ℕ
      → Option (List ℕ)
      → Option (Option (List ℕ))
      → Option TriggerRefundInput
  refund_input (some customer_id) (some amount) (some reason) (some idempotency_key) =
      some (record {
        customer_id = customer_id;
        amount = amount;
        reason = reason;
        idempotency_key = idempotency_key;
      })
  refund_input _ _ _ _ = none

  -- `TriggerRefundInput.model_validate`
  unfoldable pub validate_refund : Fields → Option TriggerRefundInput
  validate_refund arguments =
      let input =
        refund_input (read_customer_id (get_field "customer_id" arguments))
          (read_amount (get_field "amount" arguments)) (read_reason (get_field "reason" arguments))
          (read_idempotency_key (get_field "idempotency_key" arguments)) in
      if has_only ("customer_id" ∷ "amount" ∷ "reason" ∷ "idempotency_key" ∷ []) arguments
      then input
      else none
