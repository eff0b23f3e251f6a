-- ===== src/Server/Schemas/Validity.antt =====
-- What valid arguments are: mcp-server/src/customer_mcp/schemas.py.
use mathlib.Core.Path.{subst}
use quilr_ai_mcp.Prelude.{
  ℕ, zero, suc, ◌*◌, ◌≤◌, ◌≡◌, refl, String, Bool, true, false, Option, none, some, List, [], ◌∷◌,
  arith, ltb, ◌==◌, length, codes, if◌then◌else◌,
}
use quilr_ai_mcp.Prelude.Int.{ℤ, pos, negsuc}
use quilr_ai_mcp.Prelude.Text.{strip}
use quilr_ai_mcp.Prelude.Json.{Json, null, int, float, str, Float, Fields, get_field}
use quilr_ai_mcp.Server.Schemas.{
  max_refund_amount, min_reason_length, max_reason_length, max_idempotency_key_length, Schema,
  has_only, TriggerRefundInput, cents_of, positive_cents, visible_length, is_customer_id,
  read_customer_id, read_amount, read_reason, read_idempotency_key, refund_input, validate_refund,
}

-- An amount between one cent and the maximum.
abbrev pub IsAmount : ℕ → Type 0
IsAmount n = (1 ≤ n) × (n ≤ max_refund_amount * 100)

cents_of-IsAmount : (m scale n : ℕ) → cents_of m scale ≡ some n → IsAmount n
cents_of-IsAmount m zero n h = ground (arith, h)
cents_of-IsAmount m (suc zero) n h = ground (arith, h)
cents_of-IsAmount m (suc (suc zero)) n h = ground (arith, h)
cents_of-IsAmount m (suc (suc (suc scale))) n h = ground (arith, h)

module _ (schema : Schema) where
  -- A key that a person can tell from no key.
  abbrev pub IsKey : Option (List ℕ) → Type 0
  IsKey none = Unit
  IsKey (some k) = 1 ≤ visible_length schema k

  -- What the schema promises of a refund's arguments.
  abbrev pub IsValid : TriggerRefundInput → Type 0
  IsValid a =
      (is_customer_id schema a.customer_id ≡ true)
      × IsAmount a.amount
      × (min_reason_length ≤ visible_length schema a.reason)
      × IsKey a.idempotency_key

  read_customer_id_lem :
      (o : Option Json) (id : String)
      → read_customer_id schema o ≡ some id
      → is_customer_id schema id ≡ true
  unfolding read_customer_id
  read_customer_id_lem (some (str s)) id h = go (is_customer_id schema s) refl h
    where
      go :
          (b : Bool)
          → is_customer_id schema s ≡ b
          → (if b then some s else none) ≡ some id
          → is_customer_id schema id ≡ true
      go true e h' =
          let same : s ≡ id = ground (arith, h') in
          subst (λ t. is_customer_id schema t ≡ true) same e
      go false e h' = ground (arith, h')
  read_customer_id_lem o id h = ground (arith, h)

  read_amount-IsAmount : (o : Option Json) (n : ℕ) → read_amount schema o ≡ some n → IsAmount n
  unfolding read_amount
  read_amount-IsAmount (some (int (pos m))) n h = cents_of-IsAmount m 0 n h
  read_amount-IsAmount (some (float x)) n h = go (schema.shortest x) h
    where
      go_sign :
          (z : ℤ) (scale : ℕ)
          → (elim z [ pos m ↦ cents_of m scale | negsuc _ ↦ none ]) ≡ some n
          → IsAmount n
      go_sign (pos m) scale h' = cents_of-IsAmount m scale n h'
      go_sign (negsuc m) scale h' = ground (arith, h')

      go : (y : Float) → positive_cents y ≡ some n → IsAmount n
      go y h' = go_sign y.mantissa y.scale h'
  read_amount-IsAmount o n h = ground (arith, h)

  read_reason_lem :
      (o : Option Json) (t : List ℕ)
      → read_reason schema o ≡ some t
      → min_reason_length ≤ visible_length schema t
  unfolding read_reason
  read_reason_lem (some (str s)) t h =
      go (ltb max_reason_length (length (codes s)))
        (ltb (visible_length schema (strip (codes s))) min_reason_length) refl h
    where
      go :
          (b b' : Bool)
          → ltb (visible_length schema (strip (codes s))) min_reason_length ≡ b'
          → (if b then none else if b' then none else some (strip (codes s))) ≡ some t
          → min_reason_length ≤ visible_length schema t
      go true b' e h' = ground (arith, h')
      go false true e h' = ground (arith, h')
      go false false e h' =
          let same : strip (codes s) ≡ t = ground (arith, h') in
          subst (λ u. min_reason_length ≤ visible_length schema u) same (ground (arith, e))
  read_reason_lem o t h = ground (arith, h)

  none_is : (k : Option (List ℕ)) → some none ≡ some k → none ≡ k
  none_is k h = ground (arith, h)

  read_idempotency_key-IsKey :
      (o : Option Json) (k : Option (List ℕ)) → read_idempotency_key schema o ≡ some k → IsKey k
  unfolding read_idempotency_key
  read_idempotency_key-IsKey (some (str s)) k h =
      go (ltb max_idempotency_key_length (length (codes s)))
        (visible_length schema (strip (codes s)) == 0) refl h
    where
      go :
          (b b' : Bool)
          → (visible_length schema (strip (codes s)) == 0) ≡ b'
          → (if b then none else if b' then none else some (some (strip (codes s)))) ≡ some k
          → IsKey k
      go true b' e h' = ground (arith, h')
      go false true e h' = ground (arith, h')
      go false false e h' =
          let same : some (strip (codes s)) ≡ k = ground (arith, h') in
          subst IsKey same (ground (arith, e))
  read_idempotency_key-IsKey none k h = subst IsKey (none_is k h) tt
  read_idempotency_key-IsKey (some null) k h = subst IsKey (none_is k h) tt
  read_idempotency_key-IsKey o k h = ground (arith, h)

  refund_input-IsValid :
      (o : Option String) (o' : Option ℕ) (p : Option (List ℕ)) (p' : Option (Option (List ℕ)))
      (a : TriggerRefundInput)
      → ((id : String) → o ≡ some id → is_customer_id schema id ≡ true)
      → ((n : ℕ) → o' ≡ some n → IsAmount n)
      → ((t : List ℕ) → p ≡ some t → min_reason_length ≤ visible_length schema t)
      → ((k : Option (List ℕ)) → p' ≡ some k → IsKey k)
      → refund_input schema o o' p p' ≡ some a
      → IsValid a
  refund_input-IsValid (some id) (some n) (some t) (some k) a hid hn ht hk h =
      let same : (record { customer_id = id; amount = n; reason = t; idempotency_key = k }) ≡ a =
        ground (arith, h) in
      subst IsValid same (hid id refl, hn n refl, ht t refl, hk k refl)
  refund_input-IsValid o o' p p' a hid hn ht hk h = ground (arith, h)

  pub validate_refund-IsValid :
      (d : Fields) (a : TriggerRefundInput) → validate_refund schema d ≡ some a → IsValid a
  unfolding validate_refund
  validate_refund-IsValid d a h =
      go (has_only ("customer_id" ∷ "amount" ∷ "reason" ∷ "idempotency_key" ∷ []) d)
        (refund_input-IsValid (read_customer_id schema (get_field "customer_id" d))
          (read_amount schema (get_field "amount" d)) (read_reason schema (get_field "reason" d))
          (read_idempotency_key schema (get_field "idempotency_key" d)) a
          (read_customer_id_lem (get_field "customer_id" d))
          (read_amount-IsAmount (get_field "amount" d)) (read_reason_lem (get_field "reason" d))
          (read_idempotency_key-IsKey (get_field "idempotency_key" d)))
        h
    where
      go :
          (b : Bool) {o : Option TriggerRefundInput}
          → (o ≡ some a → IsValid a)
          → (if b then o else none) ≡ some a
          → IsValid a
      go true valid h' = valid h'
      go false valid h' = ground (arith, h')
