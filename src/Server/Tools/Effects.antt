-- ===== src/Server/Tools/Effects.antt =====
-- What a tool call may do: mcp-server/src/customer_mcp/server.py, `handle_call_tool`.
use quilr_ai_mcp.Prelude.{
  ℕ, ◌≡◌, refl, ◌⊎◌, inl, inr, String, Bool, true, false, Option, none, some, List, str_eq, eq_iff,
  if◌then◌else◌,
}
use quilr_ai_mcp.Prelude.Json.{Fields}
use quilr_ai_mcp.Server.Refunds.{State, create_refund}
use quilr_ai_mcp.Server.Schemas.{Schema, TriggerRefundInput, validate_get_customer, validate_refund}
use quilr_ai_mcp.Server.Schemas.Validity.{IsValid, validate_refund-IsValid}
use quilr_ai_mcp.Server.Tools.{
  CallResult, unknown_tool, available_tools, Context, call_of, with_answer, call_get_customer,
  call_refund, arguments_or_empty, handle_call_tool,
}

other_tool :
    (name : String)
    → str_eq name "get_customer_record" ≡ true
    → str_eq name "trigger_refund" ≡ false
other_tool name h = rw ((eq_iff name "get_customer_record").0 h) refl

module _ (schema : Schema) (digest : String → ℕ → String → List ℕ) (window : ℕ) where
  -- What became of a call: nothing moved and it is no refund, or none with valid arguments; or it is the
  -- refund that the arguments ask for.
  abbrev pub Effect : Context → String → Option Fields → State → CallResult × State → Type 0
  Effect ctx name arguments st result =
      ((result.1 ≡ st)
        × ((str_eq name "trigger_refund" ≡ false)
            ⊎ (validate_refund schema (arguments_or_empty arguments) ≡ none)))
      ⊎ (a : TriggerRefundInput) × IsValid schema a
        × (str_eq name "trigger_refund" ≡ true)
        × (validate_refund schema (arguments_or_empty arguments) ≡ some a)
        × (result ≡ with_answer (create_refund digest window (call_of ctx a) st))

  call_get_customer_keeps :
      (o : Option String) (st : State) → (call_get_customer schema digest window o st).1 ≡ st
  unfolding call_get_customer
  call_get_customer_keeps none st = refl
  call_get_customer_keeps (some id) st = refl

  call_refund-Effect :
      (ctx : Context) (name : String) (arguments : Option Fields) (o : Option TriggerRefundInput)
      (st : State)
      → validate_refund schema (arguments_or_empty arguments) ≡ o
      → ((a : TriggerRefundInput) → o ≡ some a → IsValid schema a)
      → str_eq name "trigger_refund" ≡ true
      → Effect ctx name arguments st (call_refund schema digest window ctx o st)
  unfolding call_refund
  call_refund-Effect ctx name arguments none st read valid named = inl (refl, inr read)
  call_refund-Effect ctx name arguments (some a) st read valid named =
      inr (a, valid a refl, named, read, refl)

  -- A call of any other tool than `trigger_refund`, or of it with arguments that the schema does not accept,
  -- leaves the ledger and the store as they are. In any other call the arguments hold a customer id of the right form, an amount between one cent and the maximum, a
  -- reason of at least ten visible characters, and no key or a visible one; and its answer and its effect
  -- are those of `create_refund` on what the schema reads from these arguments.
  pub handle_call_tool-Effect :
      (ctx : Context) (name : String) (arguments : Option Fields) (st : State)
      → Effect ctx name arguments st (handle_call_tool schema digest window ctx name arguments st)
  unfolding handle_call_tool
  handle_call_tool-Effect ctx name arguments st =
      go (str_eq name "get_customer_record") (str_eq name "trigger_refund") refl refl
    where
      go :
          (b b' : Bool)
          → str_eq name "get_customer_record" ≡ b
          → str_eq name "trigger_refund" ≡ b'
          → Effect ctx name arguments st (
              if b
              then call_get_customer schema digest window
                  (validate_get_customer schema (arguments_or_empty arguments))
                  st
              else if b'
              then call_refund schema digest window ctx
                  (validate_refund schema (arguments_or_empty arguments))
                  st
              else (unknown_tool available_tools, st))
      go true b' c e = inl (call_get_customer_keeps _ st, inl (other_tool name c))
      go false true c e =
          call_refund-Effect ctx name arguments _ st refl
            (validate_refund-IsValid schema (arguments_or_empty arguments)) e
      go false false c e = inl (refl, inl e)
