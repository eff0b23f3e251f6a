-- ===== src/Guardrail/Luhn.antt =====
-- llm-gateway-guardrail/src/llm_guardrail/patterns.py, `luhn_valid`: the checksum of a card number.
pub mod Errors
use quilr_ai_mcp.Prelude.{
  ℕ, ◌+◌, ◌-◌, ◌*◌, ◌%◌, suc, Bool, true, false, Option, none, some, List, [], ◌∷◌, ltb, ◌==◌,
  length, if◌then◌else◌,
}

-- `digit *= 2` and `digit -= 9` at the doubled places
unfoldable pub weigh : Bool → ℕ → ℕ
weigh doubled digit =
    if doubled then (if ltb 9 (digit * 2) then digit * 2 - 9 else digit * 2) else digit

-- The loop over `enumerate(numbers)`.
unfoldable pub checksum : ℕ → ℕ → List ℕ → ℕ
checksum index parity [] = 0
checksum index parity (digit ∷ digits) =
    weigh (index % 2 == parity) digit + checksum (suc index) parity digits

-- `[int(character) for character in digits if character.isdigit()]`; `digit_of` is the two calls on
-- one character.
unfoldable pub numbers_of : (ℕ → Option ℕ) → List ℕ → List ℕ
numbers_of digit_of [] = []
numbers_of digit_of (c ∷ cs) =
    let rest = numbers_of digit_of cs in elim (digit_of c) [ none ↦ rest | some d ↦ d ∷ rest ]

-- `luhn_valid`
unfoldable pub luhn_valid : (ℕ → Option ℕ) → List ℕ → Bool
luhn_valid digit_of digits =
    let numbers = numbers_of digit_of digits in
    if ltb (length numbers) 13 then false else checksum 0 (length numbers % 2) numbers % 10 == 0
