-- ===== src/Guardrail/Patterns/Detectors.antt =====
-- llm-gateway-guardrail/src/llm_guardrail/patterns.py: the detectors. The Unicode data behind `\w`, `\d` and
-- `str.isdigit`, and the engine that compiles an expression, are parameters.
pub mod Bounds
use quilr_ai_mcp.Prelude.{
  ℕ, String, Bool, true, false, not, Option, none, some, List, [], ◌∷◌, leb, ◌==◌, ◌&&◌, ◌||◌,
  codes,
}
use quilr_ai_mcp.Guardrail.Regex.{Regex, empty, one, seq, alt, times, many, not_ahead, not_behind}
use quilr_ai_mcp.Guardrail.Patterns.{Match, Pattern}
use quilr_ai_mcp.Guardrail.Luhn.{luhn_valid}

pub record UnicodeData : Type 0 where
  pub is_word : ℕ → Bool
  pub is_digit : ℕ → Bool
  pub digit_of : ℕ → Option ℕ

-- `search`, `match` with an `endpos`, and `finditer` with `partial=True`
pub record Engine : Type 0 where
  pub search : Regex → List ℕ → ℕ → Option (ℕ × ℕ)
  pub match_within : Regex → List ℕ → ℕ → ℕ → Option ℕ
  pub find_partial : Regex → List ℕ → List Match

-- Classes of ASCII characters
abbrev pub is_upper : ℕ → Bool
is_upper c = leb b'A' c && leb c b'Z'

abbrev pub is_lower : ℕ → Bool
is_lower c = leb b'a' c && leb c b'z'

abbrev pub is_decimal : ℕ → Bool
is_decimal c = leb b'0' c && leb c b'9'

abbrev pub is_alphanumeric : ℕ → Bool
is_alphanumeric c = is_upper c || (is_lower c || is_decimal c)

-- A character of a text, and a text
abbrev pub one_of : List ℕ → ℕ → Bool
one_of [] c = false
one_of (x ∷ xs) c = c == x || one_of xs c

abbrev pub char : ℕ → Regex
char x = one (λ c. c == x)

abbrev pub literal : List ℕ → Regex
literal [] = empty
literal (c ∷ cs) = seq (char c) (literal cs)

-- `[ .-]?`
abbrev pub separator : Regex
separator = times 0 1 (one (one_of (codes " .-")))

-- `r{n}`
abbrev pub repeated : ℕ → Regex → Regex
repeated n r = times n n r

module _ (u : UnicodeData) where
  abbrev pub digit : Regex
  digit = one u.is_digit

  -- `[\w.%+-]`
  abbrev pub is_local : ℕ → Bool
  is_local c = u.is_word c || one_of (codes ".%+-") c

  -- `[^\W\d_]`
  abbrev pub is_letter : ℕ → Bool
  is_letter c = u.is_word c && (not (u.is_digit c) && not (c == b'_'))

  -- `(?<![\w.%+-])[\w.%+-]+@[\w.-]+\.[^\W\d_]{2,}`
  abbrev pub email_expression : Regex
  email_expression = seq (not_behind is_local) (
      seq (many 1 (one is_local)) (
        seq (char b'@') (
          seq (many 1 (one (λ c. u.is_word c || one_of (codes ".-") c)))
            (seq (char b'.') (many 2 (one is_letter))))))

  -- `(?!000|666|9\d\d)\d{3}-(?!00)\d{2}-(?!0000)\d{4}`
  abbrev pub ssn_expression : Regex
  ssn_expression =
      seq
        (not_ahead (
          alt (literal (codes "000"))
            (alt (literal (codes "666")) (seq (char b'9') (seq digit digit)))))
        (seq (repeated 3 digit) (
          seq (char b'-') (
            seq (not_ahead (literal (codes "00"))) (
              seq (repeated 2 digit)
                (seq (char b'-') (seq (not_ahead (literal (codes "0000"))) (repeated 4 digit)))))))

  -- `(?<!\d)(?:\d[ -]?){12,18}\d(?!\d)`
  abbrev pub credit_card_expression : Regex
  credit_card_expression = seq (not_behind u.is_digit) (
      seq (times 12 18 (seq digit (times 0 1 (one (one_of (codes " -"))))))
        (seq digit (not_ahead digit)))

  -- `\(\d{3}\)`
  abbrev pub area_code : Regex
  area_code = seq (char b'(') (seq (repeated 3 digit) (char b')'))

  -- `\d{3}[ .-]?\d{4}`
  abbrev pub line_number : Regex
  line_number = seq (repeated 3 digit) (seq separator (repeated 4 digit))

  -- The three shapes of a phone number between its guards.
  abbrev pub phone_expression : Regex
  phone_expression = seq (not_behind (λ c. u.is_word c || c == b'-')) (
      seq
        (alt
          (seq (literal (codes "+1"))
            (seq separator (seq (alt area_code (repeated 3 digit)) (seq separator line_number))))
          (alt (seq area_code (seq separator line_number))
            (seq (repeated 3 digit) (seq (one (one_of (codes " .-"))) line_number))))
        (not_ahead digit))

  -- The three shapes of a key between its guards.
  abbrev pub api_key_expression : Regex
  api_key_expression = seq (not_behind is_alphanumeric) (
      seq
        (alt
          (seq (literal (codes "sk-ant-"))
            (many 16 (one (λ c. is_alphanumeric c || one_of (codes "_-") c))))
          (alt (seq (literal (codes "sk-")) (many 20 (one is_alphanumeric)))
            (seq (literal (codes "AKIA")) (repeated 16 (one (λ c. is_decimal c || is_upper c))))))
        (not_ahead (one is_alphanumeric)))

  -- The class of `OVERLONG_RUN`
  abbrev pub is_overlong : ℕ → Bool
  is_overlong c = u.is_word c || one_of (codes ".%+@-") c

  module _ (engine : Engine) where
    -- `Pattern(...)` with `regex.compile`
    abbrev pub compiled : String → Regex → ℕ → Option (List ℕ → Bool) → ℕ → Pattern
    compiled name r max_length validate validate_min_length = record {
      name = name;
      expression = r;
      search = engine.search r;
      match_within = engine.match_within r;
      find_partial = engine.find_partial r;
      max_length = max_length;
      validate = validate;
      validate_min_length = validate_min_length;
    }

    abbrev pub email : Pattern
    email = compiled "email" email_expression 320 none 0

    abbrev pub ssn : Pattern
    ssn = compiled "ssn" ssn_expression 11 none 0

    abbrev pub credit_card : Pattern
    credit_card = compiled "credit_card" credit_card_expression 37 (some (luhn_valid u.digit_of)) 13

    abbrev pub phone : Pattern
    phone = compiled "phone" phone_expression 20 none 0

    abbrev pub api_key : Pattern
    api_key = compiled "api_key" api_key_expression 128 none 0

    -- `DEFAULT_PATTERNS`
    abbrev pub default_patterns : List Pattern
    default_patterns = email ∷ ssn ∷ credit_card ∷ phone ∷ api_key ∷ []

    -- `UNBOUNDED_PATTERNS`
    abbrev pub unbounded_patterns : List Pattern
    unbounded_patterns = email ∷ api_key ∷ []
