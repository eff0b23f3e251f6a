-- ===== src/Guardrail/Patterns/Detectors/Bounds.antt =====
-- How long the matches of the detectors of llm-gateway-guardrail/src/llm_guardrail/patterns.py are, and what they
-- are made of.
use quilr_ai_mcp.Prelude.{
  ℕ, ◌≤◌, ◌≡◌, refl, ◌⊎◌, inl, inr, Bool, true, List, [], ◌∷◌, Bool-cases, codes, ◌==◌, ◌||◌, arith,
  length, All,
}
use mathlib.Core.Path.{subst, sym}
use quilr_ai_mcp.Guardrail.Regex.{Matches}
use quilr_ai_mcp.Guardrail.Regex.Spans.{longest_match-Fits, DrawnFrom, DrawnFrom-IsDrawn}
use quilr_ai_mcp.Guardrail.Patterns.{Pattern}
use quilr_ai_mcp.Guardrail.Patterns.Detectors.{
  UnicodeData, Engine, is_alphanumeric, is_local, is_overlong, char, literal, one_of,
  ssn_expression, credit_card_expression, phone_expression, email_expression, api_key_expression,
  email, ssn, credit_card, phone, api_key,
}

module _ (u : UnicodeData) (engine : Engine) where
  -- A match of the expression of the SSN, the credit card or the phone detector is no longer than the
  -- `max_length` that the detector declares, whatever the Unicode data.
  pub length-max_length :
      (p : Pattern) (before span after : List ℕ)
      → (p ≡ ssn u engine) ⊎ ((p ≡ credit_card u engine) ⊎ (p ≡ phone u engine))
      → Matches p.expression before span after
      → length span ≤ p.max_length
  length-max_length p before span after (inl h) =
      subst (λ q. Matches q.expression before span after → length span ≤ q.max_length) (sym h)
        (longest_match-Fits (ssn_expression u) before span after)
  length-max_length p before span after (inr (inl h)) =
      subst (λ q. Matches q.expression before span after → length span ≤ q.max_length) (sym h)
        (longest_match-Fits (credit_card_expression u) before span after)
  length-max_length p before span after (inr (inr h)) =
      subst (λ q. Matches q.expression before span after → length span ≤ q.max_length) (sym h)
        (λ m. omega (arith, longest_match-Fits (phone_expression u) before span after m))

same : (c x : ℕ) → (c == x) ≡ true → c ≡ x
same c x e = ground (arith, e)

char-DrawnFrom : (p : ℕ → Bool) (x : ℕ) → p x ≡ true → DrawnFrom p (char x)
char-DrawnFrom p x h c e = subst (λ y. p y ≡ true) (sym (same c x e)) h

literal-DrawnFrom :
    (p : ℕ → Bool) (cs : List ℕ) → All (λ c. p c ≡ true) cs → DrawnFrom p (literal cs)
literal-DrawnFrom p [] h = tt
literal-DrawnFrom p (c ∷ cs) (h, hs) = (char-DrawnFrom p c h, literal-DrawnFrom p cs hs)

module _ (u : UnicodeData) (ascii : (c : ℕ) → is_alphanumeric c ≡ true → u.is_word c ≡ true)
    (underscore : u.is_word b'_' ≡ true) where
  word_overlong : (c : ℕ) → u.is_word c ≡ true → is_overlong u c ≡ true
  word_overlong c h = ground (arith, h)

  alphanumeric_overlong : (c : ℕ) → is_alphanumeric c ≡ true → is_overlong u c ≡ true
  alphanumeric_overlong c h = word_overlong c (ascii c h)

  underscore_overlong : (c : ℕ) → (c == b'_') ≡ true → is_overlong u c ≡ true
  underscore_overlong = char-DrawnFrom (is_overlong u) b'_' (word_overlong b'_' underscore)

  local_overlong : (c : ℕ) → is_local u c ≡ true → is_overlong u c ≡ true
  local_overlong c h = ground (arith, h)

  email-DrawnFrom : DrawnFrom (is_overlong u) (email_expression u)
  email-DrawnFrom = (
    tt,
    (
      local_overlong,
      (
        λ c h. ground (arith, h),
        (λ c h. ground (arith, h), (λ c h. ground (arith, h), λ c h. ground (arith, h))),
      ),
    ),
  )

  key_overlong :
      (c : ℕ) → (is_alphanumeric c || one_of (codes "_-") c) ≡ true → is_overlong u c ≡ true
  key_overlong c h = elim (Bool-cases (is_alphanumeric c)) [
    | inl is ↦ alphanumeric_overlong c is
    | inr other ↦ elim (Bool-cases (c == b'_')) [
      | inl is ↦ underscore_overlong c is
      | inr other' ↦ ground (arith, h, other, other')
    ]
  ]

  literal_overlong :
      (cs : List ℕ)
      → All (λ c. (is_alphanumeric c || one_of (codes "_-") c) ≡ true) cs
      → DrawnFrom (is_overlong u) (literal cs)
  literal_overlong [] h = tt
  literal_overlong (c ∷ cs) (h, hs) =
      (char-DrawnFrom (is_overlong u) c (key_overlong c h), literal_overlong cs hs)

  api_key-DrawnFrom : DrawnFrom (is_overlong u) (api_key_expression u)
  api_key-DrawnFrom = (
    tt,
    (
      (
        (
          literal_overlong (codes "sk-ant-")
              (refl, (refl, (refl, (refl, (refl, (refl, (refl, tt))))))),
          key_overlong,
        ),
        (
          (literal_overlong (codes "sk-") (refl, (refl, (refl, tt))), alphanumeric_overlong),
          (
            literal_overlong (codes "AKIA") (refl, (refl, (refl, (refl, tt)))),
            λ c h. alphanumeric_overlong c (ground (arith, h)),
          ),
        ),
      ),
      tt,
    ),
  )

  -- With Unicode data in which the ASCII letters and digits and the underscore are word characters, a
  -- match of the expression of the email or the API key detector consists of characters of the class of
  -- `OVERLONG_RUN` alone.
  pub UnboundedPatterns-overlong :
      (engine : Engine) (p : Pattern) (before span after : List ℕ)
      → (p ≡ email u engine) ⊎ (p ≡ api_key u engine)
      → Matches p.expression before span after
      → All (λ c. is_overlong u c ≡ true) span
  UnboundedPatterns-overlong engine p before span after (inl h) =
      subst (λ q. Matches q.expression before span after → All (λ c. is_overlong u c ≡ true) span)
        (sym h)
        (DrawnFrom-IsDrawn (is_overlong u) (email_expression u) before span after email-DrawnFrom)
  UnboundedPatterns-overlong engine p before span after (inr h) =
      subst (λ q. Matches q.expression before span after → All (λ c. is_overlong u c ≡ true) span)
        (sym h)
        (DrawnFrom-IsDrawn (is_overlong u) (api_key_expression u) before span after
          api_key-DrawnFrom)
