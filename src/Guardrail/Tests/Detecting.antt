-- ===== src/Guardrail/Tests/Detecting.antt =====
-- Matches of the detectors, and instances of their theorems.
use quilr_ai_mcp.Prelude.{
  ℕ, ◌-◌, ◌≤◌, ◌≡◌, refl, true, false, none, some, List, [], ◌∷◌, ◌++◌, arith, ◌==◌, ◌&&◌, ◌||◌,
  length, codes, inl, inr, if◌then◌else◌, All, Bool-cases,
}
use quilr_ai_mcp.Prelude.Text.{take, drop, text_eq, text_eq→eq}
use quilr_ai_mcp.Guardrail.Regex.{Regex, times, one, seq, Times, Matches}
use quilr_ai_mcp.Guardrail.Luhn.{weigh, checksum, numbers_of, luhn_valid}
use quilr_ai_mcp.Guardrail.Patterns.{accepts}
use quilr_ai_mcp.Guardrail.Patterns.Detectors.{
  UnicodeData, Engine, is_alphanumeric, is_decimal, is_overlong, one_of, digit, email, credit_card,
}
use quilr_ai_mcp.Guardrail.Patterns.Detectors.Bounds.{length-max_length, UnboundedPatterns-overlong}
use quilr_ai_mcp.Guardrail.Redactor.{
  RedactorConfig, StreamRedactor, new_redactor, back_off, validated_end,
}
use quilr_ai_mcp.Guardrail.Redactor.Feeding.{feed_redactor, feed_all}
use quilr_ai_mcp.Guardrail.Redactor.Overlong.{feed_all-Matches}
use quilr_ai_mcp.Guardrail.Redactor.Suppression.{settled}
use quilr_ai_mcp.Guardrail.Tests.Redaction.{config, redactor_program}
use quilr_ai_mcp.Guardrail.Redactor.Matching.{IsEngine}
use quilr_ai_mcp.Guardrail.Redactor.Spans.Floor.{validated_end_floor}

-- ASCII alone
abbrev ascii : UnicodeData
ascii = record {
  is_word = λ c. is_alphanumeric c || c == b'_';
  is_digit = is_decimal;
  digit_of = λ c. if is_decimal c then some (c - 48) else none;
}

abbrev card : List ℕ
card = codes "4111111111111111"

-- An engine that knows one match.
abbrev knows : Engine
knows = record {
  search = λ r text from. none;
  match_within =
      λ r text s limit. if text_eq text card && (s == 0 && limit == 16) then some 16 else none;
  find_partial = λ r text. [];
}

abbrev grouped : Regex
grouped = seq (digit ascii) (times 0 1 (one (one_of (codes " -"))))

digits-Times :
    (cs before after : List ℕ)
    → All (λ c. is_decimal c ≡ true) cs
    → Times (Matches grouped) (length cs) before cs after
digits-Times [] before after h = refl
digits-Times (c ∷ cs) before after (h, hs) = (
  c ∷ [],
  cs,
  refl,
  (c ∷ [], [], refl, (c, refl, h), (0, omega arith, omega arith, refl)),
  digits-Times cs (before ++ c ∷ []) after hs,
)

-- At the start and at the end of a text
first_here : (front : List ℕ) (c : ℕ) → [] ≡ front ++ c ∷ [] → ⊥
first_here [] c h = ground (arith, h)
first_here (x ∷ xs) c h = ground (arith, h)

last_here : (s rest : List ℕ) → [] ≡ s ++ rest → ¬ Matches (digit ascii) card s rest
last_here [] rest e (c, h, _) = ground (arith, h)
last_here (x ∷ xs) rest e m = ground (arith, e)

card-Matches : Matches (credit_card ascii knows).expression [] card []
card-Matches = (
  [],
  card,
  refl,
  (refl, λ front c h. absurd (first_here front c h)),
  (
    codes "411111111111111",
    codes "1",
    refl,
    (15, omega arith, omega arith, digits-Times (codes "411111111111111") [] (codes "1") (search)),
    (codes "1", [], refl, (49, refl, refl), (refl, last_here)),
  ),
)

knows-IsEngine : IsEngine (credit_card ascii knows)
unfolding take drop
knows-IsEngine = record {
  searched = λ text from s e h. ground (arith, h);
  matched = λ text s limit e h. elim (Bool-cases (text_eq text card && (s == 0 && limit == 16))) [
    | inr other ↦ ground (arith, h, other)
    | inl known ↦
        let is_card : text ≡ card = text_eq→eq text card (ground (arith, known)) in
        let at_start : s ≡ 0 = ground (arith, known) in
        let at_end : limit ≡ 16 = ground (arith, known) in
        let ends : e ≡ 16 = ground (arith, h, known) in
        rw (is_card, at_start, at_end, ends) (omega arith, omega arith, card-Matches)
  ];
}

length-max_length_example : length card ≤ (credit_card ascii knows).max_length
length-max_length_example =
    length-max_length ascii knows (credit_card ascii knows) [] card [] (inr (inl refl)) card-Matches

-- "a@b.cc" at the start of a text
email-Matches : Matches (email ascii knows).expression [] (codes "a@b.cc") (codes "!")
email-Matches = (
  [],
  codes "a@b.cc",
  refl,
  (refl, λ front c h. absurd (first_here front c h)),
  (
    codes "a",
    codes "@b.cc",
    refl,
    (1, omega arith, (codes "a", [], refl, (b'a', refl, refl), refl)),
    (
      codes "@",
      codes "b.cc",
      refl,
      (b'@', refl, refl),
      (
        codes "b",
        codes ".cc",
        refl,
        (1, omega arith, (codes "b", [], refl, (b'b', refl, refl), refl)),
        (
          codes ".",
          codes "cc",
          refl,
          (b'.', refl, refl),
          (
            2,
            omega arith,
            (
              codes "c",
              codes "c",
              refl,
              (b'c', refl, refl),
              (codes "c", [], refl, (b'c', refl, refl), refl),
            ),
          ),
        ),
      ),
    ),
  ),
)

UnboundedPatterns-overlong_example : All (λ c. is_overlong ascii c ≡ true) (codes "a@b.cc")
UnboundedPatterns-overlong_example =
    UnboundedPatterns-overlong ascii (λ c h. ground (arith, h)) refl knows (email ascii knows) []
      (codes "a@b.cc") (codes "!") (inl refl) email-Matches

validated_end_floor_example :
    validated_end (credit_card ascii knows) card 0 16
    ≡ back_off 17 (credit_card ascii knows) card 0 1 16
validated_end_floor_example = validated_end_floor ascii knows card 0 16 knows-IsEngine

card_end : validated_end (credit_card ascii knows) card 0 16 ≡ some 16
unfolding validated_end back_off accepts luhn_valid numbers_of checksum weigh take drop
card_end = refl

-- The redactor of the other tests, with the class of `OVERLONG_RUN`
abbrev overlong_config : RedactorConfig
overlong_config = record config { is_run = is_overlong ascii }

abbrev full : StreamRedactor
full = (feed_redactor overlong_config (codes " aa") new_redactor).1

full_awake : full.suppressing ≡ false
unfolding redactor_program
full_awake = refl

full_gives_up : (feed_redactor overlong_config (codes "aa") full).1.suppressing ≡ true
unfolding redactor_program
full_gives_up = refl

feed_all-Matches_example :
    ((feed_all overlong_config (codes "aa" ∷ codes "@b." ∷ codes "cc" ∷ []) full).0
      ≡ settled overlong_config (codes "aa") full ++ overlong_config.placeholder)
    × ((feed_all overlong_config (codes "aa" ∷ codes "@b." ∷ codes "cc" ∷ []) full).1.buffer ≡ [])
    × ((feed_all overlong_config (codes "aa" ∷ codes "@b." ∷ codes "cc" ∷ []) full).1.suppressing
        ≡ true)
feed_all-Matches_example =
    feed_all-Matches ascii knows (email ascii knows) overlong_config [] (codes "a") (codes "!")
      (codes "aa") (codes "@b." ∷ codes "cc" ∷ []) full (λ c h. ground (arith, h)) refl refl
      (inl refl) email-Matches full_awake full_gives_up
