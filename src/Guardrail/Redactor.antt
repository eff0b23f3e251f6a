-- ===== src/Guardrail/Redactor.antt =====
-- llm-gateway-guardrail/src/llm_guardrail/redactor.py: redaction of a stream of text, piece by piece.
-- `OVERLONG_RUN` matches the longest run of the characters of a class, which is a field of the
-- configuration. Logging is left out.
pub mod Feeding
pub mod Matching
pub mod Spans
pub mod Holding
pub mod Suppression
pub mod Silence
pub mod Overlong
use quilr_ai_mcp.Prelude.{
  ℕ, zero, suc, ◌+◌, ◌-◌, min, max, String, Bool, true, false, Option, none, some, List, [], ◌∷◌,
  ◌++◌, ltb, leb, ◌==◌, ◌&&◌, ◌||◌, length, if◌then◌else◌,
}
use quilr_ai_mcp.Prelude.Dict.{Dict, get, put}
use quilr_ai_mcp.Prelude.Text.{take, drop, slice}
use quilr_ai_mcp.Guardrail.Patterns.{Match, Pattern, accepts}

pub record RedactionStats : Type 0 where
  pub counts : Dict ℕ
  pub characters_in : ℕ
  pub characters_out : ℕ
  pub max_holdback_seen : ℕ
  pub suppressed_characters : ℕ

abbrev pub no_stats : RedactionStats
no_stats = record {
  counts = [];
  characters_in = 0;
  characters_out = 0;
  max_holdback_seen = 0;
  suppressed_characters = 0;
}

-- `RedactionStats.record`
unfoldable pub count_match : String → RedactionStats → RedactionStats
count_match name s = record s {
  counts = put name (elim (get name s.counts) [ none ↦ 0 | some n ↦ n ] + 1) s.counts;
}

-- What `StreamRedactor.__init__` is given, and the class of `OVERLONG_RUN`.
pub record RedactorConfig : Type 0 where
  pub patterns : List Pattern
  pub placeholder : List ℕ
  pub max_holdback : ℕ
  pub is_run : ℕ → Bool

-- `max_holdback or max(pattern.max_length for pattern in patterns) + 8`
unfoldable pub longest : List Pattern → ℕ
longest [] = 0
longest (p ∷ ps) = max p.max_length (longest ps)

unfoldable pub holdback_or_default : Option ℕ → List Pattern → ℕ
unfolding longest
holdback_or_default none ps = longest ps + 8
holdback_or_default (some n) ps = if n == 0 then longest ps + 8 else n

pub record StreamRedactor : Type 0 where
  pub buffer : List ℕ
  pub suppressing : Bool
  pub stats : RedactionStats

abbrev pub new_redactor : StreamRedactor
new_redactor = record { buffer = []; suppressing = false; stats = no_stats }

-- The loop of `_validated_end`, on fuel.
unfoldable pub back_off : ℕ → Pattern → List ℕ → ℕ → ℕ → ℕ → Option ℕ
back_off zero p text start floor finish = none
back_off (suc fuel) p text start floor finish = elim (leb floor finish) [
  | false ↦ none
  | true ↦ elim (p.match_within text start finish) [
    | none ↦ none
    | some e ↦ elim (accepts p (slice start e text)) [
      | true ↦ some e
      | false ↦ back_off fuel p text start floor (e - 1)
    ]
  ]
]

-- `_validated_end`; the candidates get shorter, so `finish + 1` is fuel enough.
unfoldable pub validated_end : Pattern → List ℕ → ℕ → ℕ → Option ℕ
validated_end p text start finish = elim p.validate [
  | none ↦ some finish
  | some check ↦ back_off (suc finish) p text start (start + max p.validate_min_length 1) finish
]

-- The body of the inner loop of `_redact`: on to the next search, or a match to replace.
pub data Found : Type 0 where
  exhausted : Found
  skipped : ℕ → Found
  replaced : ℕ → ℕ → Found

unfoldable pub judge_match : Pattern → Bool → List ℕ → ℕ × ℕ → Found
judge_match p protect_tail text (start, finish) = elim (validated_end p text start finish) [
  | none ↦ skipped (start + 1)
  | some e ↦ if protect_tail && e == length text then skipped (start + 1) else replaced start e
]

unfoldable pub find_next : Pattern → Bool → List ℕ → ℕ → Found
find_next p protect_tail text search_from = elim (leb search_from (length text)) [
  | false ↦ exhausted
  | true ↦ elim (p.search text search_from) [
    | none ↦ exhausted
    | some span ↦ judge_match p protect_tail text span
  ]
]

-- The inner loop of `_redact`, on fuel: the text from `position` on, with its matches replaced.
unfoldable pub redact_from :
    ℕ → RedactorConfig → Pattern → Bool → List ℕ → ℕ → ℕ → RedactionStats → List ℕ × RedactionStats
redact_from zero c p protect_tail text position search_from stats = (drop position text, stats)
redact_from (suc fuel) c p protect_tail text position search_from stats =
    elim (find_next p protect_tail text search_from) [
      | exhausted ↦ (drop position text, stats)
      | skipped next ↦ redact_from fuel c p protect_tail text position next stats
      | replaced start e ↦
          let (rest, stats') =
            redact_from fuel c p protect_tail text e (if ltb start e then e else start + 1)
              (count_match p.name stats) in
          (slice position start text ++ c.placeholder ++ rest, stats')
    ]

-- One round of the outer loop. Each search starts further on, so that `len(text) + 2` is fuel enough.
unfoldable pub redact_pattern :
    RedactorConfig → Bool → Pattern → List ℕ × RedactionStats → List ℕ × RedactionStats
redact_pattern c protect_tail p (text, stats) =
    redact_from (length text + 2) c p protect_tail text 0 0 stats

-- `_redact`
unfoldable pub redact :
    RedactorConfig → Bool → List Pattern → List ℕ × RedactionStats → List ℕ × RedactionStats
redact c protect_tail [] state = state
redact c protect_tail (p ∷ ps) state =
    redact c protect_tail ps (redact_pattern c protect_tail p state)
