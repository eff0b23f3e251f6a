-- ===== src/Guardrail/Patterns.antt =====
-- llm-gateway-guardrail/src/llm_guardrail/patterns.py: what a detector is. Its expression is compiled by
-- a third-party engine: the three searches that the redactor makes with it are fields.
pub mod Detectors
use quilr_ai_mcp.Prelude.{ℕ, String, Bool, true, Option, none, some, List}
use quilr_ai_mcp.Guardrail.Regex.{Regex}

-- A match of `finditer(text, partial=True)`.
pub record Match : Type 0 where
  pub start : ℕ
  pub finish : ℕ
  pub partial : Bool

-- `Pattern`; `search text from` and `match_within text start endpos` give the span of the match, and
-- its end.
pub record Pattern : Type 0 where
  pub name : String
  pub expression : Regex
  pub search : List ℕ → ℕ → Option (ℕ × ℕ)
  pub match_within : List ℕ → ℕ → ℕ → Option ℕ
  pub find_partial : List ℕ → List Match
  pub max_length : ℕ
  pub validate : Option (List ℕ → Bool)
  pub validate_min_length : ℕ

-- `Pattern.accepts`
unfoldable pub accepts : Pattern → List ℕ → Bool
accepts p text = elim p.validate [ none ↦ true | some check ↦ check text ]
