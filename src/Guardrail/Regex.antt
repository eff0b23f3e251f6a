-- ===== src/Guardrail/Regex.antt =====
-- The regular expressions that llm-gateway-guardrail/src/llm_guardrail/patterns.py uses, with the meaning
-- that the package regex documents for their operators. How the engine searches is not modelled.
pub mod Spans
use quilr_ai_mcp.Prelude.{ℕ, zero, suc, ◌≤◌, ◌≡◌, ◌⊎◌, Bool, true, false, List, [], ◌∷◌, ◌++◌}

-- A character of a class; `rs`, `r|s`, `r{m,n}`, `r{m,}`; the look-ahead `(?!r)`, and the look-behind
-- `(?<!c)` for a character class `c`.
pub data Regex : Type 0 where
  empty : Regex
  one : (ℕ → Bool) → Regex
  seq : Regex → Regex → Regex
  alt : Regex → Regex → Regex
  times : ℕ → ℕ → Regex → Regex
  many : ℕ → Regex → Regex
  not_ahead : Regex → Regex
  not_behind : (ℕ → Bool) → Regex

-- What stands before a span, the span, and what stands after it.
abbrev pub Spans : Type 1
Spans = List ℕ → List ℕ → List ℕ → Type 0

-- `k` spans one after the other
abbrev pub Times : Spans → ℕ → Spans
Times P zero before span after = span ≡ []
Times P (suc k) before span after =
    (first rest : List ℕ) × (span ≡ first ++ rest)
    × P before first (rest ++ after)
    × Times P k (before ++ first) rest after

-- The span is a match of the expression.
abbrev pub Matches : Regex → Spans
Matches empty before span after = span ≡ []
Matches (one p) before span after = (c : ℕ) × (span ≡ c ∷ []) × (p c ≡ true)
Matches (seq r s) before span after =
    (first rest : List ℕ) × (span ≡ first ++ rest)
    × Matches r before first (rest ++ after)
    × Matches s (before ++ first) rest after
Matches (alt r s) before span after = Matches r before span after ⊎ Matches s before span after
Matches (times m n r) before span after =
    (k : ℕ) × (m ≤ k) × (k ≤ n) × Times (Matches r) k before span after
Matches (many m r) before span after = (k : ℕ) × (m ≤ k) × Times (Matches r) k before span after
Matches (not_ahead r) before span after =
    (span ≡ []) × ((s rest : List ℕ) → after ≡ s ++ rest → ¬ Matches r before s rest)
Matches (not_behind p) before span after =
    (span ≡ []) × ((front : List ℕ) (c : ℕ) → before ≡ front ++ c ∷ [] → p c ≡ false)
