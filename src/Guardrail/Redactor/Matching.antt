-- ===== src/Guardrail/Redactor/Matching.antt =====
-- What the redactor finds, where its engine finds matches:
-- llm-gateway-guardrail/src/llm_guardrail/redactor.py, `_validated_end` and the searches of `_redact`.
use quilr_ai_mcp.Prelude.{
  ℕ, zero, suc, ◌+◌, ◌-◌, ◌≤◌, ◌<◌, max, ◌≡◌, refl, sym, ap, is_some, ◌⊎◌, Bool, true, false,
  Option, none, some, List, [], ◌++◌, arith, leb, ◌==◌, ◌&&◌, length, Bool-cases, Option-cases, inl,
  inr, if◌then◌else◌,
}
use mathlib.Core.Path.{subst}
use mathlib.Core.List.{append-nil}
use quilr_ai_mcp.Prelude.Text.{take, drop, slice}
use quilr_ai_mcp.Prelude.Text.Slices.{slice-append-drop}
use quilr_ai_mcp.Guardrail.Regex.{Matches}
use quilr_ai_mcp.Guardrail.Patterns.{Pattern, accepts}
use quilr_ai_mcp.Guardrail.Redactor.{
  back_off, validated_end, Found, exhausted, skipped, replaced, judge_match, find_next,
}

-- A match of the pattern between two positions. An `endpos`, which only validated matches are searched
-- with, hides what stands beyond it.
abbrev pub IsMatch : Pattern → List ℕ → ℕ → ℕ → Type 0
IsMatch p text s e =
    (seen beyond : List ℕ) × (drop e text ≡ seen ++ beyond)
    × ((beyond ≡ []) ⊎ (is_some p.validate ≡ true))
    × Matches p.expression (take s text) (slice s e text) seen

-- What the engine documents: a search finds a match that begins no earlier than its start, and `match` with
-- an `endpos` finds one that ends no later, where the text seems to end.
pub record IsEngine (p : Pattern) : Type 0 where
  pub searched :
      (text : List ℕ) (from s e : ℕ)
      → p.search text from ≡ some (s, e)
      → (from ≤ s)
        × (s ≤ e)
        × (e ≤ length text)
        × Matches p.expression (take s text) (slice s e text) (drop e text)
  pub matched :
      (text : List ℕ) (s limit e : ℕ)
      → p.match_within text s limit ≡ some e
      → (s ≤ e)
        × (e ≤ limit)
        × Matches p.expression (take s text) (slice s e text) (slice e limit text)

-- A candidate that the validator lets through.
abbrev pub IsCandidate : Pattern → List ℕ → ℕ → ℕ → ℕ → Type 0
IsCandidate p text s finish e =
    (s ≤ e) × (e ≤ finish) × (accepts p (slice s e text) ≡ true) × IsMatch p text s e

module _ (p : Pattern) (engine : IsEngine p) (text : List ℕ) where
  back_off-IsCandidate :
      (fuel s floor finish e : ℕ)
      → is_some p.validate ≡ true
      → back_off fuel p text s floor finish ≡ some e
      → IsCandidate p text s finish e
  unfolding back_off
  back_off-IsCandidate zero s floor finish e checked h = ground (arith, h)
  back_off-IsCandidate (suc fuel) s floor finish e checked h =
      elim (Option-cases (p.match_within text s finish)) [
        | inl lost ↦ ground (arith, h, lost)
        | inr (k, found) ↦
            let (low, high, m) = engine.matched text s finish k found in
            let is : IsMatch p text s k = (
              slice k finish text,
              drop finish text,
              sym (slice-append-drop k finish text high),
              inr checked,
              m,
            ) in
            elim (Bool-cases (accepts p (slice s k text))) [
              | inl fits ↦ ground (arith, h, found, fits, low, high, is)
              | inr refused ↦ ground (
                arith,
                h,
                found,
                refused,
                low,
                high,
                back_off-IsCandidate fuel s floor (k - 1) e checked,
              )
            ]
      ]

  validated_end-IsCandidate :
      (s finish e : ℕ)
      → s ≤ finish
      → IsMatch p text s finish
      → validated_end p text s finish ≡ some e
      → IsCandidate p text s finish e
  unfolding validated_end accepts
  validated_end-IsCandidate s finish e le m h = elim (Option-cases p.validate) [
    | inl unchecked ↦
        let same : finish ≡ e = ground (arith, h, unchecked) in
        subst (IsCandidate p text s finish) same (le, omega arith, ground (arith, unchecked), m)
    | inr (check, checked) ↦
        back_off-IsCandidate (suc finish) s (s + max p.validate_min_length 1) finish e
          (ap is_some checked) (ground (arith, h, checked))
  ]

  -- Where a search goes on, or what it replaces.
  abbrev pub IsFound : ℕ → Found → Type 0
  IsFound from exhausted = Unit
  IsFound from (skipped next) = (from < next) × (next ≤ length text + 1)
  IsFound from (replaced s e) =
      (from ≤ s)
      × (s ≤ e)
      × (e ≤ length text)
      × (accepts p (slice s e text) ≡ true)
      × IsMatch p text s e

  judge_match-IsFound :
      (protect_tail : Bool) (from s finish : ℕ)
      → from ≤ s
      → s ≤ finish
      → finish ≤ length text
      → IsMatch p text s finish
      → IsFound from (judge_match p protect_tail text (s, finish))
  unfolding judge_match
  judge_match-IsFound protect_tail from s finish le le' le'' m =
      go (validated_end p text s finish) refl
    where
      go :
          (o : Option ℕ)
          → validated_end p text s finish ≡ o
          → IsFound from (elim o [
            | none ↦ skipped (s + 1)
            | some e ↦ if protect_tail && e == length text then skipped (s + 1) else replaced s e
          ])
      go none h = omega arith
      go (some e) h =
          let (low, high, fits, is) = validated_end-IsCandidate s finish e le' m h in
          elim (Bool-cases (protect_tail && e == length text)) [
            | inl tail ↦ rw (tail, IsFound) (omega (arith, le, le', le''))
            | inr free ↦ rw (free, IsFound) (le, low, omega (arith, high, le''), fits, is)
          ]

  pub find_next-IsFound :
      (protect_tail : Bool) (from : ℕ) → IsFound from (find_next p protect_tail text from)
  unfolding find_next
  find_next-IsFound protect_tail from = go (leb from (length text))
    where
      go_span :
          (o : Option (ℕ × ℕ))
          → p.search text from ≡ o
          → IsFound from
              (elim o [ none ↦ exhausted | some span ↦ judge_match p protect_tail text span ])
      go_span none h = tt
      go_span (some (s, finish)) h =
          let (le, le', le'', m) = engine.searched text from s finish h in
          judge_match-IsFound protect_tail from s finish le le' le''
            (drop finish text, [], sym (append-nil (drop finish text)), inl refl, m)

      go :
          (b : Bool)
          → IsFound from (elim b [
            | false ↦ exhausted
            | true ↦ elim (p.search text from) [
              | none ↦ exhausted
              | some span ↦ judge_match p protect_tail text span
            ]
          ])
      go true = go_span (p.search text from) refl
      go false = tt
