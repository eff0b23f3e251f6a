-- ===== src/Prelude/Keys/Matching.antt =====
-- What the search for a key finds.
use Prim.Native.Nat.{ℕ}
use mathlib.Core.Path.{◌≡◌}
use mathlib.Core.Logic.{◌⊎◌, inl, inr}
use mathlib.Core.Bool.{false}
use mathlib.Core.Option.{Option, none, some}
use mathlib.Core.List.{List, [], ◌∷◌, ◌++◌}
use native.Mathlib.Omega.{arith}
use quilr_ai_mcp.Prelude.Tests.{Bool-cases}
use quilr_ai_mcp.Prelude.Lists.{All}
use quilr_ai_mcp.Prelude.Text.{text_eq, text_eq→eq}
use quilr_ai_mcp.Prelude.Keys.{match_key}

-- The last entry of the table under a token.
abbrev pub LastEntry : {V : Type 0} → List ℕ → V → List (List ℕ × V) → Type 0
LastEntry {V = V} token p table =
    (before after : List (List ℕ × V)) × (table ≡ before ++ (token, p) ∷ after)
    × All (λ entry. text_eq token (entry.0) ≡ false) after

abbrev pub Unmatched : {V : Type 0} → List ℕ → List (List ℕ × V) → Type 0
Unmatched token table = All (λ entry. text_eq token (entry.0) ≡ false) table

pub match_key-LastEntry :
    {V : Type 0} (token : List ℕ) (matched : Option V) (table : List (List ℕ × V)) (p : V)
    → match_key token matched table ≡ some p
    → ((matched ≡ some p) × Unmatched token table) ⊎ LastEntry token p table
unfolding match_key
match_key-LastEntry token matched [] p h = inl (h, tt)
match_key-LastEntry token matched ((known, q) ∷ rest) p h =
    elim (Bool-cases (text_eq token known)) [
      | inl same ↦ elim (match_key-LastEntry token (some q) rest p (ground (arith, h, same))) [
        | inl (found, others) ↦
            inr ([], rest, ground (arith, found, text_eq→eq token known same), others)
        | inr (before, after, split, others) ↦
            inr ((known, q) ∷ before, after, ground (arith, split), others)
      ]
      | inr other ↦ elim (match_key-LastEntry token matched rest p (ground (arith, h, other))) [
        | inl (found, others) ↦ inl (found, (other, others))
        | inr (before, after, split, others) ↦
            inr ((known, q) ∷ before, after, ground (arith, split), others)
      ]
    ]

pub match_key-none :
    {V : Type 0} (token : List ℕ) (matched : Option V) (table : List (List ℕ × V))
    → match_key token matched table ≡ none
    → (matched ≡ none) × Unmatched token table
unfolding match_key
match_key-none token matched [] h = (h, tt)
match_key-none token matched ((known, v) ∷ rest) h = elim (Bool-cases (text_eq token known)) [
  | inl same ↦ ground (arith, match_key-none token (some v) rest (ground (arith, h, same)))
  | inr other ↦
      let (unset, others) = match_key-none token matched rest (ground (arith, h, other)) in
      (unset, (other, others))
]
