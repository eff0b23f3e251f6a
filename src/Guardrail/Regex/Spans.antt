-- ===== src/Guardrail/Regex/Spans.antt =====
-- How long the matches of an expression are, and which characters they are made of.
use quilr_ai_mcp.Prelude.{
  ℕ, zero, suc, ◌+◌, ◌*◌, max, ◌≤◌, ◌≡◌, ◌⊎◌, inl, inr, Bool, true, Option, none, some, List, ◌++◌,
  arith, length, length-append, All, All-append,
}
use mathlib.Core.Path.{subst, sym}
use quilr_ai_mcp.Guardrail.Regex.{
  Regex, empty, one, seq, alt, times, many, not_ahead, not_behind, Times, Matches,
}

-- A bound, if there is one.
abbrev pub Fits : Option ℕ → ℕ → Type 0
Fits none n = Unit
Fits (some k) n = n ≤ k

abbrev add_bounds : Option ℕ → Option ℕ → Option ℕ
add_bounds (some m) (some n) = some (m + n)
add_bounds _ _ = none

abbrev max_bounds : Option ℕ → Option ℕ → Option ℕ
max_bounds (some m) (some n) = some (max m n)
max_bounds _ _ = none

abbrev multiply_bound : ℕ → Option ℕ → Option ℕ
multiply_bound k none = none
multiply_bound k (some n) = some (k * n)

-- The greatest length of a match.
abbrev pub longest_match : Regex → Option ℕ
longest_match empty = some 0
longest_match (one p) = some 1
longest_match (seq r s) = add_bounds (longest_match r) (longest_match s)
longest_match (alt r s) = max_bounds (longest_match r) (longest_match s)
longest_match (times m n r) = multiply_bound n (longest_match r)
longest_match (many m r) = none
longest_match (not_ahead r) = some 0
longest_match (not_behind p) = some 0

Fits-add : (o o' : Option ℕ) (m n : ℕ) → Fits o m → Fits o' n → Fits (add_bounds o o') (m + n)
Fits-add (some a) (some b) m n h h' = omega (arith, h, h')
Fits-add none o' m n h h' = tt
Fits-add (some a) none m n h h' = tt

Fits-max : (o o' : Option ℕ) (n : ℕ) → Fits o n ⊎ Fits o' n → Fits (max_bounds o o') n
Fits-max (some a) (some b) n (inl h) = omega (arith, h)
Fits-max (some a) (some b) n (inr h) = omega (arith, h)
Fits-max none o' n h = tt
Fits-max (some a) none n h = tt

Fits-multiply :
    (o : Option ℕ) (k m n : ℕ) → k ≤ m → Fits (multiply_bound k o) n → Fits (multiply_bound m o) n
Fits-multiply none k m n le h = tt
Fits-multiply (some a) k m n le h = grind (arith, h)

Fits-suc :
    (o : Option ℕ) (k m n : ℕ)
    → Fits o m
    → Fits (multiply_bound k o) n
    → Fits (multiply_bound (suc k) o) (m + n)
Fits-suc none k m n h h' = tt
Fits-suc (some a) k m n h h' = grind (arith, h, h')

Fits-zero : (o : Option ℕ) → Fits (multiply_bound 0 o) 0
Fits-zero none = tt
Fits-zero (some a) = omega arith

Times-Fits :
    (r : Regex) (k : ℕ) (before span after : List ℕ)
    → ((b s a : List ℕ) → Matches r b s a → Fits (longest_match r) (length s))
    → Times (Matches r) k before span after
    → Fits (multiply_bound k (longest_match r)) (length span)
Times-Fits r zero before span after fits h =
    subst (λ s. Fits (multiply_bound 0 (longest_match r)) (length s)) (sym h)
      (Fits-zero (longest_match r))
Times-Fits r (suc k) before span after fits (first, rest, e, m, ms) =
    subst (λ s. Fits (multiply_bound (suc k) (longest_match r)) (length s)) (sym e)
      (rw (length-append first rest) (
        Fits-suc (longest_match r) k (length first) (length rest)
          (fits before first (rest ++ after) m)
          (Times-Fits r k (before ++ first) rest after fits ms)))

-- A match is no longer than the bound.
pub longest_match-Fits :
    (r : Regex) (before span after : List ℕ)
    → Matches r before span after
    → Fits (longest_match r) (length span)
longest_match-Fits empty before span after h = rw h (omega arith)
longest_match-Fits (one p) before span after (c, h, _) = rw h (omega arith)
longest_match-Fits (seq r s) before span after (first, rest, h, m, m') =
    rw (h, length-append first rest)
      (Fits-add (longest_match r) (longest_match s) (length first) (length rest)
        (longest_match-Fits r before first (rest ++ after) m)
        (longest_match-Fits s (before ++ first) rest after m'))
longest_match-Fits (alt r s) before span after (inl m) =
    Fits-max (longest_match r) (longest_match s) (length span)
      (inl (longest_match-Fits r before span after m))
longest_match-Fits (alt r s) before span after (inr m) =
    Fits-max (longest_match r) (longest_match s) (length span)
      (inr (longest_match-Fits s before span after m))
longest_match-Fits (times m n r) before span after (k, _, le, ms) =
    Fits-multiply (longest_match r) k n (length span) le
      (Times-Fits r k before span after (longest_match-Fits r) ms)
longest_match-Fits (many m r) before span after h = tt
longest_match-Fits (not_ahead r) before span after (h, _) = rw h (omega arith)
longest_match-Fits (not_behind p) before span after (h, _) = rw h (omega arith)

-- Every character that the expression takes is in the class.
abbrev pub DrawnFrom : (ℕ → Bool) → Regex → Type 0
DrawnFrom p empty = Unit
DrawnFrom p (one q) = (c : ℕ) → q c ≡ true → p c ≡ true
DrawnFrom p (seq r s) = DrawnFrom p r × DrawnFrom p s
DrawnFrom p (alt r s) = DrawnFrom p r × DrawnFrom p s
DrawnFrom p (times m n r) = DrawnFrom p r
DrawnFrom p (many m r) = DrawnFrom p r
DrawnFrom p (not_ahead r) = Unit
DrawnFrom p (not_behind q) = Unit

module _ (p : ℕ → Bool) where
  abbrev pub IsDrawn : List ℕ → Type 0
  IsDrawn = All (λ c. p c ≡ true)

  Times-IsDrawn :
      (r : Regex) (k : ℕ) (before span after : List ℕ)
      → ((b s a : List ℕ) → Matches r b s a → IsDrawn s)
      → Times (Matches r) k before span after
      → IsDrawn span
  Times-IsDrawn r zero before span after drawn h = subst IsDrawn (sym h) tt
  Times-IsDrawn r (suc k) before span after drawn (first, rest, e, m, ms) = subst IsDrawn (sym e) (
      All-append (λ c. p c ≡ true) first rest (drawn before first (rest ++ after) m)
        (Times-IsDrawn r k (before ++ first) rest after drawn ms))

  pub DrawnFrom-IsDrawn :
      (r : Regex) (before span after : List ℕ)
      → DrawnFrom p r
      → Matches r before span after
      → IsDrawn span
  DrawnFrom-IsDrawn empty before span after d h = subst IsDrawn (sym h) tt
  DrawnFrom-IsDrawn (one q) before span after d (c, h, t) = subst IsDrawn (sym h) (d c t, tt)
  DrawnFrom-IsDrawn (seq r s) before span after (d, d') (first, rest, h, m, m') =
      subst IsDrawn (sym h) (
        All-append (λ c. p c ≡ true) first rest
          (DrawnFrom-IsDrawn r before first (rest ++ after) d m)
          (DrawnFrom-IsDrawn s (before ++ first) rest after d' m'))
  DrawnFrom-IsDrawn (alt r s) before span after (d, d') (inl m) =
      DrawnFrom-IsDrawn r before span after d m
  DrawnFrom-IsDrawn (alt r s) before span after (d, d') (inr m) =
      DrawnFrom-IsDrawn s before span after d' m
  DrawnFrom-IsDrawn (times m n r) before span after d (k, _, _, ms) =
      Times-IsDrawn r k before span after (λ b t a. DrawnFrom-IsDrawn r b t a d) ms
  DrawnFrom-IsDrawn (many m r) before span after d (k, _, ms) =
      Times-IsDrawn r k before span after (λ b t a. DrawnFrom-IsDrawn r b t a d) ms
  DrawnFrom-IsDrawn (not_ahead r) before span after d (h, _) = subst IsDrawn (sym h) tt
  DrawnFrom-IsDrawn (not_behind q) before span after d (h, _) = subst IsDrawn (sym h) tt
