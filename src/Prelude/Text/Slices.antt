-- ===== src/Prelude/Text/Slices.antt =====
-- Slices of a text put together again.
use Prim.Native.Nat.{ℕ, zero, suc, ◌-◌, ◌≤◌}
use mathlib.Core.Path.{◌≡◌, refl, ap, sym, ◌∙◌}
use mathlib.Core.List.{List, [], ◌∷◌, ◌++◌, append_assoc}
use native.Mathlib.Omega.{arith}
use quilr_ai_mcp.Prelude.Lists.{length}
use quilr_ai_mcp.Prelude.Text.{take, drop, slice}

pub take-append-drop : (n : ℕ) (t : List ℕ) → take n t ++ drop n t ≡ t
unfolding take drop
take-append-drop zero t = refl
take-append-drop (suc n) [] = refl
take-append-drop (suc n) (c ∷ cs) = ap (λ x. c ∷ x) (take-append-drop n cs)

take-nil : (n : ℕ) → take n [] ≡ []
unfolding take
take-nil zero = refl
take-nil (suc n) = refl

-- A text from `a` on is its slice up to `b`, and the text from there on.
pub slice-append-drop : (a b : ℕ) (t : List ℕ) → a ≤ b → slice a b t ++ drop b t ≡ drop a t
unfolding drop
slice-append-drop zero b t h = rw (let e : b - 0 ≡ b = omega arith in e) (take-append-drop b t)
slice-append-drop (suc a) zero t h = absurd (omega arith)
slice-append-drop (suc a) (suc b) [] h = rw (take-nil (suc b - suc a)) refl
slice-append-drop (suc a) (suc b) (c ∷ cs) h =
    let e : suc b - suc a ≡ b - a = omega arith in rw e (slice-append-drop a b cs (omega arith))

pub drop-slices :
    (a b c : ℕ) (t : List ℕ) → a ≤ b → b ≤ c → drop a t ≡ slice a b t ++ (slice b c t ++ drop c t)
drop-slices a b c t h h' =
    sym (slice-append-drop a b t h) ∙ ap (λ x. slice a b t ++ x) (sym (slice-append-drop b c t h'))

-- The text before `b` is the text before `a`, and the slice from there.
pub take-append-slice : (a b : ℕ) (t : List ℕ) → a ≤ b → take a t ++ slice a b t ≡ take b t
unfolding take drop
take-append-slice zero b t h = rw (let e : b - 0 ≡ b = omega arith in e) refl
take-append-slice (suc a) zero t h = absurd (omega arith)
take-append-slice (suc a) (suc b) [] h = rw (take-nil (suc b - suc a)) refl
take-append-slice (suc a) (suc b) (c ∷ cs) h =
    let e : suc b - suc a ≡ b - a = omega arith in
    rw e (ap (λ x. c ∷ x) (take-append-slice a b cs (omega arith)))

pub take-slices :
    (a b c : ℕ) (t : List ℕ) → a ≤ b → b ≤ c → take a t ++ (slice a b t ++ slice b c t) ≡ take c t
take-slices a b c t h h' =
    sym (append_assoc (take a t) (slice a b t) (slice b c t))
    ∙ (ap (λ x. x ++ slice b c t) (take-append-slice a b t h) ∙ take-append-slice b c t h')

length-take : (n : ℕ) (t : List ℕ) → length (take n t) ≤ n
unfolding take
length-take zero t = omega arith
length-take (suc n) [] = omega arith
length-take (suc n) (c ∷ cs) = omega (arith, length-take n cs)

pub length-slice : (a b : ℕ) (t : List ℕ) → length (slice a b t) ≤ b - a
length-slice a b t = length-take (b - a) (drop a t)
