-- ===== src/Prelude/Text.antt =====
-- Python's `str` methods on lists of code points.
pub mod Slices
use Prim.Native.Nat.{ℕ, zero, suc, ◌-◌}
use mathlib.Core.Path.{◌≡◌, refl}
use mathlib.Core.Bool.{Bool, true, false, ◌&&◌, ◌||◌}
use mathlib.Core.Option.{Option, none, some}
use mathlib.Core.List.{List, [], ◌∷◌, reverse}
use native.Mathlib.Omega.{arith}
use quilr_ai_mcp.Prelude.Tests.{leb, ◌==◌, if◌then◌else◌}

-- `str.isspace` on one character
unfoldable pub is_space : ℕ → Bool
is_space c =
    (leb 9 c && leb c 13)
    || (leb 28 c && leb c 32)
    || c == 133
    || c == 160
    || c == 5760
    || (leb 8192 c && leb c 8202)
    || c == 8232
    || c == 8233
    || c == 8239
    || c == 8287
    || c == 12288

-- `lstrip()`
unfoldable pub strip_start : List ℕ → List ℕ
unfolding is_space
strip_start [] = []
strip_start (c ∷ cs) = let rest = strip_start cs in if is_space c then rest else c ∷ cs

-- `strip()`
unfoldable pub strip : List ℕ → List ℕ
unfolding strip_start
strip s = reverse (strip_start (reverse (strip_start s)))

-- What follows a prefix, if the text starts with it.
unfoldable pub drop_prefix : List ℕ → List ℕ → Option (List ℕ)
drop_prefix [] s = some s
drop_prefix (p ∷ ps) [] = none
drop_prefix (p ∷ ps) (c ∷ cs) = let rest = drop_prefix ps cs in if p == c then rest else none

-- `a == b`
abbrev pub text_eq : List ℕ → List ℕ → Bool
text_eq [] [] = true
text_eq (a ∷ as') (b ∷ bs) = let rest = text_eq as' bs in if a == b then rest else false
text_eq _ _ = false

pub text_eq_refl : (s : List ℕ) → text_eq s s ≡ true
text_eq_refl [] = refl
text_eq_refl (c ∷ cs) = ground (arith, text_eq_refl cs)

pub text_eq→eq : (s t : List ℕ) → text_eq s t ≡ true → s ≡ t
text_eq→eq [] [] h = refl
text_eq→eq [] (d ∷ ds) h = ground (arith, h)
text_eq→eq (c ∷ cs) [] h = ground (arith, h)
text_eq→eq (c ∷ cs) (d ∷ ds) h = ground (arith, h, text_eq→eq cs ds)

-- `s[:n]`
unfoldable pub take : ℕ → List ℕ → List ℕ
take zero s = []
take (suc n) [] = []
take (suc n) (c ∷ cs) = c ∷ take n cs

-- `s[n:]`
unfoldable pub drop : ℕ → List ℕ → List ℕ
drop zero s = s
drop (suc n) [] = []
drop (suc n) (c ∷ cs) = drop n cs

-- `s[a:b]`
abbrev pub slice : ℕ → ℕ → List ℕ → List ℕ
slice a b s = take (b - a) (drop a s)
