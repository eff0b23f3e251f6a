-- ===== src/Prelude/Strings.antt =====
-- A Python `str` from its code points.
use Prim.Native.Nat.{ℕ, compare, Ordering}
use Prim.Native.Char.{Char, char, nul}
use Prim.Native.String.{String}
use mathlib.Core.Path.{◌≡◌, refl}
use mathlib.Core.List.{List, [], ◌∷◌}

-- The character of a code point; a surrogate, which a text does not hold, is U+0000.
unfoldable pub char_of : ℕ → Char
char_of n = go (compare n 55296) refl (compare 57343 n) refl (compare n 1114112) refl
  where
    go :
        (o : Ordering)
        → compare n 55296 ≡ o
        → (p : Ordering) → compare 57343 n ≡ p
        → (q : Ordering) → compare n 1114112 ≡ q
        → Char
    go Ordering.lt h p h' q h'' = char n (rw h tt)
    go Ordering.eq h Ordering.lt h' Ordering.lt h'' = char n (rw (h, h', h'') tt)
    go Ordering.gt h Ordering.lt h' Ordering.lt h'' = char n (rw (h, h', h'') tt)
    go o h p h' q h'' = nul

-- `"".join(map(chr, codes))`
unfoldable pub text_of : List ℕ → String
unfolding char_of
text_of [] = String.[]
text_of (c ∷ cs) = String.◌∷◌ (char_of c) (text_of cs)
