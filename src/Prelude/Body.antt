-- ===== src/Prelude/Body.antt =====
-- How the gateway and the guardrail read the body of a request up to a limit.
use Prim.Native.Nat.{ℕ, ◌+◌, ◌-◌, ◌*◌, ◌≤◌}
use mathlib.Core.Path.{◌≡◌, refl, ◌∙◌}
use mathlib.Core.Bool.{Bool, true, false, ◌&&◌}
use mathlib.Core.Option.{Option, none, some}
use mathlib.Core.List.{List, [], ◌∷◌, ◌++◌, append-nil, append_assoc}
use native.Mathlib.Omega.{arith}
use quilr_ai_mcp.Prelude.Tests.{ltb, leb, if◌then◌else◌}
use quilr_ai_mcp.Prelude.Lists.{length}

-- The streaming part of `_read_bounded_body`; `none` is a body that is too large.
unfoldable pub read_chunks : ℕ → List ℕ → List (List ℕ) → Option (List ℕ)
read_chunks limit body [] = some body
read_chunks limit body (chunk ∷ chunks) =
    let rest = read_chunks limit (body ++ chunk) chunks in
    if ltb limit (length (body ++ chunk)) then none else rest

-- `int(declared)` of ASCII digits; `none` where `isdigit` fails. The source raises a `ValueError` on
-- the superscript digits of Latin-1, which are no digits here.
unfoldable pub digits_value : ℕ → List ℕ → Option ℕ
digits_value n [] = some n
digits_value n (c ∷ cs) =
    let rest = digits_value (n * 10 + (c - 48)) cs in if leb 48 c && leb c 57 then rest else none

abbrev pub declared_size : Option (List ℕ) → Option ℕ
declared_size none = none
declared_size (some []) = none
declared_size (some (c ∷ cs)) = digits_value 0 (c ∷ cs)

-- The chunks of a body, one after the other.
abbrev pub whole_body : List (List ℕ) → List ℕ
whole_body [] = []
whole_body (chunk ∷ chunks) = chunk ++ whole_body chunks

-- What is read is all that came.
pub read_chunks-whole_body :
    (limit : ℕ) (body : List ℕ) (chunks : List (List ℕ)) (read : List ℕ)
    → read_chunks limit body chunks ≡ some read
    → read ≡ body ++ whole_body chunks
unfolding read_chunks
read_chunks-whole_body limit body [] read h = ground (arith, h, append-nil body)
read_chunks-whole_body limit body (chunk ∷ chunks) read h =
    go (ltb limit (length (body ++ chunk)))
      (read_chunks-whole_body limit (body ++ chunk) chunks read) h
  where
    go :
        (b : Bool)
        → (read_chunks limit (body ++ chunk) chunks ≡ some read
            → read ≡ (body ++ chunk) ++ whole_body chunks)
        → (if b then none else read_chunks limit (body ++ chunk) chunks) ≡ some read
        → read ≡ body ++ (chunk ++ whole_body chunks)
    go true rec h' = ground (arith, h')
    go false rec h' = rec h' ∙ append_assoc body chunk (whole_body chunks)

-- What is read is within the limit.
pub length-read_chunks :
    (limit : ℕ) (body : List ℕ) (chunks : List (List ℕ)) (read : List ℕ)
    → length body ≤ limit
    → read_chunks limit body chunks ≡ some read
    → length read ≤ limit
unfolding read_chunks
length-read_chunks limit body [] read le h = ground (arith, le, h)
length-read_chunks limit body (chunk ∷ chunks) read le h =
    go (ltb limit (length (body ++ chunk))) refl
      (length-read_chunks limit (body ++ chunk) chunks read) h
  where
    go :
        (b : Bool)
        → ltb limit (length (body ++ chunk)) ≡ b
        → (length (body ++ chunk) ≤ limit
            → read_chunks limit (body ++ chunk) chunks ≡ some read
            → length read ≤ limit)
        → (if b then none else read_chunks limit (body ++ chunk) chunks) ≡ some read
        → length read ≤ limit
    go true e rec h' = ground (arith, h')
    go false e rec h' = rec (ground (arith, e)) h'
