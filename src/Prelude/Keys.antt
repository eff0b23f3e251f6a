-- ===== src/Prelude/Keys.antt =====
-- How the gateway and the router read a credential: the scheme of a header, and the search for a key in
-- a table. Texts are lists of code points.
pub mod Matching
use Prim.Native.Nat.{ℕ, ◌+◌}
use mathlib.Core.Bool.{Bool, ◌&&◌}
use mathlib.Core.Option.{Option, none, some}
use mathlib.Core.List.{List, [], ◌∷◌, map}
use quilr_ai_mcp.Prelude.Tests.{leb, ◌==◌, if◌then◌else◌}
use quilr_ai_mcp.Prelude.Text.{text_eq}

-- `str.lower()`, which outside ASCII gives no letter of "bearer".
unfoldable pub lower : List ℕ → List ℕ
lower s = map (λ c. if leb 65 c && leb c 90 then c + 32 else c) s

-- `s.partition(sep)`, without the separator
unfoldable pub partition : ℕ → List ℕ → List ℕ × List ℕ
partition sep [] = ([], [])
partition sep (c ∷ cs) =
    let (before, after) = partition sep cs in if c == sep then ([], cs) else (c ∷ before, after)

-- The loop over a table, in its order: the last match wins.
unfoldable pub match_key : {V : Type 0} → List ℕ → Option V → List (List ℕ × V) → Option V
match_key candidate matched [] = matched
match_key candidate matched ((known, v) ∷ rest) =
    match_key candidate (if text_eq candidate known then some v else matched) rest

-- `s.split(",")`
unfoldable pub split_commas : List ℕ → List (List ℕ)
split_commas [] = [] ∷ []
split_commas (c ∷ cs) = elim (split_commas cs) [
  | [] ↦ (c ∷ []) ∷ []
  | part ∷ parts ↦ if c == 44 then [] ∷ part ∷ parts else (c ∷ part) ∷ parts
]
