-- ===== src/Prelude/Dict.antt =====
-- Python's `dict` with `str` keys, in insertion order.
use Prim.Native.String.{String}
use mathlib.Core.Path.{◌≡◌, refl}
use mathlib.Core.Bool.{Bool, false}
use mathlib.Core.Option.{Option, none, some}
use mathlib.Core.List.{List, [], ◌∷◌}
use native.Mathlib.Omega.{arith}
use text.Mathlib.TextEquality.{eq_iff}
use mathlib.Core.Logic.{inl, inr}
use quilr_ai_mcp.Prelude.Tests.{str_eq, if◌then◌else◌, Bool-cases}

abbrev pub Dict {ℓ} : Type ℓ → Type ℓ
Dict V = List (String × V)

module _ {ℓ} {V : Type ℓ} where
  -- `d.get(k)`
  unfoldable pub get : String → Dict V → Option V
  get k [] = none
  get k ((j, v) ∷ d) = if str_eq j k then some v else get k d

  -- `d[k] = v`: an existing key keeps its place.
  unfoldable pub put : String → V → Dict V → Dict V
  put k v [] = (k, v) ∷ []
  put k v ((j, w) ∷ d) = if str_eq j k then (j, v) ∷ d else (j, w) ∷ put k v d

  -- `{**d, **e}`
  unfoldable pub merge : Dict V → Dict V → Dict V
  merge d [] = d
  merge d ((k, v) ∷ e) = merge (put k v d) e

  -- `{k: v for k, v in d.items() if p(k)}`
  unfoldable pub select_keys : (String → Bool) → Dict V → Dict V
  select_keys p [] = []
  select_keys p ((k, v) ∷ d) = let rest = select_keys p d in if p k then (k, v) ∷ rest else rest

  pub get-put :
      (k j : String) (v : V) (d : Dict V)
      → get j (put k v d) ≡ (if str_eq k j then some v else get j d)
  unfolding get put
  get-put k j v [] = refl
  get-put k j v ((i, w) ∷ d) = ground (arith, eq_iff k j, eq_iff i k, eq_iff i j, get-put k j v d)

  pub get-select_keys :
      (p : String → Bool) (k : String) (d : Dict V)
      → get k (select_keys p d) ≡ (if p k then get k d else none)
  unfolding get select_keys
  get-select_keys p k [] = ground arith
  get-select_keys p k ((j, w) ∷ d) = ground (arith, eq_iff j k, get-select_keys p k d)

  -- What a comprehension over the keys leaves out.
  pub get-merge :
      (p : String → Bool) (k : String) (d e : Dict V)
      → p k ≡ false
      → get k d ≡ none
      → get k (merge d (select_keys p e)) ≡ none
  unfolding get merge select_keys
  get-merge p k d [] stripped h = h
  get-merge p k d ((j, v) ∷ e) stripped h = elim (Bool-cases (p j)) [
    | inr gone ↦ rw gone (get-merge p k d e stripped h)
    | inl kept ↦ rw kept (
        get-merge p k (put j v d) e stripped
          (ground (arith, h, stripped, kept, eq_iff j k, get-put j k v d)))
  ]
