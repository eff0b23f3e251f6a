-- ===== src/Guardrail/Payload/Paths.antt =====
-- What replacing one leaf of a payload does: llm-gateway-guardrail/src/llm_guardrail/stream.py,
-- `_replace_at`.
use quilr_ai_mcp.Prelude.{
  ℕ, ◌<◌, ◌≡◌, refl, sym, ap, ◌∙◌, String, false, Option, none, some, List, [], ◌∷◌, arith, str_eq,
  ◌⊎◌,
}
use mathlib.Core.Path.{subst}
use quilr_ai_mcp.Prelude.Json.{Json, arr, obj, Items, Fields, get_field}
use quilr_ai_mcp.Guardrail.Payload.Places.{
  get_item, Mapped, replace_item-Mapped, replace_item-other, replace_field-Mapped,
  replace_field-other,
}
use quilr_ai_mcp.Guardrail.Payload.{
  Step, key, position, replace_item, replace_field, replace_below, replace_at,
}

-- `value[step]`
abbrev pub get_step : Step → Json → Option Json
get_step (key k) (obj d) = get_field k d
get_step (position n) (arr vs) = get_item n vs
get_step _ _ = none

-- The value at a path.
unfoldable pub get_at : List Step → Json → Option Json
get_at [] v = some v
get_at (s ∷ rest) v = elim (get_step s v) [ none ↦ none | some w ↦ get_at rest w ]

-- Two paths that part before either ends.
pub data Apart : List Step → List Step → Type 0 where
  at_key : {k j : String} {p q : List Step} → str_eq k j ≡ false → Apart (key k ∷ p) (key j ∷ q)
  at_position :
      {m n : ℕ} {p q : List Step} → (m < n) ⊎ (n < m) → Apart (position m ∷ p) (position n ∷ q)
  deeper : {s : Step} {p q : List Step} → Apart p q → Apart (s ∷ p) (s ∷ q)

-- The value at the rest of a path, where the first step leads to `o`.
abbrev at_rest : List Step → Option Json → Option Json
at_rest rest o = elim o [ none ↦ none | some w ↦ get_at rest w ]

replace_below-Mapped :
    (f : Json → Option Json) (s : Step) (d e : Json)
    → replace_below s f d ≡ some e
    → Mapped f (get_step s d) (get_step s e)
replace_below-Mapped f (position n) (arr vs) e h =
    go (replace_item f n vs) (replace_item-Mapped f n vs) h
  where
    go :
        (o : Option Items)
        → ((ws : Items) → o ≡ some ws → Mapped f (get_item n vs) (get_item n ws))
        → (elim o [ none ↦ none | some ws ↦ some (arr ws) ]) ≡ some e
        → Mapped f (get_item n vs) (get_step (position n) e)
    go none rec h' = ground (arith, h')
    go (some ws) rec h' =
        let same : arr ws ≡ e = ground (arith, h') in
        subst (λ z. Mapped f (get_item n vs) (get_step (position n) z)) same (rec ws refl)
replace_below-Mapped f (key k) (obj d) e h = go (replace_field f k d) (replace_field-Mapped f k d) h
  where
    go :
        (o : Option Fields)
        → ((d' : Fields) → o ≡ some d' → Mapped f (get_field k d) (get_field k d'))
        → (elim o [ none ↦ none | some d' ↦ some (obj d') ]) ≡ some e
        → Mapped f (get_field k d) (get_step (key k) e)
    go none rec h' = ground (arith, h')
    go (some d') rec h' =
        let same : obj d' ≡ e = ground (arith, h') in
        subst (λ z. Mapped f (get_field k d) (get_step (key k) z)) same (rec d' refl)
replace_below-Mapped f s d e h = ground (arith, h)

replace_below-same :
    (f : Json → Option Json) (s : Step) (d e : Json) (q : List Step)
    → ((v w : Json) → f v ≡ some w → get_at q w ≡ get_at q v)
    → replace_below s f d ≡ some e
    → get_at (s ∷ q) e ≡ get_at (s ∷ q) d
unfolding get_at
replace_below-same f s d e q keeps h =
    let (v, w, before, fv, after) = replace_below-Mapped f s d e h in
    ap (at_rest q) after ∙ (keeps v w fv ∙ sym (ap (at_rest q) before))

-- What the replaced leaf holds.
pub get_at-replace_at :
    (p : List Step) (x d e : Json) → replace_at p x d ≡ some e → get_at p e ≡ some x
unfolding replace_at get_at
get_at-replace_at [] x d e h = sym h
get_at-replace_at (s ∷ p) x d e h =
    let (v, w, before, fv, after) = replace_below-Mapped (replace_at p x) s d e h in
    ap (at_rest p) after ∙ get_at-replace_at p x v w fv

replace_below-keys :
    (f : Json → Option Json) (k j : String) (q : List Step) (d e : Json)
    → str_eq k j ≡ false
    → replace_below (key k) f d ≡ some e
    → get_at (key j ∷ q) e ≡ get_at (key j ∷ q) d
unfolding get_at
replace_below-keys f k j q (obj d) e differ h =
    go (replace_field f k d) (replace_field-other f k j d) h
  where
    go :
        (o : Option Fields)
        → ((d' : Fields) → o ≡ some d' → str_eq k j ≡ false → get_field j d' ≡ get_field j d)
        → (elim o [ none ↦ none | some d' ↦ some (obj d') ]) ≡ some e
        → at_rest q (get_step (key j) e) ≡ at_rest q (get_field j d)
    go none rec h' = ground (arith, h')
    go (some d') rec h' =
        let same : obj d' ≡ e = ground (arith, h') in
        subst (λ z. at_rest q (get_step (key j) z) ≡ at_rest q (get_field j d)) same
          (ap (at_rest q) (rec d' refl differ))
replace_below-keys f k j q d e differ h = ground (arith, h)

replace_below-positions :
    (f : Json → Option Json) (m n : ℕ) (q : List Step) (d e : Json)
    → (m < n) ⊎ (n < m)
    → replace_below (position m) f d ≡ some e
    → get_at (position n ∷ q) e ≡ get_at (position n ∷ q) d
unfolding get_at
replace_below-positions f m n q (arr vs) e differ h =
    go (replace_item f m vs) (replace_item-other f m n vs) h
  where
    go :
        (o : Option Items)
        → ((ws : Items) → o ≡ some ws → (m < n) ⊎ (n < m) → get_item n ws ≡ get_item n vs)
        → (elim o [ none ↦ none | some ws ↦ some (arr ws) ]) ≡ some e
        → at_rest q (get_step (position n) e) ≡ at_rest q (get_item n vs)
    go none rec h' = ground (arith, h')
    go (some ws) rec h' =
        let same : arr ws ≡ e = ground (arith, h') in
        subst (λ z. at_rest q (get_step (position n) z) ≡ at_rest q (get_item n vs)) same
          (ap (at_rest q) (rec ws refl differ))
replace_below-positions f m n q d e differ h = ground (arith, h)

-- What every other place holds.
pub get_at-other :
    (p q : List Step) (x d e : Json)
    → Apart p q
    → replace_at p x d ≡ some e
    → get_at q e ≡ get_at q d
unfolding replace_at
get_at-other _ _ x d e (at_key {k} {j} {p} {q} differ) h =
    replace_below-keys (replace_at p x) k j q d e differ h
get_at-other _ _ x d e (at_position {m} {n} {p} {q} differ) h =
    replace_below-positions (replace_at p x) m n q d e differ h
get_at-other _ _ x d e (deeper {s} {p} {q} apart) h =
    replace_below-same (replace_at p x) s d e q (λ v w. get_at-other p q x v w apart) h
