-- ===== src/Guardrail/Payload/Places.antt =====
-- Replacing one element of a list or one field of an object: llm-gateway-guardrail/src/llm_guardrail/stream.py,
-- `_replace_at`.
use quilr_ai_mcp.Prelude.{
  ℕ, zero, suc, ◌<◌, ◌≡◌, refl, String, false, Option, none, some, arith, str_eq, ◌⊎◌, eq_refl,
}
use mathlib.Core.Path.{subst}
use quilr_ai_mcp.Prelude.Json.{
  Json, Items, nil, cons, Fields, get_field, put_field, get_field-put_field,
}
use quilr_ai_mcp.Guardrail.Payload.{replace_item, replace_field}

abbrev pub get_item : ℕ → Items → Option Json
get_item n nil = none
get_item zero (cons v vs) = some v
get_item (suc n) (cons v vs) = get_item n vs

-- What a place held is mapped to what it holds.
abbrev pub Mapped : (Json → Option Json) → Option Json → Option Json → Type 0
Mapped f before after = (v w : Json) × (before ≡ some v) × (f v ≡ some w) × (after ≡ some w)

module _ (f : Json → Option Json) where
  pub replace_item-Mapped :
      (n : ℕ) (vs ws : Items)
      → replace_item f n vs ≡ some ws
      → Mapped f (get_item n vs) (get_item n ws)
  unfolding replace_item
  replace_item-Mapped n nil ws h = ground (arith, h)
  replace_item-Mapped zero (cons v vs) ws h = go (f v) refl h
    where
      go :
          (o : Option Json)
          → f v ≡ o
          → (elim o [ none ↦ none | some w ↦ some (cons w vs) ]) ≡ some ws
          → Mapped f (some v) (get_item 0 ws)
      go none e h' = ground (arith, h')
      go (some w) e h' = (v, w, refl, e, ground (arith, h'))
  replace_item-Mapped (suc n) (cons v vs) ws h =
      go (replace_item f n vs) (λ us e. replace_item-Mapped n vs us e) h
    where
      go :
          (o : Option Items)
          → ((us : Items) → o ≡ some us → Mapped f (get_item n vs) (get_item n us))
          → (elim o [ none ↦ none | some us ↦ some (cons v us) ]) ≡ some ws
          → Mapped f (get_item n vs) (get_item (suc n) ws)
      go none rec h' = ground (arith, h')
      go (some us) rec h' =
          let same : cons v us ≡ ws = ground (arith, h') in
          subst (λ z. Mapped f (get_item n vs) (get_item (suc n) z)) same (rec us refl)

  pub replace_item-other :
      (n m : ℕ) (vs ws : Items)
      → replace_item f n vs ≡ some ws
      → (n < m) ⊎ (m < n)
      → get_item m ws ≡ get_item m vs
  unfolding replace_item
  replace_item-other n m nil ws h apart = ground (arith, h)
  replace_item-other zero zero (cons v vs) ws h apart = ground (arith, apart)
  replace_item-other zero (suc m) (cons v vs) ws h apart = go (f v) h
    where
      go :
          (o : Option Json)
          → (elim o [ none ↦ none | some w ↦ some (cons w vs) ]) ≡ some ws
          → get_item (suc m) ws ≡ get_item m vs
      go none h' = ground (arith, h')
      go (some w) h' =
          let same : cons w vs ≡ ws = ground (arith, h') in
          subst (λ z. get_item (suc m) z ≡ get_item m vs) same refl
  replace_item-other (suc n) m (cons v vs) ws h apart =
      go m apart (replace_item f n vs) (λ i us e. replace_item-other n i vs us e) h
    where
      go :
          (m : ℕ)
          → (suc n < m) ⊎ (m < suc n)
          → (o : Option Items)
          → ((i : ℕ) (us : Items) → o ≡ some us → (n < i) ⊎ (i < n) → get_item i us ≡ get_item i vs)
          → (elim o [ none ↦ none | some us ↦ some (cons v us) ]) ≡ some ws
          → get_item m ws ≡ get_item m (cons v vs)
      go m apart none rec h' = ground (arith, h')
      go zero apart (some us) rec h' =
          let same : cons v us ≡ ws = ground (arith, h') in
          subst (λ z. get_item 0 z ≡ some v) same refl
      go (suc m) apart (some us) rec h' =
          let same : cons v us ≡ ws = ground (arith, h') in
          subst (λ z. get_item (suc m) z ≡ get_item m vs) same (rec m us refl (omega arith))

  pub replace_field-Mapped :
      (k : String) (d e : Fields)
      → replace_field f k d ≡ some e
      → Mapped f (get_field k d) (get_field k e)
  unfolding replace_field
  replace_field-Mapped k d e h = go (get_field k d) refl h
    where
      go_value :
          (v : Json) (o : Option Json)
          → f v ≡ o
          → (elim o [ none ↦ none | some w ↦ some (put_field k w d) ]) ≡ some e
          → Mapped f (some v) (get_field k e)
      go_value v none fv h' = ground (arith, h')
      go_value v (some w) fv h' =
          let same : put_field k w d ≡ e = ground (arith, h') in
          (
            v,
            w,
            refl,
            fv,
            subst (λ z. get_field k z ≡ some w) same
                (ground (arith, get_field-put_field k k w d, eq_refl k)),
          )

      go :
          (o : Option Json)
          → get_field k d ≡ o
          → (elim o [
            | none ↦ none
            | some v ↦ elim (f v) [ none ↦ none | some w ↦ some (put_field k w d) ]
          ])
            ≡ some e
          → Mapped f o (get_field k e)
      go none g h' = ground (arith, h')
      go (some v) g h' = go_value v (f v) refl h'

  pub replace_field-other :
      (k j : String) (d e : Fields)
      → replace_field f k d ≡ some e
      → str_eq k j ≡ false
      → get_field j e ≡ get_field j d
  unfolding replace_field
  replace_field-other k j d e h differ = go (get_field k d) h
    where
      go_value :
          (o : Option Json)
          → (elim o [ none ↦ none | some w ↦ some (put_field k w d) ]) ≡ some e
          → get_field j e ≡ get_field j d
      go_value none h' = ground (arith, h')
      go_value (some w) h' =
          let same : put_field k w d ≡ e = ground (arith, h') in
          subst (λ z. get_field j z ≡ get_field j d) same
            (ground (arith, get_field-put_field k j w d, differ))

      go :
          (o : Option Json)
          → (elim o [
            | none ↦ none
            | some v ↦ elim (f v) [ none ↦ none | some w ↦ some (put_field k w d) ]
          ])
            ≡ some e
          → get_field j e ≡ get_field j d
      go none h' = ground (arith, h')
      go (some v) h' = go_value (f v) h'
