-- ===== src/Guardrail/Payload/Channels.antt =====
-- The texts of one frame are in different places: llm-gateway-guardrail/src/llm_guardrail/stream.py,
-- `_locate_texts`.
use quilr_ai_mcp.Prelude.{
  ℕ, ◌+◌, ◌≤◌, ◌≡◌, refl, sym, inr, String, Bool, true, false, not, Option, none, some, List, [],
  ◌∷◌, ◌++◌, ◌==◌, ◌&&◌, arith, All, All-append, is_some, if◌then◌else◌,
}
use mathlib.Core.Path.{subst}
use quilr_ai_mcp.Prelude.Int.{pos}
use quilr_ai_mcp.Prelude.Json.{Json, int, arr, obj, Items, nil, cons, Fields, get_field, or_null}
use quilr_ai_mcp.Guardrail.Payload.{
  Step, key, position, Located, main_text, str_field, is_str, is_main_index, index_of, prefixed,
  located_at, locate_delta, inner_of, locate_choice, locate_choices, locate_openai, is_found,
  locate_texts,
}
use quilr_ai_mcp.Guardrail.Payload.Paths.{Apart, at_key, at_position, deeper}

-- No two of the texts share a place; `m` comes after `l`.
abbrev pub AllApart : List Located → Type 0
AllApart [] = Unit
AllApart (l ∷ ls) = All (λ m. Apart m.path l.path) ls × AllApart ls

AllApart-append :
    (xs ys : List Located)
    → AllApart xs
    → AllApart ys
    → All (λ x. All (λ y. Apart y.path x.path) ys) xs
    → AllApart (xs ++ ys)
AllApart-append [] ys hx hy h = hy
AllApart-append (x ∷ xs) ys (ha, hx) hy (h, hs) =
    (All-append _ xs ys ha h, AllApart-append xs ys hx hy hs)

-- At most one text, with a property.
abbrev AtMostOne : (Located → Type 0) → List Located → Type 0
AtMostOne P [] = Unit
AtMostOne P (l ∷ []) = P l
AtMostOne P (l ∷ m ∷ ls) = ⊥

AtMostOne-All : (P : Located → Type 0) (ls : List Located) → AtMostOne P ls → All P ls
AtMostOne-All P [] h = tt
AtMostOne-All P (l ∷ []) h = (h, tt)
AtMostOne-All P (l ∷ m ∷ ls) h = elim h [ ]

AtMostOne-AllApart : (P : Located → Type 0) (ls : List Located) → AtMostOne P ls → AllApart ls
AtMostOne-AllApart P [] h = tt
AtMostOne-AllApart P (l ∷ []) h = (tt, tt)
AtMostOne-AllApart P (l ∷ m ∷ ls) h = elim h [ ]

abbrev IsDelta : Located → Type 0
IsDelta l = (q : List Step) × (l.path ≡ key "delta" ∷ q)

located_at-AtMostOne :
    (P : Located → Type 0) (channel : String) (path : List Step) (o : Option String)
    → ((text : String) → P (record { channel = channel; path = path; text = text }))
    → AtMostOne P (located_at channel path o)
located_at-AtMostOne P channel path none h = tt
located_at-AtMostOne P channel path (some text) h = h text

located-IsDelta :
    (delta : Fields) (b b' : Bool) (channel channel' : String)
    → AtMostOne IsDelta (
        if b
        then located_at channel (key "delta" ∷ key "text" ∷ []) (str_field "text" delta)
        else if b'
        then located_at channel'
            (key "delta" ∷ key "partial_json" ∷ [])
            (str_field "partial_json" delta)
        else [])
located-IsDelta delta true b' channel channel' =
    located_at-AtMostOne IsDelta channel (key "delta" ∷ key "text" ∷ []) (str_field "text" delta)
      (λ text. (key "text" ∷ [], refl))
located-IsDelta delta false true channel channel' =
    located_at-AtMostOne IsDelta channel' (key "delta" ∷ key "partial_json" ∷ [])
      (str_field "partial_json" delta) (λ text. (key "partial_json" ∷ [], refl))
located-IsDelta delta false false channel channel' = tt

locate_delta-IsDelta :
    (format : Json → List ℕ) (index v : Json) → AtMostOne IsDelta (locate_delta format index v)
unfolding locate_delta
locate_delta-IsDelta format index (obj delta) =
    located-IsDelta delta
      (is_str "text_delta" (or_null (get_field "type" delta)) && is_some (str_field "text" delta))
      (is_str "input_json_delta" (or_null (get_field "type" delta)))
      (if is_main_index index then main_text else prefixed format "text:" index)
      (prefixed format "json:" index)
locate_delta-IsDelta format index v = tt

-- A text of the choice at `n`, or of a later one.
abbrev FromChoice : ℕ → Located → Type 0
FromChoice n l = (m : ℕ) × (q : List Step) × (n ≤ m) × (l.path ≡ key "choices" ∷ position m ∷ q)

abbrev OfChoice : ℕ → Located → Type 0
OfChoice n l = (q : List Step) × (l.path ≡ key "choices" ∷ position n ∷ q)

locate_choice-OfChoice :
    (format : Json → List ℕ) (claimed : Bool) (n : ℕ) (v : Json)
    → AtMostOne (OfChoice n) (locate_choice format claimed n v)
unfolding locate_choice
locate_choice-OfChoice format claimed n (obj choice) = go (inner_of choice)
  where
    go :
        (v : Json)
        → AtMostOne (OfChoice n) (elim v [
          | obj inner ↦
              located_at
                (if n == 0 && not claimed
                  then main_text
                  else prefixed format "openai:" (int (pos n)))
                (key "choices"
                  ∷ position n
                  ∷ key (if is_some (get_field "delta" choice) then "delta" else "message")
                  ∷ key "content"
                  ∷ [])
                (str_field "content" inner)
          | _ ↦ []
        ])
    go (obj inner) = located_at-AtMostOne (OfChoice n) _ _ _ (λ text. (_, refl))
    go _ = tt
locate_choice-OfChoice format claimed n v = tt

choice-Apart : (n : ℕ) (x y : Located) → OfChoice n x → FromChoice (n + 1) y → Apart y.path x.path
choice-Apart n x y (q, e) (m, r, le, e') =
    subst (λ p. Apart p x.path) (sym e')
      (subst (Apart (key "choices" ∷ position m ∷ r)) (sym e)
        (deeper (at_position (inr (omega arith)))))

locate_choices-AllApart :
    (format : Json → List ℕ) (claimed : Bool) (n : ℕ) (vs : Items)
    → All (FromChoice n) (locate_choices format claimed n vs)
      × AllApart (locate_choices format claimed n vs)
unfolding locate_choices
locate_choices-AllApart format claimed n nil = (tt, tt)
locate_choices-AllApart format claimed n (cons v vs) =
    go (locate_choice format claimed n v) (locate_choice-OfChoice format claimed n v) _
      (locate_choices-AllApart format claimed (n + 1) vs)
  where
    weaken : (ls : List Located) → All (FromChoice (n + 1)) ls → All (FromChoice n) ls
    weaken [] h = tt
    weaken (l ∷ ls) ((m, q, le, e), h) = ((m, q, omega arith, e), weaken ls h)

    apart_from :
        (x : Located) (ls : List Located)
        → OfChoice n x
        → All (FromChoice (n + 1)) ls
        → All (λ y. Apart y.path x.path) ls
    apart_from x [] hx h = tt
    apart_from x (l ∷ ls) hx (h, hs) = (choice-Apart n x l hx h, apart_from x ls hx hs)

    go :
        (xs : List Located)
        → AtMostOne (OfChoice n) xs
        → (ys : List Located) → All (FromChoice (n + 1)) ys × AllApart ys
        → All (FromChoice n) (xs ++ ys) × AllApart (xs ++ ys)
    go [] hx ys (hy, ay) = (weaken ys hy, ay)
    go (x ∷ []) hx ys (hy, ay) =
        (((n, hx.0, omega arith, hx.1), weaken ys hy), (apart_from x ys hx hy, ay))
    go (x ∷ y ∷ xs) hx ys h = elim hx [ ]

delta-Apart : (x y : Located) → IsDelta x → FromChoice 0 y → Apart y.path x.path
delta-Apart x y (q, e) (m, r, le, e') =
    subst (λ p. Apart p x.path) (sym e')
      (subst (Apart (key "choices" ∷ position m ∷ r)) (sym e) (at_key refl))

-- The texts that `_locate_texts` finds in a frame stand in different places of it.
pub locate_texts-AllApart :
    (format : Json → List ℕ) (payload : Json) → AllApart (locate_texts format payload)
unfolding locate_texts
locate_texts-AllApart format (obj payload) =
    go (locate_delta format (index_of payload) (or_null (get_field "delta" payload)))
      (locate_delta-IsDelta format (index_of payload) (or_null (get_field "delta" payload)))
      (or_null (get_field "choices" payload))
  where
    apart_from :
        (x : Located) (ls : List Located)
        → IsDelta x
        → All (FromChoice 0) ls
        → All (λ y. Apart y.path x.path) ls
    apart_from x [] hx h = tt
    apart_from x (l ∷ ls) hx (h, hs) = (delta-Apart x l hx h, apart_from x ls hx hs)

    openai-AllApart :
        (claimed : Bool) (v : Json)
        → All (FromChoice 0) (locate_openai format claimed v)
          × AllApart (locate_openai format claimed v)
    openai-AllApart claimed (arr choices) = locate_choices-AllApart format claimed 0 choices
    openai-AllApart claimed v = (tt, tt)

    go :
        (found : List Located)
        → AtMostOne IsDelta found
        → (v : Json) → AllApart (found ++ locate_openai format (is_found found) v)
    go [] h v = (openai-AllApart false v).1
    go (x ∷ []) h v = let (from, apart) = openai-AllApart true v in (apart_from x _ h from, apart)
    go (x ∷ y ∷ xs) h v = elim h [ ]
locate_texts-AllApart format v = tt
