-- ===== src/Server/Transport/Verdicts.antt =====
-- What becomes of each line: mcp-server/src/customer_mcp/transport.py, `classify_line`.
use quilr_ai_mcp.Prelude.{
  ℕ, ◌≡◌, refl, sym, String, Bool, true, false, Option, none, some, List, [], ◌∷◌, arith, not,
  is_some, ◌&&◌, if◌then◌else◌, ◌⊎◌, inl, inr, Option-cases,
}
use quilr_ai_mcp.Prelude.Json.{
  Json, null, bool, int, float, str, arr, obj, Fields, get_field, or_null, as_obj,
}
use quilr_ai_mcp.Prelude.Rpc.{is_version, method_name, is_version-true, method_name-some}
use quilr_ai_mcp.Prelude.Text.{strip}
use quilr_ai_mcp.Server.Transport.{
  ErrorCode, parse_error, invalid_request, invalid_params, Verdict, pass, drop, reply,
  recoverable_id, is_null, object_params, has, reject, is_response, classify_object,
  classify_loaded, classify_line,
}

-- A request or a notification that the SDK can read.
abbrev pub WellFormed : Fields → Type 0
WellFormed d =
    (get_field "jsonrpc" d ≡ some (str "2.0"))
    × ((method : String) × (get_field "method" d ≡ some (str method)))
    × (object_params (or_null (get_field "params" d)) ≡ true)
    × ((has "id" d ≡ false) ⊎ (is_null (recoverable_id (or_null (get_field "id" d))) ≡ false))

-- An object that is no response, and no request or notification that the SDK can read.
abbrev pub Malformed : Fields → Type 0
Malformed d =
    (is_response d ≡ false)
    × ((is_version (get_field "jsonrpc" d) ≡ false)
        ⊎ (method_name (get_field "method" d) ≡ none)
        ⊎ (object_params (or_null (get_field "params" d)) ≡ false)
        ⊎ ((has "id" d ≡ true) × (recoverable_id (or_null (get_field "id" d)) ≡ null)))

-- What a verdict on an object says about it.
abbrev pub Fate : Fields → Verdict → Type 0
Fate d pass = (is_response d ≡ true) ⊎ WellFormed d
Fate d drop = Malformed d × (has "id" d ≡ false)
Fate d (reply code id) =
    Malformed d × (has "id" d ≡ true) × (id ≡ recoverable_id (or_null (get_field "id" d)))

method_name-is_some :
    (o : Option Json) → is_some (method_name o) ≡ true → (method : String) × (o ≡ some (str method))
method_name-is_some o h = elim (Option-cases (method_name o)) [
  | inl e ↦ ground (arith, h, e)
  | inr (method, e) ↦ (method, method_name-some o method e)
]

is_null-true : (j : Json) → is_null j ≡ true → null ≡ j
is_null-true null h = refl
is_null-true (bool _) h = ground (arith, h)
is_null-true (int _) h = ground (arith, h)
is_null-true (float _) h = ground (arith, h)
is_null-true (str _) h = ground (arith, h)
is_null-true (arr _) h = ground (arith, h)
is_null-true (obj _) h = ground (arith, h)

is_some-false : (o : Option String) → not (is_some o) ≡ true → o ≡ none
is_some-false none h = refl
is_some-false (some method) h = ground (arith, h)

not-false : (b : Bool) → not b ≡ true → b ≡ false
not-false b h = ground (arith, h)

not-true : (b : Bool) → not b ≡ false → b ≡ true
not-true b h = ground (arith, h)

and-true : (a b : Bool) → (a && b) ≡ true → (a ≡ true) × (b ≡ true)
and-true a b h = ground (arith, h)

and-false : (a b : Bool) → (a && b) ≡ false → (a ≡ false) ⊎ (b ≡ false)
and-false true b h = inr h
and-false false b h = inl refl

reject-Fate : (d : Fields) (code : ErrorCode) → Malformed d → Fate d (reject d code)
unfolding reject
reject-Fate d code malformed = go (has "id" d) refl
  where
    go :
        (b : Bool)
        → has "id" d ≡ b
        → Fate d (if b then reply code (recoverable_id (or_null (get_field "id" d))) else drop)
    go true h = (malformed, h, refl)
    go false h = (malformed, h)

if-Fate :
    (d : Fields) (b : Bool) (x y : Verdict)
    → (b ≡ true → Fate d x)
    → (b ≡ false → Fate d y)
    → Fate d (if b then x else y)
if-Fate d true x y hx hy = hx refl
if-Fate d false x y hx hy = hy refl

classify_object-Fate : (d : Fields) → Fate d (classify_object d)
unfolding classify_object
classify_object-Fate d = if-Fate d (is_response d) _ _ inl λ other.
    if-Fate d (not (is_version (get_field "jsonrpc" d))) _ _
      (λ bad. reject-Fate d invalid_request (other, inl (not-false _ bad)))
      λ version.
        if-Fate d (not (is_some (method_name (get_field "method" d)))) _ _
          (λ bad. reject-Fate d invalid_request (other, inr (inl (is_some-false _ bad))))
          λ named.
            if-Fate d (not (object_params (or_null (get_field "params" d)))) _ _
              (λ bad. reject-Fate d invalid_params (other, inr (inr (inl (not-false _ bad)))))
              λ params.
                if-Fate d (has "id" d && is_null (recoverable_id (or_null (get_field "id" d)))) _ _
                  (λ unusable.
                    let (present, nothing) = and-true _ _ unusable in
                    (
                      (other, inr (inr (inr (present, sym (is_null-true _ nothing))))),
                      present,
                      is_null-true _ nothing,
                    ))
                  λ usable. inr (
                    is_version-true (get_field "jsonrpc" d) (not-true _ version),
                    method_name-is_some (get_field "method" d) (not-true _ named),
                    not-true _ params,
                    and-false _ _ usable,
                  )

-- What a verdict says about a line that is not blank.
abbrev pub DocumentFate : (List ℕ → Option Json) → List ℕ → Verdict → Type 0
DocumentFate loads line verdict =
    ((loads line ≡ none) × (verdict ≡ reply parse_error null))
    ⊎ ((document : Json) × (loads line ≡ some document)
        × (as_obj document ≡ none)
        × (verdict ≡ reply invalid_request null))
    ⊎ ((d : Fields) × (loads line ≡ some (obj d)) × Fate d verdict)

-- What a verdict on a line says about it.
abbrev pub LineFate : (List ℕ → Option Json) → List ℕ → Verdict → Type 0
LineFate loads line verdict =
    ((strip line ≡ []) × (verdict ≡ drop))
    ⊎ ((c : ℕ) × (cs : List ℕ) × (strip line ≡ c ∷ cs) × DocumentFate loads line verdict)

classify_loaded-DocumentFate :
    (loads : List ℕ → Option Json) (line : List ℕ) (o : Option Json)
    → loads line ≡ o
    → DocumentFate loads line (classify_loaded o)
unfolding classify_loaded
classify_loaded-DocumentFate loads line none h = inl (h, refl)
classify_loaded-DocumentFate loads line (some (obj d)) h = inr (inr (d, h, classify_object-Fate d))
classify_loaded-DocumentFate loads line (some null) h = inr (inl (null, h, refl, refl))
classify_loaded-DocumentFate loads line (some (bool b)) h = inr (inl (bool b, h, refl, refl))
classify_loaded-DocumentFate loads line (some (int z)) h = inr (inl (int z, h, refl, refl))
classify_loaded-DocumentFate loads line (some (float x)) h = inr (inl (float x, h, refl, refl))
classify_loaded-DocumentFate loads line (some (str s)) h = inr (inl (str s, h, refl, refl))
classify_loaded-DocumentFate loads line (some (arr vs)) h = inr (inl (arr vs, h, refl, refl))

-- A blank line is dropped. Any other line is judged by what it holds: what is not JSON is answered with a
-- parse error, and a document that is no object with an invalid request, both without an id. An object is
-- passed on only if it is a response or a well-formed message with a usable id or none; it is dropped
-- only if it is malformed and has no id; and a rejection answers a malformed object with an id, and
-- echoes that id, or null if it is neither a string nor an integer.
pub classify_line-LineFate :
    (loads : List ℕ → Option Json) (line : List ℕ) → LineFate loads line (classify_line loads line)
unfolding classify_line
classify_line-LineFate loads line = go (strip line) refl
  where
    go :
        (s : List ℕ)
        → strip line ≡ s
        → LineFate loads line (elim s [ [] ↦ drop | _ ∷ _ ↦ classify_loaded (loads line) ])
    go [] h = inl (h, refl)
    go (c ∷ cs) h = inr (c, cs, h, classify_loaded-DocumentFate loads line (loads line) refl)
