-- ===== src/Prelude/Json.antt =====
-- What `json.loads` returns, and the dynamic tests that the services make on it.
use Prim.Native.Nat.{ℕ}
use Prim.Native.String.{String}
use mathlib.Core.Path.{◌≡◌, refl}
use mathlib.Core.Bool.{Bool, true, false, not}
use mathlib.Core.Option.{Option, none, some}
use mathlib.Core.List.{List, [], ◌∷◌}
use native.Mathlib.Omega.{arith}
use text.Mathlib.TextEquality.{eq_iff}
use quilr_ai_mcp.Prelude.Tests.{str_eq, if◌then◌else◌}
use quilr_ai_mcp.Prelude.Int.{ℤ, is_nonzero}

-- A number with a fraction or an exponent, `mantissa * 10 ^ (- scale)`; the program reads of it only
-- whether it is zero.
pub record Float : Type 0 where
  pub mantissa : ℤ
  pub scale : ℕ

-- A `dict` that came from JSON has no key twice.
mutual
  pub data Json : Type 0 where
    null : Json
    bool : Bool → Json
    int : ℤ → Json
    float : Float → Json
    str : String → Json
    arr : Items → Json
    obj : Fields → Json

  pub data Items : Type 0 where
    nil : Items
    cons : Json → Items → Items

  pub data Fields : Type 0 where
    end : Fields
    field : String → Json → Fields → Fields

-- `d.get(k)`; `none` is a missing key, and `null` a key whose value is `None`.
unfoldable pub get_field : String → Fields → Option Json
get_field k end = none
get_field k (field j v d) = let rest = get_field k d in if str_eq j k then some v else rest

-- `{**d, k: v}`: an existing key keeps its place.
unfoldable pub put_field : String → Json → Fields → Fields
put_field k v end = field k v end
put_field k v (field j w d) =
    let rest = put_field k v d in if str_eq j k then field j v d else field j w rest

pub get_field-put_field :
    (k j : String) (v : Json) (d : Fields)
    → get_field j (put_field k v d) ≡ (if str_eq k j then some v else get_field j d)
unfolding get_field put_field
get_field-put_field k j v end = refl
get_field-put_field k j v (field i w d) =
    ground (arith, eq_iff k j, eq_iff i k, eq_iff i j, get_field-put_field k j v d)

-- `d.get(k)` with Python's `None` for a missing key.
abbrev pub or_null : Option Json → Json
or_null none = null
or_null (some v) = v

abbrev pub to_list : Items → List Json
to_list nil = []
to_list (cons v vs) = v ∷ to_list vs

-- `bool(value)`
abbrev pub truthy : Json → Bool
truthy null = false
truthy (bool b) = b
truthy (int z) = is_nonzero z
truthy (float x) = is_nonzero x.mantissa
truthy (str s) = not (str_eq s "")
truthy (arr nil) = false
truthy (arr (cons _ _)) = true
truthy (obj end) = false
truthy (obj (field _ _ _)) = true

-- `isinstance(value, dict)`, with the value
abbrev pub as_obj : Json → Option Fields
as_obj (obj d) = some d
as_obj _ = none
