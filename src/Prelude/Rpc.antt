-- ===== src/Prelude/Rpc.antt =====
-- The tests on a JSON-RPC object that two of the services make.
use Prim.Native.String.{String}
use mathlib.Core.Path.{◌≡◌}
use mathlib.Core.Bool.{Bool, true, false}
use mathlib.Core.Option.{Option, none, some}
use native.Mathlib.Omega.{arith}
use text.Mathlib.TextEquality.{eq_iff}
use quilr_ai_mcp.Prelude.Tests.{str_eq, if◌then◌else◌}
use quilr_ai_mcp.Prelude.Json.{Json, null, bool, int, float, str, arr, obj}

-- `item.get("jsonrpc") == "2.0"`
unfoldable pub is_version : Option Json → Bool
is_version (some (str s)) = str_eq s "2.0"
is_version _ = false

-- A `method` that is a non-empty string.
unfoldable pub method_name : Option Json → Option String
method_name (some (str s)) = if str_eq s "" then none else some s
method_name _ = none

pub is_version-true : (o : Option Json) → is_version o ≡ true → o ≡ some (str "2.0")
unfolding is_version
is_version-true none h = ground (arith, h)
is_version-true (some (str s)) h = ground (arith, h, eq_iff s "2.0")
is_version-true (some null) h = ground (arith, h)
is_version-true (some (bool _)) h = ground (arith, h)
is_version-true (some (int _)) h = ground (arith, h)
is_version-true (some (float _)) h = ground (arith, h)
is_version-true (some (arr _)) h = ground (arith, h)
is_version-true (some (obj _)) h = ground (arith, h)

pub method_name-some :
    (o : Option Json) (method : String) → method_name o ≡ some method → o ≡ some (str method)
unfolding method_name
method_name-some none method h = ground (arith, h)
method_name-some (some (str s)) method h = ground (arith, h)
method_name-some (some null) method h = ground (arith, h)
method_name-some (some (bool _)) method h = ground (arith, h)
method_name-some (some (int _)) method h = ground (arith, h)
method_name-some (some (float _)) method h = ground (arith, h)
method_name-some (some (arr _)) method h = ground (arith, h)
method_name-some (some (obj _)) method h = ground (arith, h)
