-- ===== src/Router/Config.antt =====
-- llm-gateway-router/src/llm_router/config.py: the checks of `Config.validate`, which run before anything
-- is served. The host of an address, `urlparse(url).hostname` in lower case, is a parameter; warnings are
-- left out.
use quilr_ai_mcp.Prelude.{
  ℕ, String, Bool, true, false, not, Option, none, some, List, [], ◌∷◌, ◌&&◌, ◌||◌, codes,
  if◌then◌else◌,
}
use mathlib.Core.List.{reverse}
use quilr_ai_mcp.Prelude.Int.{ℤ, pos, negsuc, is_nonzero}
use quilr_ai_mcp.Prelude.Text.{text_eq, drop_prefix}
use quilr_ai_mcp.Router.Providers.{Provider}
use quilr_ai_mcp.Router.Auth.{Table, parse_tenant_table}

-- `DEMO_TENANTS`
abbrev pub demo_tenants : Table
demo_tenants =
    (codes "demo-key-alpha", codes "tenant-alpha")
    ∷ (codes "demo-key-beta", codes "tenant-beta")
    ∷ []

-- What `validate` reads; the window is in microseconds.
pub record RouterConfig : Type 0 where
  pub token_limit : ℤ
  pub window : ℤ
  pub primary : Provider
  pub fallbacks : List Provider
  pub tenants : Table
  pub allow_unauthenticated_tenants : Bool

pub data ConfigError : Type 0 where
  no_credential : Provider → ConfigError
  no_tenants : ConfigError
  not_positive : ConfigError

abbrev pub ends_with : List ℕ → List ℕ → Bool
ends_with suffix s = starts (drop_prefix (reverse suffix) (reverse s))
  where
    starts : Option (List ℕ) → Bool
    starts none = false
    starts (some _) = true

-- `Provider.is_loopback`
unfoldable pub is_loopback : (String → List ℕ) → Provider → Bool
unfolding drop_prefix
is_loopback host_of p =
    let host = host_of p.url in
    text_eq host (codes "127.0.0.1")
    || (text_eq host (codes "localhost")
        || (text_eq host (codes "::1") || ends_with (codes ".test") host))

abbrev pub has_key : Provider → Bool
has_key p = is_given p.api_key
  where
    is_given : Option String → Bool
    is_given none = false
    is_given (some String.[]) = false
    is_given (some (String.◌∷◌ _ _)) = true

-- The first provider that needs a credential and has none.
unfoldable pub find_unarmed : (String → List ℕ) → List Provider → Option Provider
unfolding is_loopback
find_unarmed host_of [] = none
find_unarmed host_of (p ∷ ps) =
    let rest = find_unarmed host_of ps in
    if not (is_loopback host_of p) && not (has_key p) then some p else rest

-- `n <= 0`
abbrev pub is_not_positive : ℤ → Bool
is_not_positive (pos n) = not (is_nonzero (pos n))
is_not_positive (negsuc _) = true

abbrev pub is_empty_table : Table → Bool
is_empty_table [] = true
is_empty_table (_ ∷ _) = false

abbrev pub validate_rest : RouterConfig → Option Provider → Option ConfigError
validate_rest c (some p) = some (no_credential p)
validate_rest c none =
    if is_empty_table c.tenants && not c.allow_unauthenticated_tenants
    then some no_tenants
    else if is_not_positive c.token_limit || is_not_positive c.window
    then some not_positive
    else none

-- `Config.validate`; `none` is a configuration that is served.
unfoldable pub validate : (String → List ℕ) → RouterConfig → Option ConfigError
unfolding find_unarmed
validate host_of c = validate_rest c (find_unarmed host_of (c.primary ∷ c.fallbacks))

-- `parse_tenant_table(configured) or dict(DEMO_TENANTS)`
unfoldable pub tenants_or_demo : List ℕ → Table
unfolding parse_tenant_table
tenants_or_demo configured = or_demo (parse_tenant_table configured)
  where
    or_demo : Table → Table
    or_demo [] = demo_tenants
    or_demo (entry ∷ rest) = entry ∷ rest
