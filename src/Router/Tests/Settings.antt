-- ===== src/Router/Tests/Settings.antt =====
-- Runs of the configuration's checks.
use quilr_ai_mcp.Prelude.{ℕ, ◌≡◌, refl, false, none, some, [], ◌∷◌, codes}
use quilr_ai_mcp.Prelude.Int.{pos}
use quilr_ai_mcp.Prelude.Text.{drop_prefix}
use quilr_ai_mcp.Router.Config.{
  demo_tenants, RouterConfig, no_credential, not_positive, is_loopback, find_unarmed, validate,
  tenants_or_demo,
}
use quilr_ai_mcp.Router.Tests.Routing.{primary, fallback}
use quilr_ai_mcp.Router.Tests.Tenants.{tenant_program, table}

-- Names every function that a check calls.
unfoldable settings_program : Unit {0}
unfolding tenant_program drop_prefix is_loopback find_unarmed validate tenants_or_demo
settings_program = tt

-- The address of the fallback is local if `host` says so.
abbrev configured : ℕ → RouterConfig
configured limit = record {
  token_limit = pos limit;
  window = pos 60;
  primary = primary;
  fallbacks = fallback ∷ [];
  tenants = table;
  allow_unauthenticated_tenants = false;
}

validate-local : validate (λ url. codes "mock.test") (configured 100) ≡ none
unfolding settings_program
validate-local = refl

validate-remote :
    validate (λ url. codes "example.com") (configured 100) ≡ some (no_credential fallback)
unfolding settings_program
validate-remote = refl

validate-zero : validate (λ url. codes "localhost") (configured 0) ≡ some not_positive
unfolding settings_program
validate-zero = refl

-- A table of which no entry can be read gives the demo table.
tenants_or_demo-unread : tenants_or_demo (codes "key:team") ≡ demo_tenants
unfolding settings_program
tenants_or_demo-unread = refl
