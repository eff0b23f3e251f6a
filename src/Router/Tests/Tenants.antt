-- ===== src/Router/Tests/Tenants.antt =====
-- Runs of the router's authentication on concrete keys, and instances of its theorems.
use quilr_ai_mcp.Prelude.{ℕ, ◌≡◌, refl, false, none, some, List, [], ◌∷◌, ◌++◌, ok, raise, codes}
use quilr_ai_mcp.Prelude.Text.{is_space, strip_start, strip}
use quilr_ai_mcp.Prelude.Keys.{split_commas, lower, partition, match_key}
use quilr_ai_mcp.Router.Auth.{
  Table, put_tenant, add_entry, add_entries, parse_tenant_table, candidate_of, cut, drop_bearer,
  extract_api_key, tenant_or, resolve_tenant, unknown_key, no_key,
}

-- Names every function that a key runs through.
unfoldable pub tenant_program : Unit {0}
unfolding is_space strip_start strip lower partition match_key split_commas put_tenant add_entry
    add_entries parse_tenant_table candidate_of cut drop_bearer extract_api_key tenant_or
    resolve_tenant
tenant_program = tt

abbrev configured : List ℕ
configured = codes "k1=alpha, k2 = beta,broken,=none"

abbrev pub table : Table
table = (codes "k1", codes "alpha") ∷ (codes "k2", codes "beta") ∷ []

parse_tenant_table-configured : parse_tenant_table configured ≡ table
unfolding tenant_program
parse_tenant_table-configured = refl

extract_api_key-bearer : extract_api_key none (some (codes "Bearer  k2 ")) ≡ ok (codes "k2")
unfolding tenant_program
extract_api_key-bearer = refl

extract_api_key-blank : extract_api_key (some []) (some (codes "bearer  ")) ≡ raise no_key
unfolding tenant_program
extract_api_key-blank = refl

-- Stands in for the digest of a key.
abbrev pub fingerprint : List ℕ → List ℕ
fingerprint key = codes "anon-" ++ key

resolve_tenant-second : resolve_tenant fingerprint (codes "k2") table false ≡ ok (codes "beta")
unfolding tenant_program
resolve_tenant-second = refl

resolve_tenant-unknown : resolve_tenant fingerprint (codes "k3") table false ≡ raise unknown_key
unfolding tenant_program
resolve_tenant-unknown = refl
