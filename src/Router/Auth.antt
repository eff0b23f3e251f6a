-- ===== src/Router/Auth.antt =====
-- llm-gateway-router/src/llm_router/auth.py: from the headers to a tenant. Texts are lists of code
-- points; SHA-256, behind `key_fingerprint`, is a parameter.
pub mod Tenants
use quilr_ai_mcp.Prelude.{
  ℕ, ◌-◌, suc, zero, Bool, Option, none, some, List, [], ◌∷◌, Result, ok, raise, ◌==◌, codes,
  if◌then◌else◌,
}
use quilr_ai_mcp.Prelude.Text.{strip, text_eq, drop_prefix}
use quilr_ai_mcp.Prelude.Keys.{split_commas, lower, partition, match_key}

pub data KeyError : Type 0 where
  no_key unknown_key : KeyError

-- The configured keys with their tenants.
abbrev pub Table : Type 0
Table = List (List ℕ × List ℕ)

-- `table[key] = id`
unfoldable pub put_tenant : List ℕ → List ℕ → Table → Table
put_tenant key id [] = (key, id) ∷ []
put_tenant key id ((k, i) ∷ rest) =
    let others = put_tenant key id rest in if text_eq k key then (k, id) ∷ rest else (k, i) ∷ others

-- An entry counts if key and id are not empty; without "=" the id is.
unfoldable pub add_entry : Table → List ℕ × List ℕ → Table
unfolding put_tenant
add_entry table (key, id) = elim (strip key) [
  | [] ↦ table
  | k ∷ ks ↦ elim (strip id) [ [] ↦ table | i ∷ is ↦ put_tenant (k ∷ ks) (i ∷ is) table ]
]

unfoldable pub add_entries : Table → List (List ℕ) → Table
add_entries table [] = table
add_entries table (entry ∷ entries) =
    add_entries (add_entry table (partition 61 (strip entry))) entries

-- `parse_tenant_table`
unfoldable pub parse_tenant_table : List ℕ → Table
parse_tenant_table configured = add_entries [] (split_commas configured)

-- `x_api_key or authorization or ""`
unfoldable pub candidate_of : Option (List ℕ) → Option (List ℕ) → List ℕ
candidate_of (some (c ∷ cs)) authorization = c ∷ cs
candidate_of (some []) none = []
candidate_of (some []) (some a) = a
candidate_of none none = []
candidate_of none (some a) = a

-- `s[:n]` and `s[n:]`
unfoldable pub cut : ℕ → List ℕ → List ℕ × List ℕ
cut zero s = ([], s)
cut (suc n) [] = ([], [])
cut (suc n) (c ∷ cs) = let (front, back) = cut n cs in (c ∷ front, back)

-- The "bearer " in front, in any case, is dropped.
unfoldable pub drop_bearer : List ℕ → List ℕ
unfolding lower cut
drop_bearer s =
    let (front, back) = cut 7 s in if text_eq (lower front) (codes "bearer ") then back else s

-- `extract_api_key`
unfoldable pub extract_api_key : Option (List ℕ) → Option (List ℕ) → Result KeyError (List ℕ)
unfolding candidate_of drop_bearer
extract_api_key x_api_key authorization =
    elim (strip (drop_bearer (candidate_of x_api_key authorization))) [
      | [] ↦ raise no_key
      | c ∷ cs ↦ ok (c ∷ cs)
    ]

-- The end of `resolve_tenant`.
unfoldable pub tenant_or :
    (List ℕ → List ℕ) → List ℕ → Bool → Option (List ℕ) → Result KeyError (List ℕ)
tenant_or fingerprint key allow_unauthenticated (some id) = ok id
tenant_or fingerprint key allow_unauthenticated none =
    if allow_unauthenticated then ok (fingerprint key) else raise unknown_key

-- `resolve_tenant`
unfoldable pub resolve_tenant : (List ℕ → List ℕ) → List ℕ → Table → Bool → Result KeyError (List ℕ)
unfolding tenant_or
resolve_tenant fingerprint key table allow_unauthenticated =
    tenant_or fingerprint key allow_unauthenticated (match_key key none table)
