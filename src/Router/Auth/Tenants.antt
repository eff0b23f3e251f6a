-- ===== src/Router/Auth/Tenants.antt =====
-- Which tenant a key is charged to: llm-gateway-router/src/llm_router/auth.py, `resolve_tenant` and
-- `parse_tenant_table`.
use quilr_ai_mcp.Prelude.{
  ℕ, ◌≡◌, ◌≢◌, refl, Bool, true, false, Option, none, some, List, [], ◌∷◌, Result, ok, raise, arith,
  All, if◌then◌else◌, ◌⊎◌, inl, inr,
}
use quilr_ai_mcp.Prelude.Text.{strip, text_eq}
use quilr_ai_mcp.Prelude.Keys.{split_commas, partition, match_key}
use quilr_ai_mcp.Prelude.Keys.Matching.{LastEntry, Unmatched, match_key-LastEntry, match_key-none}
use quilr_ai_mcp.Router.Auth.{
  KeyError, unknown_key, Table, put_tenant, add_entry, add_entries, parse_tenant_table, tenant_or,
  resolve_tenant,
}

module _ (fingerprint : List ℕ → List ℕ) (key : List ℕ) (table : Table) (allow : Bool) where
  -- Where a tenant comes from, and when there is none.
  abbrev pub Identified : Result KeyError (List ℕ) → Type 0
  Identified (ok id) =
      LastEntry key id table ⊎ (Unmatched key table × (allow ≡ true) × (id ≡ fingerprint key))
  Identified (raise e) = Unmatched key table × (allow ≡ false) × (e ≡ unknown_key)

  tenant_or-Identified :
      (o : Option (List ℕ))
      → match_key key none table ≡ o
      → Identified (tenant_or fingerprint key allow o)
  unfolding tenant_or
  tenant_or-Identified (some id) h = elim (match_key-LastEntry key none table id h) [
    | inl (absurd, _) ↦ ground (arith, absurd)
    | inr entry ↦ inl entry
  ]
  tenant_or-Identified none h = go allow refl
    where
      go :
          (b : Bool)
          → allow ≡ b
          → Identified (if b then ok (fingerprint key) else raise unknown_key)
      go true e = inr ((match_key-none key none table h).1, e, refl)
      go false e = ((match_key-none key none table h).1, e, refl)

  -- A key in the table is charged to the tenant of its last entry. Any other key is refused, or, where
  -- that is switched on, charged to the tenant of its fingerprint.
  pub resolve_tenant-Identified : Identified (resolve_tenant fingerprint key table allow)
  unfolding resolve_tenant
  resolve_tenant-Identified = tenant_or-Identified (match_key key none table) refl

-- Neither part of an entry is empty.
abbrev pub Usable : List ℕ × List ℕ → Type 0
Usable entry = (entry.0 ≢ []) × (entry.1 ≢ [])

put_tenant-Usable :
    (key id : List ℕ) (table : Table)
    → key ≢ []
    → id ≢ []
    → All Usable table
    → All Usable (put_tenant key id table)
unfolding put_tenant
put_tenant-Usable key id [] hk hi h = ((hk, hi), tt)
put_tenant-Usable key id ((k, i) ∷ rest) hk hi ((uk, ui), us) =
    go (text_eq k key) (put_tenant-Usable key id rest hk hi us)
  where
    go :
        (b : Bool)
        → All Usable (put_tenant key id rest)
        → All Usable (if b then (k, id) ∷ rest else (k, i) ∷ put_tenant key id rest)
    go true more = ((uk, hi), us)
    go false more = ((uk, ui), more)

add_entry-Usable :
    (table : Table) (entry : List ℕ × List ℕ)
    → All Usable table
    → All Usable (add_entry table entry)
unfolding add_entry
add_entry-Usable table (key, id) h = go (strip key) (strip id)
  where
    go :
        (k i : List ℕ)
        → All Usable (elim k [
          | [] ↦ table
          | c ∷ cs ↦ elim i [ [] ↦ table | d ∷ ds ↦ put_tenant (c ∷ cs) (d ∷ ds) table ]
        ])
    go [] i = h
    go (c ∷ cs) [] = h
    go (c ∷ cs) (d ∷ ds) =
        put_tenant-Usable (c ∷ cs) (d ∷ ds) table (λ e. ground (arith, e)) (λ e. ground (arith, e))
          h

add_entries-Usable :
    (table : Table) (entries : List (List ℕ))
    → All Usable table
    → All Usable (add_entries table entries)
unfolding add_entries
add_entries-Usable table [] h = h
add_entries-Usable table (entry ∷ entries) h =
    add_entries-Usable (add_entry table (partition 61 (strip entry))) entries
      (add_entry-Usable table (partition 61 (strip entry)) h)

-- Whatever the configuration says, no key and no tenant of the parsed table is empty.
pub parse_tenant_table-Usable : (configured : List ℕ) → All Usable (parse_tenant_table configured)
unfolding parse_tenant_table
parse_tenant_table-Usable configured = add_entries-Usable [] (split_commas configured) tt
