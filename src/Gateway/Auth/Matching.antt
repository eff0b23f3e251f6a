-- ===== src/Gateway/Auth/Matching.antt =====
-- Who a token stands for: mcp-gateway/src/mcp_gateway/auth.py, `resolve_principal`.
use quilr_ai_mcp.Prelude.{ℕ, ◌≡◌, Option, none, some, List, ok, arith, Result-cases, inl, inr}
use quilr_ai_mcp.Prelude.Keys.{match_key}
use quilr_ai_mcp.Prelude.Keys.Matching.{LastEntry, match_key-LastEntry}
use quilr_ai_mcp.Gateway.Auth.{
  Principal, Tokens, check_token, extract_bearer_token, resolve_principal,
}

-- A request that is authenticated carries a bearer token, and the principal is the one of the last
-- entry of the table under exactly that token.
pub resolve_principal-LastEntry :
    (table : Tokens) (header : Option (List ℕ)) (p : Principal)
    → resolve_principal table header ≡ ok p
    → (token : List ℕ) × (extract_bearer_token header ≡ ok token) × LastEntry token p table
unfolding check_token
resolve_principal-LastEntry table header p h = elim (Result-cases (extract_bearer_token header)) [
  | inl (e, refused) ↦ ground (arith, h, refused)
  | inr (token, found) ↦
      let matched : match_key token none table ≡ some p = ground (arith, h, found) in
      elim (match_key-LastEntry token none table p matched) [
        | inl (absurd, _) ↦ ground (arith, absurd)
        | inr entry ↦ (token, found, entry)
      ]
]
