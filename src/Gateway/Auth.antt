-- ===== src/Gateway/Auth.antt =====
-- mcp-gateway/src/mcp_gateway/auth.py: from the Authorization header to a principal. Texts are lists
-- of code points.
pub mod Matching
pub mod Table
use quilr_ai_mcp.Prelude.{
  ℕ, ◌+◌, String, Bool, Option, none, some, List, [], ◌∷◌, Result, ok, raise, leb, ◌==◌, ◌&&◌, map,
  codes, if◌then◌else◌,
}
use quilr_ai_mcp.Prelude.Text.{strip, text_eq}
use quilr_ai_mcp.Prelude.Keys.{lower, partition, match_key}

pub record Principal : Type 0 where
  pub subject : List ℕ
  pub role : List ℕ

-- `Principal.is_admin`
abbrev pub is_admin : Principal → Bool
is_admin p = text_eq p.role (codes "admin")

pub data AuthError : Type 0 where
  missing_header wrong_scheme empty_token unknown_token : AuthError

-- `extract_bearer_token` once the header is split
unfoldable pub bearer_token : List ℕ × List ℕ → Result AuthError (List ℕ)
unfolding lower
bearer_token (scheme, rest) =
    if text_eq (lower scheme) (codes "bearer")
    then elim (strip rest) [ [] ↦ raise empty_token | c ∷ cs ↦ ok (c ∷ cs) ]
    else raise wrong_scheme

-- `extract_bearer_token`; an empty header counts as missing.
unfoldable pub extract_bearer_token : Option (List ℕ) → Result AuthError (List ℕ)
extract_bearer_token none = raise missing_header
extract_bearer_token (some []) = raise missing_header
extract_bearer_token (some (c ∷ cs)) = bearer_token (partition 32 (c ∷ cs))

-- The token table, in its order.
abbrev pub Tokens : Type 0
Tokens = List (List ℕ × Principal)

unfoldable pub check_token : Tokens → Result AuthError (List ℕ) → Result AuthError Principal
check_token table (raise e) = raise e
check_token table (ok token) = elim (match_key token none table) [
  | none ↦ raise unknown_token
  | some p ↦ ok p
]

-- `resolve_principal`, with the table as an argument
abbrev pub resolve_principal : Tokens → Option (List ℕ) → Result AuthError Principal
resolve_principal table header = check_token table (extract_bearer_token header)
