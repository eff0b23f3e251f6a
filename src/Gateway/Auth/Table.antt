-- ===== src/Gateway/Auth/Table.antt =====
-- mcp-gateway/src/mcp_gateway/auth.py: the token table, from the environment.
use quilr_ai_mcp.Prelude.{ℕ, Option, none, some, List, [], ◌∷◌, codes, if◌then◌else◌}
use quilr_ai_mcp.Prelude.Keys.{split_commas, partition}
use quilr_ai_mcp.Prelude.Text.{strip, text_eq}
use quilr_ai_mcp.Gateway.Auth.{Principal, Tokens}

-- `_DEFAULT_TOKENS`
abbrev pub default_tokens : Tokens
default_tokens =
    (codes "admin-token-abc123", record { subject = codes "ops@example.com"; role = codes "admin" })
    ∷ (
      codes "viewer-token-xyz789",
      record { subject = codes "analyst@example.com"; role = codes "viewer" },
    )
    ∷ (
      codes "viewer-token-second",
      record { subject = codes "intern@example.com"; role = codes "viewer" },
    )
    ∷ []

-- `table[token] = principal`: an existing token keeps its place.
unfoldable pub put_principal : List ℕ → Principal → Tokens → Tokens
put_principal token p [] = (token, p) ∷ []
put_principal token p ((t, q) ∷ rest) =
    let others = put_principal token p rest in
    if text_eq t token then (t, p) ∷ rest else (t, q) ∷ others

-- An entry counts if none of its three parts is empty.
unfoldable pub add_parts : Tokens → List ℕ → List ℕ → List ℕ → Tokens
unfolding put_principal
add_parts table (t ∷ ts) (s ∷ ss) (r ∷ rs) =
    put_principal (t ∷ ts) (record { subject = s ∷ ss; role = r ∷ rs }) table
add_parts table _ _ _ = table

-- `token:subject:role`; an entry of white space has no token.
unfoldable pub add_token : Tokens → List ℕ → Tokens
unfolding add_parts
add_token table entry =
    let (token, rest) = partition 58 (strip entry) in
    let (subject, role) = partition 58 rest in add_parts table token subject role

unfoldable pub add_tokens : Tokens → List (List ℕ) → Tokens
unfolding add_token
add_tokens table [] = table
add_tokens table (entry ∷ entries) = add_tokens (add_token table entry) entries

-- `_token_table`, with the variable's value
unfoldable pub token_table : Option (List ℕ) → Tokens
unfolding add_tokens split_commas
token_table none = default_tokens
token_table (some []) = default_tokens
token_table (some (c ∷ cs)) = add_tokens [] (split_commas (c ∷ cs))
