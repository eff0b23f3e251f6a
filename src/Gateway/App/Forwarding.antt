-- ===== src/Gateway/App/Forwarding.antt =====
-- What reaches the downstream server: mcp-gateway/src/mcp_gateway/app.py, `handle_mcp_post`.
use quilr_ai_mcp.Prelude.{
  ℕ, ◌≤◌, ltb, if◌then◌else◌, ◌≡◌, refl, Bool, true, false, Option, none, some, List, [], ◌∷◌, ◌++◌,
  Result, ok, raise, arith, map, All, select, is_some, not, length, ◌⊎◌, inl, inr, ap, ◌∙◌,
  length-select,
}
use quilr_ai_mcp.Prelude.Body.{
  read_chunks, length-read_chunks, whole_body, read_chunks-whole_body, declared_size,
}
use quilr_ai_mcp.Prelude.Dict.{get}
use quilr_ai_mcp.Gateway.Proxy.Identity.{get-build_downstream_headers}
use quilr_ai_mcp.Prelude.Json.{Json, obj, arr, nil}
use quilr_ai_mcp.Gateway.JsonRpc.{RpcMessage, InvalidPayload, ParsedPayload, parse_payload}
use quilr_ai_mcp.Gateway.Auth.{Principal, AuthError, resolve_principal}
use quilr_ai_mcp.Gateway.Policy.{Unicode, evaluate}
use quilr_ai_mcp.Gateway.Proxy.{build_downstream_headers}
use quilr_ai_mcp.Gateway.App.{
  Config, Request, Sent, read_bounded_body, denial_response, judge, items,
}
use quilr_ai_mcp.Gateway.App.Handler.{
  Host, forward_body, forward_allowed, handle_parsed, handle_body, handle_authenticated,
  handle_mcp_post,
}

module _ (unicode : Unicode) (p : Principal) (enforce : Bool) where
  abbrev pub is_allowed : RpcMessage → Bool
  is_allowed m = not (is_some (evaluate unicode p m enforce))

  -- The answers to the blocked requests, in their order.
  abbrev pub refusals : List RpcMessage → List Json
  refusals [] = []
  refusals (m ∷ ms) = elim (evaluate unicode p m enforce) [
    | none ↦ refusals ms
    | some d ↦ denial_response m d ++ refusals ms
  ]

  pub judge_split :
      (ms : List RpcMessage) → judge unicode p enforce ms ≡ (select is_allowed ms, refusals ms)
  unfolding judge
  judge_split [] = refl
  judge_split (m ∷ ms) = ground (arith, judge_split ms)

  -- A selection that is as long as the list is the list.
  select-length :
      (ms : List RpcMessage) → length (select is_allowed ms) ≡ length ms → select is_allowed ms ≡ ms
  select-length [] h = refl
  select-length (m ∷ ms) h = ground (arith, h, length-select is_allowed ms, select-length ms)

-- The encoding of the messages that are left.
abbrev pub encoded : Bool → List RpcMessage → Json
encoded true ms = arr (items (map (λ m. obj m.raw) ms))
encoded false [] = arr nil
encoded false (m ∷ ms) = obj m.raw

read_bounded_body-whole :
    (limit : ℕ) (r : Request) (body : List ℕ)
    → read_bounded_body limit r ≡ some body
    → (body ≡ whole_body r.chunks) × (length body ≤ limit)
unfolding read_bounded_body
read_bounded_body-whole limit r body h = go (declared_size (get "content-length" r.headers)) h
  where
    go_chunks :
        read_chunks limit [] r.chunks ≡ some body
        → (body ≡ whole_body r.chunks) × (length body ≤ limit)
    go_chunks h' = (
      read_chunks-whole_body limit [] r.chunks body h',
      length-read_chunks limit [] r.chunks body (omega arith) h',
    )

    go_declared :
        (b : Bool)
        → (if b then none else read_chunks limit [] r.chunks) ≡ some body
        → (body ≡ whole_body r.chunks) × (length body ≤ limit)
    go_declared true h' = ground (arith, h')
    go_declared false h' = go_chunks h'

    go :
        (o : Option ℕ)
        → elim o [
          | none ↦ read_chunks limit [] r.chunks
          | some n ↦ let rest = read_chunks limit [] r.chunks in if ltb limit n then none else rest
        ]
          ≡ some body
        → (body ≡ whole_body r.chunks) × (length body ≤ limit)
    go none h' = go_chunks h'
    go (some n) h' = go_declared (ltb limit n) h'

module _ (host : Host) (config : Config) (r : Request) where
  abbrev pub allowed_of : Principal → ParsedPayload → List RpcMessage
  allowed_of p parsed =
      select (is_allowed host.unicode p config.enforce_method_allowlist) parsed.messages

  -- The caller as the server behind the gateway sees it.
  abbrev pub Presents : Principal → Sent → Type 0
  Presents p s =
      (s.headers ≡ build_downstream_headers r.headers p)
      × (get "x-forwarded-role" s.headers ≡ some p.role)
      × (get "x-forwarded-user" s.headers ≡ some p.subject)
      × (get "authorization" s.headers ≡ none)

  -- A downstream request that the policy stands behind.
  abbrev pub Authorized : Sent → Type 0
  Authorized s =
      (p : Principal) × (body : List ℕ) × (parsed : ParsedPayload) × (resolve_principal
          config.tokens (get "authorization" r.headers)
        ≡ ok p)
      × ((body ≡ whole_body r.chunks) × (length body ≤ config.max_body_bytes))
      × (parse_payload host.loads body ≡ ok parsed)
      × Presents p s
      × (((s.body ≡ body) × (allowed_of p parsed ≡ parsed.messages))
          ⊎ (s.body ≡ host.dumps (encoded parsed.is_batch (allowed_of p parsed))))

  -- What of a payload goes downstream.
  abbrev BodyOf : List ℕ → ParsedPayload → List RpcMessage → List ℕ → Type 0
  BodyOf body parsed allowed b =
      ((b ≡ body) × (length allowed ≡ length parsed.messages))
      ⊎ (b ≡ host.dumps (encoded parsed.is_batch allowed))

  forward_body-BodyOf :
      (body : List ℕ) (parsed : ParsedPayload) (first : RpcMessage) (rest : List RpcMessage)
      → BodyOf body parsed (first ∷ rest) (forward_body host.dumps body parsed first rest)
  unfolding forward_body
  forward_body-BodyOf body parsed first rest = go parsed.is_batch refl
    where
      go :
          (b : Bool)
          → parsed.is_batch ≡ b
          → BodyOf body parsed (first ∷ rest) (forward_body host.dumps body parsed first rest)
      go true h = ground (arith, h)
      go false h = ground (arith, h)

  forward_allowed-Authorized :
      (p : Principal) (body : List ℕ) (parsed : ParsedPayload)
      → resolve_principal config.tokens (get "authorization" r.headers) ≡ ok p
      → read_bounded_body config.max_body_bytes r ≡ some body
      → parse_payload host.loads body ≡ ok parsed
      → (allowed : List RpcMessage) (denials : List Json) → allowed_of p parsed ≡ allowed
      → All Authorized (forward_allowed host config r p body parsed (allowed, denials)).1
  unfolding forward_allowed
  forward_allowed-Authorized p body parsed who read parse [] [] e = tt
  forward_allowed-Authorized p body parsed who read parse [] (d ∷ ds) e = tt
  forward_allowed-Authorized p body parsed who read parse (first ∷ rest) denials e =
      let sent =
        elim (forward_body-BodyOf body parsed first rest)
          as (λ _.
            ((forward_body host.dumps body parsed first rest ≡ body)
              × (allowed_of p parsed ≡ parsed.messages))
            ⊎ (forward_body host.dumps body parsed first rest
                ≡ host.dumps (encoded parsed.is_batch (allowed_of p parsed)))) [
                  | inl (same, full) ↦ inl (
                    same,
                    select-length host.unicode p config.enforce_method_allowlist parsed.messages
                        (ap length e ∙ full),
                  )
                  | inr fewer ↦ inr (rw e fewer)
                ] in
      (
        (
          p,
          body,
          parsed,
          who,
          read_bounded_body-whole config.max_body_bytes r body read,
          parse,
          (
            refl,
            get-build_downstream_headers r.headers p "x-forwarded-role" refl,
            get-build_downstream_headers r.headers p "x-forwarded-user" refl,
            get-build_downstream_headers r.headers p "authorization" refl,
          ),
          sent,
        ),
        tt,
      )

  -- Whatever the handler sends downstream is authorized: the header's token names a principal, whose role
  -- and subject stand in the identity headers whatever the client claimed there, and the client's own
  -- authorization header is gone; the body is all that came, is within the limit and parses; and what goes
  -- on is either that body, with every message of it allowed, or an encoding of just those messages that
  -- the policy allows.
  pub handle_mcp_post-Authorized : All Authorized (handle_mcp_post host config r).1
  unfolding handle_mcp_post handle_authenticated handle_body handle_parsed
  handle_mcp_post-Authorized =
      authenticated (resolve_principal config.tokens (get "authorization" r.headers)) refl
    where
      parsed_body :
          (p : Principal) (body : List ℕ) (o : Result InvalidPayload ParsedPayload)
          → resolve_principal config.tokens (get "authorization" r.headers) ≡ ok p
          → read_bounded_body config.max_body_bytes r ≡ some body
          → parse_payload host.loads body ≡ o
          → All Authorized (handle_parsed host config r p body o).1
      parsed_body p body (raise e) who read parse = tt
      parsed_body p body (ok parsed) who read parse =
          rw
            (
              judge_split host.unicode p config.enforce_method_allowlist parsed.messages,
              handle_parsed,
            )
            (forward_allowed-Authorized p body parsed who read parse _ _ refl)

      read_body :
          (p : Principal) (o : Option (List ℕ))
          → resolve_principal config.tokens (get "authorization" r.headers) ≡ ok p
          → read_bounded_body config.max_body_bytes r ≡ o
          → All Authorized (handle_body host config r p o).1
      read_body p none who read = tt
      read_body p (some body) who read =
          parsed_body p body (parse_payload host.loads body) who read refl

      authenticated :
          (o : Result AuthError Principal)
          → resolve_principal config.tokens (get "authorization" r.headers) ≡ o
          → All Authorized (handle_authenticated host config r o).1
      authenticated (raise e) who = tt
      authenticated (ok p) who = read_body p (read_bounded_body config.max_body_bytes r) who refl
