-- ===== src/Gateway/Downstream/Blocked.antt =====
-- The gateway in front of the server that trusts it: mcp-gateway/src/mcp_gateway/app.py, `handle_mcp_post`, with
-- mcp-gateway/src/mock_downstream/app.py, `handle_post`.
use quilr_ai_mcp.Prelude.{
  ℕ, ◌≡◌, refl, sym, ◌∙◌, ap, Bool, true, false, not, Option, none, some, List, [], ◌∷◌, inl, inr,
  Result, ok, str_eq, is_some, map, All, arith, codes, select, Bool-cases,
}
use mathlib.Core.Path.{subst}
use quilr_ai_mcp.Prelude.Dict.{get}
use quilr_ai_mcp.Prelude.Json.{Json, obj, get_field, or_null, to_list}
use quilr_ai_mcp.Prelude.Keys.{lower}
use quilr_ai_mcp.Prelude.Text.{strip, strip_start, is_space, text_eq, text_eq_refl}
use quilr_ai_mcp.Gateway.JsonRpc.{RpcMessage, name_of, tool_name, reject_duplicate_keys}
use quilr_ai_mcp.Gateway.JsonRpc.Parsing.{Reads, items_of, parse_payload-AllRead}
use quilr_ai_mcp.Gateway.Auth.{Principal, is_admin, resolve_principal}
use quilr_ai_mcp.Gateway.Policy.{
  Unicode, is_invisible, is_privileged_tool, normalize_method, evaluate,
}
use quilr_ai_mcp.Gateway.Policy.Decisions.{evaluate_iff, is_tools_call}
use quilr_ai_mcp.Gateway.Policy.Names.{IsVisible, is_privileged_tool-lower}
use quilr_ai_mcp.Gateway.App.{Config, Request, Sent, Response, items}
use quilr_ai_mcp.Gateway.App.Handler.{Host, handle_mcp_post}
use quilr_ai_mcp.Gateway.App.Forwarding.{
  is_allowed, encoded, allowed_of, Authorized, handle_mcp_post-Authorized,
}
use quilr_ai_mcp.Gateway.Downstream.Executing.{
  IsHarmless, handle_post-recorded, is_tool-plain, is_tool-IsVisible, executes_call-name_of,
  is_method-str,
}
use quilr_ai_mcp.Gateway.Downstream.{MockHost, MockError, is_method, handle_post}

-- What `unicodedata` and `casefold` document of visible ASCII
pub record IsUnicode (unicode : Unicode) : Type 0 where
  pub nfkc_plain : (s : List ℕ) → All IsVisible s → unicode.nfkc s ≡ s
  pub nfd_plain : (s : List ℕ) → All IsVisible s → unicode.nfd s ≡ s
  pub nfc_plain : (s : List ℕ) → All IsVisible s → unicode.nfc s ≡ s
  pub casefold_plain : (s : List ℕ) → All IsVisible s → unicode.casefold s ≡ lower s
  pub seen : (c : ℕ) → IsVisible c → is_invisible (unicode.category c) ≡ false
  pub spacing : (c : ℕ) → IsVisible c → str_eq (unicode.category c) "Mn" ≡ false

tools_call-IsVisible : All IsVisible (codes "tools/call")
tools_call-IsVisible = ground arith

module _ (unicode : Unicode) (plain : IsUnicode unicode) (p : Principal)
    (outsider : is_admin p ≡ false) (enforce : Bool) where
  normalize_method-tools_call : normalize_method unicode "tools/call" ≡ codes "tools/call"
  unfolding normalize_method strip strip_start is_space lower
  normalize_method-tools_call =
      rw (normalize_method, plain.nfkc_plain (codes "tools/call") tools_call-IsVisible)
        (plain.casefold_plain (codes "tools/call") tools_call-IsVisible)

  -- A message that the policy lets a caller who is no admin send.
  evaluate-IsHarmless :
      (m : RpcMessage) → Reads m → evaluate unicode p m enforce ≡ none → IsHarmless (obj m.raw)
  evaluate-IsHarmless m (version, method, params, request, id) allowed name runs =
      elim (Bool-cases (is_method m.raw "tools/call")) [
        | inr other ↦ ground (arith, runs, other)
        | inl call ↦
            let (read, tool) =
              executes_call-name_of (or_null (get_field "params" m.raw)) name
                (ground (arith, runs, call)) in
            let named : tool_name m ≡ some name = ap name_of params ∙ read in
            let folded : is_tools_call unicode p m ≡ true =
              subst (λ n. text_eq (normalize_method unicode n) (codes "tools/call") ≡ true)
                (sym (is_method-str m.raw m.method "tools/call" method call))
                (rw normalize_method-tools_call (text_eq_refl (codes "tools/call"))) in
            elim ((evaluate_iff unicode p m enforce).0 allowed).1 [
              | inl other ↦ ground (arith, other, folded)
              | inr (name', named', inl free) ↦
                  let same : name' ≡ name = ground (arith, named, named') in
                  is_tool-plain name tool (
                    sym (
                      is_privileged_tool-lower unicode plain.nfkc_plain plain.nfd_plain
                        plain.nfc_plain plain.casefold_plain plain.seen plain.spacing name
                        (is_tool-IsVisible name tool))
                    ∙ (ap (λ n. is_privileged_tool unicode n) (sym same) ∙ free))
              | inr (name', named', inr insider) ↦ ground (arith, insider, outsider)
            ]
      ]

-- The two services together: the gateway's client is the server that trusts it.
module _ (mock : MockHost) (render : Result MockError (Option Json) → Response) where
  abbrev pub connected : Host → List Json → Host
  connected host received = record host {
    post = λ sent. ok (render (handle_post mock sent.body received).0);
  }

  abbrev pub deliver : List Sent → List Json → List Json
  deliver [] received = received
  deliver (sent ∷ more) received = deliver more (handle_post mock sent.body received).1

  -- What the server has recorded after a number of requests to the gateway.
  abbrev pub received_after : Host → Config → List Request → List Json → List Json
  received_after host config [] received = received
  received_after host config (r ∷ rs) received =
      received_after host config rs
        (deliver (handle_mcp_post (connected host received) config r).1 received)

-- The caller's token names no admin.
abbrev pub IsOutsider : Config → Request → Type 0
IsOutsider config r =
    (p : Principal)
    → resolve_principal config.tokens (get "authorization" r.headers) ≡ ok p
    → is_admin p ≡ false

-- What `json.loads` and `json.dumps` document: a text without a repeated key is read alike with the hook
-- and without it, and the encoding of one of the objects that were read, or of a list of them, is read
-- back.
pub record IsJson (host : Host) (mock : MockHost) : Type 1 where
  pub Loaded : Json → Type 0
  pub load_strict :
      (body : List ℕ) (v : Json)
      → host.loads reject_duplicate_keys body ≡ ok v
      → All Loaded (items_of v) × (mock.loads body ≡ some v)
  pub load_dumps :
      (is_batch : Bool) (ms : List RpcMessage)
      → All Loaded (map (λ m. obj m.raw) ms)
      → mock.loads (host.dumps (encoded is_batch ms)) ≡ some (encoded is_batch ms)

not_some : {A : Type 0} (o : Option A) → not (is_some o) ≡ true → o ≡ none
not_some none h = refl
not_some (some a) h = ground (arith, h)

to_list-items : (vs : List Json) → to_list (items vs) ≡ vs
to_list-items [] = refl
to_list-items (v ∷ vs) = ap (λ x. v ∷ x) (to_list-items vs)

module _ (unicode : Unicode) (plain : IsUnicode unicode) (p : Principal)
    (outsider : is_admin p ≡ false) (enforce : Bool) where
  allowed-IsHarmless :
      (ms : List RpcMessage)
      → All Reads ms
      → All IsHarmless (map (λ m. obj m.raw) (select (is_allowed unicode p enforce) ms))
  allowed-IsHarmless [] h = tt
  allowed-IsHarmless (m ∷ ms) (h, hs) = elim (Bool-cases (is_allowed unicode p enforce m)) [
    | inr blocked ↦ rw blocked (allowed-IsHarmless ms hs)
    | inl allowed ↦ rw allowed (
      evaluate-IsHarmless unicode plain p outsider enforce m h
          (not_some (evaluate unicode p m enforce) allowed),
      allowed-IsHarmless ms hs,
    )
  ]

select-All :
    (P : Json → Type 0) (f : RpcMessage → Bool) (ms : List RpcMessage)
    → All P (map (λ m. obj m.raw) ms)
    → All P (map (λ m. obj m.raw) (select f ms))
select-All P f [] h = tt
select-All P f (m ∷ ms) (h, hs) = elim (Bool-cases (f m)) [
  | inr out ↦ rw out (select-All P f ms hs)
  | inl kept ↦ rw kept (h, select-All P f ms hs)
]

-- The elements of an encoding are the messages, or the first of them.
items_of-encoded :
    (P : Json → Type 0) (b : Bool) (ms : List RpcMessage)
    → All P (map (λ m. obj m.raw) ms)
    → All P (items_of (encoded b ms))
items_of-encoded P true ms h = subst (All P) (sym (to_list-items (map (λ m. obj m.raw) ms))) h
items_of-encoded P false [] h = tt
items_of-encoded P false (m ∷ ms) (h, hs) = (h, tt)

module _ (host : Host) (mock : MockHost) (json : IsJson host mock) where
  module _ (plain : IsUnicode host.unicode) (config : Config) (r : Request)
      (outsider : IsOutsider config r) where
    -- Nothing that goes out makes the server execute a reserved tool.
    Authorized-recorded :
        (sent : Sent) (received : List Json)
        → Authorized host config r sent
        → All IsHarmless received
        → All IsHarmless (handle_post mock sent.body received).1
    Authorized-recorded sent received (p, body, parsed, who, read, parse, headers, what) h =
        let raw : RpcMessage → Json = λ m. obj m.raw in
        let allowed = allowed_of host config r p parsed in
        let (document, strict, (raws, reads)) =
          parse_payload-AllRead host.loads body parsed parse in
        let (is_loaded, plainly) = json.load_strict body document strict in
        let harmless : All IsHarmless (map raw allowed) =
          allowed-IsHarmless host.unicode plain p (outsider p who) config.enforce_method_allowlist
            parsed.messages reads in
        let loaded : All json.Loaded (map raw allowed) =
          select-All json.Loaded (is_allowed host.unicode p config.enforce_method_allowlist)
            parsed.messages (subst (All json.Loaded) (sym raws) is_loaded) in
        elim what as (λ _. All IsHarmless (handle_post mock sent.body received).1) [
          | inl (same, full) ↦ rw same (
              handle_post-recorded mock body document received plainly
                (subst (All IsHarmless) (ap (map raw) full ∙ raws) harmless) h)
          | inr fewer ↦ rw fewer (
              handle_post-recorded mock (host.dumps (encoded parsed.is_batch allowed))
                (encoded parsed.is_batch allowed) received
                (json.load_dumps parsed.is_batch allowed loaded)
                (items_of-encoded IsHarmless parsed.is_batch allowed harmless) h)
        ]

    deliver-recorded :
        (render : Result MockError (Option Json) → Response) (sents : List Sent)
        (received : List Json)
        → All (Authorized host config r) sents
        → All IsHarmless received
        → All IsHarmless (deliver mock render sents received)
    deliver-recorded render [] received h h' = h'
    deliver-recorded render (sent ∷ sents) received (h, hs) h' =
        deliver-recorded render sents (handle_post mock sent.body received).1 hs
          (Authorized-recorded sent received h h')

-- Through the gateway, callers whose tokens name no admin never make the server behind it execute a tool
-- whose name begins with "admin_", whatever they send and however often, although that server asks
-- nobody for anything: every message that it has recorded after any number of such requests is harmless,
-- if those before them were. `unicodedata` and `casefold` treat visible ASCII as documented, and json
-- reads back what it has written.
pub received_after-IsHarmless :
    (host : Host) (mock : MockHost) (render : Result MockError (Option Json) → Response)
    (config : Config) (rs : List Request) (received : List Json)
    → IsJson host mock
    → IsUnicode host.unicode
    → All (IsOutsider config) rs
    → All IsHarmless received
    → All IsHarmless (received_after mock render host config rs received)
received_after-IsHarmless host mock render config [] received json plain h h' = h'
received_after-IsHarmless host mock render config (r ∷ rs) received json plain (h, hs) h' =
    received_after-IsHarmless host mock render config rs _ json plain hs (
      deliver-recorded host mock json plain config r h render
        (handle_mcp_post (connected mock render host received) config r).1 received
        (handle_mcp_post-Authorized (connected mock render host received) config r) h')
