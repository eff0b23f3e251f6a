-- ===== src/Gateway/App/Denials.antt =====
-- What the gateway answers by itself: mcp-gateway/src/mcp_gateway/app.py, `handle_mcp_post`.
use quilr_ai_mcp.Prelude.{
  ℕ, ◌≡◌, refl, Bool, true, false, Option, none, some, All, List, [], ◌∷◌, ◌++◌, ok, arith, map,
  select, not, ◌&&◌,
}
use mathlib.Core.Path.{subst}
use quilr_ai_mcp.Prelude.Dict.{get}
use quilr_ai_mcp.Prelude.Json.{Json, null, arr, obj, Fields, get_field, or_null}
use quilr_ai_mcp.Gateway.JsonRpc.{RpcMessage, ParsedPayload, parse_payload}
use quilr_ai_mcp.Gateway.Auth.{Principal, resolve_principal}
use quilr_ai_mcp.Gateway.Policy.{Unicode, Denial, evaluate}
use quilr_ai_mcp.Gateway.App.{
  Config, Request, Answer, json_rpc, no_content, read_bounded_body, denial_response, items,
}
use quilr_ai_mcp.Gateway.App.Handler.{
  Host, batch_or_first, forward_allowed, handle_parsed, handle_body, handle_authenticated,
  handle_mcp_post,
}
use quilr_ai_mcp.Gateway.App.Forwarding.{is_allowed, refusals, judge_split, allowed_of}

-- The id that an error answers.
abbrev pub answer_id : Json → Json
answer_id (obj d) = or_null (get_field "id" d)
answer_id _ = null

-- An answer that reports an error.
abbrev pub IsError : Json → Type 0
IsError (obj d) = (error : Fields) × (get_field "error" d ≡ some (obj error))
IsError _ = ⊥

module _ (unicode : Unicode) (p : Principal) (enforce : Bool) where
  -- The blocked messages that expect an answer.
  abbrev pub is_owed : RpcMessage → Bool
  is_owed m = m.is_request && not (is_allowed unicode p enforce m)

  -- Each blocked request has one error, with the request's id and in the requests' order; a blocked
  -- notification and an allowed message have none.
  pub map-refusals :
      (ms : List RpcMessage)
      → map answer_id (refusals unicode p enforce ms) ≡ map (λ m. m.id) (select is_owed ms)
  unfolding denial_response get_field
  map-refusals [] = refl
  map-refusals (m ∷ ms) = ground (arith, map-refusals ms)

  refusals-IsError : (ms : List RpcMessage) → All IsError (refusals unicode p enforce ms)
  unfolding denial_response get_field
  refusals-IsError [] = tt
  refusals-IsError (m ∷ ms) =
      go (evaluate unicode p m enforce) m.is_request (refusals-IsError ms) refl
    where
      go :
          (o : Option Denial) (b : Bool)
          → All IsError (refusals unicode p enforce ms)
          → m.is_request ≡ b
          → All IsError (elim o [
            | none ↦ refusals unicode p enforce ms
            | some d ↦ denial_response m d ++ refusals unicode p enforce ms
          ])
      go none b h e = h
      go (some d) true h e = rw e ((_, refl), h)
      go (some d) false h e = rw e h

-- The local answer, if nothing goes downstream.
abbrev pub local_answer : Bool → List Json → Answer
local_answer is_batch [] = no_content
local_answer is_batch (d ∷ ds) = json_rpc 200 (batch_or_first is_batch (d ∷ ds))

-- An answer that reports one error for each of the ids, in their order: nothing to none of them, a list to a
-- batch, and one error to a single message.
abbrev pub Refuses : Bool → List Json → Answer → Type 0
Refuses is_batch [] answer = answer ≡ no_content
Refuses true (id ∷ ids) answer =
    (errors : List Json) × (answer ≡ json_rpc 200 (arr (items errors)))
    × All IsError errors
    × (map answer_id errors ≡ id ∷ ids)
Refuses false (id ∷ ids) answer =
    (error : Json) × (answer ≡ json_rpc 200 error) × IsError error × (answer_id error ≡ id)

local_answer-Refuses :
    (is_batch : Bool) (ds : List Json)
    → All IsError ds
    → Refuses is_batch (map answer_id ds) (local_answer is_batch ds)
unfolding batch_or_first
local_answer-Refuses is_batch [] h = refl
local_answer-Refuses true (d ∷ ds) h = (d ∷ ds, refl, h, refl)
local_answer-Refuses false (d ∷ ds) (h, hs) = (d, refl, h, refl)

module _ (host : Host) (config : Config) (r : Request) where
  forward_allowed-nil :
      (p : Principal) (body : List ℕ) (parsed : ParsedPayload) (denials : List Json)
      → forward_allowed host config r p body parsed ([], denials)
        ≡ (local_answer parsed.is_batch denials, [])
  unfolding forward_allowed
  forward_allowed-nil p body parsed [] = refl
  forward_allowed-nil p body parsed (d ∷ ds) = refl

  handle_mcp_post-local_answer :
      (p : Principal) (body : List ℕ) (parsed : ParsedPayload)
      → resolve_principal config.tokens (get "authorization" r.headers) ≡ ok p
      → read_bounded_body config.max_body_bytes r ≡ some body
      → parse_payload host.loads body ≡ ok parsed
      → allowed_of host config r p parsed ≡ []
      → handle_mcp_post host config r ≡ (
        local_answer parsed.is_batch
            (refusals host.unicode p config.enforce_method_allowlist parsed.messages),
        [],
      )
  unfolding handle_mcp_post handle_authenticated handle_body handle_parsed
  handle_mcp_post-local_answer p body parsed who read parse blocked =
      rw
        (
          who,
          handle_authenticated,
          read,
          handle_body,
          parse,
          handle_parsed,
          judge_split host.unicode p config.enforce_method_allowlist parsed.messages,
          blocked,
        )
        (forward_allowed-nil p body parsed _)

  -- If the policy blocks every message of an authenticated and well-formed request, nothing is sent
  -- downstream, and the answer reports an error for each blocked message that expects an answer, in their
  -- order and each under the message's id: a list of them to a batch, one to a single message; it is empty
  -- if no message expects an answer.
  pub handle_mcp_post_blocked :
      (p : Principal) (body : List ℕ) (parsed : ParsedPayload)
      → resolve_principal config.tokens (get "authorization" r.headers) ≡ ok p
      → read_bounded_body config.max_body_bytes r ≡ some body
      → parse_payload host.loads body ≡ ok parsed
      → allowed_of host config r p parsed ≡ []
      → Refuses parsed.is_batch
          (map
            (λ m. m.id)
            (select (is_owed host.unicode p config.enforce_method_allowlist) parsed.messages))
          (handle_mcp_post host config r).0
        × ((handle_mcp_post host config r).1 ≡ [])
  handle_mcp_post_blocked p body parsed who read parse blocked =
      let enforce = config.enforce_method_allowlist in
      rw (handle_mcp_post-local_answer p body parsed who read parse blocked) (
        subst
            (λ ids.
              Refuses parsed.is_batch ids
                (local_answer parsed.is_batch (refusals host.unicode p enforce parsed.messages)))
            (map-refusals host.unicode p enforce parsed.messages)
            (local_answer-Refuses parsed.is_batch (refusals host.unicode p enforce parsed.messages)
              (refusals-IsError host.unicode p enforce parsed.messages)),
        refl,
      )
