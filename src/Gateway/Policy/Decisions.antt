-- ===== src/Gateway/Policy/Decisions.antt =====
-- The policy's decisions: mcp-gateway/src/mcp_gateway/policy.py, `evaluate`.
use quilr_ai_mcp.Prelude.{
  ◌≡◌, refl, String, Bool, true, false, Option, none, some, arith, codes, is_some, ◌⊎◌, inl, inr,
  ◌↔◌, Bool-cases,
}
use quilr_ai_mcp.Prelude.Json.{Json, null, bool, int, float, arr, obj, as_obj, str}
use quilr_ai_mcp.Prelude.Text.{text_eq}
use quilr_ai_mcp.Gateway.JsonRpc.{RpcMessage, tool_name, name_of}
use quilr_ai_mcp.Gateway.Auth.{Principal, is_admin}
use quilr_ai_mcp.Gateway.Policy.{
  Unicode, is_known, is_privileged_tool, normalize_method, check_tool, evaluate,
}

name_of-some :
    (params : Json) (name : String) → name_of params ≡ some name → is_some (as_obj params) ≡ true
unfolding name_of
name_of-some null name h = ground (arith, h)
name_of-some (bool _) name h = ground (arith, h)
name_of-some (int _) name h = ground (arith, h)
name_of-some (float _) name h = ground (arith, h)
name_of-some (str _) name h = ground (arith, h)
name_of-some (arr _) name h = ground (arith, h)
name_of-some (obj d) name h = refl

module _ (unicode : Unicode) (p : Principal) where
  -- The message is a tools/call, under whatever spelling the folding identifies with it.
  abbrev pub is_tools_call : RpcMessage → Bool
  is_tools_call m = text_eq (normalize_method unicode m.method) (codes "tools/call")

  -- A tools/call that the principal may make.
  abbrev pub MayCall : RpcMessage → Type 0
  MayCall m =
      (name : String) × (tool_name m ≡ some name)
      × ((is_privileged_tool unicode name ≡ false) ⊎ (is_admin p ≡ true))

  check_tool-none :
      (o : Option String)
      → check_tool unicode p o ≡ none
      → (name : String) × (o ≡ some name)
        × ((is_privileged_tool unicode name ≡ false) ⊎ (is_admin p ≡ true))
  unfolding check_tool
  check_tool-none none h = ground (arith, h)
  check_tool-none (some name) h = (
    name,
    refl,
    elim (Bool-cases (is_privileged_tool unicode name)) [
      | inr plain ↦ inl plain
      | inl privileged ↦ inr (ground (arith, h, privileged))
    ],
  )

  -- What the policy forwards: with the allowlist on, a method on the list; and a tools/call only if it
  -- is one that the principal may make.
  abbrev pub Permitted : RpcMessage → Bool → Type 0
  Permitted m enforce =
      ((enforce ≡ false) ⊎ (is_known m.method ≡ true)) × ((is_tools_call m ≡ false) ⊎ MayCall m)

  evaluate-none :
      (m : RpcMessage) (enforce : Bool) → evaluate unicode p m enforce ≡ none → Permitted m enforce
  unfolding evaluate
  evaluate-none m enforce h = (
    ground (arith, h),
    elim (Bool-cases (is_tools_call m)) [
      | inr other ↦ inl other
      | inl call ↦ inr (check_tool-none (tool_name m) (ground (arith, h, call)))
    ],
  )

  evaluate-Permitted :
      (m : RpcMessage) (enforce : Bool) → Permitted m enforce → evaluate unicode p m enforce ≡ none
  unfolding evaluate check_tool
  evaluate-Permitted m enforce (listed, inl other) = ground (arith, listed, other)
  evaluate-Permitted m enforce (listed, inr (name, named, free)) =
      ground (arith, listed, named, free, name_of-some m.params name)

  -- A message is forwarded exactly if its method is on the allowlist, where that is on, and it is either
  -- no tools/call, under any spelling that the folding identifies with it, or names, as a string, a tool
  -- that is not privileged or that an admin asks for.
  pub evaluate_iff :
      (m : RpcMessage) (enforce : Bool)
      → (evaluate unicode p m enforce ≡ none) ↔ Permitted m enforce
  evaluate_iff m enforce = (evaluate-none m enforce, evaluate-Permitted m enforce)
