-- ===== src/Gateway/Downstream/Executing.antt =====
-- What a message makes the server of mcp-gateway/src/mock_downstream/app.py execute, and what it records.
use quilr_ai_mcp.Prelude.{
  ℕ, ◌≡◌, refl, String, true, false, Option, none, some, List, [], ◌∷◌, ◌++◌, inl, inr, Result, ok,
  raise, str_eq, is_some, All, All-append, arith, codes, eq_iff, Bool-cases, if◌then◌else◌,
}
use mathlib.Core.Path.{subst}
use quilr_ai_mcp.Prelude.Json.{
  Json, null, bool, int, float, str, arr, obj, Items, nil, cons, Fields, end, field, get_field,
  or_null, as_obj, to_list,
}
use quilr_ai_mcp.Prelude.Keys.{lower}
use quilr_ai_mcp.Prelude.Text.{drop_prefix}
use quilr_ai_mcp.Gateway.JsonRpc.{name_of}
use quilr_ai_mcp.Gateway.JsonRpc.Parsing.{items_of}
use quilr_ai_mcp.Gateway.Policy.Names.{IsVisible}
use quilr_ai_mcp.Gateway.Downstream.{
  MockHost, MockError, is_tool, is_method, or_empty, answer_message, handle_message, go_on,
  handle_batch, post_document, post_loaded, handle_post,
}

-- The tool that a message makes the server execute.
abbrev pub executes_named : Json → Option String
executes_named (str name) = if is_tool name then some name else none
executes_named _ = none

abbrev pub executes_call : Option Fields → Option String
executes_call none = none
executes_call (some params) = executes_named (or_null (get_field "name" params))

abbrev pub executes : Json → Option String
executes (obj d) =
    if is_method d "tools/call"
    then executes_call (as_obj (or_empty (or_null (get_field "params" d))))
    else none
executes _ = none

-- A message that executes no tool reserved to admins
abbrev pub IsHarmless : Json → Type 0
IsHarmless m =
    (name : String)
    → executes m ≡ some name
    → is_some (drop_prefix (codes "admin_") (codes name)) ≡ false

-- Only what a body holds is recorded.
module _ (mock : MockHost) where
  go_on-recorded :
      (r : Result MockError (Option Json)) (received : List Json)
      (later : Result MockError (List Json) × List Json)
      → All IsHarmless received
      → All IsHarmless later.1
      → All IsHarmless (go_on mock r received later).1
  go_on-recorded (raise e) received later h h' = h
  go_on-recorded (ok none) received (raise e, received') h h' = h'
  go_on-recorded (ok none) received (ok answers, received') h h' = h'
  go_on-recorded (ok (some answer)) received (raise e, received') h h' = h'
  go_on-recorded (ok (some answer)) received (ok answers, received') h h' = h'

  handle_batch-recorded :
      (messages : Items) (received : List Json)
      → All IsHarmless (to_list messages)
      → All IsHarmless received
      → All IsHarmless (handle_batch mock messages received).1
  unfolding handle_batch handle_message
  handle_batch-recorded nil received h h' = h'
  handle_batch-recorded (cons message rest) received (h, hs) h' =
      let kept = All-append IsHarmless received (message ∷ []) h' (h, tt) in
      go_on-recorded (answer_message mock message) (received ++ message ∷ [])
        (handle_batch mock rest (received ++ message ∷ [])) kept
        (handle_batch-recorded rest (received ++ message ∷ []) hs kept)

  post_document-recorded :
      (document : Json) (received : List Json)
      → All IsHarmless (items_of document)
      → All IsHarmless received
      → All IsHarmless (post_document mock document received).1
  unfolding post_document handle_message
  post_document-recorded (arr messages) received h h' = handle_batch-recorded messages received h h'
  post_document-recorded null received h h' = All-append IsHarmless received (null ∷ []) h' h
  post_document-recorded (bool b) received h h' = All-append IsHarmless received (bool b ∷ []) h' h
  post_document-recorded (int z) received h h' = All-append IsHarmless received (int z ∷ []) h' h
  post_document-recorded (float x) received h h' =
      All-append IsHarmless received (float x ∷ []) h' h
  post_document-recorded (str s) received h h' = All-append IsHarmless received (str s ∷ []) h' h
  post_document-recorded (obj d) received h h' = All-append IsHarmless received (obj d ∷ []) h' h

  pub handle_post-recorded :
      (body : List ℕ) (document : Json) (received : List Json)
      → mock.loads body ≡ some document
      → All IsHarmless (items_of document)
      → All IsHarmless received
      → All IsHarmless (handle_post mock body received).1
  unfolding handle_post post_loaded
  handle_post-recorded body document received loaded h h' =
      rw loaded (post_document-recorded document received h h')

-- What holds for the four tools holds for every tool of the server's.
is_tool-cases :
    (P : String → Type 0) (name : String)
    → P "search_docs"
    → P "get_ticket"
    → P "admin_reset_key"
    → P "admin_delete_tenant"
    → is_tool name ≡ true
    → P name
unfolding is_tool
is_tool-cases P name a b c d tool = elim (Bool-cases (str_eq "search_docs" name)) [
  | inl hit ↦
      subst P (let e : "search_docs" ≡ name = ground (arith, hit, eq_iff "search_docs" name) in e) a
  | inr other ↦ elim (Bool-cases (str_eq "get_ticket" name)) [
    | inl hit ↦
        subst P (let e : "get_ticket" ≡ name = ground (arith, hit, eq_iff "get_ticket" name) in e) b
    | inr other' ↦ elim (Bool-cases (str_eq "admin_reset_key" name)) [
      | inl hit ↦
          subst P
            (let e : "admin_reset_key" ≡ name =
                ground (arith, hit, eq_iff "admin_reset_key" name) in
              e)
            c
      | inr other'' ↦
          subst P
            (let e : "admin_delete_tenant" ≡ name =
                ground (arith, tool, other, other', other'', eq_iff "admin_delete_tenant" name) in
              e)
            d
    ]
  ]
]

-- A tool of the server's whose name is not privileged is none of the two that are reserved.
pub is_tool-plain :
    (name : String)
    → is_tool name ≡ true
    → is_some (drop_prefix (codes "admin_") (lower (codes name))) ≡ false
    → is_some (drop_prefix (codes "admin_") (codes name)) ≡ false
unfolding lower drop_prefix
is_tool-plain name tool =
    is_tool-cases
      (λ n.
        is_some (drop_prefix (codes "admin_") (lower (codes n))) ≡ false
        → is_some (drop_prefix (codes "admin_") (codes n)) ≡ false)
      name (λ h. h) (λ h. h) (λ h. h) (λ h. h) tool

pub is_tool-IsVisible : (name : String) → is_tool name ≡ true → All IsVisible (codes name)
is_tool-IsVisible name tool =
    is_tool-cases (λ n. All IsVisible (codes n)) name (ground arith) (ground arith) (ground arith)
      (ground arith) tool

pub executes_named-some :
    (v : Json) (name : String)
    → executes_named v ≡ some name
    → (v ≡ str name) × (is_tool name ≡ true)
executes_named-some (str s) name h = elim (Bool-cases (is_tool s)) [
  | inl tool ↦
      let same : s ≡ name = ground (arith, h, tool) in
      subst (λ n. (str s ≡ str n) × (is_tool n ≡ true)) same (refl, tool)
  | inr other ↦ ground (arith, h, other)
]
executes_named-some null name h = ground (arith, h)
executes_named-some (bool _) name h = ground (arith, h)
executes_named-some (int _) name h = ground (arith, h)
executes_named-some (float _) name h = ground (arith, h)
executes_named-some (arr _) name h = ground (arith, h)
executes_named-some (obj _) name h = ground (arith, h)

-- The gateway reads the same name.
pub executes_call-name_of :
    (v : Json) (name : String)
    → executes_call (as_obj (or_empty v)) ≡ some name
    → (name_of v ≡ some name) × (is_tool name ≡ true)
unfolding name_of get_field
executes_call-name_of (obj end) name h = ground (arith, h)
executes_call-name_of (obj (field k w d)) name h =
    let (named, tool) = executes_named-some (or_null (get_field "name" (field k w d))) name h in
    (name_of-or_null (get_field "name" (field k w d)) name named, tool)
  where
    name_of-or_null :
        (o : Option Json) (n : String)
        → or_null o ≡ str n
        → elim o [ some (str s) ↦ some s | _ ↦ none ] ≡ some n
    name_of-or_null none n e = ground (arith, e)
    name_of-or_null (some (str s)) n e = ground (arith, e)
    name_of-or_null (some null) n e = ground (arith, e)
    name_of-or_null (some (bool _)) n e = ground (arith, e)
    name_of-or_null (some (int _)) n e = ground (arith, e)
    name_of-or_null (some (float _)) n e = ground (arith, e)
    name_of-or_null (some (arr _)) n e = ground (arith, e)
    name_of-or_null (some (obj _)) n e = ground (arith, e)
executes_call-name_of null name h = ground (arith, h)
executes_call-name_of (bool b) name h = ground (arith, h)
executes_call-name_of (int z) name h = ground (arith, h)
executes_call-name_of (float x) name h = ground (arith, h)
executes_call-name_of (str s) name h = ground (arith, h)
executes_call-name_of (arr vs) name h = ground (arith, h)

pub is_method-str :
    (d : Fields) (method name : String)
    → get_field "method" d ≡ some (str method)
    → is_method d name ≡ true
    → method ≡ name
unfolding is_method
is_method-str d method name h h' = ground (arith, h, h', eq_iff method name)
