-- ===== src/Guardrail/Leaves.antt =====
-- llm-gateway-guardrail/src/llm_guardrail/redactor.py: `redact_leaves`, on what `json.loads` returns.
use quilr_ai_mcp.Prelude.{String, codes}
use quilr_ai_mcp.Prelude.Strings.{text_of}
use quilr_ai_mcp.Prelude.Json.{
  Json, null, bool, int, float, str, arr, obj, Items, nil, cons, Fields, end, field,
}
use quilr_ai_mcp.Guardrail.Redactor.{RedactorConfig}
use quilr_ai_mcp.Guardrail.Redactor.Feeding.{redact_text}

-- `redact_text` on a `str`
unfoldable pub redact_string : RedactorConfig → String → String
redact_string c s = text_of (redact_text c (codes s))

unfoldable mutual
  pub redact_leaves : RedactorConfig → Json → Json
  redact_leaves c null = null
  redact_leaves c (bool b) = bool b
  redact_leaves c (int z) = int z
  redact_leaves c (float x) = float x
  redact_leaves c (str s) = str (redact_string c s)
  redact_leaves c (arr vs) = arr (redact_items c vs)
  redact_leaves c (obj d) = obj (redact_fields c d)

  pub redact_items : RedactorConfig → Items → Items
  redact_items c nil = nil
  redact_items c (cons v vs) = cons (redact_leaves c v) (redact_items c vs)

  pub redact_fields : RedactorConfig → Fields → Fields
  redact_fields c end = end
  redact_fields c (field k v d) = field k (redact_leaves c v) (redact_fields c d)
