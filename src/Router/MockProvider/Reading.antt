-- ===== src/Router/MockProvider/Reading.antt =====
-- How the router's meter reads a frame of the mock provider:
-- llm-gateway-router/src/llm_router/tokens.py, `StreamUsageCollector`, on the frames of
-- llm-gateway-router/src/mock_model_provider/app.py.
use quilr_ai_mcp.Prelude.{
  ℕ, ◌≡◌, refl, sym, ap, ◌∙◌, String, false, Option, some, List, [], ◌∷◌, ◌++◌, arith, ◌==◌, codes,
  All, All-append,
}
use mathlib.Core.Path.{subst}
use mathlib.Core.List.{append_assoc, append-nil, reverse, reverse-append, reverse-reverse}
use quilr_ai_mcp.Prelude.Json.{Json, obj, Fields}
use quilr_ai_mcp.Prelude.Text.{is_space, strip, strip_start, drop_prefix}
use quilr_ai_mcp.Router.Tokens.Stream.{
  StreamUsageCollector, new_collector, push_char, split_lines, take_usage, find_usage,
  consume_event, consume_payload, consume, consume_lines, feed,
}
use quilr_ai_mcp.Router.Tokens.Stream.Chunks.{feed-append}
use quilr_ai_mcp.Router.MockProvider.{frame}

-- One line
abbrev pub IsOneLine : List ℕ → Type 0
IsOneLine = All (λ c. (c == 10) ≡ false)

split_lines-line :
    (line rest : List ℕ)
    → IsOneLine line
    → split_lines (line ++ 10 ∷ rest) ≡ (line ∷ (split_lines rest).0, (split_lines rest).1)
unfolding split_lines push_char
split_lines-line [] rest h = refl
split_lines-line (c ∷ cs) rest (h, hs) = rw (h, split_lines-line cs rest hs) refl

-- The chunks of a stream, one after the other
module _ (loads : List ℕ → Option Json) where
  abbrev pub feed_chunks : StreamUsageCollector → List (List ℕ) → StreamUsageCollector
  feed_chunks c [] = c
  feed_chunks c (text ∷ texts) = feed_chunks (feed loads c text) texts

  abbrev pub joined : List (List ℕ) → List ℕ
  joined [] = []
  joined (text ∷ texts) = text ++ joined texts

  feed_chunks-feed :
      (c : StreamUsageCollector) (a : List ℕ) (texts : List (List ℕ))
      → feed_chunks (feed loads c a) texts ≡ feed loads c (a ++ joined texts)
  feed_chunks-feed c a [] = ap (feed loads c) (sym (append-nil a))
  feed_chunks-feed c a (text ∷ texts) = rw (feed-append loads c a text) (
      feed_chunks-feed c (a ++ text) texts ∙ ap (feed loads c) (append_assoc a text (joined texts)))

  pub feed_chunks-joined :
      (texts : List (List ℕ))
      → feed_chunks new_collector texts ≡ feed loads new_collector (joined texts)
  unfolding feed split_lines consume_lines
  feed_chunks-joined texts = feed_chunks-feed new_collector [] texts

-- A text between characters that are no spaces is left alone.
strip_start-first : (c : ℕ) (cs : List ℕ) → is_space c ≡ false → strip_start (c ∷ cs) ≡ c ∷ cs
unfolding strip_start
strip_start-first c cs h = rw h refl

strip-closed :
    (c d : ℕ) (cs : List ℕ)
    → is_space c ≡ false
    → is_space d ≡ false
    → strip (c ∷ (cs ++ d ∷ [])) ≡ c ∷ (cs ++ d ∷ [])
unfolding strip
strip-closed c d cs h h' = rw (strip_start-first c (cs ++ d ∷ []) h) (
    let e : reverse (c ∷ (cs ++ d ∷ [])) ≡ d ∷ reverse (c ∷ cs) =
      reverse-append (c ∷ cs) (d ∷ []) in
    rw (e, strip_start-first d (reverse (c ∷ cs)) h')
      (ap reverse (sym e) ∙ reverse-reverse (c ∷ (cs ++ d ∷ []))))

strip-space : (text : List ℕ) → strip (32 ∷ text) ≡ strip text
unfolding strip strip_start is_space
strip-space text = refl

data_line-strip :
    (inner : List ℕ)
    → strip (codes "data: " ++ (b'{' ∷ (inner ++ b'}' ∷ [])))
      ≡ codes "data: " ++ (b'{' ∷ (inner ++ b'}' ∷ []))
unfolding is_space
data_line-strip inner = strip-closed b'd' b'}' (codes "ata: " ++ (b'{' ∷ inner)) refl refl

payload-strip :
    (inner : List ℕ) → strip (32 ∷ b'{' ∷ (inner ++ b'}' ∷ [])) ≡ b'{' ∷ (inner ++ b'}' ∷ [])
unfolding is_space
payload-strip inner =
    strip-space (b'{' ∷ (inner ++ b'}' ∷ [])) ∙ strip-closed b'{' b'}' inner refl refl

module _ (loads : List ℕ → Option Json) (dumps : Json → List ℕ)
    (one_line : (v : Json) → IsOneLine (dumps v))
    (braces : (d : Fields) → (inner : List ℕ) × (dumps (obj d) ≡ b'{' ∷ (inner ++ b'}' ∷ []))) where
  consume-data :
      (c : StreamUsageCollector) (d : Fields)
      → loads (dumps (obj d)) ≡ some (obj d)
      → consume loads c (strip (codes "data: " ++ dumps (obj d))) ≡ take_usage c (find_usage d)
  unfolding consume consume_payload consume_event drop_prefix
  consume-data c d back =
      let (inner, e) = braces d in
      rw e (written inner (subst (λ text. loads text ≡ some (obj d)) e back))
    where
      written :
          (inner : List ℕ)
          → loads (b'{' ∷ (inner ++ b'}' ∷ [])) ≡ some (obj d)
          → consume loads c (strip (codes "data: " ++ (b'{' ∷ (inner ++ b'}' ∷ []))))
            ≡ take_usage c (find_usage d)
      written inner h = rw (data_line-strip inner, payload-strip inner, h) refl

  consume-blank : (c : StreamUsageCollector) → consume loads c (strip []) ≡ c
  unfolding consume drop_prefix strip strip_start
  consume-blank c = refl

  -- A line that tells the name of an event is no data.
  abbrev pub IsSilent : String → Type 0
  IsSilent name =
      IsOneLine (codes "event: " ++ codes name)
      × ((c : StreamUsageCollector) → consume loads c (strip (codes "event: " ++ codes name)) ≡ c)

  pub consume-frame :
      (c : StreamUsageCollector) (name : String) (d : Fields) (rest : List ℕ)
      → IsSilent name
      → loads (dumps (obj d)) ≡ some (obj d)
      → consume_lines loads c (split_lines (frame dumps (name, obj d) ++ rest)).0
        ≡ consume_lines loads (take_usage c (find_usage d)) (split_lines rest).0
  unfolding consume_lines
  consume-frame c name d rest (line, silent) back =
      let data_line = codes "data: " ++ dumps (obj d) in
      let is_line : IsOneLine data_line =
        All-append (λ x. (x == 10) ≡ false) (codes "data: ") (dumps (obj d)) (ground arith)
          (one_line (obj d)) in
      rw
        (
          append_assoc (codes "event: " ++ codes name) (10 ∷ (data_line ++ (10 ∷ (10 ∷ [])))) rest,
          append_assoc data_line (10 ∷ (10 ∷ [])) rest,
          split_lines-line (codes "event: " ++ codes name) (data_line ++ (10 ∷ (10 ∷ rest))) line,
          split_lines-line data_line (10 ∷ rest) is_line,
          split_lines-line [] rest tt,
          consume_lines,
          silent c,
          consume-data c d back,
          consume-blank (take_usage c (find_usage d)),
        )
        refl
