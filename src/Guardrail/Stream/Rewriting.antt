-- ===== src/Guardrail/Stream/Rewriting.antt =====
-- What stands in a frame whose texts have been rewritten: llm-gateway-guardrail/src/llm_guardrail/stream.py,
-- the loop over the located texts.
use quilr_ai_mcp.Prelude.{
  ℕ, ◌≡◌, refl, ap, ◌∙◌, Bool, Option, none, some, List, [], ◌∷◌, ◌||◌, arith, All, codes,
}
use quilr_ai_mcp.Prelude.Strings.{text_of}
use quilr_ai_mcp.Prelude.Json.{Json, str}
use quilr_ai_mcp.Guardrail.Redactor.{StreamRedactor}
use quilr_ai_mcp.Guardrail.Redactor.Feeding.{feed_redactor}
use quilr_ai_mcp.Guardrail.Payload.{Step, replace_at, Located}
use quilr_ai_mcp.Guardrail.Payload.Paths.{get_at, Apart, get_at-replace_at, get_at-other}
use quilr_ai_mcp.Guardrail.Payload.Channels.{AllApart}
use quilr_ai_mcp.Guardrail.Stream.{StreamConfig, Channels, config_of}
use quilr_ai_mcp.Guardrail.Stream.Relay.{on_replaced, is_nonempty, feed_channel, rewrite_texts}

-- In place of the text stands what the redactor of its channel let through.
abbrev pub IsRedacted : StreamConfig → Json → Located → Type 0
IsRedacted c updated l =
    (r : StreamRedactor) × (get_at l.path updated
      ≡ some (str (text_of (feed_redactor (config_of c l.channel) (codes l.text) r).0)))

pub rewrite_texts-IsRedacted :
    (c : StreamConfig) (event : Option (List ℕ)) (payload : Json) (ls : List Located)
    (before : Json) (released_any : Bool) (ch : Channels) (after : Json)
    → AllApart ls
    → (rewrite_texts c event payload ls before released_any ch).updated ≡ some after
    → All (IsRedacted c after) ls
      × ((q : List Step) → All (λ l. Apart l.path q) ls → get_at q after ≡ get_at q before)
unfolding rewrite_texts feed_channel
rewrite_texts-IsRedacted c event payload [] before released_any ch after apart h =
    (tt, λ q _. ap (get_at q) (ground (arith, h)))
rewrite_texts-IsRedacted c event payload (l ∷ ls) before released_any ch after (head, apart) h =
    go (replace_at l.path (str (text_of (feed_channel c event payload l ch).0)) before) refl
      (λ next flag ch'. rewrite_texts-IsRedacted c event payload ls next flag ch' after apart) h
  where
    go :
        (o : Option Json)
        → replace_at l.path (str (text_of (feed_channel c event payload l ch).0)) before ≡ o
        → ((next : Json) (flag : Bool) (ch' : Channels)
            → (rewrite_texts c event payload ls next flag ch').updated ≡ some after
            → All (IsRedacted c after) ls
              × ((q : List Step) → All (λ m. Apart m.path q) ls → get_at q after ≡ get_at q next))
        → (on_replaced
            (λ next.
              rewrite_texts c event payload ls next
                (released_any || is_nonempty (feed_channel c event payload l ch).0)
                (feed_channel c event payload l ch).1)
            released_any
            (feed_channel c event payload l ch).1
            o).updated
          ≡ some after
        → All (IsRedacted c after) (l ∷ ls)
          × ((q : List Step)
              → All (λ m. Apart m.path q) (l ∷ ls)
              → get_at q after ≡ get_at q before)
    go none e rec h' = ground (arith, h')
    go (some next) e rec h' =
        let (redacted, keeps) = rec next _ _ h' in
        (
          ((_, keeps l.path head ∙ get_at-replace_at l.path _ before next e), redacted),
          λ q (away, others). keeps q others ∙ get_at-other l.path q _ before next away e,
        )
