-- ===== src/Guardrail/Stream/Remembering.antt =====
-- Which frames the channels of a stream remember: llm-gateway-guardrail/src/llm_guardrail/stream.py,
-- `_Channels.remember`.
use quilr_ai_mcp.Prelude.{
  ℕ, ◌≡◌, refl, ◌⊎◌, inl, inr, String, Bool, Option, none, some, List, [], ◌∷◌, ◌||◌, All, str_eq,
  Bool-cases,
}
use quilr_ai_mcp.Prelude.Dict.{get, get-put}
use quilr_ai_mcp.Prelude.Strings.{text_of}
use quilr_ai_mcp.Prelude.Json.{Json, str}
use quilr_ai_mcp.Guardrail.Payload.{Located, main_text, locate_texts, replace_at}
use quilr_ai_mcp.Guardrail.Sse.{SseEvent}
use quilr_ai_mcp.Guardrail.Stream.{
  StreamConfig, Rebuild, Channel, Channels, new_channels, get_channel, put_channel, remember,
}
use quilr_ai_mcp.Guardrail.Stream.Relay.{on_replaced, is_nonempty, feed_channel, rewrite_texts}

abbrev pub Among : {A : Type 0} → List A → A → Type 0
Among [] a = ⊥
Among (x ∷ xs) a = (x ≡ a) ⊎ Among xs a

All-Among_later :
    {A : Type 0} (x : A) (xs ys : List A) → All (Among xs) ys → All (Among (x ∷ xs)) ys
All-Among_later x xs [] h = tt
All-Among_later x xs (y ∷ ys) (h, hs) = (inr h, All-Among_later x xs ys hs)

pub All-Among : {A : Type 0} (xs : List A) → All (Among xs) xs
All-Among [] = tt
All-Among (x ∷ xs) = (inl refl, All-Among_later x xs xs (All-Among xs))

get_channel-put_channel_any :
    (j k : String) (channel : Channel) (ch : Channels)
    → (get_channel j (put_channel k channel ch) ≡ channel)
      ⊎ (get_channel j (put_channel k channel ch) ≡ get_channel j ch)
unfolding get_channel put_channel
get_channel-put_channel_any j k channel ch = elim (Bool-cases (str_eq k main_text)) [
  | inl main ↦ elim (Bool-cases (str_eq j main_text)) [
    | inl this ↦ inl (rw (main, this) refl)
    | inr that ↦ inr (rw (main, that) refl)
  ]
  | inr other ↦ elim (Bool-cases (str_eq j main_text)) [
    | inl that ↦ inr (rw (other, that) refl)
    | inr this ↦ elim (Bool-cases (str_eq k j)) [
      | inl same ↦ inl (rw (other, this, get-put k j channel ch.others, same) refl)
      | inr differs ↦ inr (rw (other, this, get-put k j channel ch.others, differs) refl)
    ]
  ]
]

module _ (c : StreamConfig) (frames : List SseEvent) where
  -- A remembered frame is one of those read, and the place in it is that of a located text.
  abbrev pub Remembered : Option Rebuild → Type 0
  Remembered none = Unit
  Remembered (some rebuild) =
      (frame : SseEvent) × (l : Located) × Among frames frame
      × (c.loads frame.data' ≡ some rebuild.payload)
      × (rebuild.event ≡ frame.event)
      × Among (locate_texts c.format rebuild.payload) l
      × (rebuild.path ≡ l.path)

  abbrev pub Knows : Channels → Type 0
  Knows ch = (k : String) → Remembered (get_channel k ch).rebuild

  pub new_channels-Knows : Knows new_channels
  unfolding get_channel get
  new_channels-Knows k = elim (Bool-cases (str_eq k main_text)) [
    | inl main ↦ rw main tt
    | inr other ↦ rw other tt
  ]

  pub put_channel-Knows :
      (k : String) (channel : Channel) (ch : Channels)
      → Remembered channel.rebuild
      → Knows ch
      → Knows (put_channel k channel ch)
  put_channel-Knows k channel ch h knows j = elim (get_channel-put_channel_any j k channel ch) [
    | inl new ↦ rw new h
    | inr old ↦ rw old (knows j)
  ]

  feed_channel-Knows :
      (event : Option (List ℕ)) (payload : Json) (l : Located) (ch : Channels)
      → Remembered (some (record { event = event; payload = payload; path = l.path }))
      → Knows ch
      → Knows (feed_channel c event payload l ch).1
  unfolding feed_channel remember
  feed_channel-Knows event payload l ch h knows =
      let knows' =
        put_channel-Knows l.channel
          (record (get_channel l.channel ch) {
            rebuild = some (record { event = event; payload = payload; path = l.path });
          })
          ch h knows in
      put_channel-Knows l.channel _ _ (knows' l.channel) knows'

  pub rewrite_texts-Knows :
      (frame : SseEvent) (payload : Json) (ls : List Located) (before : Json) (released_any : Bool)
      (ch : Channels)
      → Among frames frame
      → c.loads frame.data' ≡ some payload
      → All (Among (locate_texts c.format payload)) ls
      → Knows ch
      → Knows (rewrite_texts c frame.event payload ls before released_any ch).channels
  unfolding rewrite_texts
  rewrite_texts-Knows frame payload [] before released_any ch from read located knows = knows
  rewrite_texts-Knows frame payload (l ∷ ls) before released_any ch from read (here, located)
        knows =
      let knows' =
        feed_channel-Knows frame.event payload l ch (frame, l, from, read, refl, here, refl)
          knows in
      go (replace_at l.path (str (text_of (feed_channel c frame.event payload l ch).0)) before)
        knows'
        (λ next flag.
          rewrite_texts-Knows frame payload ls next flag (feed_channel c frame.event payload l ch).1
            from read located knows')
    where
      go :
          (o : Option Json)
          → Knows (feed_channel c frame.event payload l ch).1
          → ((next : Json) (flag : Bool)
              → Knows
                  (rewrite_texts c frame.event payload ls next flag
                    (feed_channel c frame.event payload l ch).1).channels)
          → Knows
              (on_replaced
                (λ next.
                  rewrite_texts c frame.event payload ls next
                    (released_any || is_nonempty (feed_channel c frame.event payload l ch).0)
                    (feed_channel c frame.event payload l ch).1)
                released_any
                (feed_channel c frame.event payload l ch).1
                o).channels
      go none knows' more = knows'
      go (some next) knows' more = more next _
