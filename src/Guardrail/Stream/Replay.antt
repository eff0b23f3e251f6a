-- ===== src/Guardrail/Stream/Replay.antt =====
-- What the tail of a channel is sent in: llm-gateway-guardrail/src/llm_guardrail/stream.py, `rebuild` and
-- `_Channels.flush`.
use quilr_ai_mcp.Prelude.{
  ℕ, ◌≡◌, refl, sym, ap, ◌∙◌, String, Bool, true, false, Option, none, some, List, [], ◌∷◌, arith,
  str_eq, if◌then◌else◌, eq_refl,
}
use quilr_ai_mcp.Prelude.Dict.{get, put, get-put}
use quilr_ai_mcp.Prelude.Strings.{text_of}
use quilr_ai_mcp.Prelude.Json.{Json, str}
use quilr_ai_mcp.Guardrail.Redactor.Feeding.{flush_redactor}
use quilr_ai_mcp.Guardrail.Payload.{Step, main_text, replace_at, Located}
use quilr_ai_mcp.Guardrail.Payload.Paths.{get_at, Apart, get_at-replace_at, get_at-other}
use quilr_ai_mcp.Guardrail.Sse.{SseEvent}
use quilr_ai_mcp.Guardrail.Stream.{
  StreamConfig, Rebuild, Channel, new_channel, Channels, get_channel, put_channel, config_of,
  remember, serialise, rebuild_event, sent, release_tail, flush_channel,
}
use quilr_ai_mcp.Guardrail.Stream.Relay.{feed_channel}

get_channel-put_channel :
    (k : String) (channel : Channel) (ch : Channels)
    → get_channel k (put_channel k channel ch) ≡ channel
unfolding get_channel put_channel
get_channel-put_channel k channel ch = go (str_eq k main_text)
  where
    go :
        (b : Bool)
        → (let ch' =
              (if b
                then record ch { main = channel }
                else record ch { others = put k channel ch.others }) in
            if b then ch'.main else elim (get k ch'.others) [ none ↦ new_channel | some old ↦ old ])
          ≡ channel
    go true = refl
    go false = rw (get-put k k channel ch.others, eq_refl k) refl

-- The frame that a channel would repeat is the last one in which a text of it came.
rebuild-feed_channel :
    (c : StreamConfig) (event : Option (List ℕ)) (payload : Json) (l : Located) (ch : Channels)
    → (get_channel l.channel (feed_channel c event payload l ch).1).rebuild
      ≡ some (record { event = event; payload = payload; path = l.path })
unfolding feed_channel remember
rebuild-feed_channel c event payload l ch =
    rebuild_of-put_channel _ _
    ∙ rebuild_of-put_channel
        (record (get_channel l.channel ch) {
          rebuild = some (record { event = event; payload = payload; path = l.path });
        })
        ch
  where
    rebuild_of-put_channel :
        (channel : Channel) (ch' : Channels)
        → (get_channel l.channel (put_channel l.channel channel ch')).rebuild ≡ channel.rebuild
    rebuild_of-put_channel channel ch' = rw (get_channel-put_channel l.channel channel ch') refl

-- The event that a rebuild makes of a text.
rebuild_event-Apart :
    (c : StreamConfig) (r : Rebuild) (text : List ℕ) (ev : SseEvent)
    → rebuild_event c (some r) text ≡ some ev
    → (e : Json) × (ev ≡ serialise c r.event e)
      × (get_at r.path e ≡ some (str (text_of text)))
      × ((q : List Step) → Apart r.path q → get_at q e ≡ get_at q r.payload)
unfolding rebuild_event
rebuild_event-Apart c r text ev h = go (replace_at r.path (str (text_of text)) r.payload) refl h
  where
    go :
        (o : Option Json)
        → replace_at r.path (str (text_of text)) r.payload ≡ o
        → (elim o [ none ↦ none | some payload ↦ some (serialise c r.event payload) ]) ≡ some ev
        → (e : Json) × (ev ≡ serialise c r.event e)
          × (get_at r.path e ≡ some (str (text_of text)))
          × ((q : List Step) → Apart r.path q → get_at q e ≡ get_at q r.payload)
    go none replaced h' = ground (arith, h')
    go (some e) replaced h' = (
      e,
      ground (arith, h'),
      get_at-replace_at r.path _ r.payload e replaced,
      λ q apart. get_at-other r.path q _ r.payload e apart replaced,
    )

release_tail_sent :
    (c : StreamConfig) (rebuild : Option Rebuild) (ch : Channels) (remaining : List ℕ)
    (ev : SseEvent)
    → (release_tail c rebuild ch remaining).events ≡ ev ∷ []
    → rebuild_event c rebuild remaining ≡ some ev
release_tail_sent c rebuild ch [] ev h = ground (arith, h)
release_tail_sent c rebuild ch (x ∷ xs) ev h = go (rebuild_event c rebuild (x ∷ xs)) h
  where
    go : (o : Option SseEvent) → (sent ch o).events ≡ ev ∷ [] → o ≡ some ev
    go none h' = ground (arith, h')
    go (some e) h' = ground (arith, h')

-- What a channel still holds, redacted.
abbrev pub tail_of : StreamConfig → String → Channels → List ℕ
tail_of c k ch = (flush_redactor (config_of c k) (get_channel k ch).redactor).0

flush_channel_sent :
    (c : StreamConfig) (k : String) (ch : Channels) (ev : SseEvent)
    → (flush_channel c k ch).events ≡ ev ∷ []
    → rebuild_event c (get_channel k ch).rebuild (tail_of c k ch) ≡ some ev
unfolding flush_channel
flush_channel_sent c k ch ev h =
    release_tail_sent c (get_channel k ch).rebuild
      (put_channel k
        (record (get_channel k ch) {
          redactor = (flush_redactor (config_of c k) (get_channel k ch).redactor).1;
        })
        ch)
      (tail_of c k ch) ev h

-- The event in which a flush sends the tail of a channel is the frame that the channel's last text came
-- in: at the place of the text it has the redacted tail, and at every other place what the upstream sent
-- there, the texts of the frame's other channels included, as they came.
pub flush_channel-feed_channel :
    (c : StreamConfig) (event : Option (List ℕ)) (payload : Json) (l : Located) (ch : Channels)
    (ev : SseEvent)
    → (flush_channel c l.channel (feed_channel c event payload l ch).1).events ≡ ev ∷ []
    → (e : Json) × (ev ≡ serialise c event e)
      × (get_at l.path e
          ≡ some (str (text_of (tail_of c l.channel (feed_channel c event payload l ch).1))))
      × ((q : List Step) → Apart l.path q → get_at q e ≡ get_at q payload)
flush_channel-feed_channel c event payload l ch ev h =
    let ch' = (feed_channel c event payload l ch).1 in
    rebuild_event-Apart c (record { event = event; payload = payload; path = l.path })
      (tail_of c l.channel ch') ev
      (ap (λ r. rebuild_event c r (tail_of c l.channel ch'))
          (sym (rebuild-feed_channel c event payload l ch))
        ∙ flush_channel_sent c l.channel ch' ev h)
