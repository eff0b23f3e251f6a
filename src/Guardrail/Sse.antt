-- ===== src/Guardrail/Sse.antt =====
-- llm-gateway-guardrail/src/llm_guardrail/sse.py: the incremental parser of server-sent events.
-- The decoding of UTF-8 is a parameter.
pub mod Draining
pub mod Lines
pub mod Chunks
pub mod Encoding
use quilr_ai_mcp.Prelude.{
  ℕ, zero, suc, Bool, true, false, Option, none, some, List, [], ◌∷◌, ◌++◌, ◌==◌, length, codes,
  if◌then◌else◌, Option-cases,
}
use quilr_ai_mcp.Prelude.Text.{text_eq}

pub record SseEvent : Type 0 where
  pub event : Option (List ℕ)
  pub data' : List ℕ

-- `data.split("\n")`, each line after "data: " and with its end
unfoldable pub data_lines : List ℕ → List ℕ
data_lines [] = 10 ∷ []
data_lines (c ∷ cs) =
    let rest = data_lines cs in if c == 10 then 10 ∷ (codes "data: " ++ rest) else c ∷ rest

abbrev pub event_line : Option (List ℕ) → List ℕ
event_line none = []
event_line (some []) = []
event_line (some (c ∷ cs)) = codes "event: " ++ (c ∷ cs) ++ 10 ∷ []

-- `SSEEvent.encode`, before UTF-8
unfoldable pub encode : SseEvent → List ℕ
unfolding data_lines
encode ev = event_line ev.event ++ (codes "data: " ++ (data_lines ev.data' ++ 10 ∷ []))

pub record SseParser : Type 0 where
  pub buffer : List ℕ
  pub event : Option (List ℕ)
  pub data' : List (List ℕ)

-- `SSEParser.__init__`
abbrev pub new_parser : SseParser
new_parser = record { buffer = []; event = none; data' = [] }

-- A line, and what follows its end.
abbrev pub Split : Type 0
Split = Option (List ℕ × List ℕ)

abbrev pub prefix : ℕ → Split → Split
prefix c none = none
prefix c (some (line, rest)) = some (c ∷ line, rest)

-- `find` of one character
unfoldable pub split_at : ℕ → List ℕ → Split
split_at t [] = none
split_at t (c ∷ cs) =
    let later = prefix c (split_at t cs) in if c == t then some ([], cs) else later

-- What follows a leading "\n".
abbrev pub after_newline : List ℕ → Option (List ℕ)
after_newline [] = none
after_newline (c ∷ cs) = if c == 10 then some cs else none

abbrev pub end_here : Option (List ℕ) → Split → Split
end_here none later = later
end_here (some rest) later = some ([], rest)

-- `find("\r\n")`
unfoldable pub split_pair : List ℕ → Split
split_pair [] = none
split_pair (c ∷ cs) =
    let later = prefix c (split_pair cs) in
    let here = end_here (after_newline cs) later in if c == 13 then here else later

-- A lone "\r" at the end of the buffer may be half of a "\r\n".
unfoldable pub not_last : Split → Split
not_last none = none
not_last (some (line, [])) = none
not_last (some (line, c ∷ rest)) = some (line, c ∷ rest)

abbrev pub or_else : Split → Split → Split
or_else none other = other
or_else (some found) other = some found

-- `_find_line_end`
unfoldable pub find_line_end : List ℕ → Split
unfolding not_last
find_line_end buffer =
    or_else (split_pair buffer) (or_else (split_at 10 buffer) (not_last (split_at 13 buffer)))

-- `"\n".join(lines)`
unfoldable pub join_lines : List (List ℕ) → List ℕ
join_lines [] = []
join_lines (l ∷ []) = l
join_lines (l ∷ m ∷ ls) = l ++ 10 ∷ join_lines (m ∷ ls)

-- `_dispatch`
unfoldable pub dispatch_event : SseParser → SseParser × List SseEvent
unfolding join_lines
dispatch_event p = elim p.data' [
  | [] ↦ elim p.event [
    | none ↦ (p, [])
    | some e ↦ (record p { event = none }, (record { event = some e; data' = [] }) ∷ [])
  ]
  | l ∷ ls ↦ (
    record p { event = none; data' = [] },
    (record { event = p.event; data' = join_lines (l ∷ ls) }) ∷ [],
  )
]

-- `value[1:] if value.startswith(" ") else value`
abbrev pub drop_space : List ℕ → List ℕ
drop_space [] = []
drop_space (c ∷ cs) = if c == 32 then cs else c ∷ cs

-- `line.partition(":")`
abbrev pub field_of : List ℕ → List ℕ × List ℕ
field_of line = elim (split_at 58 line) [ none ↦ (line, []) | some (name, value) ↦ (name, value) ]

unfoldable pub handle_field : SseParser → List ℕ × List ℕ → SseParser
handle_field p (name, value) =
    if text_eq name (codes "event")
    then record p { event = some (drop_space value) }
    else if text_eq name (codes "data")
    then record p { data' = p.data' ++ drop_space value ∷ [] }
    else p

-- `_handle_line`
unfoldable pub handle_line : SseParser → List ℕ → SseParser × List SseEvent
handle_line p [] = dispatch_event p
handle_line p (c ∷ cs) = if c == 58 then (p, []) else (handle_field p (field_of (c ∷ cs)), [])

-- One round of the loop of `feed`, and the rounds after it.
unfoldable pub drain_line :
    (SseParser → SseParser × List SseEvent) → SseParser → Split → SseParser × List SseEvent
drain_line more p none = (p, [])
drain_line more p (some (line, rest)) =
    let (p', events) = handle_line (record p { buffer = rest }) line in
    let (q, later) = more p' in (q, events ++ later)

-- The loop. A line end takes at least one character off the buffer, so the length of the buffer is
-- fuel enough.
unfoldable pub drain : ℕ → SseParser → SseParser × List SseEvent
drain zero p = (p, [])
drain (suc fuel) p = drain_line (λ q. drain fuel q) p (find_line_end p.buffer)

-- `feed` on decoded text
unfoldable pub feed_text : SseParser → List ℕ → SseParser × List SseEvent
feed_text p text =
    let buffer = p.buffer ++ text in drain (length buffer) (record p { buffer = buffer })

-- `feed` of a chunk of bytes. `decode` is `bytes.decode("utf-8", errors="replace")`, which the source applies
-- to each chunk by itself.
unfoldable pub feed_chunk : (List ℕ → List ℕ) → SseParser → List ℕ → SseParser × List SseEvent
feed_chunk decode p chunk = feed_text p (decode chunk)

-- `flush`
unfoldable pub flush : SseParser → SseParser × List SseEvent
flush p = elim p.buffer [
  | [] ↦ dispatch_event p
  | c ∷ cs ↦ dispatch_event (handle_line (record p { buffer = [] }) (c ∷ cs)).0
]
