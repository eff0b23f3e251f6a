-- ===== src/Guardrail/Sse/Encoding.antt =====
-- What `SSEEvent.encode` writes is what `SSEParser.feed` reads:
-- llm-gateway-guardrail/src/llm_guardrail/sse.py.
use quilr_ai_mcp.Prelude.{
  ℕ, ◌≡◌, refl, ◌∙◌, ap, sym, false, Option, none, some, List, [], ◌∷◌, ◌++◌, arith, ◌==◌,
  if◌then◌else◌, All, All-append, All-prefix, All-suffix, codes, Bool-cases, inl, inr, map,
}
use mathlib.Core.Path.{subst}
use mathlib.Core.List.{append_assoc, append-nil}
use quilr_ai_mcp.Guardrail.Sse.{
  SseEvent, SseParser, new_parser, split_at, dispatch_event, join_lines, handle_field, handle_line,
  data_lines, encode, event_line, feed_chunk, feed_text,
}
use quilr_ai_mcp.Guardrail.Sse.Lines.{
  Lacks, with_buffer, read_char, read_text, read_text-append, read_text-part, read_text-line,
}
use quilr_ai_mcp.Guardrail.Sse.Chunks.{feed_chunks, joined, feed_chunks-read_text}

-- The lines of a text, the first after `front`.
abbrev lines_after : List ℕ → List ℕ → List (List ℕ)
lines_after front [] = front ∷ []
lines_after front (c ∷ cs) =
    let next = lines_after [] cs in
    let more = lines_after (front ++ c ∷ []) cs in if c == 10 then front ∷ next else more

lines_after-cons :
    (front text : List ℕ) → (l : List ℕ) × (ls : List (List ℕ)) × (lines_after front text ≡ l ∷ ls)
lines_after-cons front [] = (front, [], refl)
lines_after-cons front (c ∷ cs) = elim (Bool-cases (c == 10)) [
  | inl ends ↦ (front, lines_after [] cs, rw ends refl)
  | inr part ↦ let (l, ls, e) = lines_after-cons (front ++ c ∷ []) cs in (l, ls, rw part e)
]

join_lines-lines_after : (front text : List ℕ) → join_lines (lines_after front text) ≡ front ++ text
unfolding join_lines
join_lines-lines_after front [] = sym (append-nil front)
join_lines-lines_after front (c ∷ cs) = elim (Bool-cases (c == 10)) [
  | inl ends ↦
      let (l, ls, e) = lines_after-cons [] cs in
      let newline : c ≡ 10 = ground (arith, ends) in
      let rest : join_lines (l ∷ ls) ≡ cs = ap join_lines (sym e) ∙ join_lines-lines_after [] cs in
      rw (ends, e, join_lines, rest, newline) refl
  | inr part ↦
      rw (part, join_lines-lines_after (front ++ c ∷ []) cs) (append_assoc front (c ∷ []) cs)
]

-- "data: " and a line
abbrev data_line : List ℕ → List ℕ
data_line front = codes "data: " ++ front

handle_line-data :
    (p : SseParser) (front : List ℕ)
    → handle_line p (data_line front) ≡ (record p { data' = p.data' ++ front ∷ [] }, [])
unfolding handle_line handle_field split_at
handle_line-data p front = refl

handle_line-event :
    (p : SseParser) (name : List ℕ)
    → handle_line p (codes "event: " ++ name) ≡ (record p { event = some name }, [])
unfolding handle_line handle_field split_at
handle_line-event p name = refl

-- The end of a `data:` line
read_text-data_line :
    (p : SseParser) (front rest : List ℕ)
    → read_text (with_buffer (data_line front) p) (10 ∷ rest)
      ≡ read_text (record p { buffer = []; data' = p.data' ++ front ∷ [] }) rest
unfolding read_text read_char
read_text-data_line p front rest = rw (handle_line-data (with_buffer [] p) front) refl

-- A part of a line, and what follows it
read_text-prefix :
    (p : SseParser) (part rest : List ℕ)
    → Lacks 10 part
    → read_text p (part ++ rest) ≡ read_text (with_buffer (p.buffer ++ part) p) rest
read_text-prefix p part rest h = rw (read_text-append p part rest, read_text-part p part h) refl

-- The rest of a `data:` field, from the middle of a line on, and the blank line after it
read_text-data_lines :
    (p : SseParser) (front text rest : List ℕ)
    → read_text (with_buffer (data_line front) p) (data_lines text ++ 10 ∷ rest)
      ≡ read_text (record p { buffer = []; data' = p.data' ++ lines_after front text }) (10 ∷ rest)
unfolding data_lines
read_text-data_lines p front [] rest = read_text-data_line p front (10 ∷ rest)
read_text-data_lines p front (c ∷ cs) rest = elim (Bool-cases (c == 10)) [
  | inl ends ↦
      let q : SseParser = record p { buffer = []; data' = p.data' ++ front ∷ [] } in
      rw (ends, data_lines)
        (read_text-data_line p front (codes "data: " ++ (data_lines cs ++ 10 ∷ rest))
          ∙ (read_text-prefix q (codes "data: ") (data_lines cs ++ 10 ∷ rest)
                (refl, (refl, (refl, (refl, (refl, (refl, tt))))))
              ∙ (read_text-data_lines q [] cs rest
                  ∙ rw (append_assoc p.data' (front ∷ []) (lines_after [] cs)) refl)))
  | inr part ↦
      rw (part, data_lines)
        (read_text-prefix (with_buffer (data_line front) p) (c ∷ []) (data_lines cs ++ 10 ∷ rest)
            (part, tt)
          ∙ read_text-data_lines p (front ++ c ∷ []) cs rest)
]

-- The data of an event, after its name
read_text-data :
    (name : Option (List ℕ)) (text rest : List ℕ)
    → read_text
        (record new_parser { event = name })
        (codes "data: " ++ (data_lines text ++ 10 ∷ rest))
      ≡ (
        (read_text new_parser rest).0,
        (record { event = name; data' = text }) ∷ (read_text new_parser rest).1,
      )
unfolding read_text read_char handle_line dispatch_event
read_text-data name text rest =
    let p : SseParser = record new_parser { event = name } in
    let (l, ls, e) = lines_after-cons [] text in
    read_text-prefix p (codes "data: ") (data_lines text ++ 10 ∷ rest)
      (refl, (refl, (refl, (refl, (refl, (refl, tt))))))
    ∙ (read_text-data_lines p [] text rest
        ∙ blank l ls e (ap join_lines (sym e) ∙ join_lines-lines_after [] text))
  where
    blank :
        (l : List ℕ) (ls : List (List ℕ))
        → lines_after [] text ≡ l ∷ ls
        → join_lines (l ∷ ls) ≡ text
        → read_text (record { buffer = []; event = name; data' = lines_after [] text }) (10 ∷ rest)
          ≡ (
            (read_text new_parser rest).0,
            (record { event = name; data' = text }) ∷ (read_text new_parser rest).1,
          )
    blank l ls e whole = rw (e, whole) refl

-- An event that the format can express: no "\r", and a name of one line that is not empty
abbrev pub IsPlainName : Option (List ℕ) → Type 0
IsPlainName none = Unit
IsPlainName (some []) = ⊥
IsPlainName (some (c ∷ cs)) = Lacks 10 (c ∷ cs) × Lacks 13 (c ∷ cs)

abbrev pub IsPlain : SseEvent → Type 0
IsPlain ev = IsPlainName ev.event × Lacks 13 ev.data'

read_text-event_line :
    (name : Option (List ℕ)) (rest : List ℕ)
    → IsPlainName name
    → read_text new_parser (event_line name ++ rest)
      ≡ read_text (record new_parser { event = name }) rest
read_text-event_line none rest h = refl
read_text-event_line (some []) rest h = absurd h
read_text-event_line (some (c ∷ cs)) rest (line, clean) = rw (append_assoc cs (10 ∷ []) rest) (
    read_text-line new_parser (codes "event: " ++ (c ∷ cs)) rest
      (refl, (refl, (refl, (refl, (refl, (refl, (refl, line)))))))
    ∙ rw (handle_line-event new_parser (c ∷ cs)) refl)

read_text-encode :
    (ev : SseEvent) (rest : List ℕ)
    → IsPlain ev
    → read_text new_parser (encode ev ++ rest)
      ≡ ((read_text new_parser rest).0, ev ∷ (read_text new_parser rest).1)
unfolding encode
read_text-encode ev rest (h, h') =
    rw
      (
        append_assoc (event_line ev.event) (codes "data: " ++ (data_lines ev.data' ++ 10 ∷ []))
            rest,
        append_assoc (data_lines ev.data') (10 ∷ []) rest,
      )
      (read_text-event_line ev.event (codes "data: " ++ (data_lines ev.data' ++ 10 ∷ rest)) h
        ∙ read_text-data ev.event ev.data' rest)

-- The encodings of events, one after the other
abbrev pub encode_all : List SseEvent → List ℕ
encode_all [] = []
encode_all (ev ∷ evs) = encode ev ++ encode_all evs

read_text-encode_all :
    (evs : List SseEvent)
    → All IsPlain evs
    → read_text new_parser (encode_all evs) ≡ (new_parser, evs)
unfolding read_text
read_text-encode_all [] h = refl
read_text-encode_all (ev ∷ evs) (h, hs) =
    read_text-encode ev (encode_all evs) h ∙ rw (read_text-encode_all evs hs) refl

Lacks-joined : (t : ℕ) (texts : List (List ℕ)) → Lacks t (joined texts) → All (Lacks t) texts
Lacks-joined t [] h = tt
Lacks-joined t (text ∷ texts) h = (
  All-prefix (λ c. (c == t) ≡ false) text (joined texts) h,
  Lacks-joined t texts (All-suffix (λ c. (c == t) ≡ false) text (joined texts) h),
)

Lacks-data_lines : (text : List ℕ) → Lacks 13 text → Lacks 13 (data_lines text)
unfolding data_lines
Lacks-data_lines [] h = (refl, tt)
Lacks-data_lines (c ∷ cs) (h, hs) = elim (Bool-cases (c == 10)) [
  | inl ends ↦
      rw (ends, data_lines)
        (refl, (refl, (refl, (refl, (refl, (refl, (refl, Lacks-data_lines cs hs)))))))
  | inr part ↦ rw (part, data_lines) (h, Lacks-data_lines cs hs)
]

clean_append : (xs ys : List ℕ) → Lacks 13 xs → Lacks 13 ys → Lacks 13 (xs ++ ys)
clean_append = All-append (λ c. (c == 13) ≡ false)

Lacks-event_line : (name : Option (List ℕ)) → IsPlainName name → Lacks 13 (event_line name)
Lacks-event_line none h = tt
Lacks-event_line (some []) h = absurd h
Lacks-event_line (some (c ∷ cs)) (line, (h, hs)) = (
  refl,
  (refl, (refl, (refl, (refl, (refl, (refl, (h, clean_append cs (10 ∷ []) hs (refl, tt)))))))),
)

Lacks-encode_all : (evs : List SseEvent) → All IsPlain evs → Lacks 13 (encode_all evs)
unfolding encode
Lacks-encode_all [] h = tt
Lacks-encode_all (ev ∷ evs) ((name, clean), hs) =
    clean_append (encode ev) (encode_all evs)
      (clean_append (event_line ev.event) (codes "data: " ++ (data_lines ev.data' ++ 10 ∷ []))
        (Lacks-event_line ev.event name)
        ((
          refl,
          (
            refl,
            (
              refl,
              (
                refl,
                (
                  refl,
                  (
                    refl,
                    clean_append (data_lines ev.data') (10 ∷ []) (Lacks-data_lines ev.data' clean)
                        (refl, tt),
                  ),
                ),
              ),
            ),
          ),
        )))
      (Lacks-encode_all evs hs)

-- A stream in chunks of bytes, each of which the parser decodes by itself
abbrev pub feed_bytes : (List ℕ → List ℕ) → SseParser → List (List ℕ) → SseParser × List SseEvent
feed_bytes decode p [] = (p, [])
feed_bytes decode p (chunk ∷ chunks) =
    let (q, events) = feed_chunk decode p chunk in
    let (q', later) = feed_bytes decode q chunks in (q', events ++ later)

feed_bytes-feed_chunks :
    (decode : List ℕ → List ℕ) (p : SseParser) (chunks : List (List ℕ))
    → feed_bytes decode p chunks ≡ feed_chunks p (map decode chunks)
unfolding feed_chunk
feed_bytes-feed_chunks decode p [] = refl
feed_bytes-feed_chunks decode p (chunk ∷ chunks) =
    rw (feed_bytes-feed_chunks decode (feed_text p (decode chunk)).0 chunks) refl

feed_chunks-encode_all :
    (evs : List SseEvent) (chunks : List (List ℕ))
    → All IsPlain evs
    → joined chunks ≡ encode_all evs
    → feed_chunks new_parser chunks ≡ (new_parser, evs)
feed_chunks-encode_all evs chunks h e =
    feed_chunks-read_text new_parser chunks (tt, tt)
      (Lacks-joined 13 chunks (subst (Lacks 13) (sym e) (Lacks-encode_all evs h)))
    ∙ (ap (read_text new_parser) e ∙ read_text-encode_all evs h)

-- However the bytes of a stream of events are split into chunks, as long as the chunks, decoded each by
-- itself, make up its text, as they do if no character is cut, what the parser reads from the chunks is the
-- events, and it holds nothing in the end. The events are those that the format can express: neither the
-- data nor the name has a "\r", and the name is one line, not empty, or there is none.
pub feed_bytes-encode_all :
    (decode : List ℕ → List ℕ) (evs : List SseEvent) (chunks : List (List ℕ))
    → All IsPlain evs
    → joined (map decode chunks) ≡ encode_all evs
    → feed_bytes decode new_parser chunks ≡ (new_parser, evs)
feed_bytes-encode_all decode evs chunks h e =
    feed_bytes-feed_chunks decode new_parser chunks
    ∙ feed_chunks-encode_all evs (map decode chunks) h e
