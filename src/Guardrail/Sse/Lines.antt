-- ===== src/Guardrail/Sse/Lines.antt =====
-- The loop of `feed` as a reading of one character after the other:
-- llm-gateway-guardrail/src/llm_guardrail/sse.py, on a text without "\r".
use quilr_ai_mcp.Prelude.{
  ℕ, zero, suc, ◌≤◌, ◌≡◌, ◌⊎◌, inl, inr, Bool-cases, refl, ◌∙◌, ap, sym, false, none, some, List,
  [], ◌∷◌, ◌++◌, arith, ◌==◌, length, length-append, if◌then◌else◌, All, All-append, All-suffix,
}
use mathlib.Core.Path.{subst}
use mathlib.Core.List.{append_assoc, append-nil}
use quilr_ai_mcp.Guardrail.Sse.{
  SseEvent, SseParser, split_at, split_pair, not_last, find_line_end, dispatch_event, handle_line,
  handle_field, drain_line, drain, feed_text, field_of,
}

-- A text without a character
abbrev pub Lacks : ℕ → List ℕ → Type 0
Lacks t = All (λ c. (c == t) ≡ false)

abbrev pub with_buffer : List ℕ → SseParser → SseParser
with_buffer b p = record p { buffer = b }

-- One character: the end of the line in the buffer, or a part of it.
unfoldable pub read_char : SseParser → ℕ → SseParser × List SseEvent
read_char p c =
    if c == 10
    then handle_line (with_buffer [] p) p.buffer
    else (with_buffer (p.buffer ++ c ∷ []) p, [])

unfoldable pub read_text : SseParser → List ℕ → SseParser × List SseEvent
unfolding read_char
read_text p [] = (p, [])
read_text p (c ∷ cs) =
    let (q, events) = read_char p c in let (q', later) = read_text q cs in (q', events ++ later)

pub read_text-append :
    (p : SseParser) (xs ys : List ℕ)
    → read_text p (xs ++ ys) ≡ (
      (read_text (read_text p xs).0 ys).0,
      (read_text p xs).1 ++ (read_text (read_text p xs).0 ys).1,
    )
unfolding read_text
read_text-append p [] ys = refl
read_text-append p (c ∷ cs) ys = rw (read_text-append (read_char p c).0 cs ys) (
    rw
      (append_assoc (read_char p c).1 (read_text (read_char p c).0 cs).1
        (read_text (read_text (read_char p c).0 cs).0 ys).1)
      refl)

-- A part of a line goes to the buffer.
pub read_text-part :
    (p : SseParser) (part : List ℕ)
    → Lacks 10 part
    → read_text p part ≡ (with_buffer (p.buffer ++ part) p, [])
unfolding read_text read_char
read_text-part p [] h = rw (append-nil p.buffer) refl
read_text-part p (c ∷ cs) (h, hs) =
    rw
      (
        h,
        read_char,
        read_text-part (with_buffer (p.buffer ++ c ∷ []) p) cs hs,
        append_assoc p.buffer (c ∷ []) cs,
      )
      refl

-- A line is handled whatever the buffer holds.
handle_field-with_buffer :
    (p : SseParser) (f : List ℕ × List ℕ) (b : List ℕ)
    → handle_field (with_buffer b p) f ≡ with_buffer b (handle_field (with_buffer [] p) f)
unfolding handle_field
handle_field-with_buffer p f b = ground arith

dispatch_event-with_buffer :
    (p : SseParser) (b : List ℕ)
    → dispatch_event (with_buffer b p)
      ≡ (with_buffer b (dispatch_event (with_buffer [] p)).0, (dispatch_event (with_buffer [] p)).1)
unfolding dispatch_event
dispatch_event-with_buffer p b = ground arith

handle_line-with_buffer :
    (p : SseParser) (line b : List ℕ)
    → handle_line (with_buffer b p) line ≡ (
      with_buffer b (handle_line (with_buffer [] p) line).0,
      (handle_line (with_buffer [] p) line).1,
    )
unfolding handle_line
handle_line-with_buffer p [] b = dispatch_event-with_buffer p b
handle_line-with_buffer p (c ∷ cs) b =
    ground (arith, handle_field-with_buffer p (field_of (c ∷ cs)) b)

-- Where the next line ends.
abbrev SplitCase : ℕ → List ℕ → Type 0
SplitCase t b =
    ((split_at t b ≡ none) × Lacks t b)
    ⊎ ((line rest : List ℕ) × (split_at t b ≡ some (line, rest))
        × Lacks t line
        × (b ≡ line ++ t ∷ rest))

split_at-cases : (t : ℕ) (b : List ℕ) → SplitCase t b
unfolding split_at
split_at-cases t [] = inl (refl, tt)
split_at-cases t (c ∷ cs) = elim (Bool-cases (c == t)) [
  | inl here ↦
      let same : c ≡ t = ground (arith, here) in inr ([], cs, rw here refl, tt, rw same refl)
  | inr other ↦ elim (split_at-cases t cs) [
    | inl (nowhere, lacks) ↦ inl (rw (other, nowhere) refl, (other, lacks))
    | inr (line, rest, found, lacks, e) ↦
        inr (c ∷ line, rest, rw (other, found) refl, (other, lacks), rw e refl)
  ]
]

split_at-Lacks : (t : ℕ) (b : List ℕ) → Lacks t b → split_at t b ≡ none
unfolding split_at
split_at-Lacks t [] h = refl
split_at-Lacks t (c ∷ cs) (h, hs) = ground (arith, h, split_at-Lacks t cs hs)

split_pair-Lacks : (b : List ℕ) → Lacks 13 b → split_pair b ≡ none
unfolding split_pair
split_pair-Lacks [] h = refl
split_pair-Lacks (c ∷ cs) (h, hs) = ground (arith, h, split_pair-Lacks cs hs)

find_line_end-Lacks : (b : List ℕ) → Lacks 13 b → find_line_end b ≡ split_at 10 b
unfolding find_line_end not_last
find_line_end-Lacks b h = rw (split_pair-Lacks b h, split_at-Lacks 13 b h) (ground arith)

length-suffix : (xs ys : List ℕ) → length ys ≤ length (xs ++ ys)
length-suffix xs ys = omega (arith, length-append xs ys)

-- A line, its end, and what follows.
pub read_text-line :
    (p : SseParser) (line rest : List ℕ)
    → Lacks 10 line
    → read_text (with_buffer [] p) (line ++ 10 ∷ rest) ≡ (
      (read_text (handle_line (with_buffer [] p) line).0 rest).0,
      (handle_line (with_buffer [] p) line).1
          ++ (read_text (handle_line (with_buffer [] p) line).0 rest).1,
    )
unfolding read_text read_char
read_text-line p line rest h =
    rw
      (
        read_text-append (with_buffer [] p) line (10 ∷ rest),
        read_text-part (with_buffer [] p) line h,
      )
      refl

-- A line that is handled leaves the buffer empty.
pub handle_line-empty :
    (p : SseParser) (line : List ℕ)
    → with_buffer [] (handle_line (with_buffer [] p) line).0
      ≡ (handle_line (with_buffer [] p) line).0
handle_line-empty p line = sym (ap (λ r. r.0) (handle_line-with_buffer p line []))

-- The loop reads the whole buffer.
drain-read_text :
    (fuel : ℕ) (p : SseParser) (b : List ℕ)
    → length b ≤ fuel
    → Lacks 13 b
    → drain fuel (with_buffer b p) ≡ read_text (with_buffer [] p) b
unfolding drain drain_line
drain-read_text zero p [] le h = sym (read_text-part (with_buffer [] p) [] tt)
drain-read_text zero p (c ∷ cs) le h = absurd (omega (arith, le))
drain-read_text (suc fuel) p b le h = rw (find_line_end-Lacks b h) (elim (split_at-cases 10 b) [
  | inl (nowhere, lacks) ↦ rw nowhere (sym (read_text-part (with_buffer [] p) b lacks))
  | inr (line, rest, found, lacks, e) ↦
      let small : length rest ≤ fuel =
        (let longer = length-suffix line (10 ∷ rest) in
          omega (arith, le, ap (λ t. length t) e, longer)) in
      let clean : Lacks 13 rest =
        (All-suffix (λ c. (c == 13) ≡ false) line (10 ∷ rest) (subst (Lacks 13) e h)).1 in
      let q = (handle_line (with_buffer [] p) line).0 in
      let more : drain fuel (with_buffer rest q) ≡ read_text q rest =
        drain-read_text fuel q rest small clean
        ∙ ap (λ x. read_text x rest) (handle_line-empty p line) in
      rw (found, handle_line-with_buffer p line rest, more, e, read_text-line p line rest lacks)
        refl
])

-- A text without "\r" is read one character after the other.
pub feed_text-read_text :
    (p : SseParser) (text : List ℕ)
    → Lacks 10 p.buffer
    → Lacks 13 p.buffer
    → Lacks 13 text
    → feed_text p text ≡ read_text p text
unfolding feed_text
feed_text-read_text p text line clean clean' =
    drain-read_text (length (p.buffer ++ text)) p (p.buffer ++ text) (omega arith)
      (All-append (λ c. (c == 13) ≡ false) p.buffer text clean clean')
    ∙ rw
        (
          read_text-append (with_buffer [] p) p.buffer text,
          read_text-part (with_buffer [] p) p.buffer line,
        )
        refl

-- The buffer holds a part of a line.
abbrev pub IsOpen : SseParser → Type 0
IsOpen p = Lacks 10 p.buffer × Lacks 13 p.buffer

IsOpen-read_char : (p : SseParser) (c : ℕ) → IsOpen p → (c == 13) ≡ false → IsOpen (read_char p c).0
unfolding read_char
IsOpen-read_char p c (line, clean) h = elim (Bool-cases (c == 10)) [
  | inl ends ↦ rw (ends, read_char) (subst IsOpen (handle_line-empty p p.buffer) (tt, tt))
  | inr part ↦
      rw (part, read_char)
        (
          All-append (λ x. (x == 10) ≡ false) p.buffer (c ∷ []) line (part, tt),
          All-append (λ x. (x == 13) ≡ false) p.buffer (c ∷ []) clean (h, tt),
        )
]

pub IsOpen-read_text :
    (p : SseParser) (text : List ℕ) → IsOpen p → Lacks 13 text → IsOpen (read_text p text).0
unfolding read_text
IsOpen-read_text p [] is h = is
IsOpen-read_text p (c ∷ cs) is (h, hs) =
    IsOpen-read_text (read_char p c).0 cs (IsOpen-read_char p c is h) hs
