-- ===== src/Guardrail/Sse/Draining.antt =====
-- The loop of `feed` ends with no whole line left: llm-gateway-guardrail/src/llm_guardrail/sse.py.
use quilr_ai_mcp.Prelude.{
  ℕ, zero, suc, ◌≤◌, ◌<◌, ◌≡◌, refl, Bool, true, false, none, some, List, [], ◌∷◌, arith, ◌==◌,
  length, if◌then◌else◌,
}
use quilr_ai_mcp.Guardrail.Sse.{
  SseParser, Split, prefix, split_at, split_pair, not_last, or_else, end_here, after_newline,
  find_line_end, dispatch_event, handle_line, handle_field, drain_line, drain, feed_text, field_of,
}

-- What follows a line end is shorter than the buffer.
abbrev Shortens : ℕ → Split → Type 0
Shortens n none = Unit
Shortens n (some (line, rest)) = length rest < n

Shortens-prefix : (n c : ℕ) (s : Split) → Shortens n s → Shortens (suc n) (prefix c s)
Shortens-prefix n c none h = tt
Shortens-prefix n c (some (line, rest)) h = omega (arith, h)

split_at-Shortens : (t : ℕ) (b : List ℕ) → Shortens (length b) (split_at t b)
unfolding split_at
split_at-Shortens t [] = tt
split_at-Shortens t (c ∷ cs) =
    go (c == t) (Shortens-prefix (length cs) c (split_at t cs) (split_at-Shortens t cs))
  where
    go :
        (b : Bool)
        → Shortens (suc (length cs)) (prefix c (split_at t cs))
        → Shortens (suc (length cs)) (if b then some ([], cs) else prefix c (split_at t cs))
    go true h = omega arith
    go false h = h

after_newline-Shortens :
    (cs : List ℕ) (later : Split)
    → Shortens (suc (length cs)) later
    → Shortens (suc (length cs)) (end_here (after_newline cs) later)
after_newline-Shortens [] later h = h
after_newline-Shortens (c ∷ cs) later h = go (c == 10)
  where
    go :
        (b : Bool) → Shortens (suc (suc (length cs))) (end_here (if b then some cs else none) later)
    go true = omega arith
    go false = h

split_pair-Shortens : (b : List ℕ) → Shortens (length b) (split_pair b)
unfolding split_pair
split_pair-Shortens [] = tt
split_pair-Shortens (c ∷ cs) =
    go (c == 13) (Shortens-prefix (length cs) c (split_pair cs) (split_pair-Shortens cs))
  where
    later : Split
    later = prefix c (split_pair cs)

    go :
        (b : Bool)
        → Shortens (suc (length cs)) later
        → Shortens (suc (length cs)) (if b then end_here (after_newline cs) later else later)
    go true h = after_newline-Shortens cs later h
    go false h = h

or_else-Shortens : (n : ℕ) (s t : Split) → Shortens n s → Shortens n t → Shortens n (or_else s t)
or_else-Shortens n none t hs ht = ht
or_else-Shortens n (some _) t hs ht = hs

not_last-Shortens : (n : ℕ) (s : Split) → Shortens n s → Shortens n (not_last s)
unfolding not_last
not_last-Shortens n none h = tt
not_last-Shortens n (some (line, [])) h = tt
not_last-Shortens n (some (line, c ∷ rest)) h = h

find_line_end-Shortens : (b : List ℕ) → Shortens (length b) (find_line_end b)
unfolding find_line_end
find_line_end-Shortens b = or_else-Shortens (length b) (split_pair b) _ (split_pair-Shortens b) (
    or_else-Shortens (length b) (split_at 10 b) _ (split_at-Shortens 10 b)
      (not_last-Shortens (length b) (split_at 13 b) (split_at-Shortens 13 b)))

-- A line is handled without touching the buffer.
buffer-handle_field : (p : SseParser) (f : List ℕ × List ℕ) → (handle_field p f).buffer ≡ p.buffer
unfolding handle_field
buffer-handle_field p f = ground arith

buffer-dispatch_event : (p : SseParser) → (dispatch_event p).0.buffer ≡ p.buffer
unfolding dispatch_event
buffer-dispatch_event p = ground arith

buffer-handle_line : (p : SseParser) (line : List ℕ) → (handle_line p line).0.buffer ≡ p.buffer
unfolding handle_line
buffer-handle_line p [] = buffer-dispatch_event p
buffer-handle_line p (c ∷ cs) = ground (arith, buffer-handle_field p (field_of (c ∷ cs)))

find_line_end-nil : (b : List ℕ) → length b ≤ 0 → find_line_end b ≡ none
unfolding find_line_end split_pair split_at not_last
find_line_end-nil [] h = refl
find_line_end-nil (c ∷ cs) h = ground (arith, h)

drain-find_line_end :
    (fuel : ℕ) (p : SseParser)
    → length p.buffer ≤ fuel
    → find_line_end (drain fuel p).0.buffer ≡ none
unfolding drain drain_line
drain-find_line_end zero p h = find_line_end-nil p.buffer h
drain-find_line_end (suc fuel) p h =
    go (find_line_end p.buffer) refl (find_line_end-Shortens p.buffer)
      (λ q small. drain-find_line_end fuel q small)
  where
    go :
        (s : Split)
        → find_line_end p.buffer ≡ s
        → Shortens (length p.buffer) s
        → ((q : SseParser) → length q.buffer ≤ fuel → find_line_end (drain fuel q).0.buffer ≡ none)
        → find_line_end (drain_line (λ q. drain fuel q) p s).0.buffer ≡ none
    go none e short more = e
    go (some (line, rest)) e short more =
        more _ (rw (buffer-handle_line (record p { buffer = rest }) line) (omega (arith, h, short)))

-- After a chunk has been fed, no whole line is left in the buffer: the fuel, which is the buffer's
-- length, is enough for every line that the chunk completes.
pub feed_text-find_line_end :
    (p : SseParser) (text : List ℕ) → find_line_end (feed_text p text).0.buffer ≡ none
unfolding feed_text
feed_text-find_line_end p text = drain-find_line_end _ _ (omega arith)
