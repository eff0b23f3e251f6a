-- ===== src/Router/Tokens/Stream/Chunks.antt =====
-- The collector does not depend on where the transport cuts the text.
use mathlib.Core.List.{append_assoc}
use quilr_ai_mcp.Prelude.{
  ℕ, ◌≡◌, refl, sym, List, [], ◌∷◌, ◌++◌, arith, Option, ◌==◌, Bool-cases, inl, inr, false, codes,
  none, some, Option-cases,
}
use quilr_ai_mcp.Prelude.Json.{Json, obj}
use quilr_ai_mcp.Prelude.Text.{strip, drop_prefix}
use quilr_ai_mcp.Router.Tokens.Stream.{
  StreamUsageCollector, push_char, split_lines, add_input, set_output, take_usage, consume_event,
  consume_payload, consume, consume_lines, feed,
}

-- The lines and the rest of two texts read one after the other.
abbrev resume : List (List ℕ) × List ℕ → List ℕ → List (List ℕ) × List ℕ
resume (ls, rest) b = let (ls', rest') = split_lines (rest ++ b) in (ls ++ ls', rest')

resume-push_char :
    (c : ℕ) (r : List (List ℕ) × List ℕ) (b : List ℕ)
    → (c == 10) ≡ false
    → resume (push_char c r) b ≡ push_char c (resume r b)
unfolding push_char split_lines
resume-push_char c ([], rest) b h = rw h
resume-push_char c (l ∷ ls, rest) b h = refl

split_lines-append : (a b : List ℕ) → split_lines (a ++ b) ≡ resume (split_lines a) b
unfolding split_lines
split_lines-append [] b = refl
split_lines-append (c ∷ cs) b = elim (Bool-cases (c == 10)) [
  | inl e ↦ rw (e, split_lines-append cs b) refl
  | inr e ↦ rw (e, split_lines-append cs b) (sym (resume-push_char c _ b e))
]

-- The counters do not read the buffer.
module _ (x : List ℕ) where
  abbrev with_buffer : StreamUsageCollector → StreamUsageCollector
  with_buffer c = record c { buffer = x }

  add_input-with_buffer :
      (c : StreamUsageCollector) (o : Option ℕ)
      → add_input (with_buffer c) o ≡ with_buffer (add_input c o)
  unfolding add_input
  add_input-with_buffer c none = refl
  add_input-with_buffer c (some n) = refl

  set_output-with_buffer :
      (c : StreamUsageCollector) (o : Option ℕ)
      → set_output (with_buffer c) o ≡ with_buffer (set_output c o)
  unfolding set_output
  set_output-with_buffer c none = refl
  set_output-with_buffer c (some n) = refl

  take_usage-with_buffer :
      (c : StreamUsageCollector) (v : Json)
      → take_usage (with_buffer c) v ≡ with_buffer (take_usage c v)
  unfolding take_usage
  take_usage-with_buffer c (obj usage) = simp (add_input-with_buffer, set_output-with_buffer)
  take_usage-with_buffer c _ = refl

  module _ (loads : List ℕ → Option Json) where
    consume_event-with_buffer :
        (c : StreamUsageCollector) (o : Option Json)
        → consume_event loads (with_buffer c) o ≡ with_buffer (consume_event loads c o)
    unfolding consume_event
    consume_event-with_buffer c (some (obj event)) = take_usage-with_buffer c _
    consume_event-with_buffer c _ = refl

    consume_payload-with_buffer :
        (c : StreamUsageCollector) (payload : List ℕ)
        → consume_payload loads (with_buffer c) payload
          ≡ with_buffer (consume_payload loads c payload)
    unfolding consume_payload
    consume_payload-with_buffer c [] = refl
    consume_payload-with_buffer c (d ∷ ds) =
        ground (arith, consume_event-with_buffer c (loads (d ∷ ds)))

    consume-with_buffer :
        (c : StreamUsageCollector) (line : List ℕ)
        → consume loads (with_buffer c) line ≡ with_buffer (consume loads c line)
    unfolding consume
    consume-with_buffer c line = elim (Option-cases (drop_prefix (codes "data:") line)) [
      | inl e ↦ rw (e, consume)
      | inr (rest, e) ↦ rw (e, consume) (consume_payload-with_buffer c (strip rest))
    ]

    consume_lines-with_buffer :
        (c : StreamUsageCollector) (ls : List (List ℕ))
        → consume_lines loads (with_buffer c) ls ≡ with_buffer (consume_lines loads c ls)
    unfolding consume_lines
    consume_lines-with_buffer c [] = refl
    consume_lines-with_buffer c (l ∷ ls) =
        rw consume-with_buffer (consume_lines-with_buffer (consume loads c (strip l)) ls)

module _ (loads : List ℕ → Option Json) where
  consume_lines-append :
      (c : StreamUsageCollector) (xs ys : List (List ℕ))
      → consume_lines loads c (xs ++ ys) ≡ consume_lines loads (consume_lines loads c xs) ys
  unfolding consume_lines
  consume_lines-append c [] ys = refl
  consume_lines-append c (l ∷ xs) ys = consume_lines-append (consume loads c (strip l)) xs ys

  -- Fed in two pieces, a text leaves the collector as it does when it is fed whole.
  pub feed-append :
      (c : StreamUsageCollector) (a b : List ℕ)
      → feed loads (feed loads c a) b ≡ feed loads c (a ++ b)
  unfolding feed
  feed-append c a b =
      let first = split_lines (c.buffer ++ a) in
      let second = split_lines (first.1 ++ b) in
      rw (← append_assoc c.buffer a b, split_lines-append (c.buffer ++ a) b)
        (rw
          (
            consume_lines-append c first.0 second.0,
            consume_lines-with_buffer first.1 loads (consume_lines loads c first.0) second.0,
          )
          refl)
