-- ===== src/Guardrail/Tests/Redaction.antt =====
-- Runs of the redactor with two small patterns, and instances of its theorems.
use quilr_ai_mcp.Prelude.{
  ℕ, suc, ◌+◌, ◌-◌, ◌≤◌, ◌≡◌, refl, Bool, Bool-cases, inr, true, false, Option, none, some, List,
  [], ◌∷◌, ◌++◌, arith, leb, ltb, ◌==◌, ◌&&◌, length, codes, inl, if◌then◌else◌,
}
use mathlib.Core.Path.{subst}
use quilr_ai_mcp.Prelude.Dict.{get, put}
use quilr_ai_mcp.Prelude.Text.{take, drop, slice}
use quilr_ai_mcp.Guardrail.Regex.{one, Matches}
use quilr_ai_mcp.Guardrail.Patterns.{Match, Pattern, accepts}
use quilr_ai_mcp.Guardrail.Redactor.{
  RedactionStats, RedactorConfig, StreamRedactor, new_redactor, no_stats, count_match, back_off,
  validated_end, judge_match, find_next, redact_from, redact_pattern, redact,
}
use quilr_ai_mcp.Guardrail.Redactor.Feeding.{
  earliest_of, earliest_in, holdback_index, split_run, resume, drop_suppressed_prefix, fail_closed,
  enforce_ceiling, account, emit_split, absorb, feed_redactor, feed_all, flush_redactor,
  finish_flush, process,
}
use quilr_ai_mcp.Guardrail.Redactor.Holding.{Held, feed_all-Held}
use quilr_ai_mcp.Guardrail.Redactor.Matching.{IsEngine}
use quilr_ai_mcp.Guardrail.Redactor.Spans.{RedactedBy, redact-RedactedBy}
use quilr_ai_mcp.Guardrail.Redactor.Spans.Fuel.{redact_from_fuel}
use quilr_ai_mcp.Guardrail.Redactor.Suppression.{settled, woken, feed_all-resumed}

-- Names every function that a redaction calls.
unfoldable pub redactor_program : Unit {0}
unfolding get put take drop accepts count_match back_off validated_end judge_match find_next
    redact_from redact_pattern redact earliest_of earliest_in holdback_index split_run resume
    drop_suppressed_prefix fail_closed enforce_ceiling account emit_split absorb feed_redactor
    feed_all flush_redactor finish_flush process
redactor_program = tt

-- The first "#" from a position on; the text starts at index `i`.
abbrev pub locate : ℕ → ℕ → List ℕ → Option (ℕ × ℕ)
locate from i [] = none
locate from i (c ∷ cs) =
    let later = locate from (i + 1) cs in if c == 35 && leb from i then some (i, i + 1) else later

-- Where the text's last run of the letter "a" begins.
abbrev pub trailing : ℕ → ℕ → List ℕ → List Match
trailing i start [] =
    if ltb start i then (record { start = start; finish = i; partial = true }) ∷ [] else []
trailing i start (c ∷ cs) = trailing (i + 1) (if c == 97 then start else i + 1) cs

-- Does the text start with "#"?
abbrev pub starts : List ℕ → Bool
starts [] = false
starts (c ∷ cs) = c == 35

abbrev pub hash : Pattern
hash = record {
  name = "hash";
  expression = one (λ c. c == 35);
  search = λ text from. locate from 0 text;
  match_within = λ text s limit. if ltb s limit && starts (drop s text) then some (s + 1) else none;
  find_partial = λ text. trailing 0 0 text;
  max_length = 1;
  validate = some (λ span. length span == 1);
  validate_min_length = 1;
}

abbrev pub config : RedactorConfig
config = record {
  patterns = hash ∷ [];
  placeholder = codes "[X]";
  max_holdback = 3;
  is_run = λ c. c == 97;
}

process-split : process config (codes "b#c" ∷ codes "d#e" ∷ []) ≡ codes "b[X]cd[X]e"
unfolding redactor_program
process-split = refl

-- The run outgrows the ceiling in the second piece, and ends in the third.
process-overflow : process config (codes "baa" ∷ codes "aa" ∷ codes "aab" ∷ []) ≡ codes "b[X]b"
unfolding redactor_program
process-overflow = refl

feed_all-Held_example : Held config (feed_all config (codes "baa" ∷ codes "aa" ∷ []) new_redactor).1
feed_all-Held_example =
    feed_all-Held config (codes "baa" ∷ codes "aa" ∷ []) new_redactor (omega arith, inl refl)

locate_bounds :
    (from i s e : ℕ) (t : List ℕ)
    → locate from i t ≡ some (s, e)
    → (from ≤ s) × (s ≤ e) × (e ≤ i + length t)
locate_bounds from i s e [] h = ground (arith, h)
locate_bounds from i s e (c ∷ cs) h = ground (arith, h, locate_bounds from (i + 1) s e cs)

locate-starts :
    (from i s e : ℕ) (t : List ℕ)
    → locate from i t ≡ some (s, e)
    → (e ≡ s + 1) × (i ≤ s) × (starts (drop (s - i) t) ≡ true)
unfolding drop
locate-starts from i s e [] h = ground (arith, h)
locate-starts from i s e (c ∷ cs) h = elim (Bool-cases (c == 35 && leb from i)) [
  | inl here ↦
      let same : s ≡ i = ground (arith, h, here) in
      let none_left : s - i ≡ 0 = omega (arith, same) in rw none_left (ground (arith, h, here))
  | inr later ↦
      let (next, after, found) = locate-starts from (i + 1) s e cs (ground (arith, h, later)) in
      let step : s - i ≡ suc (s - (i + 1)) = omega (arith, after) in
      (next, omega (arith, after), rw step found)
]

starts-slice : (t : List ℕ) → starts t ≡ true → take 1 t ≡ 35 ∷ []
unfolding take
starts-slice [] h = ground (arith, h)
starts-slice (c ∷ cs) h = let same : c ≡ 35 = ground (arith, h) in rw same refl

hash-Matches :
    (before after text : List ℕ) (s e : ℕ)
    → e ≡ s + 1
    → starts (drop s text) ≡ true
    → Matches hash.expression before (slice s e text) after
hash-Matches before after text s e next h =
    let one_long : e - s ≡ 1 = omega (arith, next) in
    (35, rw one_long (starts-slice (drop s text) h), refl)

hash-IsEngine : IsEngine hash
hash-IsEngine = record {
  searched = λ text from s e h.
      let (low, le, high) = locate_bounds from 0 s e text h in
      let (next, _, found) = locate-starts from 0 s e text h in
      let here : s - 0 ≡ s = omega arith in
      (
        low,
        le,
        omega (arith, high),
        hash-Matches (take s text) (drop e text) text s e next
            (subst (λ n. starts (drop n text) ≡ true) here found),
      );
  matched = λ text s limit e h. elim (Bool-cases (ltb s limit && starts (drop s text))) [
    | inr missed ↦ ground (arith, h, missed)
    | inl hit ↦
        let next : e ≡ s + 1 = ground (arith, h, hit) in
        let found : starts (drop s text) ≡ true = ground (arith, hit) in
        (
          omega (arith, next),
          ground (arith, next, hit),
          hash-Matches (take s text) (slice e limit text) text s e next found,
        )
  ];
}

redact-RedactedBy_example :
    RedactedBy config
      (hash ∷ [])
      (codes "b#c")
      (redact config false (hash ∷ []) (codes "b#c", no_stats)).0
redact-RedactedBy_example =
    redact-RedactedBy config false (hash ∷ []) (codes "b#c") no_stats (hash-IsEngine, tt)

redact_from_fuel_example :
    redact_from 5 config hash true (codes "b#c") 0 0 no_stats
    ≡ redact_from 9 config hash true (codes "b#c") 0 0 no_stats
redact_from_fuel_example =
    redact_from_fuel config hash hash-IsEngine true (codes "b#c") 5 9 0 0 no_stats (omega arith)
      (omega arith)

-- A redactor that already holds two letters of a run.
abbrev holding : StreamRedactor
holding = (feed_redactor config (codes "baa") new_redactor).1

gives_up : (feed_redactor config (codes "aa") holding).1.suppressing ≡ true
unfolding redactor_program
gives_up = refl

awake_holding : holding.suppressing ≡ false
unfolding redactor_program
awake_holding = refl

-- The run goes on for five more letters, in two pieces, and ends at the "b".
feed_all-resumed_example :
    (stats : RedactionStats) × (feed_all config
        (codes "aa" ∷ (codes "aaa" ∷ (codes "aa" ++ 98 ∷ codes "a") ∷ []))
        holding
      ≡ (
        (settled config (codes "aa") holding ++ config.placeholder)
            ++ (feed_redactor config (98 ∷ codes "a") (woken stats)).0,
        (feed_redactor config (98 ∷ codes "a") (woken stats)).1,
      ))
feed_all-resumed_example =
    feed_all-resumed config (codes "aa") (codes "aaa" ∷ []) (codes "aa") 98 (codes "a") holding
      awake_holding gives_up (ground arith, tt) (ground arith) refl
