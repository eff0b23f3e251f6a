-- ===== src/Guardrail/Luhn/Errors.antt =====
-- What the checksum detects: llm-gateway-guardrail/src/llm_guardrail/patterns.py, `luhn_valid`.
use quilr_ai_mcp.Prelude.{
  ℕ, ◌+◌, ◌%◌, ◌≤◌, suc, ◌≡◌, ◌≢◌, refl, Bool, true, false, Option, some, List, [], ◌∷◌, ◌++◌,
  arith, ◌==◌, length, length-append, inl, inr, ◌∙◌, sym, Bool-cases,
}
use mathlib.Core.Path.{subst}
use quilr_ai_mcp.Guardrail.Luhn.{weigh, checksum, numbers_of, luhn_valid}

numbers_of-append :
    (digit_of : ℕ → Option ℕ) (xs ys : List ℕ)
    → numbers_of digit_of (xs ++ ys) ≡ numbers_of digit_of xs ++ numbers_of digit_of ys
unfolding numbers_of
numbers_of-append digit_of [] ys = refl
numbers_of-append digit_of (x ∷ xs) ys = ground (arith, numbers_of-append digit_of xs ys)

checksum-append :
    (index parity : ℕ) (xs ys : List ℕ)
    → checksum index parity (xs ++ ys)
      ≡ checksum index parity xs + checksum (index + length xs) parity ys
unfolding checksum
checksum-append index parity [] ys = ground arith
checksum-append index parity (x ∷ xs) ys = ground (arith, checksum-append (suc index) parity xs ys)

weigh-le : (b : Bool) (d : ℕ) → d ≤ 9 → weigh b d ≤ 9
unfolding weigh
weigh-le b d h = ground arith

weigh-injective : (b : Bool) (d e : ℕ) → d ≤ 9 → e ≤ 9 → weigh b d ≡ weigh b e → d ≡ e
unfolding weigh
weigh-injective true d e hd he h = ground arith
weigh-injective false d e hd he h = ground arith

-- The part of the checksum that does not depend on the digit after `xs`.
rest_of : ℕ → List ℕ → List ℕ → ℕ
rest_of parity xs ys = checksum 0 parity xs + checksum (suc (length xs)) parity ys

checksum_middle :
    (parity : ℕ) (xs ys : List ℕ) (d : ℕ)
    → checksum 0 parity (xs ++ d ∷ ys) ≡ weigh (length xs % 2 == parity) d + rest_of parity xs ys
unfolding checksum rest_of
checksum_middle parity xs ys d =
    checksum-append 0 parity xs (d ∷ ys) ∙ from_zero (length xs) (omega arith)
  where
    from_zero :
        (n : ℕ)
        → 0 + n ≡ n
        → checksum 0 parity xs + checksum (0 + n) parity (d ∷ ys)
          ≡ weigh (n % 2 == parity) d + (checksum 0 parity xs + checksum (suc n) parity ys)
    from_zero n e = rw e (omega arith)

same_residue : (a u v : ℕ) → u ≤ 9 → v ≤ 9 → (u + a) % 10 ≡ 0 → (v + a) % 10 ≡ 0 → u ≡ v
same_residue a u v hu hv pu pv = omega arith

-- Two numbers that differ in one digit do not both pass.
checksum_digit :
    (parity : ℕ) (xs ys : List ℕ) (d e : ℕ)
    → d ≤ 9
    → e ≤ 9
    → checksum 0 parity (xs ++ d ∷ ys) % 10 ≡ 0
    → checksum 0 parity (xs ++ e ∷ ys) % 10 ≡ 0
    → d ≡ e
checksum_digit parity xs ys d e hd he pd pe =
    let b = length xs % 2 == parity in
    weigh-injective b d e hd he (
      same_residue (rest_of parity xs ys) (weigh b d) (weigh b e) (weigh-le b d hd)
        (weigh-le b e he) (subst (λ n. n % 10 ≡ 0) (checksum_middle parity xs ys d) pd)
        (subst (λ n. n % 10 ≡ 0) (checksum_middle parity xs ys e) pe))

luhn_valid-checksum :
    (digit_of : ℕ → Option ℕ) (s : List ℕ)
    → luhn_valid digit_of s ≡ true
    → let numbers = numbers_of digit_of s in checksum 0 (length numbers % 2) numbers % 10 ≡ 0
unfolding luhn_valid
luhn_valid-checksum digit_of s h = ground (arith, h)

numbers_of-middle :
    (digit_of : ℕ → Option ℕ) (xs ys : List ℕ) (c d : ℕ)
    → digit_of c ≡ some d
    → numbers_of digit_of (xs ++ c ∷ ys) ≡ numbers_of digit_of xs ++ d ∷ numbers_of digit_of ys
unfolding numbers_of
numbers_of-middle digit_of xs ys c d h = ground (arith, h, numbers_of-append digit_of xs (c ∷ ys))

-- Every single mistyped digit is detected: of two texts that differ in one digit character, standing
-- for different digits, the checksum accepts at most one.
pub luhn_valid_digit :
    (digit_of : ℕ → Option ℕ) (xs ys : List ℕ) (c c' d d' : ℕ)
    → digit_of c ≡ some d
    → digit_of c' ≡ some d'
    → d ≤ 9
    → d' ≤ 9
    → d ≢ d'
    → luhn_valid digit_of (xs ++ c ∷ ys) ≡ true
    → luhn_valid digit_of (xs ++ c' ∷ ys) ≡ false
luhn_valid_digit digit_of xs ys c c' d d' hc hc' hd hd' ne valid =
    elim (Bool-cases (luhn_valid digit_of (xs ++ c' ∷ ys))) [
      | inr refused ↦ refused
      | inl accepted ↦ elim (ne (both accepted)) [ ]
    ]
  where
    before : List ℕ
    before = numbers_of digit_of xs

    after : List ℕ
    after = numbers_of digit_of ys

    both : luhn_valid digit_of (xs ++ c' ∷ ys) ≡ true → d ≡ d'
    both accepted =
        let one =
          subst (λ n. checksum 0 (length n % 2) n % 10 ≡ 0)
            (numbers_of-middle digit_of xs ys c d hc)
            (luhn_valid-checksum digit_of (xs ++ c ∷ ys) valid) in
        let other =
          subst (λ n. checksum 0 (length n % 2) n % 10 ≡ 0)
            (numbers_of-middle digit_of xs ys c' d' hc')
            (luhn_valid-checksum digit_of (xs ++ c' ∷ ys) accepted) in
        checksum_digit (length (before ++ d ∷ after) % 2) before after d d' hd hd' one (
          subst (λ k. checksum 0 (k % 2) (before ++ d' ∷ after) % 10 ≡ 0)
            (length-append before (d' ∷ after) ∙ sym (length-append before (d ∷ after))) other)
