-- ===== src/Policy/Checksum/Iban.antt =====
-- The IBAN check of policy/pii.go against ISO 13616: the number that the letters and digits spell.
use agentops_open_course.Policy.Checksum.{iban_remainder, is_digit, passes_iban_checksum}
use agentops_open_course.Prelude.{
  Text, ℕ, ◌%◌, Option, some, ◌≡◌, ◌∷◌, ◌*◌, ◌+◌, ◌-◌, if◌then◌else◌, leb, ◌&&◌, none, [], refl,
  arith, true, ◌↔◌, ◌≤◌, length, drop, ◌++◌, take, ◌==◌, false, Bool,
}

-- The number itself, without the remainder taken at each step.
abbrev pub spelled : Text → ℕ → Option ℕ
spelled [] value = some value
spelled (c ∷ cs) value =
    let digit = spelled cs (value * 10 + (c - b'0')) in
    let letter = spelled cs (value * 100 + (c - b'A') + 10) in
    if is_digit c then digit else if leb b'A' c && leb c b'Z' then letter else none

iban_remainder_lem :
    (text : Text) (value : ℕ)
    → iban_remainder text (value % 97)
      ≡ (elim (spelled text value) [ some n ↦ some (n % 97) | none ↦ none ])
unfolding iban_remainder
iban_remainder_lem [] value = refl
iban_remainder_lem (c ∷ cs) value =
    let digit = iban_remainder_lem cs (value * 10 + (c - 48)) in
    let letter = iban_remainder_lem cs (value * 100 + (c - 65) + 10) in
    let e : (value % 97 * 10 + (c - 48)) % 97 ≡ (value * 10 + (c - 48)) % 97 = omega arith in
    let f : (value % 97 * 100 + (c - 65) + 10) % 97 ≡ (value * 100 + (c - 65) + 10) % 97 =
      omega arith in
    rw (e, f) (ground (arith, digit, letter))

remainder_one :
    (number : Option ℕ)
    → ((elim (elim number as (λ x. Option ℕ) [ some n ↦ some (n % 97) | none ↦ none ])
          as (λ x. Bool) [ some remainder ↦ remainder == 1 | none ↦ false ])
        ≡ true)
      ↔ ((value : ℕ) × (number ≡ some value) × (value % 97 ≡ 1))
remainder_one none = (λ h. ground (arith, h), λ (v, h, k). ground (arith, h))
remainder_one (some n) = (λ h. (n, refl, ground (arith, h)), λ (v, h, k). ground (arith, h, k))

-- A candidate passes exactly when it has 15 to 34 characters, all digits and capitals, and the number
-- it spells, with its first four characters moved to the end, leaves 1 on division by 97.
pub passes_iban_iff :
    (candidate : Text)
    → (passes_iban_checksum candidate ≡ true) ↔ (
        (15 ≤ length candidate)
        × (length candidate ≤ 34)
        × ((value : ℕ) × (spelled (drop 4 candidate ++ take 4 candidate) 0 ≡ some value)
            × (value % 97 ≡ 1)))
unfolding passes_iban_checksum
passes_iban_iff candidate =
    let e = iban_remainder_lem (drop 4 candidate ++ take 4 candidate) 0 in
    let (to, from) = remainder_one (spelled (drop 4 candidate ++ take 4 candidate) 0) in
    rw e (
      λ h. (ground (arith, h), ground (arith, h), to (ground (arith, h))),
      λ (a, b, n). ground (arith, a, b, from n),
    )
