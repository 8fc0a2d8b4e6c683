-- ===== src/Policy/Checksum.antt =====
-- agents/go/policy/pii.go: the checks that tell an identifier from a run of digits. A text is its
-- bytes; the source's loops over the runes of a match keep those of one byte only.
pub mod Luhn
pub mod Iban
use agentops_open_course.Prelude.{
  Text, ℕ, List, if◌then◌else◌, ◌∷◌, Option, Bool, ◌*◌, ltb, drop, some, length, not, ◌-◌, leb,
  ◌==◌, ◌++◌, [], ◌||◌, ◌+◌, ◌&&◌, false, ◌%◌, take, none,
}

abbrev pub is_digit : ℕ → Bool
is_digit c = leb b'0' c && leb c b'9'

-- The ASCII digits of a formatted identifier.
unfoldable pub decimal_digits : Text → List ℕ
decimal_digits [] = []
decimal_digits (c ∷ cs) =
    let rest = decimal_digits cs in if is_digit c then (c - b'0') ∷ rest else rest

-- What a doubled digit adds to the sum.
abbrev pub doubled : ℕ → ℕ
doubled value = if ltb 9 (2 * value) then 2 * value - 9 else 2 * value

-- What the loop of `luhnValid` carries from the last digit to the first.
pub record LuhnState : Type 0 where
  pub sum : ℕ
  pub double : Bool

-- The digits of the tail come first: the source counts its index down.
unfoldable pub luhn_loop : List ℕ → LuhnState
luhn_loop [] = record { sum = 0; double = false }
luhn_loop (value ∷ rest) =
    let state = luhn_loop rest in
    record {
      sum = state.sum + (if state.double then doubled value else value);
      double = not state.double;
    }

unfoldable pub luhn_valid : List ℕ → Bool
unfolding luhn_loop
luhn_valid digits = (luhn_loop digits).sum % 10 == 0

unfoldable pub passes_luhn : Text → Bool
unfolding decimal_digits luhn_valid
passes_luhn candidate =
    let digits = decimal_digits candidate in
    if ltb (length digits) 13 || ltb 19 (length digits) then false else luhn_valid digits

unfoldable pub passes_ca_sin_checksum : Text → Bool
unfolding decimal_digits luhn_valid
passes_ca_sin_checksum candidate =
    let digits = decimal_digits candidate in length digits == 9 && luhn_valid digits

-- A list of nine digits is told apart by its shape; every other length is refused.
ssn_groups : List ℕ → Bool
ssn_groups (a ∷ b ∷ c ∷ d ∷ e ∷ f ∷ g ∷ h ∷ i ∷ []) =
    let area = a * 100 + b * 10 + c in
    let group = d * 10 + e in
    let serial = f * 1000 + g * 100 + h * 10 + i in
    not (area == 0)
    && (not (area == 666) && (ltb area 900 && (not (group == 0) && not (serial == 0))))
ssn_groups _ = false

unfoldable pub is_valid_ssn : Text → Bool
unfolding decimal_digits ssn_groups
is_valid_ssn candidate = ssn_groups (decimal_digits candidate)

-- The loop of `passesIBANChecksum`: none at a character that is neither digit nor capital.
unfoldable pub iban_remainder : Text → ℕ → Option ℕ
iban_remainder [] remainder = some remainder
iban_remainder (c ∷ cs) remainder =
    let digit = iban_remainder cs ((remainder * 10 + (c - b'0')) % 97) in
    let letter = iban_remainder cs ((remainder * 100 + (c - b'A') + 10) % 97) in
    if is_digit c then digit else if leb b'A' c && leb c b'Z' then letter else none

unfoldable pub passes_iban_checksum : Text → Bool
unfolding iban_remainder
passes_iban_checksum candidate =
    let found = iban_remainder (drop 4 candidate ++ take 4 candidate) 0 in
    if ltb (length candidate) 15 || ltb 34 (length candidate)
    then false
    else elim found [ some remainder ↦ remainder == 1 | none ↦ false ]
