-- ===== src/Policy/Checksum/Luhn.antt =====
-- What the Luhn check of policy/pii.go detects.
use agentops_open_course.Policy.Checksum.{
  luhn_valid, luhn_loop, doubled, passes_ca_sin_checksum, passes_luhn, decimal_digits, is_digit,
}
use agentops_open_course.Prelude.{
  ℕ, ◌<◌, List, ◌≡◌, ◌++◌, ◌+◌, ◌∷◌, arith, [], true, refl, Bool, ◌%◌, ap, Text, if◌then◌else◌, not,
  ◌-◌, ◌≢◌, subst, false, ◌∙◌, Bool-cases, inl, inr,
}

-- What stands before a list of digits adds the same whatever the list, if it leaves the flag alone.
luhn_loop-front :
    (u w v : List ℕ)
    → (luhn_loop w).double ≡ (luhn_loop v).double
    → ((luhn_loop (u ++ w)).double ≡ (luhn_loop (u ++ v)).double)
      × ((luhn_loop (u ++ w)).sum + (luhn_loop v).sum
          ≡ (luhn_loop (u ++ v)).sum + (luhn_loop w).sum)
unfolding luhn_loop
luhn_loop-front [] w v h = (h, omega arith)
luhn_loop-front (x ∷ u) w v h =
    let (a, b) = luhn_loop-front u w v h in (ap not a, rw a (omega arith))

doubled-injective : (x y : ℕ) → x < 10 → y < 10 → doubled x ≡ doubled y → x ≡ y
doubled-injective x y a b h = ground arith

weight : Bool → ℕ → ℕ
weight double value = if double then doubled value else value

weight-injective :
    (double : Bool) (x y : ℕ) → x < 10 → y < 10 → weight double x ≡ weight double y → x ≡ y
unfolding weight
weight-injective true x y a b h = doubled-injective x y a b h
weight-injective false x y a b h = h

weight_lt : (double : Bool) (x : ℕ) → x < 10 → weight double x < 10
unfolding weight
weight_lt true x a = ground arith
weight_lt false x a = a

same_remainder :
    (a b c d s : ℕ) → c < 10 → d < 10 → a % 10 ≡ 0 → b % 10 ≡ 0 → a + (s + d) ≡ b + (s + c) → c ≡ d
same_remainder a b c d s hc hd ha hb e = omega arith

-- The digits that an accepted list may have in one place are all the same.
luhn_valid-digit :
    (u v : List ℕ) (x y : ℕ)
    → x < 10
    → y < 10
    → luhn_valid (u ++ x ∷ v) ≡ true
    → luhn_valid (u ++ y ∷ v) ≡ true
    → x ≡ y
unfolding luhn_valid luhn_loop weight
luhn_valid-digit u v x y a b h k =
    let (_, e) = luhn_loop-front u (x ∷ v) (y ∷ v) refl in
    let double = (luhn_loop v).double in
    weight-injective double x y a b (
      same_remainder (luhn_loop (u ++ x ∷ v)).sum (luhn_loop (u ++ y ∷ v)).sum (weight double x)
        (weight double y) (luhn_loop v).sum (weight_lt double x a) (weight_lt double y b)
        (ground (arith, h)) (ground (arith, k)) e)

decimal_digits-append :
    (u v : Text) → decimal_digits (u ++ v) ≡ decimal_digits u ++ decimal_digits v
unfolding decimal_digits
decimal_digits-append [] v = refl
decimal_digits-append (c ∷ u) v = ground (arith, decimal_digits-append u v)

decimal_digits-digit :
    (u v : Text) (c : ℕ)
    → is_digit c ≡ true
    → decimal_digits (u ++ c ∷ v) ≡ decimal_digits u ++ (c - 48) ∷ decimal_digits v
unfolding decimal_digits
decimal_digits-digit u v c h = decimal_digits-append u (c ∷ v) ∙ rw h refl

passes_luhn-valid :
    (text : Text) → passes_luhn text ≡ true → luhn_valid (decimal_digits text) ≡ true
unfolding passes_luhn
passes_luhn-valid text h = ground (arith, h)

passes_ca_sin_checksum-valid :
    (text : Text) → passes_ca_sin_checksum text ≡ true → luhn_valid (decimal_digits text) ≡ true
unfolding passes_ca_sin_checksum
passes_ca_sin_checksum-valid text h = ground (arith, h)

digit_unique :
    (u v : Text) (c d : ℕ)
    → is_digit c ≡ true
    → is_digit d ≡ true
    → luhn_valid (decimal_digits (u ++ c ∷ v)) ≡ true
    → luhn_valid (decimal_digits (u ++ d ∷ v)) ≡ true
    → c ≡ d
digit_unique u v c d hc hd h k =
    let e : c - 48 ≡ d - 48 =
      luhn_valid-digit (decimal_digits u) (decimal_digits v) (c - 48) (d - 48) (ground (arith, hc))
        (ground (arith, hd)) (subst (λ t. luhn_valid t ≡ true) (decimal_digits-digit u v c hc) h)
        (subst (λ t. luhn_valid t ≡ true) (decimal_digits-digit u v d hd) k) in
    ground (arith, e, hc, hd)

-- A card number that passes the check, separators and all, does not pass with one digit changed;
-- nor does a Canadian social insurance number.
pub digit_changed :
    (u v : Text) (c d : ℕ)
    → is_digit c ≡ true
    → is_digit d ≡ true
    → c ≢ d
    → (passes_luhn (u ++ c ∷ v) ≡ true → passes_luhn (u ++ d ∷ v) ≡ false)
      × (passes_ca_sin_checksum (u ++ c ∷ v) ≡ true → passes_ca_sin_checksum (u ++ d ∷ v) ≡ false)
digit_changed u v c d hc hd ne = (
  λ h. elim (Bool-cases (passes_luhn (u ++ d ∷ v))) [
    | inl k ↦ absurd (
        ne (
          digit_unique u v c d hc hd (passes_luhn-valid (u ++ c ∷ v) h)
            (passes_luhn-valid (u ++ d ∷ v) k)))
    | inr k ↦ k
  ],
  λ h. elim (Bool-cases (passes_ca_sin_checksum (u ++ d ∷ v))) [
    | inl k ↦ absurd (
        ne (
          digit_unique u v c d hc hd (passes_ca_sin_checksum-valid (u ++ c ∷ v) h)
            (passes_ca_sin_checksum-valid (u ++ d ∷ v) k)))
    | inr k ↦ k
  ],
)
