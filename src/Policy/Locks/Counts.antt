-- ===== src/Policy/Locks/Counts.antt =====
-- How many of the callbacks refer to an entry.
use agentops_open_course.Prelude.{
  Option, none, some, ℕ, zero, suc, ◌+◌, ◌≤◌, ◌<◌, ◌==◌, ==_iff, ◌≡◌, inl, inr, refl, arith, Bool,
  true, false, Bool-cases, if◌then◌else◌,
}
use agentops_open_course.Policy.Locks.{SessionKey, update, Place, outside, waiting, inside, leaving}

-- The session and the entry that a callback refers to.
abbrev pub reference : Place → Option (SessionKey × ℕ)
reference outside = none
reference (waiting k e) = some (k, e)
reference (inside k e) = some (k, e)
reference (leaving k e) = some (k, e)

abbrev pub is_entry : ℕ → Option (SessionKey × ℕ) → Bool
is_entry e none = false
is_entry e (some (k, l)) = l == e

abbrev pub refers : ℕ → Place → Bool
refers e p = is_entry e (reference p)

-- Of the callbacks below n.
unfoldable pub count : (ℕ → Place) → ℕ → ℕ → ℕ
count place e zero = 0
count place e (suc n) = (if refers e (place n) then 1 else 0) + count place e n

abbrev one_if : Bool → ℕ
one_if b = if b then 1 else 0

count-above :
    (place : ℕ → Place) (e i : ℕ) (q : Place) (n : ℕ)
    → n ≤ i
    → count (update place i q) e n ≡ count place e n
unfolding count
count-above place e i q zero h = refl
count-above place e i q (suc n) h =
    let ne : (n == i) ≡ false = ground (arith, h) in
    rw (ne, count-above place e i q n (omega (arith, h))) refl

-- A step of one callback.
pub count-update :
    (place : ℕ → Place) (e i : ℕ) (q : Place) (n : ℕ)
    → i < n
    → count (update place i q) e n + one_if (refers e (place i))
      ≡ count place e n + one_if (refers e q)
unfolding count
count-update place e i q zero h = absurd (omega (arith, h))
count-update place e i q (suc n) h = elim (Bool-cases (n == i)) [
  | inl s ↦
      let eq : n ≡ i = (==_iff n i).0 s in
      rw (s, eq, count-above place e i q i (omega arith)) (omega arith)
  | inr s ↦ rw s (omega (arith, count-update place e i q n (ground (arith, h, s))))
]

pub count-positive :
    (place : ℕ → Place) (e i n : ℕ) → i < n → refers e (place i) ≡ true → 0 < count place e n
unfolding count
count-positive place e i zero h r = absurd (omega (arith, h))
count-positive place e i (suc n) h r = elim (Bool-cases (n == i)) [
  | inl s ↦ let eq : n ≡ i = (==_iff n i).0 s in rw (eq, r) (omega arith)
  | inr s ↦ omega (arith, count-positive place e i n (ground (arith, h, s)) r)
]

pub count-zero :
    (place : ℕ → Place) (e n : ℕ) → ((i : ℕ) → refers e (place i) ≡ false) → count place e n ≡ 0
unfolding count
count-zero place e zero h = refl
count-zero place e (suc n) h = rw (h n, count-zero place e n h) refl

pub count-some :
    (place : ℕ → Place) (e n : ℕ) → 0 < count place e n → (i : ℕ) × (refers e (place i) ≡ true)
unfolding count
count-some place e zero h = absurd (omega (arith, h))
count-some place e (suc n) h = elim (Bool-cases (refers e (place n))) [
  | inl r ↦ (n, r)
  | inr r ↦ count-some place e n (omega (arith, rw r at h))
]
