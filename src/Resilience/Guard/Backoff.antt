-- ===== src/Resilience/Guard/Backoff.antt =====
-- The backoff against its closed form.
use native.Mathlib.Nat.{pow-suc, one-le-pow, le-mul_of_pos_right}
use agentops_open_course.Prelude.{
  ℕ, zero, suc, ◌*◌, ◌^◌, ◌≤◌, ◌≡◌, arith, leb, if◌then◌else◌, max_int64,
}
use agentops_open_course.Resilience.Guard.{backoff_for}

doubled : (base n : ℕ) → base * 2 ^ suc n ≡ base * 2 * 2 ^ n
doubled base n = rw pow-suc (omega arith)

grows : (base n : ℕ) → base * 2 ≤ base * 2 * 2 ^ n
grows base n = le-mul_of_pos_right (base * 2) (one-le-pow n 2 (omega arith))

-- `backoffFor` is the base times 2^attempt where that is an `int64`, and the largest `int64`
-- where it is not: it never wraps.
pub backoff_for-saturates :
    (base attempt : ℕ)
    → base ≤ max_int64
    → backoff_for base attempt
      ≡ (if leb (base * 2 ^ attempt) max_int64 then base * 2 ^ attempt else max_int64)
unfolding backoff_for
backoff_for-saturates base zero h = ground arith
backoff_for-saturates base (suc n) h =
    ground (arith, doubled base n, grows base n, backoff_for-saturates (base * 2) n)
