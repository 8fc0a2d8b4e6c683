-- ===== src/Resilience/Circuit/Invariant.antt =====
-- The invariant of a breaker over every history of calls.
use agentops_open_course.Prelude.{
  ℕ, ◌^◌, ◌<◌, ◌≡◌, ◌≢◌, arith, true, false, List, [], ◌∷◌, pos, ◌≤ℤ◌, ◌<ℤ◌, max_int64,
}
use agentops_open_course.Resilience.Circuit.{
  closed, half_open, Breaker, BreakerConfig, built, Permit, Call, allows, succeeds, fails, abandons,
  new_breaker, allow, record_success, record_failure, record_abandoned, step, run,
}

-- Only a half-open breaker has a probe in flight, and it always has one; a closed breaker has
-- counted fewer failures than the threshold.
pub record IsValid (b : Breaker) : Type 0 where
  pub threshold_pos : pos 1 ≤ℤ b.failure_threshold
  pub threshold_fits : b.failure_threshold ≤ℤ pos max_int64
  pub cooldown_pos : pos 1 ≤ℤ b.reset_timeout
  pub generation_fits : b.generation < 2 ^ 64
  pub probe_iff : b.state ≡ half_open → b.probe_active ≡ true
  pub no_probe : b.state ≢ half_open → b.probe_active ≡ false
  pub below_threshold : b.state ≡ closed → b.failures <ℤ b.failure_threshold
  pub counted : b.state ≡ closed → pos 0 ≤ℤ b.failures

allow-IsValid : (now : ℕ) (b : Breaker) → IsValid b → IsValid (allow now b).0
unfolding allow
allow-IsValid now b v = ground arith

record_success-IsValid : (p : Permit) (b : Breaker) → IsValid b → IsValid (record_success p b)
unfolding record_success
record_success-IsValid p b v = ground arith

record_failure-IsValid :
    (now : ℕ) (p : Permit) (b : Breaker) → IsValid b → IsValid (record_failure now p b).0
unfolding record_failure
record_failure-IsValid now p b v = ground arith

record_abandoned-IsValid :
    (now : ℕ) (p : Permit) (b : Breaker) → IsValid b → IsValid (record_abandoned now p b).0
unfolding record_abandoned
record_abandoned-IsValid now p b v = ground arith

pub step-IsValid : (b : Breaker) (c : Call) → IsValid b → IsValid (step b c).0
unfolding step
step-IsValid b (allows now) v = allow-IsValid now b v
step-IsValid b (succeeds p) v = record_success-IsValid p b v
step-IsValid b (fails now p) v = record_failure-IsValid now p b v
step-IsValid b (abandons now p) v = record_abandoned-IsValid now p b v

pub run-IsValid : (b : Breaker) (cs : List Call) → IsValid b → IsValid (run b cs)
unfolding run
run-IsValid b [] v = v
run-IsValid b (c ∷ cs) v = run-IsValid (step b c).0 cs (step-IsValid b c v)

new_breaker-IsValid :
    (cfg : BreakerConfig) (b : Breaker)
    → cfg.failure_threshold ≤ℤ pos max_int64
    → new_breaker cfg ≡ built b
    → IsValid b
unfolding new_breaker
new_breaker-IsValid cfg b fits h = ground arith

-- Every breaker that `NewBreaker` returns, with a threshold that is an `int`, satisfies the
-- invariant after every history of calls with any permits: a probe is in flight exactly in the
-- half-open state, and a closed breaker has counted fewer failures than its threshold.
pub new_breaker-run-IsValid :
    (cfg : BreakerConfig) (b : Breaker) (cs : List Call)
    → cfg.failure_threshold ≤ℤ pos max_int64
    → new_breaker cfg ≡ built b
    → IsValid (run b cs)
new_breaker-run-IsValid cfg b cs fits h = run-IsValid b cs (new_breaker-IsValid cfg b fits h)
