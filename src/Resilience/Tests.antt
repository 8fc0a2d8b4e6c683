-- ===== src/Resilience/Tests.antt =====
-- Runs of the breaker, the registry and the guard, and the theorems about them at those runs.
use agentops_open_course.Resilience.Circuit.{
  new_breaker, run, BreakerConfig, allow, Breaker, Permit, step, honors, allows, Call, half_open,
  opened, record_success, built, fails, record_opened, closed,
}
use agentops_open_course.Resilience.Guard.{
  World, Guard, run_attempts, backoff_for, attempts, wait, guard_run,
}
use agentops_open_course.Resilience.Circuit.Invariant.{IsValid, new_breaker-run-IsValid}
use agentops_open_course.Resilience.Registry.{Breakers, lookup}
use agentops_open_course.Prelude.{
  List, ℕ, true, none, pos, arith, ◌≡◌, text_eq, codes, some, ◌∷◌, false, max_int64, [], refl,
}
use agentops_open_course.Resilience.Circuit.Threshold.{failures_at, run-failures, step-opening}
use agentops_open_course.Resilience.Circuit.Generations.{stale_permit}
use agentops_open_course.Resilience.Circuit.Probe.{probe_exclusive}
use agentops_open_course.Resilience.Guard.Attempts.{EndsAt, run_attempts-EndsAt}
use agentops_open_course.Resilience.Guard.Backoff.{backoff_for-saturates}
use agentops_open_course.Resilience.Guard.Runs.{breaker_of, Fails, guard_runs, failed_runs}

abbrev config : BreakerConfig
config = record {
  on_open = none;
  name = codes "kb";
  failure_threshold = pos 2;
  reset_timeout = pos 30;
}

-- What `NewBreaker` builds from it.
abbrev start : Breaker
start = record {
  opened_at = 0;
  on_open = record_opened;
  name = codes "kb";
  state = closed;
  failure_threshold = pos 2;
  reset_timeout = pos 30;
  failures = pos 0;
  generation = 0;
  probe_active = false;
}

abbrev permit_0 : Permit
permit_0 = record { generation = 0; admitted = true }

-- Two failures under the first permit, at times 5 and 9.
abbrev two_failures : List Call
two_failures = fails 5 permit_0 ∷ fails 9 permit_0 ∷ []

start_built : new_breaker config ≡ built start
unfolding new_breaker text_eq
start_built = refl

two_failures_open : (run start two_failures).state ≡ opened
unfolding run step
two_failures_open = refl

cooldown :
    ((allow 38 (run start two_failures)).2 ≡ false) × ((allow 39 (run start two_failures)).2 ≡ true)
unfolding run step
cooldown = (refl, refl)

abbrev probing : Breaker
probing = record start {
  state = half_open;
  generation = 2;
  probe_active = true;
  failures = pos 2;
  opened_at = 9;
}

probing_reached : (allow 39 (run start two_failures)).0 ≡ probing
unfolding run step
probing_reached = refl

start-IsValid : IsValid start
start-IsValid = ground arith

probing-IsValid : IsValid probing
probing-IsValid = ground arith

new_breaker-run-IsValid_example : IsValid (run start two_failures)
new_breaker-run-IsValid_example =
    new_breaker-run-IsValid config start two_failures (omega arith) start_built

probe_exclusive_example :
    (run probing (allows 40 ∷ fails 41 permit_0 ∷ []) ≡ probing)
    × ((now : ℕ) → (allow now (run probing (allows 40 ∷ fails 41 permit_0 ∷ []))).2 ≡ false)
unfolding honors
probe_exclusive_example =
    probe_exclusive probing (allows 40 ∷ fails 41 permit_0 ∷ []) probing-IsValid refl
      (tt, (refl, tt))

stale_permit_example : record_success permit_0 (run start two_failures) ≡ run start two_failures
unfolding honors run step
stale_permit_example =
    (stale_permit start permit_0 two_failures 50 start-IsValid refl (omega arith) (omega arith)).0

run-failures_example : (run start (failures_at permit_0 (5 ∷ 9 ∷ 11 ∷ []))).state ≡ opened
unfolding honors
run-failures_example = run-failures start permit_0 (5 ∷ 9 ∷ 11 ∷ []) start-IsValid refl refl

step-opening_example :
    (step (record start { failures = pos 1 }) (fails 9 permit_0)).1
    ≡ record { callback = record_opened; resource = codes "kb" } ∷ []
unfolding step
step-opening_example = step-opening (record start { failures = pos 1 }) (fails 9 permit_0)

abbrev registry : Breakers
registry = record {
  on_open = none;
  by_name = (codes "kb", start) ∷ [];
  failure_threshold = pos 2;
  reset_timeout = pos 30;
}

abbrev guard : Guard
guard = record { tool_timeout = pos 10; retry_backoff = pos 3; max_retries = pos 2 }

-- Every attempt fails at once.
abbrev broken : World
broken n = record {
  call_err = some (codes "refused");
  ctx_err = none;
  expired = false;
  wait_ctx_err = none;
  wait_done = none;
}

broken_run : (run_attempts guard (codes "kb") broken 3 0).delays ≡ 3 ∷ 6 ∷ []
unfolding run_attempts wait backoff_for attempts
broken_run = refl

backoff_for-saturates_example : backoff_for 3 62 ≡ max_int64
backoff_for-saturates_example = backoff_for-saturates 3 62 (omega arith)

run_attempts-EndsAt_example :
    (k : ℕ) × EndsAt guard (codes "kb") broken 0 k (run_attempts guard (codes "kb") broken 3 0)
unfolding attempts
run_attempts-EndsAt_example = run_attempts-EndsAt guard (codes "kb") broken (omega arith)

broken-Fails : Fails guard (codes "kb") (broken, 1, 20)
unfolding run_attempts wait backoff_for attempts
broken-Fails = refl

failed_runs_example :
    breaker_of
      (codes "kb")
      (guard_run guard
        (guard_runs guard (codes "kb") ((broken, 1, 20) ∷ []) (some registry))
        (codes "kb")
        broken
        30
        []
        50).0
    ≡ some (record start { failures = pos 2; state = opened; opened_at = 50; generation = 1 })
unfolding lookup text_eq
failed_runs_example =
    (failed_runs guard (codes "kb") ((broken, 1, 20) ∷ []) (broken, 30, 50) (some registry) start 0
      refl start-IsValid refl refl (broken-Fails, tt) broken-Fails refl).1
