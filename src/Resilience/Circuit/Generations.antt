-- ===== src/Resilience/Circuit/Generations.antt =====
-- Generations: a permit is honoured in the era that issued it and in no later one.
use agentops_open_course.Prelude.{
  ℕ, ◌+◌, ◌%◌, ◌^◌, ◌<◌, ◌≡◌, arith, true, false, List, [], ◌∷◌, if◌then◌else◌,
}
use agentops_open_course.Resilience.Circuit.Invariant.{IsValid, step-IsValid}
use agentops_open_course.Resilience.Circuit.{
  state_eq, Breaker, Permit, Call, allows, succeeds, fails, abandons, next_generation,
  record_success, record_failure, record_abandoned, step, run, honors,
}

-- How often a history changes the state.
abbrev pub changes : Breaker → List Call → ℕ
changes b [] = 0
changes b (c ∷ cs) =
    (if state_eq (step b c).0.state b.state then 0 else 1) + changes (step b c).0 cs

-- A failed probe and an abandoned one go from half-open to open, so each call that moves the
-- generation changes the state, and the other way round.
step-generation :
    (b : Breaker) (c : Call)
    → IsValid b
    → (step b c).0.generation
      ≡ (if state_eq (step b c).0.state b.state then b.generation else next_generation b.generation)
unfolding step
step-generation b (allows now) v = ground arith
step-generation b (succeeds p) v = ground arith
step-generation b (fails now p) v = ground arith
step-generation b (abandons now p) v = ground arith

-- The generation counts the changes of state, modulo 2^64.
pub run-generation :
    (b : Breaker) (cs : List Call)
    → IsValid b
    → (run b cs).generation ≡ (b.generation + changes b cs) % 2 ^ 64
unfolding run
run-generation b [] v = omega (arith, v.generation_fits)
run-generation b (c ∷ cs) v =
    ground (arith, step-generation b c v, run-generation (step b c).0 cs (step-IsValid b c v))

later-not-honors :
    (b : Breaker) (p : Permit) (cs : List Call)
    → IsValid b
    → honors b p ≡ true
    → 0 < changes b cs
    → changes b cs < 2 ^ 64
    → honors (run b cs) p ≡ false
unfolding honors
later-not-honors b p cs v h some_change few =
    ground (arith, run-generation b cs v, v.generation_fits)

ignored :
    (b : Breaker) (p : Permit) (now : ℕ)
    → honors b p ≡ false
    → (record_success p b ≡ b)
      × (record_failure now p b ≡ (b, []))
      × (record_abandoned now p b ≡ (b, []))
unfolding record_success record_failure record_abandoned
ignored b p now h = (ground arith, ground arith, ground arith)

-- A permit that `b` honours is stale once the state has changed, for the next 2^64 - 1 changes:
-- a success, a failure or an abandonment recorded under it leaves the breaker as it is and calls
-- no `onOpen`.
pub stale_permit :
    (b : Breaker) (p : Permit) (cs : List Call) (now : ℕ)
    → IsValid b
    → honors b p ≡ true
    → 0 < changes b cs
    → changes b cs < 2 ^ 64
    → let later = run b cs in
      (record_success p later ≡ later)
      × (record_failure now p later ≡ (later, []))
      × (record_abandoned now p later ≡ (later, []))
stale_permit b p cs now v h some_change few =
    ignored (run b cs) p now (later-not-honors b p cs v h some_change few)
