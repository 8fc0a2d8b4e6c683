-- ===== src/Resilience/Circuit/Probe.antt =====
-- The half-open state: one trial call at a time.
use agentops_open_course.Prelude.{ℕ, ◌≡◌, refl, arith, false, List, [], ◌∷◌, All}
use agentops_open_course.Resilience.Circuit.Invariant.{IsValid}
use agentops_open_course.Resilience.Circuit.{
  half_open, Breaker, Call, allows, succeeds, fails, abandons, allow, step, run, honors,
}

-- The call is no report of an outcome under a permit that `b` honours.
abbrev pub Misses : Breaker → Call → Type 0
Misses b (allows now) = Unit {0}
Misses b (succeeds p) = honors b p ≡ false
Misses b (fails now p) = honors b p ≡ false
Misses b (abandons now p) = honors b p ≡ false

half_open_refuses :
    (now : ℕ) (b : Breaker) → IsValid b → b.state ≡ half_open → (allow now b).2 ≡ false
unfolding allow
half_open_refuses now b v h = ground arith

half_open_stays :
    (b : Breaker) (c : Call) → IsValid b → b.state ≡ half_open → Misses b c → (step b c).0 ≡ b
unfolding step
half_open_stays b (allows now) v h m = ground arith
half_open_stays b (succeeds p) v h m = ground arith
half_open_stays b (fails now p) v h m = ground arith
half_open_stays b (abandons now p) v h m = ground arith

run_half_open :
    (b : Breaker) (cs : List Call)
    → IsValid b
    → b.state ≡ half_open
    → All (Misses b) cs
    → run b cs ≡ b
unfolding run
run_half_open b [] v h m = refl
run_half_open b (c ∷ cs) v h m = rw (half_open_stays b c v h m.0) (run_half_open b cs v h m.1)

-- While the trial call of a half-open breaker is out, that is, until an outcome is recorded under
-- its permit, no history of other calls changes the breaker, and every `Allow` is refused.
pub probe_exclusive :
    (b : Breaker) (cs : List Call)
    → IsValid b
    → b.state ≡ half_open
    → All (Misses b) cs
    → (run b cs ≡ b) × ((now : ℕ) → (allow now (run b cs)).2 ≡ false)
probe_exclusive b cs v h m =
    let same = run_half_open b cs v h m in (same, λ now. rw same (half_open_refuses now b v h))
