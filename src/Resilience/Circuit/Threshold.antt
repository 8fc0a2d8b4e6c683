-- ===== src/Resilience/Circuit/Threshold.antt =====
-- Consecutive failures of a closed breaker, and the calls of `onOpen`.
use agentops_open_course.Prelude.{
  ℕ, ◌+◌, ◌≡◌, refl, sym, ap, subst, ◌∙◌, arith, true, false, not, ◌&&◌, List, [], ◌∷◌, pos,
  if◌then◌else◌, leb_ℤ, pos_part, Bool-cases, inl, inr, ap, sym, subst, ◌∙◌, length, map,
}
use agentops_open_course.Resilience.Circuit.Invariant.{IsValid, step-IsValid}
use agentops_open_course.Resilience.Circuit.{
  closed, opened, state_eq, Breaker, Permit, Call, allows, succeeds, fails, abandons,
  record_failure, step, run, honors,
}

-- `onOpen` is called with the breaker's name exactly when a call takes the breaker from another
-- state into open, and once.
pub step-opening :
    (b : Breaker) (c : Call)
    → (step b c).1 ≡ (
        if state_eq (step b c).0.state opened && not (state_eq b.state opened)
        then record { callback = b.on_open; resource = b.name } ∷ []
        else [])
unfolding step
step-opening b (allows now) = ground arith
step-opening b (succeeds p) = ground arith
step-opening b (fails now p) = ground arith
step-opening b (abandons now p) = ground arith

-- Failures reported at these times, under one permit.
abbrev pub failures_at : Permit → List ℕ → List Call
failures_at p = map (λ now. fails now p)

failure_opened :
    (b : Breaker) (p : Permit) (now : ℕ) → b.state ≡ opened → (record_failure now p b).0 ≡ b
unfolding record_failure
failure_opened b p now h = ground arith

opened_stays :
    (b : Breaker) (p : Permit) (nows : List ℕ) → b.state ≡ opened → run b (failures_at p nows) ≡ b
unfolding run step
opened_stays b p [] h = refl
opened_stays b p (now ∷ nows) h = rw (failure_opened b p now h, run) (opened_stays b p nows h)

failure_trips :
    (b : Breaker) (p : Permit) (now : ℕ)
    → IsValid b
    → b.state ≡ closed
    → honors b p ≡ true
    → leb_ℤ b.failure_threshold (pos (pos_part b.failures + 1)) ≡ true
    → (record_failure now p b).0.state ≡ opened
unfolding record_failure
failure_trips b p now v h honoured trips = ground arith

failure_counts :
    (b : Breaker) (p : Permit) (now : ℕ)
    → IsValid b
    → b.state ≡ closed
    → honors b p ≡ true
    → leb_ℤ b.failure_threshold (pos (pos_part b.failures + 1)) ≡ false
    → (record_failure now p b).0 ≡ record b { failures = pos (pos_part b.failures + 1) }
unfolding record_failure
failure_counts b p now v h honoured stays = ground arith

-- A closed breaker that is told of failures under its current permit, with no success between,
-- is open exactly from the failure on that brings its count to the threshold.
pub run-failures :
    (b : Breaker) (p : Permit) (nows : List ℕ)
    → IsValid b
    → b.state ≡ closed
    → honors b p ≡ true
    → (run b (failures_at p nows)).state ≡ (
        if leb_ℤ b.failure_threshold (pos (pos_part b.failures + length nows))
        then opened
        else closed)
unfolding run step honors
run-failures b p [] v h honoured = ground (arith, v.below_threshold h, v.counted h)
run-failures b p (now ∷ nows) v h honoured =
    elim (Bool-cases (leb_ℤ b.failure_threshold (pos (pos_part b.failures + 1)))) [
      | inl trips ↦
          let opens = failure_trips b p now v h honoured trips in
          ap (λ (x : Breaker). x.state) (opened_stays (record_failure now p b).0 p nows opens)
          ∙ opens
          ∙ sym (ground arith)
      | inr stays ↦
          let b' : Breaker = record b { failures = pos (pos_part b.failures + 1) } in
          let counts = failure_counts b p now v h honoured stays in
          let valid' = subst IsValid counts (step-IsValid b (fails now p) v) in
          ap (λ (x : Breaker). (run x (failures_at p nows)).state) counts
          ∙ run-failures b' p nows valid' h honoured
          ∙ ground arith
    ]
