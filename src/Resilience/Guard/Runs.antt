-- ===== src/Resilience/Guard/Runs.antt =====
-- A guarded run seen from its breaker.
use agentops_open_course.Prelude.{
  refl, ◌∷◌, length, All, List, ◌<ℤ◌, ℕ, ◌+◌, ◌≡◌, ap, ◌∙◌, ◌%◌, ◌^◌, arith, if◌then◌else◌, leb_ℤ,
  pos, pos_part, true, false, [], Option, none, some, Text, text_eq_self,
}
use agentops_open_course.Resilience.Circuit.{
  Breaker, allow, closed, opened, run, record_success, record_failure, record_abandoned,
}
use agentops_open_course.Resilience.Circuit.Invariant.{IsValid}
use agentops_open_course.Resilience.Registry.{Breakers, get, update, lookup, lookup-put}
use agentops_open_course.Resilience.Guard.{
  run_attempts, attempts, Guard, World, guard_run, report, success, failure, abandoned, Verdict,
}

-- The breaker of a tool in a guard's registry.
abbrev pub breaker_of : Text → Option Breakers → Option Breaker
breaker_of tool none = none
breaker_of tool (some r) = lookup tool r.by_name

-- What a report makes of a closed breaker.
abbrev pub after_report : Verdict → ℕ → Breaker → Breaker
after_report success later b = record b { failures = pos 0; probe_active = false }
after_report abandoned later b = b
after_report failure later b =
    let counted : Breaker = record b { failures = pos (pos_part b.failures + 1) } in
    if leb_ℤ b.failure_threshold (pos (pos_part b.failures + 1))
    then record counted {
      state = opened;
      opened_at = later;
      probe_active = false;
      generation = (b.generation + 1) % 2 ^ 64;
    }
    else counted

-- The outcome that the attempts of a run come to.
abbrev pub outcome : Guard → Text → World → Verdict
outcome g tool world = (run_attempts g tool world (pos_part (attempts g)) 0).verdict

closed_report :
    (v : Verdict) (b : Breaker) (now later : ℕ)
    → IsValid b
    → b.state ≡ closed
    → report v later (allow now b).1 b ≡ after_report v later b
unfolding report allow record_success record_failure record_abandoned
closed_report success b now later v h = ground arith
closed_report failure b now later v h = ground (arith, v.below_threshold h, v.counted h)
closed_report abandoned b now later v h = ground arith

closed_admits :
    (b : Breaker) (now : ℕ) → b.state ≡ closed → ((allow now b).0 ≡ b) × ((allow now b).2 ≡ true)
unfolding allow
closed_admits b now h = ground arith

get_found :
    (tool : Text) (r : Breakers) (b : Breaker)
    → lookup tool r.by_name ≡ some b
    → get tool r ≡ (r, b)
unfolding get
get_found tool r b h = rw (get, h) refl

-- A run on a closed breaker, with no other call of that breaker while it lasts.
closed_run :
    (g : Guard) (o : Option Breakers) (tool : Text) (b : Breaker) (world : World) (now later : ℕ)
    → breaker_of tool o ≡ some b
    → IsValid b
    → b.state ≡ closed
    → breaker_of tool (guard_run g o tool world now [] later).0
      ≡ some (after_report (outcome g tool world) later b)
unfolding guard_run update run
closed_run g none tool b world now later found v h = absurd (ground (arith, found))
closed_run g (some r) tool b world now later found v h =
    let (same, admitted) = closed_admits b now h in
    rw (get_found tool r b found, admitted, same)
      (lookup-put tool tool _ r.by_name
        ∙ rw (text_eq_self tool) (ap some (closed_report (outcome g tool world) b now later v h)))

-- A run of a tool: what it meets, when it is admitted and when it is over.
abbrev pub Delivery : Type 0
Delivery = World × ℕ × ℕ

-- One run after the other, with no other call of the breaker.
pub guard_runs : Guard → Text → List Delivery → Option Breakers → Option Breakers
unfolding guard_run
guard_runs g tool [] o = o
guard_runs g tool ((world, now, later) ∷ runs) o =
    guard_runs g tool runs (guard_run g o tool world now [] later).0

abbrev pub Fails : Guard → Text → Delivery → Type 0
Fails g tool d = outcome g tool d.0 ≡ failure

abbrev counted : ℕ → Breaker → Breaker
counted n b = record b { failures = pos n }

counted-IsValid :
    (b : Breaker) (n : ℕ) → IsValid b → pos n <ℤ b.failure_threshold → IsValid (counted n b)
counted-IsValid b n v h = record {
  threshold_pos = v.threshold_pos;
  threshold_fits = v.threshold_fits;
  cooldown_pos = v.cooldown_pos;
  generation_fits = v.generation_fits;
  probe_iff = v.probe_iff;
  no_probe = v.no_probe;
  below_threshold = λ _. h;
  counted = λ _. omega arith;
}

below :
    (later : ℕ) (b : Breaker) (f : ℕ)
    → b.failures ≡ pos f
    → pos (f + 1) <ℤ b.failure_threshold
    → after_report failure later b ≡ counted (f + 1) b
below later b f e h = ground (arith, e, h)

module _ (g : Guard) (tool : Text) where
  failed_below :
      (runs : List Delivery) (o : Option Breakers) (b : Breaker) (f : ℕ)
      → breaker_of tool o ≡ some b
      → IsValid b
      → b.state ≡ closed
      → b.failures ≡ pos f
      → All (Fails g tool) runs
      → pos (f + length runs) <ℤ b.failure_threshold
      → breaker_of tool (guard_runs g tool runs o) ≡ some (counted (f + length runs) b)
  unfolding guard_runs
  failed_below [] o b f found v h e fails k =
      let n : b.failures ≡ pos (f + 0) = e ∙ ap pos (omega arith) in
      found ∙ ap (λ m. some (record b { failures = m })) n
  failed_below ((world, now, later) ∷ runs) o b f found v h e (fail, fails) k =
      let one : pos (f + 1) <ℤ b.failure_threshold = omega (arith, k) in
      let next =
        closed_run g o tool b world now later found v h
        ∙ ap some (ap (λ u. after_report u later b) fail ∙ below later b f e one) in
      let whole : f + 1 + length runs ≡ f + length ((world, now, later) ∷ runs) = omega arith in
      failed_below runs (guard_run g o tool world now [] later).0 (counted (f + 1) b) (f + 1) next
        (counted-IsValid b (f + 1) v one) h refl fails (omega (arith, k))
      ∙ ap (λ n. some (counted n b)) whole

-- However many attempts each of them makes, failed runs, one after the other with no other call of
-- the breaker, count one failure each: from a closed breaker that has counted `f`, all runs but the
-- one that brings the count to the threshold leave it closed, with as many failures more, and that
-- one opens it from the time of its report, in a new generation.
pub failed_runs :
    (g : Guard) (tool : Text) (runs : List Delivery) (last : Delivery) (o : Option Breakers)
    (b : Breaker) (f : ℕ)
    → breaker_of tool o ≡ some b
    → IsValid b
    → b.state ≡ closed
    → b.failures ≡ pos f
    → All (Fails g tool) runs
    → Fails g tool last
    → b.failure_threshold ≡ pos (f + length runs + 1)
    → let before_last = guard_runs g tool runs o in
      (breaker_of tool before_last ≡ some (record b { failures = pos (f + length runs) }))
      × (breaker_of tool (guard_run g before_last tool last.0 last.1 [] last.2).0
          ≡ some (record b {
            failures = pos (f + length runs + 1);
            state = opened;
            opened_at = last.2;
            probe_active = false;
            generation = (b.generation + 1) % 2 ^ 64;
          }))
failed_runs g tool runs (world, now, later) o b f found v h e fails fail k =
    let n = f + length runs in
    let small : pos n <ℤ b.failure_threshold = rw k (omega arith) in
    let still = failed_below g tool runs o b f found v h e fails small in
    (
      still,
      closed_run g (guard_runs g tool runs o) tool (counted n b) world now later still
            (counted-IsValid b n v small) h
          ∙ ap some (ap (λ u. after_report u later (counted n b)) fail ∙ ground (arith, k)),
    )
