-- ===== src/Resilience/Guard/Attempts.antt =====
-- The retry loop: how many calls it makes, the waits between them, and what ends it.
use agentops_open_course.Prelude.{
  ℕ, zero, suc, ◌+◌, ◌≤◌, ◌<◌, ◌≡◌, ◌⊎◌, ap, refl, arith, ℕ_discrete, subst, sym, Bool-cases, inl,
  inr, true, false, List, [], ◌∷◌, Option, none, some, Text, ◌==◌, pos_part, Option-cases,
}
use agentops_open_course.Resilience.Guard.{
  Guard, attempts, World, Attempt, Ended, run_attempts, attempt_once, backoff_for, wait, success,
  failure, abandoned, exhausted, abandoned_call, abandoned_wait, deadline, ContextError, ended,
  RunError, Verdict,
}

-- The call fails, the caller still waits, the deadline has not passed, and the wait that follows
-- ends by its timer.
pub record IsRetried (g : Guard) (a : Attempt) (attempt : ℕ) : Type 0 where
  pub call_err : Text
  pub failed : a.call_err ≡ some call_err
  pub awaited : a.ctx_err ≡ none
  pub in_time : a.expired ≡ false
  pub timer : wait (backoff_for (pos_part g.retry_backoff) attempt) a ≡ none

-- The first `n` backoffs from attempt `from` on.
abbrev pub backoffs : Guard → ℕ → ℕ → List ℕ
backoffs g from zero = []
backoffs g from (suc n) = backoff_for (pos_part g.retry_backoff) from ∷ backoffs g (from + 1) n

-- Attempt `k` ends the loop, with this error and this report to the breaker.
pub data Decides (g : Guard) (tool : Text) (a : Attempt) (k : ℕ)
    : Option RunError → Verdict → Type 0 where
  succeeded : a.call_err ≡ none → Decides g tool a k none success
  gave_up :
      (m : Text) (c : ContextError)
      → a.call_err ≡ some m
      → a.ctx_err ≡ some c
      → Decides g tool a k (some (abandoned_call tool c)) abandoned
  timed_out :
      (m : Text)
      → a.call_err ≡ some m
      → a.ctx_err ≡ none
      → a.expired ≡ true
      → Decides g tool a k (some (deadline tool g.tool_timeout)) failure
  out_of_attempts :
      (m : Text)
      → a.call_err ≡ some m
      → a.ctx_err ≡ none
      → a.expired ≡ false
      → k + 1 ≡ pos_part (attempts g)
      → Decides g tool a k (some (exhausted (some m) tool (attempts g))) failure
  stopped_waiting :
      (m : Text) (c : ContextError)
      → a.call_err ≡ some m
      → a.ctx_err ≡ none
      → a.expired ≡ false
      → k + 1 < pos_part (attempts g)
      → wait (backoff_for (pos_part g.retry_backoff) k) a ≡ some c
      → Decides g tool a k (some (abandoned_wait tool c)) abandoned

-- The loop from attempt `from` on ends at its `k`th attempt, all before it being retried.
pub record EndsAt (g : Guard) (tool : Text) (world : World) (from k : ℕ) (result : Ended)
    : Type 0 where
  pub within : from + k < pos_part (attempts g)
  pub retried : (j : ℕ) → from ≤ j → j < from + k → IsRetried g (world j) j
  pub decides : Decides g tool (world (from + k)) (from + k) result.error result.verdict
  pub calls_eq : result.calls ≡ k + 1
  pub delays_eq : result.delays ≡ backoffs g from k

module _ (g : Guard) (tool : Text) where
  abbrev Classified : Attempt → ℕ → Ended → Type 0
  Classified a k rest =
      (IsRetried g a k
        × (k + 1 < pos_part (attempts g))
        × (attempt_once g tool a k rest ≡ record rest {
          calls = suc rest.calls;
          delays = backoff_for (pos_part g.retry_backoff) k ∷ rest.delays;
        }))
      ⊎ ((e : Option RunError) × (v : Verdict) × Decides g tool a k e v
          × (attempt_once g tool a k rest ≡ ended e v))

  -- A call that failed with the caller waiting and the deadline not passed.
  classify_failed :
      (a : Attempt) (k : ℕ) (rest : Ended) (m : Text)
      → k < pos_part (attempts g)
      → a.call_err ≡ some m
      → a.ctx_err ≡ none
      → a.expired ≡ false
      → Classified a k rest
  unfolding attempt_once
  classify_failed a k rest m h e c x = elim (Bool-cases (k + 1 == pos_part (attempts g))) [
    | inl last ↦ inr (_, _, out_of_attempts m e c x (ground arith), rw (e, c, x, last))
    | inr more ↦ elim (Option-cases (wait (backoff_for (pos_part g.retry_backoff) k) a)) [
      | inl timer ↦ inl (
        record { call_err = m; failed = e; awaited = c; in_time = x; timer = timer },
        ground arith,
        rw (e, c, x, more, timer),
      )
      | inr (d, done) ↦
          inr (_, _, stopped_waiting m d e c x (ground arith) done, rw (e, c, x, more, done))
    ]
  ]

  classify : (a : Attempt) (k : ℕ) (rest : Ended) → k < pos_part (attempts g) → Classified a k rest
  unfolding attempt_once
  classify a k rest h = elim (Option-cases a.call_err) [
    | inl e ↦ inr (_, _, succeeded e, rw e)
    | inr (m, e) ↦ elim (Option-cases a.ctx_err) [
      | inr (d, c) ↦ inr (_, _, gave_up m d e c, rw (e, c))
      | inl c ↦ elim (Bool-cases a.expired) [
        | inl x ↦ inr (_, _, timed_out m e c x, rw (e, c, x))
        | inr x ↦ classify_failed a k rest m h e c x
      ]
    ]
  ]

  EndsAt-here :
      (world : World) (from : ℕ) (e : Option RunError) (v : Verdict)
      → from < pos_part (attempts g)
      → Decides g tool (world from) from e v
      → EndsAt g tool world from 0 (ended e v)
  EndsAt-here world from e v h d = record {
    within = omega arith;
    retried = λ j above below. absurd (omega arith);
    decides = subst (λ n. Decides g tool (world n) n e v) (omega arith) d;
    calls_eq = omega arith;
    delays_eq = refl;
  }

  EndsAt-suc :
      (world : World) (from k : ℕ) (rest : Ended)
      → IsRetried g (world from) from
      → EndsAt g tool world (from + 1) k rest
      → EndsAt g tool world from (suc k) (record rest {
        calls = suc rest.calls;
        delays = backoff_for (pos_part g.retry_backoff) from ∷ rest.delays;
      })
  EndsAt-suc world from k rest r e = record {
    within = omega (arith, e.within);
    retried = λ j above below. elim (ℕ_discrete from j) [
      | yes same ↦ subst (λ n. IsRetried g (world n) n) same r
      | no later ↦ e.retried j (omega arith) (omega arith)
    ];
    decides =
        subst (λ n. Decides g tool (world n) n rest.error rest.verdict) (omega arith) e.decides;
    calls_eq = omega (arith, e.calls_eq);
    delays_eq = ap (◌∷◌ (backoff_for (pos_part g.retry_backoff) from)) e.delays_eq;
  }

  loop-EndsAt :
      (world : World) (left from : ℕ)
      → from + left ≡ pos_part (attempts g)
      → 0 < left
      → (k : ℕ) × EndsAt g tool world from k (run_attempts g tool world left from)
  unfolding run_attempts
  loop-EndsAt world zero from e h = absurd (omega arith)
  loop-EndsAt world (suc left) from e h =
      let rest = run_attempts g tool world left (from + 1) in
      elim (classify (world from) from rest (omega arith)) [
        | inl (r, more, q) ↦
            let (k, ends) = loop-EndsAt world left (from + 1) (omega arith) (omega arith) in
            (
              suc k,
              subst (EndsAt g tool world from (suc k)) (sym q)
                  (EndsAt-suc world from k rest r ends),
            )
        | inr (er, v, d, q) ↦ (
          0,
          subst (EndsAt g tool world from 0) (sym q) (EndsAt-here world from er v (omega arith) d),
        )
      ]

-- A run of at least one attempt ends at one attempt `k` below their number: every attempt before
-- it failed in time with the caller waiting and was followed by its whole backoff; attempt `k`
-- succeeds, finds the caller gone, passes its deadline, is the last one, or has its wait cut off,
-- and that decides the error and the report to the breaker; k + 1 calls were made.
pub run_attempts-EndsAt :
    (g : Guard) (tool : Text) (world : World)
    → 0 < pos_part (attempts g)
    → (k : ℕ) × EndsAt g tool world 0 k (run_attempts g tool world (pos_part (attempts g)) 0)
run_attempts-EndsAt g tool world h =
    loop-EndsAt g tool world (pos_part (attempts g)) 0 (omega arith) h
