-- ===== src/Resilience/Guard.antt =====
-- agents/go/resilience/resilience.go: the guard that gives a tool call its deadline, its retries
-- and its breaker. What a call and its contexts do at each attempt is a parameter, `World`.
pub mod Backoff
pub mod Attempts
pub mod Runs
use agentops_open_course.Prelude.{
  ℕ, zero, suc, ◌+◌, ◌*◌, Bool, true, false, List, [], ◌∷◌, ◌++◌, Option, none, some, ltb, leb,
  ◌==◌, if◌then◌else◌, Text, ℤ, pos, negsuc, pos_part, ltb_ℤ, leb_ℤ, inc_int64, max_int64,
}
use agentops_open_course.Resilience.Circuit.{
  Breaker, Permit, Call, allow, record_success, record_failure, record_abandoned, run,
}
use agentops_open_course.Resilience.Registry.{Breakers, get, update}

pub record Config : Type 0 where
  pub breakers : Option Breakers
  pub tool_timeout : ℤ
  pub retry_backoff : ℤ
  pub max_retries : ℤ

-- The fields of a `Guard` but the breakers, which change and are passed beside it.
pub record Guard : Type 0 where
  pub tool_timeout : ℤ
  pub retry_backoff : ℤ
  pub max_retries : ℤ

pub data Problem : Type 0 where
  no_deadline negative_retries negative_backoff : Problem

abbrev when_problem : Bool → Problem → List Problem
when_problem b p = if b then p ∷ [] else []

problems : Config → List Problem
problems cfg =
    when_problem (leb_ℤ cfg.tool_timeout (pos 0)) no_deadline
    ++ (when_problem (ltb_ℤ cfg.max_retries (pos 0)) negative_retries
        ++ when_problem (ltb_ℤ cfg.retry_backoff (pos 0)) negative_backoff)

-- `NewGuard`: the guard and its breakers, or every problem of the configuration.
pub data NewGuard : Type 0 where
  guarded : Guard → Option Breakers → NewGuard
  refused : List Problem → NewGuard

unfoldable pub new_guard : Config → NewGuard
unfolding problems
new_guard cfg = elim (problems cfg) [
  | [] ↦
      guarded
        (record {
          tool_timeout = cfg.tool_timeout;
          retry_backoff = cfg.retry_backoff;
          max_retries = cfg.max_retries;
        })
        cfg.breakers
  | p ∷ ps ↦ refused (p ∷ ps)
]

-- `g.maxRetries + 1`.
unfoldable pub attempts : Guard → ℤ
attempts g = inc_int64 g.max_retries

-- `math.MaxInt64 / 2`.
abbrev pub half_max : ℕ
half_max = 0x3fff_ffff_ffff_ffff

-- The loop of `backoffFor`, on a delay that is not negative: `NewGuard` refuses a negative base.
unfoldable pub backoff_for : ℕ → ℕ → ℕ
backoff_for delay zero = delay
backoff_for delay (suc n) = if ltb half_max delay then max_int64 else backoff_for (delay * 2) n

-- Why a context is done.
pub data ContextError : Type 0 where
  canceled deadline_exceeded : ContextError

-- What one attempt meets: the error of the call, `ctx.Err()` of the caller when it returns,
-- whether the attempt's own deadline has passed, and during the wait that may follow, `ctx.Err()`
-- at its start and the end of its `select` (`none` is the timer).
pub record Attempt : Type 0 where
  pub call_err : Option Text
  pub ctx_err : Option ContextError
  pub expired : Bool
  pub wait_ctx_err : Option ContextError
  pub wait_done : Option ContextError

abbrev pub World : Type 0
World = ℕ → Attempt

unfoldable pub wait : ℕ → Attempt → Option ContextError
wait delay a = if leb delay 0 then a.wait_ctx_err else a.wait_done

pub data RunError : Type 0 where
  circuit_open : Text → ℤ → RunError
  abandoned_call : Text → ContextError → RunError
  deadline : Text → ℤ → RunError
  abandoned_wait : Text → ContextError → RunError
  exhausted : Option Text → Text → ℤ → RunError

-- Which of `success`, `failure` and `abandoned` of the admission was called.
pub data Verdict : Type 0 where
  success failure abandoned : Verdict

-- The end of a run: its error or nil, the outcome reported, the number of calls made and the
-- waits that ended by their timer.
pub record Ended : Type 0 where
  pub error : Option RunError
  pub verdict : Verdict
  pub calls : ℕ
  pub delays : List ℕ

abbrev pub ended : Option RunError → Verdict → Ended
ended e v = record { error = e; verdict = v; calls = 1; delays = [] }

-- The body of the loop, with the rest of the loop in `rest`.
attempt_once : Guard → Text → Attempt → ℕ → Ended → Ended
unfolding wait attempts
attempt_once g tool a attempt rest = elim a.call_err [
  | none ↦ ended none success
  | some e ↦ elim a.ctx_err [
    | some c ↦ ended (some (abandoned_call tool c)) abandoned
    | none ↦
        if a.expired
        then ended (some (deadline tool g.tool_timeout)) failure
        else if attempt + 1 == pos_part (attempts g)
        then ended (some (exhausted (some e) tool (attempts g))) failure
        else let delay = backoff_for (pos_part g.retry_backoff) attempt in
          elim (wait delay a) [
            | some c ↦ ended (some (abandoned_wait tool c)) abandoned
            | none ↦ record rest { calls = suc rest.calls; delays = delay ∷ rest.delays }
          ]
  ]
]

-- `for attempt := range attempts`, with `left` rounds left; with none at the start (which only the
-- wrap-around of `attempts` could give) no call is made and no error is there to wrap.
unfoldable pub run_attempts : Guard → Text → World → ℕ → ℕ → Ended
unfolding attempt_once
run_attempts g tool world zero attempt = record {
  error = some (exhausted none tool (attempts g));
  verdict = failure;
  calls = 0;
  delays = [];
}
run_attempts g tool world (suc left) attempt =
    let rest = run_attempts g tool world left (attempt + 1) in
    attempt_once g tool (world attempt) attempt rest

-- The breaker after the admission's report.
unfoldable pub report : Verdict → ℕ → Permit → Breaker → Breaker
report success later permit b = record_success permit b
report failure later permit b = (record_failure later permit b).0
report abandoned later permit b = (record_abandoned later permit b).0

-- `Run`, admitted at `now` and over at `later`; `others` are the calls that other goroutines made
-- of the same breaker in between.
unfoldable pub guard_run :
    Guard → Option Breakers → Text → World → ℕ → List Call → ℕ → Option Breakers × Ended
unfolding run_attempts report
guard_run g none tool world now others later =
    (none, run_attempts g tool world (pos_part (attempts g)) 0)
guard_run g (some r) tool world now others later =
    let (r', b) = get tool r in
    let (b', permit, admitted) = allow now b in
    if admitted
    then (let result = run_attempts g tool world (pos_part (attempts g)) 0 in
        (some (update tool (report result.verdict later permit (run b' others)) r'), result))
    else (
      some (update tool b' r'),
      record {
        error = some (circuit_open tool b'.reset_timeout);
        verdict = abandoned;
        calls = 0;
        delays = [];
      },
    )
