-- ===== src/Resilience/Circuit.antt =====
-- agents/go/resilience/circuit.go, the breaker of one resource: its configuration, its state and
-- its four locked operations. Each operation runs under the breaker's mutex, so it is one step.
-- Times are nanoseconds of the monotonic clock; what `onOpen` is called with is returned.
pub mod Invariant
pub mod Probe
pub mod Generations
pub mod Threshold
use agentops_open_course.Prelude.{
  ℕ, ◌+◌, ◌%◌, ◌^◌, Bool, true, false, not, ◌&&◌, ◌||◌, List, [], ◌∷◌, ◌++◌, Option, none, some,
  ltb, ◌==◌, if◌then◌else◌, Text, text_eq, ℤ, pos, sub_ℕ, ltb_ℤ, leb_ℤ, inc_int64,
}

-- `StateClosed`, `StateOpen`, `StateHalfOpen`.
pub data State : Type 0 where
  closed opened half_open : State

abbrev pub state_eq : State → State → Bool
state_eq closed closed = true
state_eq opened opened = true
state_eq half_open half_open = true
state_eq _ _ = false

pub record Permit : Type 0 where
  pub generation : ℕ
  pub admitted : Bool

-- `Permit{}`.
abbrev pub no_permit : Permit
no_permit = record { generation = 0; admitted = false }

-- The function behind `onOpen`: this package's counter, or one that the caller passed.
pub data Callback : Type 0 where
  record_opened : Callback
  given : ℕ → Callback

pub record BreakerConfig : Type 0 where
  pub on_open : Option Callback
  pub name : Text
  pub failure_threshold : ℤ
  pub reset_timeout : ℤ

pub record Breaker : Type 0 where
  pub opened_at : ℕ
  pub on_open : Callback
  pub name : Text
  pub state : State
  pub failure_threshold : ℤ
  pub reset_timeout : ℤ
  pub failures : ℤ
  pub generation : ℕ
  pub probe_active : Bool

pub data ConfigError : Type 0 where
  name_required threshold_below_one no_cooldown : ConfigError

pub data Built {ℓ} (A : Type ℓ) : Type ℓ where
  built : A → Built A
  invalid : ConfigError → Built A

-- `validateBreakerLimits`: `none` is the nil error.
unfoldable pub validate_breaker_limits : ℤ → ℤ → Option ConfigError
validate_breaker_limits failure_threshold reset_timeout =
    if ltb_ℤ failure_threshold (pos 1)
    then some threshold_below_one
    else if leb_ℤ reset_timeout (pos 0)
    then some no_cooldown
    else none

unfoldable pub new_breaker_unchecked : BreakerConfig → Breaker
new_breaker_unchecked cfg = record {
  opened_at = 0;
  on_open = elim cfg.on_open [ none ↦ record_opened | some f ↦ f ];
  name = cfg.name;
  state = closed;
  failure_threshold = cfg.failure_threshold;
  reset_timeout = cfg.reset_timeout;
  failures = pos 0;
  generation = 0;
  probe_active = false;
}

unfoldable pub new_breaker : BreakerConfig → Built Breaker
unfolding validate_breaker_limits new_breaker_unchecked
new_breaker cfg =
    if text_eq cfg.name []
    then invalid name_required
    else elim (validate_breaker_limits cfg.failure_threshold cfg.reset_timeout) [
      | some e ↦ invalid e
      | none ↦ built (new_breaker_unchecked cfg)
    ]

-- `generation++` on a `uint64`.
abbrev pub next_generation : ℕ → ℕ
next_generation g = (g + 1) % 2 ^ 64

unfoldable pub honors : Breaker → Permit → Bool
honors b permit = permit.admitted && (permit.generation == b.generation)

-- A call of `onOpen`: the function and the name that it is passed.
pub record Opening : Type 0 where
  pub callback : Callback
  pub resource : Text

unfoldable pub open_breaker : ℕ → Breaker → Breaker × List Opening
open_breaker now b = (
  record b {
    state = opened;
    opened_at = now;
    probe_active = false;
    generation = next_generation b.generation;
  },
  record { callback = b.on_open; resource = b.name } ∷ [],
)

abbrev current_permit : Breaker → Permit
current_permit b = record { generation = b.generation; admitted = true }

-- `time.Since(b.openedAt) < b.resetTimeout`.
unfoldable pub is_cooling : ℕ → Breaker → Bool
is_cooling now b = ltb_ℤ (sub_ℕ now b.opened_at) b.reset_timeout

allow_in : State → ℕ → Breaker → Breaker × Permit × Bool
unfolding is_cooling
allow_in opened now b =
    if is_cooling now b
    then (b, no_permit, false)
    else let b' = record b {
      state = half_open;
      generation = next_generation b.generation;
      probe_active = true;
    } in
      (b', current_permit b', true)
allow_in half_open now b =
    if b.probe_active
    then (b, no_permit, false)
    else let b' = record b { probe_active = true } in (b', current_permit b', true)
allow_in closed now b = (b, current_permit b, true)

unfoldable pub allow : ℕ → Breaker → Breaker × Permit × Bool
unfolding allow_in
allow now b = allow_in b.state now b

unfoldable pub record_success : Permit → Breaker → Breaker
unfolding honors
record_success permit b =
    if not (honors b permit) || state_eq b.state opened
    then b
    else let b' =
        if state_eq b.state half_open
        then record b { state = closed; generation = next_generation b.generation }
        else b in
      record b' { failures = pos 0; probe_active = false }

unfoldable pub record_failure : ℕ → Permit → Breaker → Breaker × List Opening
unfolding honors open_breaker
record_failure now permit b =
    if state_eq b.state opened || not (honors b permit)
    then (b, [])
    else let b' = record b { failures = inc_int64 b.failures } in
      if state_eq b'.state half_open || leb_ℤ b'.failure_threshold b'.failures
      then open_breaker now b'
      else (b', [])

unfoldable pub record_abandoned : ℕ → Permit → Breaker → Breaker × List Opening
unfolding honors open_breaker
record_abandoned now permit b =
    if not (honors b permit) || not (state_eq b.state half_open) || not b.probe_active
    then (b, [])
    else open_breaker now b

-- One call of a breaker's methods, at the time it takes the lock.
pub data Call : Type 0 where
  allows : ℕ → Call
  succeeds : Permit → Call
  fails : ℕ → Permit → Call
  abandons : ℕ → Permit → Call

-- The breaker after a call, and what `onOpen` was called with.
unfoldable pub step : Breaker → Call → Breaker × List Opening
unfolding allow record_success record_failure record_abandoned
step b (allows now) = ((allow now b).0, [])
step b (succeeds permit) = (record_success permit b, [])
step b (fails now permit) = record_failure now permit b
step b (abandons now permit) = record_abandoned now permit b

-- A history of calls, in the order in which they took the lock.
unfoldable pub run : Breaker → List Call → Breaker
run b [] = b
run b (c ∷ cs) = run (step b c).0 cs
