-- ===== src/Resilience/Registry.antt =====
-- agents/go/resilience/circuit.go, the registry of breakers, one for each tool. The map is an
-- association list; a breaker is shared by reference in the source, and here the registry holds
-- its one current value.
use agentops_open_course.Prelude.{
  List, [], ◌∷◌, Option, none, some, if◌then◌else◌, Text, text_eq, text_eq_iff, ℤ, ◌≡◌, refl, arith,
}
use agentops_open_course.Resilience.Circuit.{
  Breaker, Callback, Built, built, invalid, new_breaker_unchecked, validate_breaker_limits,
}

pub record BreakersConfig : Type 0 where
  pub on_open : Option Callback
  pub failure_threshold : ℤ
  pub reset_timeout : ℤ

pub record Breakers : Type 0 where
  pub on_open : Option Callback
  pub by_name : List (Text × Breaker)
  pub failure_threshold : ℤ
  pub reset_timeout : ℤ

unfoldable pub new_breakers : BreakersConfig → Built Breakers
unfolding validate_breaker_limits
new_breakers cfg = elim (validate_breaker_limits cfg.failure_threshold cfg.reset_timeout) [
  | some e ↦ invalid e
  | none ↦ built (record {
    on_open = cfg.on_open;
    by_name = [];
    failure_threshold = cfg.failure_threshold;
    reset_timeout = cfg.reset_timeout;
  })
]

-- `r.byName[name]`.
unfoldable pub lookup : Text → List (Text × Breaker) → Option Breaker
lookup name [] = none
lookup name ((k, b) ∷ m) = if text_eq k name then some b else lookup name m

-- The entry of `name` holds `b` now.
unfoldable pub put : Text → Breaker → List (Text × Breaker) → List (Text × Breaker)
put name b [] = (name, b) ∷ []
put name b ((k, c) ∷ m) = if text_eq k name then (k, b) ∷ m else (k, c) ∷ put name b m

fresh : Breakers → Text → Breaker
fresh r name = new_breaker_unchecked (record {
  on_open = r.on_open;
  name = name;
  failure_threshold = r.failure_threshold;
  reset_timeout = r.reset_timeout;
})

unfoldable pub get : Text → Breakers → Breakers × Breaker
unfolding lookup put fresh
get name r = elim (lookup name r.by_name) [
  | some b ↦ (r, b)
  | none ↦ (record r { by_name = put name (fresh r name) r.by_name }, fresh r name)
]

-- A method of the breaker of `name` has run, and left it as `b`.
unfoldable pub update : Text → Breaker → Breakers → Breakers
unfolding put
update name b r = record r { by_name = put name b r.by_name }

pub lookup-put :
    (name other : Text) (b : Breaker) (m : List (Text × Breaker))
    → lookup other (put name b m) ≡ (if text_eq name other then some b else lookup other m)
unfolding lookup put
lookup-put name other b [] = refl
lookup-put name other b ((k, c) ∷ m) = ground (
  arith,
  text_eq_iff k name,
  text_eq_iff k other,
  text_eq_iff name other,
  lookup-put name other b m,
)
