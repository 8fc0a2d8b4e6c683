-- ===== src/A2a/Metadata.antt =====
-- agents/go/a2aserver/metadata.go: what a task may carry as metadata. The slices and maps of a value
-- stand in a memory, each with its elements and with what `%p` prints of it, its identity. That of a
-- slice is the address of its first element, so a slice and a shorter one of the same start share it.
-- A map is iterated in some order. The text of errors is left out.
pub mod Depth
pub mod Fuel
use agentops_open_course.Prelude.{
  ℕ, zero, suc, ◌==◌, Bool, List, [], ◌∷◌, Option, none, some, if◌then◌else◌, Text, ℤ, any, length,
  get_elem?,
}

-- `nil`, a value of one of the types that the first switch accepts, a `[]any` or a `map[string]any` by
-- its place in the memory, and a value of another type by its identity.
pub data Value : Type 0 where
  nothing scalar : Value
  container foreign : ℕ → Value

pub record Container : Type 0 where
  pub identity : ℕ
  pub elements : List Value

abbrev pub Memory : Type 0
Memory = List Container

-- A slice or a map that is `nil` has no place in the memory.
abbrev pub at_place : Memory → ℕ → Container
at_place memory a = elim (get_elem? memory a) [
  | none ↦ record { identity = 0; elements = [] }
  | some c ↦ c
]

pub data Check : Type 0 where
  accepted circular forbidden exhausted : Check

-- `if err := …; err != nil { return err }`.
infixr 6 ◌and_then◌
abbrev pub ◌and_then◌ : Check → Check → Check
accepted and_then c = c
c and_then _ = c

abbrev pub check_all {ℓ} : {A : Type ℓ} → (A → Check) → List A → Check
check_all f [] = accepted
check_all f (v ∷ vs) = let rest = check_all f vs in f v and_then rest

abbrev pub visits : List ℕ → ℕ → Bool
visits visiting a = any (λ b. a == b) visiting

-- The recursion takes as fuel the containers that may still be entered; `visiting` holds the
-- identities of those that the value stands in.
unfoldable pub validate_meta_value : Memory → ℕ → List ℕ → Value → Check
validate_meta_value memory fuel visiting nothing = accepted
validate_meta_value memory fuel visiting scalar = accepted
validate_meta_value memory fuel visiting (foreign i) =
    if visits visiting i then circular else forbidden
validate_meta_value memory zero visiting (container a) = exhausted
validate_meta_value memory (suc fuel) visiting (container a) =
    let c = at_place memory a in
    let inside = check_all (validate_meta_value memory fuel (c.identity ∷ visiting)) c.elements in
    if visits visiting c.identity then circular else inside

unfoldable pub validate_meta : Memory → Value → Check
validate_meta memory meta = validate_meta_value memory (suc (length memory)) [] meta

-- The metadata of each part and that of the message; `body` is what is not looked at.
pub record Message : Type 0 where
  pub parts : List Value
  pub metadata : Value
  pub body : Text

pub record Artifact : Type 0 where
  pub parts : List Value
  pub metadata : Value
  pub body : Text

-- The status timestamp in nanoseconds, if there is one and it is not the zero time.
pub record Task : Type 0 where
  pub id : Text
  pub context_id : Text
  pub state : Text
  pub timestamp : Option ℤ
  pub status_message : Option Message
  pub history : List (Option Message)
  pub artifacts : List (Option Artifact)
  pub metadata : Value
  pub memory : Memory

module _ (memory : Memory) where
  unfoldable pub validate_message : Option Message → Check
  validate_message none = accepted
  validate_message (some m) =
      check_all (validate_meta memory) m.parts and_then validate_meta memory m.metadata

  unfoldable pub validate_artifact : Option Artifact → Check
  validate_artifact none = accepted
  validate_artifact (some a) =
      check_all (validate_meta memory) a.parts and_then validate_meta memory a.metadata

unfoldable pub validate_task : Option Task → Check
unfolding validate_message validate_artifact
validate_task none = accepted
validate_task (some t) =
    validate_message t.memory t.status_message
    and_then check_all (validate_message t.memory) t.history
    and_then check_all (validate_artifact t.memory) t.artifacts
    and_then validate_meta t.memory t.metadata
